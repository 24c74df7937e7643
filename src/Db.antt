-- ===== src/Db.antt =====
-- src/db: the MySQL connection pool, the SQL tables, transactions, and the metadata store.
pub mod Pool
pub mod Sql
pub mod Transaction
pub mod MetaStore
