-- ===== src/Storage.antt =====
-- src/storage: the garbage collector of the content-addressed files.
pub mod Gc
pub mod Cas
pub mod DataStore
