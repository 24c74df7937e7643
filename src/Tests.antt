-- ===== src/Tests.antt =====
-- Runs of the server's code on concrete inputs, and the properties applied to some.
pub mod Buffer
pub mod Http
pub mod Auth
pub mod Storage
pub mod Connection
pub mod Api
pub mod Db
pub mod MetaStore
pub mod DataStore
pub mod TimerWheel
pub mod Multipart
