-- ===== src/Client/Operations.antt =====
-- The requests that the methods of FxBlockchain send, by the files of their methods.
pub mod Account
pub mod Manifest
pub mod Pool
pub mod Blox
pub mod Plugins
