-- ===== src/Extern.antt =====
-- The third-party crates that the program calls, each as a record of operations and documented laws.
pub mod Uuid
pub mod Crypto
pub mod Json
pub mod Regex
pub mod Float
