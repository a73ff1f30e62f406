-- ===== src/Runtime.antt =====
-- runtime: the library in C that compiled programs call.
pub mod Arrays
pub mod Files
pub mod Read
pub mod Sets
pub mod Strings
