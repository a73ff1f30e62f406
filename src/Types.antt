-- ===== src/Types.antt =====
-- types.h, types.cpp: the types of Pascal programs.
pub mod Fields
pub mod Class
pub mod Node
pub mod Compatible
pub mod Same
