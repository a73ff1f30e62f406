-- ===== src/Semantics.antt =====
-- semantics.cpp: the checks of types on the syntax tree.
pub mod State
pub mod Sets
pub mod Binary
pub mod Check
pub mod Assign
pub mod Statements
pub mod Calls
pub mod Fixups
