-- ===== src/Constants.antt =====
-- constants.h, constants.cpp: constants of the source program, and what is computed from them while
-- the program is compiled.
mod Decl
mod Arith
mod Power
mod Functions
pub mod Laws
pub mod Powers
pub mod Unsigned
pub mod Calls
unfoldable pub use Decl.*
unfoldable pub use Arith.*
unfoldable pub use Power.*
unfoldable pub use Functions.*
