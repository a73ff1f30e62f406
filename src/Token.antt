-- ===== src/Token.antt =====
-- token.h, token.cpp, location.h: the kinds of token, the table of spellings, and the token with
-- its place and value.
mod Enum
mod Table
mod Value
pub mod Words
pub mod Binding
unfoldable pub use Enum.*
unfoldable pub use Table.*
unfoldable pub use Value.*
