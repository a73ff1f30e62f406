-- ===== src/Lexer.antt =====
-- lexer.h, lexer.cpp: the `Lexer`. Its definitions, in the order of the source, are in the first
-- children; the rest prove what they are named for.
mod Chars
mod Convert
mod Number
mod Quoted
mod Skip
mod Scan
pub mod Window
pub mod Loops
pub mod NumberLoops
pub mod TextLoops
pub mod Tokens
pub mod Symbols
pub mod Digits
pub mod Total
pub mod Comments
unfoldable pub use Chars.*
unfoldable pub use Convert.*
unfoldable pub use Number.*
unfoldable pub use Quoted.*
unfoldable pub use Skip.*
unfoldable pub use Scan.*
