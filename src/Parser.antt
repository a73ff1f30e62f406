-- ===== src/Parser.antt =====
-- parser.cpp: the parts of the parser that read constant expressions, expressions and statements.
mod Stream
mod ConstEval
mod ConstTerm
mod ConstExpr
mod Ast
mod Expression
mod Statement
mod Case
pub mod Order
pub mod Tree
pub mod Climbing
pub mod Terms
pub mod Grammar
pub mod Formulas
pub mod Sentences
pub mod Statements
unfoldable pub use Stream.*
unfoldable pub use ConstEval.*
unfoldable pub use ConstTerm.*
unfoldable pub use ConstExpr.*
unfoldable pub use Ast.*
unfoldable pub use Expression.*
unfoldable pub use Statement.*
unfoldable pub use Case.*
