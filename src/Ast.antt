-- ===== src/Ast.antt =====
-- ast.py and the printer of errors.py: terms of the query language.
pub mod Classes
pub mod Term
pub mod Expr
pub mod Compose
pub mod Printer
pub mod Zone
pub mod Decoder
pub mod Wrap
pub mod Methods
mod Tests
