-- ===== src/Decimal.antt =====
-- Python's decimal.Decimal as the engine uses it, in the default context: 28 significant digits,
-- ROUND_HALF_EVEN, traps on InvalidOperation and DivisionByZero. (No module of the repository
-- sets another context.) Every result is the exact one rounded to 28 significant digits, so it
-- depends on the values of the operands and on nothing else of their representation.
mod Rounding
mod Columns
pub mod Digits
pub mod Bounds
pub mod Exact
pub mod Shares
unfoldable pub use Rounding.*
unfoldable pub use Columns.*
