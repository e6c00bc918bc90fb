-- ===== src/Text.antt =====
-- The methods of Python's `str` and of `re` that the program calls.
pub mod Chars
pub mod Strip
pub mod Lines
pub mod Split
pub mod Regex
mod Examples
