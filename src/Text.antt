-- ===== src/Text.antt =====
-- Rust's `str` as the list of its code points, and the methods of it that the code calls.
mod Defs
pub mod Space
pub mod Split
pub mod Number
pub mod Utf8
pub use Defs.*
pub use rnmap.Base.{◌++◌}
