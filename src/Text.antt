-- ===== src/Text.antt =====
-- Go's strings as lists of bytes, with the functions of package `strings` that the server uses.
-- A string literal of the source is spelled by `codes`, which gives the bytes of an ASCII text.
mod Basic
pub mod Split
pub mod Order
pub mod Utf8
pub mod Space
pub mod Base64
pub use Basic.*
unfoldable pub use Basic.{bytes_discrete, has_prefix, has_suffix, cut_prefix, cut_suffix, cut, trim}
