-- ===== src/Prelude/Text.antt =====
-- The methods of `str` that the source calls, by recursion on the characters.
mod Defs
pub mod Splitting
pub mod Trimming
pub mod Suffixes
unfoldable pub use Defs.{
  ◌++◌, split_once, rsplit_once, strip_suffix, ends_with, to_ascii_uppercase, split, trim,
}
