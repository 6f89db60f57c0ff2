-- ===== src/Text.antt =====
-- The functions of Go's `strings` and `path` that the build API uses. A text is a sequence of
-- characters.
pub mod Chars
pub mod Trim
pub mod Split
pub mod Fields
pub mod Paths
pub mod Splitting
pub mod Words
pub mod Cleaning
