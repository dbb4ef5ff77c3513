-- ===== src/Text.antt =====
-- Strings as lists of code points, their UTF-16LE form on disk (wim/encoding.go, regf/encoding.go),
-- the case-insensitive comparison of names, and the splitting of paths.
mod Utf16
mod Names
mod Utf8
unfoldable pub use Utf16.*
unfoldable pub use Names.*
unfoldable pub use Utf8.*
