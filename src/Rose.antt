-- ===== src/Rose.antt =====
-- Trees whose nodes keep an ordered list of children, as `DirEntry.Children` and `Key.Subkeys` do,
-- with the searches that take the first child that fits.
mod Defs
mod Laws
unfoldable pub use Defs.*
pub use Laws.*
