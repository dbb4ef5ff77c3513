-- ===== src/Bytes.antt =====
-- Little-endian fields of byte buffers: what encoding/binary's `LittleEndian` and the built-in
-- `copy` do, as wim, regf and the others use them. A buffer is the list of its bytes.
mod Expand
mod Equal
mod Fields
mod Offsets
pub use Expand.*
unfoldable pub use Equal.*
unfoldable pub use Fields.*
pub use Offsets.*
