-- ===== src/Xpress.antt =====
-- The xpress package (xpress/): the LZ77+Huffman codec of WIM resource chunks.
pub mod BitList
pub mod BitReader
pub mod BitWriter
pub mod Constants
pub mod Copy
pub mod Decode
pub mod Encode
pub mod Huffman
pub mod Items
pub mod Lengths
pub mod Lz77
pub mod RoundTrip
pub mod Stream
