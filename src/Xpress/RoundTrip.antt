-- ===== src/Xpress/RoundTrip.antt =====
-- What `Compress` writes, `Decompress` reads back: symbol by symbol, item by item, and as a whole.
pub mod Numbers
pub mod Symbol
pub mod Length
pub mod Item
pub mod Match
pub mod Whole
pub mod Compress
pub mod Codec
pub mod Flat
