-- ===== src/Lib.antt =====
-- gowim reads and writes Windows images (WIM files), their directory trees, and the registry hives
-- and services inside them. This library models the parts that hold its data and the operations on
-- them, as functions that can be run, and proves what they promise each other.
--
-- Files and the code that they model:
--   Bytes        encoding/binary's little-endian reads and writes, `copy` and slices, on lists of
--                bytes.
--   Text         wim/encoding.go and regf/encoding.go (UTF-16LE), `foldKey`, strings.EqualFold, Go's
--                conversion of bytes in UTF-8 to a string, and `splitPath` (wim/path.go).
--   Rose         trees of nodes with a list of children; a pointer into the tree is the path to it.
--   Wim/Header, Wim/Resource, Wim/Chunk, Wim/BlobTable, Wim/Security
--                wim/header.go, resource.go, chunk.go, blobtable.go, security.go: `ParseHeader` is
--                `parse_header`, `AppendTo` is `append_header`, `append_blob_table` and
--                `append_security_data`, `ByHash` is `by_hash`, and so on.
--   Wim/Tree     the fields of wim/dentry.go's `DirEntry`, `Child` and `Lookup` (wim/path.go), `Add`
--                (wim/tree.go), `Remove` as `remove_at` (wim/remove.go), `ReadDir` (wim/rename.go)
--                and `AttachAt` (wim/graft.go).
--   Wim/Graft    wim/graft.go's `SecurityRemapper`.
--   Wim/Dentry   an entry on disk: `parseDirEntry` (wim/dentry.go) is `parse_dir_entry`, and
--                `appendDentry`, `outLen` and `appendExtraStream` (wim/dentry_write.go) are
--                `append_dentry`, `out_len` and `stream_bytes`; Fits, Fields, Names, Streams, Layout,
--                Entry and RoundTrip prove that an entry is read back.
--   Wim/Image    the tree on disk: `ParseDirEntryTree` (wim/dentry.go), `assignSubdirOffsets` and
--                `AppendDirEntryTree` (wim/dentry_write.go), `ParseImageMetadata` and `AppendTo` of
--                `ImageMetadata` (wim/metadata.go).
--   Regf         regf/key.go over the `Key` of regf/nk.go and the `Value` of regf/vk.go.
--   Regf/Cells, Regf/Bins, Regf/Arena
--                the nk, vk and sk cells (regf/nk.go, vk.go, sk.go), the bins (regf/hbin.go), and
--                `readCell` and `alloc` (regf/cell.go).
--   Regf/BaseBlock, Regf/Subkeys
--                regf/baseblock.go (`ComputeChecksum`, `ParseBaseBlock`, `AppendTo`) and
--                regf/subkeylist.go (`parseSubkeyList`, `appendTo`, `lhHash`).
--   Regf/Data    regf/bigdata.go, and how regf/hive.go stores and reads the data of a value
--                (`resolveValueData`, the switch of `buildValueCell`).
--   Service      service/: `Install`, `Read`, `Modify`, `Delete`, `SetStartType`, `Enable`, `Disable`,
--                `List` and `CurrentControlSet`, over the keys and values of Regf.
--   Xpress       xpress/, the LZ77 and Huffman codec of resource chunks: Lz77 (lz77.go), Huffman and
--                Lengths (huffman.go), BitWriter, BitReader, Encode, Decode, Copy and Items (decode.go's
--                loop); BitList and Stream relate writer and reader, and RoundTrip is the codec as a
--                whole. `Compress` is `compress_with` with its flag off.
--   Tests        runs at concrete inputs.
--
-- State is passed explicitly: an operation that writes through a pointer returns the tree after it
-- together with what it returns. Errors are values, one constructor for each cause, without the
-- text of the message; a panic is `none` or a constructor of its own. Machine integers are natural
-- numbers with their wrap-around written out where the code can reach it.
--
-- Unicode's folding table is not part of the program. The map from a code point to the smallest one
-- of its simple-folding orbit is the parameter `fold`; where the names of values meet, it is assumed
-- to be ASCII's on ASCII, as the table has it. unicode.ToUpper is the parameter `upper` of `lhHash`.
--
-- Bounds: the loop of `SolidResources` runs on fuel, as many rounds as there are entries, and every
-- round takes at least one entry away, so that it ends by itself. A uint32 is printed with fuel for
-- the ten digits that it has at most. The tree of entries is read with fuel, one unit for each entry
-- in sequence or descent: a tree that was written needs one unit more than it has entries under its
-- root, and Wim/Image/Loop says how much is enough for any buffer, and when none is. The
-- parse and the decoder of Xpress run on fuel for one item to each byte, and `buildLengths` on a round
-- for each node: the theorems say what the results are, so none of them was cut. All other loops are
-- structural recursion.
--
-- A buffer in memory is shorter than 2^63 bytes, and one that XPRESS compresses shorter than 2^31, so
-- that its positions fit an int32 and its counts a uint32. The map from entries to offsets, which the code keys
-- by pointer, is a tree of entries with their offsets: no entry stands at two places of a tree. What a
-- writer leaves in `dst` beside an error is not looked at.
--
-- Not modelled: locks and goroutines, file access, the codecs other than XPRESS, XML, hashing, and how
-- the cells of keys are linked into a hive.
pub mod Base
pub mod Bytes
pub mod Regf
pub mod Rose
pub mod Service
pub mod Tests
pub mod Text
pub mod Wim
pub mod Xpress
