-- ===== src/Tests/Images.antt =====
-- Entries and images on concrete values.
use gowim.Base.{
  ℕ, suc, ◌+◌, ◌-◌, ◌^◌, ◌≤◌, ◌≡◌, inl, inr, refl, arith, [], ◌∷◌, ◌++◌, length, replicate, some,
  ok, err,
}
use gowim.Bytes.{join2, join4, join8, Bytes, bytes2, bytes8, write_at}
use gowim.Rose.{node, nil, cons}
use gowim.Wim.Tree.Entry.{is_directory, DirEntry, EntryInfo, Stream, zero_info}
use gowim.Wim.Security.{align_up8, descriptors_size, Descriptors, encoded_len}
use gowim.Wim.Dentry.{
  parse_streams, stream_name, entry_at, name_at, behind_name, extra_at, align_up8_int,
  min_len_with_names, Parsed, out_of_fuel, parse_dir_entry,
}
use gowim.Wim.Dentry.Write.{
  streams_len, stream_len, extra_streams_to_write, append_dentry, out_len, entry_len,
}
use gowim.Wim.Dentry.Entry.{FitsEntry}
use gowim.Wim.Dentry.RoundTrip.{parse_dir_entry-append_dentry}
use gowim.Wim.Image.{has_children, parse_siblings, parse_dir_entry_tree, parse_image_metadata}
use gowim.Wim.Image.Write.{assign_subdir_offsets, append_dir_entry_tree, append_metadata}
use gowim.Wim.Image.RoundTrip.{
  FitsTree, parse_dir_entry_tree-append_dir_entry_tree, parse_image_metadata-append_metadata,
}
use gowim.Wim.Image.Order.{
  collect, preorder, rooms_len, placed, behind_root, assign_subdir_offsets-placed,
}
use gowim.Wim.Image.Regions.{FitsForest, own_len, regions_len, entries_len}
use gowim.Wim.Image.Siblings.{nodes}
use gowim.Wim.Graft.{to_int32}
use gowim.Wim.Resource.{has_flag}
use gowim.Wim.Image.Loop.{rounds, parse_siblings-stuck, parse_siblings-ends}

abbrev unnamed : ℕ → Stream
unnamed n = record { name = []; hash = replicate 20 n }

-- A directory `d`, and a file `a` with a stream `s` besides its contents.
abbrev directory : EntryInfo
directory = record zero_info { attributes = 0x10; name = 100 ∷ 0 ∷ []; streams = unnamed 0 ∷ [] }

abbrev file : EntryInfo
file = record zero_info {
  attributes = 0x20;
  creation_time = 5;
  name = 97 ∷ 0 ∷ [];
  short_name = 65 ∷ 0 ∷ [];
  streams = unnamed 7 ∷ (record { name = 115 ∷ 0 ∷ []; hash = replicate 20 9 }) ∷ [];
  extra = replicate 8 1;
}

abbrev root : EntryInfo
root = record zero_info { attributes = 0x10; streams = unnamed 0 ∷ [] }

abbrev image : DirEntry
image = node root (cons (node directory (cons (node file nil) nil)) (cons (node file nil) nil))

directory_fits : FitsEntry directory
directory_fits = record {
  numbers = ground arith;
  name_fits = ground arith;
  short_fits = ground arith;
  extra_fits = omega arith;
  extra_aligned = refl;
  first = unnamed 0;
  more = [];
  streams_are = refl;
  streams_fit = ground arith;
}

file_fits : FitsEntry file
file_fits = record {
  numbers = ground arith;
  name_fits = ground arith;
  short_fits = ground arith;
  extra_fits = omega arith;
  extra_aligned = refl;
  first = unnamed 7;
  more = (record { name = 115 ∷ 0 ∷ []; hash = replicate 20 9 }) ∷ [];
  streams_are = refl;
  streams_fit = record {
    unnamed = refl;
    first_hash = refl;
    count_fits = omega arith;
    more_fit = ground arith;
  };
}

root_fits : FitsEntry root
root_fits = record {
  numbers = ground arith;
  name_fits = ground arith;
  short_fits = ground arith;
  extra_fits = omega arith;
  extra_aligned = refl;
  first = unnamed 0;
  more = [];
  streams_are = refl;
  streams_fit = ground arith;
}

image_fits : FitsTree image
unfolding FitsForest is_directory
image_fits = (
  root_fits,
  inl (refl, omega arith),
  (
    directory_fits,
    inl (refl, omega arith),
    (file_fits, inr (refl, refl), tt, tt),
    (file_fits, inr (refl, refl), tt, tt),
  ),
)

-- What is written for the file, in front of other bytes.
parse_dir_entry-append_dentry_example :
    (out : Bytes) × (append_dentry file 0 (1 ∷ 2 ∷ []) ≡ ok out)
    × (length out ≡ 2 + out_len file)
    × (parse_dir_entry (out ++ (3 ∷ [])) 2
        ≡ ok (some (record { info = file; subdir_offset = 0; next = length out })))
unfolding entry_len min_len_with_names streams_len stream_len extra_streams_to_write
parse_dir_entry-append_dentry_example =
    parse_dir_entry-append_dentry file (1 ∷ 2 ∷ []) (3 ∷ []) 0 file_fits (ground arith)
      (omega arith)

parse_dir_entry_tree-append_dir_entry_tree_example :
    (out : Bytes) × (append_dir_entry_tree (some image) (5 ∷ []) ≡ ok ((5 ∷ []) ++ out))
    × (length out ≡ (assign_subdir_offsets image 0).1)
    × (parse_dir_entry_tree 4 (out ++ (3 ∷ [])) 0 ≡ ok (some image))
unfolding entry_len min_len_with_names streams_len stream_len extra_streams_to_write own_len
    regions_len entries_len is_directory nodes
parse_dir_entry_tree-append_dir_entry_tree_example =
    parse_dir_entry_tree-append_dir_entry_tree image (5 ∷ []) (3 ∷ []) 4 image_fits (ground arith)
      (ground arith)

abbrev descriptors : Descriptors
descriptors = (1 ∷ 2 ∷ []) ∷ (3 ∷ []) ∷ []

parse_image_metadata-append_metadata_example :
    (out : Bytes) × (append_metadata (record { security = some descriptors; root = some image }) []
      ≡ ok out)
    × (length out
        ≡ encoded_len descriptors + (assign_subdir_offsets image (encoded_len descriptors)).1)
    × (parse_image_metadata 4 out ≡ ok (record { security = some descriptors; root = some image }))
unfolding entry_len min_len_with_names streams_len stream_len extra_streams_to_write own_len
    regions_len entries_len is_directory nodes encoded_len descriptors_size
parse_image_metadata-append_metadata_example =
    parse_image_metadata-append_metadata descriptors image [] 4 (ground arith) (omega arith)
      (ground arith) image_fits (ground arith) (ground arith)

assign_subdir_offsets-placed_example :
    (preorder ((assign_subdir_offsets image 16).0) ≡ placed 16 (behind_root image) (collect image))
    × ((assign_subdir_offsets image 16).1 ≡ behind_root image + rooms_len (collect image))
unfolding entry_len min_len_with_names streams_len stream_len extra_streams_to_write rooms_len
    collect own_len entries_len is_directory
assign_subdir_offsets-placed_example = assign_subdir_offsets-placed 16 image (ground arith)

-- An entry at 8 whose extra stream has a length near 2^64.
abbrev looping : Bytes
looping =
    replicate 8 0
    ++ (write_at (write_at (replicate 104 0) 0 (bytes8 104)) 0x60 (bytes2 1)
        ++ write_at (replicate 38 0) 0 (bytes8 (2 ^ 64 - 104)))

abbrev looped : Parsed
looped = record {
  info = record zero_info { streams = unnamed 0 ∷ unnamed 0 ∷ [] };
  subdir_offset = 0;
  next = 8;
}

looping_entry : parse_dir_entry looping 8 ≡ ok (some looped)
unfolding parse_dir_entry parse_streams stream_name entry_at name_at behind_name extra_at align_up8
    align_up8_int min_len_with_names to_int32 has_flag join2 join4 join8 gowim.Bytes.byte
looping_entry = refl

parse_siblings-stuck_example : parse_siblings 1000 looping 0 8 ≡ err out_of_fuel
unfolding has_children
parse_siblings-stuck_example =
    parse_siblings-stuck looping 0 8 looped looping_entry (ground arith) refl 1000

-- With more rounds than a buffer without such an entry can need.
abbrev many : ℕ
many = suc (rounds looping 0 8)

parse_siblings-ends_example :
    (at : ℕ) × ((p : Parsed) × (parse_dir_entry looping at ≡ ok (some p)) × (p.next ≤ at))
unfolding has_children
parse_siblings-ends_example =
    parse_siblings-ends many looping 0 8 (omega arith)
      (parse_siblings-stuck looping 0 8 looped looping_entry (ground arith) refl many)
