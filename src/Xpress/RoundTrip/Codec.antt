-- ===== src/Xpress/RoundTrip/Codec.antt =====
-- The codec: `Decompress` undoes `Compress`, with either of the presets.
use gowim.Base.{
  ℕ, ◌+◌, ◌-◌, ◌*◌, ◌≤◌, ◌<◌, ◌≡◌, refl, ◌∙◌, List, [], ◌∷◌, length, length-replicate, replicate,
  get_or, arith, ok, All,
}
use gowim.Bytes.{Bytes, IsByte}
use gowim.Xpress.Copy.Bulk.{length-set}
use gowim.Xpress.Decode.{decompress}
use gowim.Xpress.Encode.{compress_default, count_symbols, tick, symbol_for, log2, length_header}
use gowim.Xpress.Lengths.{build_lengths}
use gowim.Xpress.Lengths.Bounds.{build_lengths-IsCode}
use gowim.Xpress.Lengths.Used.{build_lengths_used, get_or-set_kept, get_or-set_self}
use gowim.Xpress.Lz77.{Item, literal, copy_of, parse_items}
use gowim.Xpress.Lz77.Parse.{
  IsBounded, parse_items-IsBounded, total_length-parse_items, apply_items-parse_items,
}
use gowim.Xpress.RoundTrip.Compress.{decompress-encode_items}
use gowim.Xpress.RoundTrip.Item.{IsWritable}
use gowim.Xpress.RoundTrip.Numbers.{log2_bounds, length_header-le}

-- Counting a symbol.
module _ (freqs : List ℕ) (symbol : ℕ) where
  tick_kept : (s : ℕ) → 1 ≤ get_or freqs s 0 → 1 ≤ get_or (tick freqs symbol) s 0
  unfolding tick
  tick_kept s h = get_or-set_kept freqs symbol (get_or freqs symbol 0 + 1) s (omega arith) h

  tick_self : symbol < length freqs → 1 ≤ get_or (tick freqs symbol) symbol 0
  unfolding tick
  tick_self h = get_or-set_self freqs symbol (get_or freqs symbol 0 + 1) symbol refl h (omega arith)

  length-tick : length (tick freqs symbol) ≡ length freqs
  unfolding tick
  length-tick = length-set freqs symbol (get_or freqs symbol 0 + 1)

count_kept :
    (items : List Item) (freqs : List ℕ) (s : ℕ)
    → 1 ≤ get_or freqs s 0
    → 1 ≤ get_or (count_symbols freqs items) s 0
unfolding count_symbols
count_kept [] freqs s h = h
count_kept (it ∷ items) freqs s h =
    count_kept items (tick freqs (symbol_for it)) s (tick_kept freqs (symbol_for it) s h)

length-count_symbols :
    (items : List Item) (freqs : List ℕ) → length (count_symbols freqs items) ≡ length freqs
unfolding count_symbols
length-count_symbols [] freqs = refl
length-count_symbols (it ∷ items) freqs =
    length-count_symbols items (tick freqs (symbol_for it)) ∙ length-tick freqs (symbol_for it)

abbrev IsUsed : List ℕ → Item → Type 0
IsUsed freqs it = (symbol_for it < 512) × (1 ≤ get_or freqs (symbol_for it) 0)

symbol_value :
    (len off : ℕ) → symbol_for (copy_of len off) ≡ 256 + (log2 off * 16 + length_header (len - 3))
unfolding symbol_for
symbol_value len off = refl

symbol_for-lt : (it : Item) → IsBounded it → symbol_for it < 512
symbol_for-lt (literal b) h = unfold symbol_for in omega arith
symbol_for-lt (copy_of len off) (long, limit, near, far) =
    let (low, fits, few) = log2_bounds off near (omega arith) in
    let hdr = length_header-le (len - 3) in
    let e = symbol_value len off in omega (arith, few, hdr, e)

count_symbols-IsUsed :
    (items : List Item) (freqs : List ℕ)
    → length freqs ≡ 512
    → All IsBounded items
    → All (IsUsed (count_symbols freqs items)) items
unfolding count_symbols
count_symbols-IsUsed [] freqs e h = tt
count_symbols-IsUsed (it ∷ items) freqs e (h, hs) =
    let s = symbol_for it in
    let small = symbol_for-lt it h in
    (
      (small, count_kept items (tick freqs s) s (tick_self freqs s (omega (arith, e)))),
      count_symbols-IsUsed items (tick freqs s) (length-tick freqs s ∙ e) hs,
    )

writable :
    (lens : List ℕ) (it : Item)
    → IsBounded it
    → 1 ≤ get_or lens (symbol_for it) 0
    → IsWritable lens it
writable lens (literal b) h u = (h, unfold symbol_for in u)
writable lens (copy_of len off) (a, c, d, e) u = (a, c, d, e, u)

IsWritable-items :
    (lens freqs : List ℕ) (items : List Item)
    → ((s : ℕ) → s < 512 → 1 ≤ get_or freqs s 0 → 1 ≤ get_or lens s 0)
    → All IsBounded items
    → All (IsUsed freqs) items
    → All (IsWritable lens) items
IsWritable-items lens freqs [] has hb hu = tt
IsWritable-items lens freqs (it ∷ items) has (h, hb) (u, hu) =
    (writable lens it h (has (symbol_for it) u.0 u.1), IsWritable-items lens freqs items has hb hu)

ticked-IsUsed :
    (freqs : List ℕ) (s : ℕ) (items : List Item)
    → All (IsUsed freqs) items
    → All (IsUsed (tick freqs s)) items
ticked-IsUsed freqs s [] h = tt
ticked-IsUsed freqs s (it ∷ items) ((small, used), hs) =
    ((small, tick_kept freqs s (symbol_for it) used), ticked-IsUsed freqs s items hs)

pub decompress-compress_default :
    (b : Bytes) → All IsByte b → decompress (compress_default b) (length b) ≡ ok b
unfolding compress_default
decompress-compress_default b bytes =
    let items = parse_items b in
    let zeros : List ℕ = replicate 512 0 in
    let size = length-replicate {A = ℕ} 512 0 in
    let counts = count_symbols zeros items in
    let freqs = tick counts 256 in
    let lens = build_lengths freqs in
    let (code, length_lens) = build_lengths-IsCode freqs in
    let bounded = parse_items-IsBounded b bytes in
    let used = ticked-IsUsed counts 256 items (count_symbols-IsUsed items zeros size bounded) in
    let ended =
      build_lengths_used freqs 256 (omega arith)
        (tick_self counts 256 (omega (arith, length-count_symbols items zeros, size))) in
    decompress-encode_items items lens b length_lens code
      (IsWritable-items lens freqs items (build_lengths_used freqs) bounded used) ended
      (total_length-parse_items b) (λ dst e. apply_items-parse_items b dst e)
