-- ===== src/Xpress/RoundTrip/Whole.antt =====
-- A whole stream: header, items and end of data.
use gowim.Base.{
  ℕ, zero, suc, ◌+◌, ◌-◌, ◌≤◌, ◌<◌, ◌≡◌, refl, ap, sym, subst, ◌∙◌, List, [], ◌∷◌, ◌++◌,
  append_assoc, length, get_or, ltb, ◌==◌, arith, true, false, ok, All, >>=-eq-ok, Result,
  Bool-cases, inl, inr, ◌||◌,
}
use gowim.Bytes.{Bytes}
use gowim.Xpress.BitList.{BitList, AllBits, AllBits-append}
use gowim.Xpress.BitReader.{BitReader}
use gowim.Xpress.BitWriter.{BitWriter}
use gowim.Xpress.Copy.Bulk.{length-set, length-xpress_copy}
use gowim.Xpress.Decode.{decode_loop, read_item}
use gowim.Xpress.Encode.{write_item, write_items}
use gowim.Xpress.Huffman.Table.{HasEntries, HasRoom}
use gowim.Xpress.Items.{DecodeError, apply_item, apply_items, item_length, total_length}
use gowim.Xpress.Lz77.{Item, literal, copy_of}
use gowim.Xpress.RoundTrip.Item.{IsWritable, item_bits, ReadsBack, literal-ReadsBack}
use gowim.Xpress.RoundTrip.Match.{match-ReadsBack}
use gowim.Xpress.Stream.Final.{Final}
use gowim.Xpress.Stream.Pending.{Holds}
use gowim.Xpress.Stream.Sync.{Sync}

ok_eq : {a b : Bytes} → ◌≡◌ {A = Result DecodeError Bytes} (ok a) (ok b) → a ≡ b
ok_eq e = cc

pub length-apply_item :
    (it : Item) (dst dst' : Bytes) (pos : ℕ)
    → apply_item dst pos it ≡ ok dst'
    → length dst' ≡ length dst
unfolding apply_item
length-apply_item (literal b) dst dst' pos =
    λ e. ap (λ (x : Bytes). length x) (sym (ok_eq e)) ∙ length-set dst pos b
length-apply_item (copy_of len off) dst dst' pos = elim (Bool-cases (off == 0 || ltb pos off)) [
  | inl bad ↦ rw bad (λ e. absurd (cc))
  | inr good ↦ elim (Bool-cases (ltb (length dst - pos) len)) [
    | inl long ↦ rw (good, long) (λ e. absurd (cc))
    | inr fits ↦
        rw (good, fits)
          (λ e. ap (λ (x : Bytes). length x) (sym (ok_eq e)) ∙ length-xpress_copy dst pos off len)
  ]
]

item_length-pos : (lens : List ℕ) (it : Item) → IsWritable lens it → 1 ≤ item_length it
unfolding item_length
item_length-pos lens (literal b) h = omega arith
item_length-pos lens (copy_of len off) h = omega (arith, h.0)

-- One round of the decoder's loop.
loop_round :
    (table : ℕ → ℕ) (fuel : ℕ) (dst dst' : Bytes) (pos : ℕ) (r r' : BitReader) (it : Item)
    → pos < length dst
    → read_item table r pos ≡ ok (it, r')
    → apply_item dst pos it ≡ ok dst'
    → decode_loop table (suc fuel) dst pos r ≡ decode_loop table fuel dst' (pos + item_length it) r'
unfolding decode_loop
loop_round table fuel dst dst' pos r r' it inside e e' =
    let more : ltb pos (length dst) ≡ true = ground arith in rw (more, e, e') refl

loop_end :
    (table : ℕ → ℕ) (fuel : ℕ) (dst : Bytes) (pos : ℕ) (r : BitReader)
    → length dst ≤ pos
    → decode_loop table fuel dst pos r ≡ ok dst
unfolding decode_loop
loop_end table zero dst pos r h = refl
loop_end table (suc fuel) dst pos r h =
    let done : ltb pos (length dst) ≡ false = ground arith in rw done refl

loop_cons :
    (table : ℕ → ℕ) (it : Item) (items : List Item) (dst out : Bytes) (pos fuel : ℕ)
    (r r' : BitReader)
    → 1 ≤ item_length it
    → apply_items dst pos (it ∷ items) ≡ ok out
    → pos + (item_length it + total_length items) ≡ length dst
    → item_length it + total_length items ≤ fuel
    → read_item table r pos ≡ ok (it, r')
    → ((dst' : Bytes) (fuel' : ℕ)
        → length dst' ≡ length dst
        → apply_items dst' (pos + item_length it) items ≡ ok out
        → total_length items ≤ fuel'
        → decode_loop table fuel' dst' (pos + item_length it) r' ≡ ok out)
    → decode_loop table fuel dst pos r ≡ ok out
unfolding apply_items
loop_cons table it items dst out pos zero r r' long e covers enough read rest = absurd (omega arith)
loop_cons table it items dst out pos (suc fuel) r r' long e covers enough read rest =
    let (dst', e1, e2) =
      >>=-eq-ok (apply_item dst pos it) (λ (d : Bytes). apply_items d (pos + item_length it) items)
        e in
    loop_round table fuel dst dst' pos r r' it (omega arith) read e1
    ∙ rest dst' fuel (length-apply_item it dst dst' pos e1) e2 (omega arith)

-- The items, and what is left of the stream.
abbrev StreamBack : (ℕ → ℕ) → BitWriter → BitList → List Item → BitWriter → Type 0
StreamBack table w pending items w' =
    (pending' : BitList) × (added : BitList) × Holds w' pending'
    × AllBits added
    × ((final : Bytes) (future : BitList)
        → AllBits future
        → Final final w' pending' future
        → Final final w pending (added ++ future)
          × ((start : ℕ) (r : BitReader) (fuel : ℕ) (dst : Bytes) (pos : ℕ) (out : Bytes)
              → Sync final start r w (added ++ future)
              → apply_items dst pos items ≡ ok out
              → pos + total_length items ≡ length dst
              → total_length items ≤ fuel
              → decode_loop table fuel dst pos r ≡ ok out))

module _ (table : ℕ → ℕ) (lens codes : List ℕ) (entries : HasEntries table 0 lens codes)
    (room : HasRoom lens codes) (short : (symbol : ℕ) → get_or lens symbol 0 ≤ 15) where
  item-ReadsBack :
      (it : Item) (w : BitWriter) (pending : BitList)
      → Holds w pending
      → IsWritable lens it
      → ReadsBack table w pending it (write_item w it lens codes) (item_bits lens codes it)
  item-ReadsBack (literal b) w pending h (small, used) =
      literal-ReadsBack table lens codes entries room short w pending h b small used
  item-ReadsBack (copy_of len off) w pending h writable =
      match-ReadsBack table lens codes entries room short w pending h len off writable

  pub items-StreamBack :
      (items : List Item) (w : BitWriter) (pending : BitList)
      → Holds w pending
      → All (IsWritable lens) items
      → StreamBack table w pending items (write_items w items lens codes)
  unfolding write_items total_length
  items-StreamBack [] w pending h writable = (
    pending,
    [],
    h,
    tt,
    λ final future bits f. (
      f,
      λ start r fuel dst pos out s e covers enough.
          loop_end table fuel dst pos r (omega arith) ∙ unfold apply_items in e,
    ),
  )
  items-StreamBack (it ∷ items) w pending h (first, others) =
      let (pending1, h1, bits1, back1) = item-ReadsBack it w pending h first in
      let (pending2, added2, h2, bits2, back2) =
        items-StreamBack items (write_item w it lens codes) pending1 h1 others in
      (
        pending2,
        item_bits lens codes it ++ added2,
        h2,
        AllBits-append (item_bits lens codes it) added2 bits1 bits2,
        λ final future bits f2.
            let later = added2 ++ future in
            let all = AllBits-append added2 future bits2 bits in
            let (f1, read2) = back2 final future bits f2 in
            let (f0, read1) = back1 final later all f1 in
            let split = append_assoc (item_bits lens codes it) added2 future in
            (
              subst (λ (x : BitList). Final final w pending x) (sym split) f0,
              λ start r fuel dst pos out s e covers enough.
                  let (r1, read, s1) =
                    read1 start r pos (subst (λ (x : BitList). Sync final start r w x) split s) in
                  loop_cons table it items dst out pos fuel r r1 (item_length-pos lens it first) e
                    covers enough read
                    (λ dst' fuel' same e' enough'.
                      read2 start r1 fuel' dst' (pos + item_length it) out s1 e'
                        (omega (arith, same)) enough'),
            ),
      )
