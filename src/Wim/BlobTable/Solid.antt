-- ===== src/Wim/BlobTable/Solid.antt =====
-- `SolidResources`: the maximal runs of entries that describe solid resources.
use gowim.Base.{
  ℕ, zero, suc, ◌≤◌, ◌≡◌, refl, arith, Bool, true, false, not, ◌&&◌, List, [], ◌∷◌, ◌++◌, length,
  ◌==◌, if◌then◌else◌, ap, ◌∙◌, Bool-cases, inl, inr, append_assoc, append-nil, All, sym,
}
use gowim.Wim.Resource.{ResourceHeader, is_solid, solid_resource_magic}
use gowim.Wim.BlobTable.{BlobDescriptor}

pub record SolidResourceRun : Type 0 where
  pub specs : List ResourceHeader
  pub blobs : List BlobDescriptor

-- `for i < len(t.Entries) && t.Entries[i].Resource.IsSolid() { i++ }`: the entries passed, and
-- those from `i` on.
unfoldable pub span_solid : List BlobDescriptor → List BlobDescriptor × List BlobDescriptor
span_solid [] = ([], [])
span_solid (e ∷ es) =
    let (run, rest) = span_solid es in if is_solid e.resource then (e ∷ run, rest) else ([], e ∷ es)

unfoldable pub is_spec : BlobDescriptor → Bool
is_spec e = e.resource.uncompressed_size == solid_resource_magic

-- The loop that files each entry of the run.
unfoldable pub fill_run : List BlobDescriptor → SolidResourceRun → SolidResourceRun
fill_run [] r = r
fill_run (e ∷ es) r = fill_run es (
    if is_spec e
    then record r { specs = r.specs ++ (e.resource ∷ []) }
    else record r { blobs = r.blobs ++ (e ∷ []) })

abbrev empty_run : SolidResourceRun
empty_run = record { specs = []; blobs = [] }

-- The outer loop. Each round passes at least one entry, so as many rounds as entries are enough.
unfoldable pub solid_loop : ℕ → List BlobDescriptor → List SolidResourceRun → List SolidResourceRun
solid_loop zero es out = out
solid_loop (suc fuel) [] out = out
solid_loop (suc fuel) (e ∷ es) out = elim (is_solid e.resource) [
  | false ↦ solid_loop fuel es out
  | true ↦
      let (run, rest) = span_solid (e ∷ es) in
      solid_loop fuel rest (out ++ (fill_run run empty_run ∷ []))
]

unfoldable pub solid_resources : Bool → List BlobDescriptor → List SolidResourceRun
unfolding solid_loop
solid_resources solid_valid es = if not solid_valid then [] else solid_loop (length es) es []

-- The resource specs, and the other entries, among the solid entries of the table.
abbrev pub solid_specs : List BlobDescriptor → List ResourceHeader
solid_specs [] = []
solid_specs (e ∷ es) =
    let rest = solid_specs es in
    if is_solid e.resource && is_spec e then e.resource ∷ rest else rest

abbrev pub solid_blobs : List BlobDescriptor → List BlobDescriptor
solid_blobs [] = []
solid_blobs (e ∷ es) =
    let rest = solid_blobs es in if is_solid e.resource && not (is_spec e) then e ∷ rest else rest

abbrev pub all_specs : List SolidResourceRun → List ResourceHeader
all_specs [] = []
all_specs (r ∷ rs) = r.specs ++ all_specs rs

abbrev pub all_blobs : List SolidResourceRun → List BlobDescriptor
all_blobs [] = []
all_blobs (r ∷ rs) = r.blobs ++ all_blobs rs

abbrev Solids : List BlobDescriptor → Type 0
Solids = All (λ e. is_solid e.resource ≡ true)

specs-append :
    (xs ys : List BlobDescriptor) → solid_specs (xs ++ ys) ≡ solid_specs xs ++ solid_specs ys
specs-append [] ys = refl
specs-append (x ∷ xs) ys = ground (arith, specs-append xs ys)

blobs-append :
    (xs ys : List BlobDescriptor) → solid_blobs (xs ++ ys) ≡ solid_blobs xs ++ solid_blobs ys
blobs-append [] ys = refl
blobs-append (x ∷ xs) ys = ground (arith, blobs-append xs ys)

all_specs-append :
    (xs ys : List SolidResourceRun) → all_specs (xs ++ ys) ≡ all_specs xs ++ all_specs ys
all_specs-append [] ys = refl
all_specs-append (x ∷ xs) ys = rw (all_specs-append xs ys, append_assoc)

all_blobs-append :
    (xs ys : List SolidResourceRun) → all_blobs (xs ++ ys) ≡ all_blobs xs ++ all_blobs ys
all_blobs-append [] ys = refl
all_blobs-append (x ∷ xs) ys = rw (all_blobs-append xs ys, append_assoc)

span_splits : (es : List BlobDescriptor) → (span_solid es).0 ++ (span_solid es).1 ≡ es
unfolding span_solid
span_splits [] = refl
span_splits (e ∷ es) = ground (arith, span_splits es)

span_Solids : (es : List BlobDescriptor) → Solids (span_solid es).0
unfolding span_solid
span_Solids [] = tt
span_Solids (e ∷ es) = ground (arith, span_Solids es)

span_shorter : (es : List BlobDescriptor) → length (span_solid es).1 ≤ length es
unfolding span_solid
span_shorter [] = omega arith
span_shorter (e ∷ es) = ground (arith, span_shorter es)

fill_run-specs :
    (es : List BlobDescriptor) (r : SolidResourceRun)
    → Solids es
    → ((fill_run es r).specs ≡ r.specs ++ solid_specs es)
      × ((fill_run es r).blobs ≡ r.blobs ++ solid_blobs es)
unfolding fill_run
fill_run-specs [] r s = (sym (append-nil r.specs), sym (append-nil r.blobs))
fill_run-specs (e ∷ es) r s = elim (Bool-cases (is_spec e)) [
  | inl spec ↦ ground (
    arith,
    fill_run-specs es (record r { specs = r.specs ++ (e.resource ∷ []) }) s.1,
    append_assoc r.specs (e.resource ∷ []) (solid_specs es),
  )
  | inr other ↦ ground (
    arith,
    fill_run-specs es (record r { blobs = r.blobs ++ (e ∷ []) }) s.1,
    append_assoc r.blobs (e ∷ []) (solid_blobs es),
  )
]

-- A run at the head of the table, filed, and the table behind it.
run-specs :
    (es : List BlobDescriptor)
    → solid_specs es ≡ (fill_run (span_solid es).0 empty_run).specs ++ solid_specs (span_solid es).1
run-specs es =
    ap solid_specs (sym (span_splits es))
    ∙ specs-append (span_solid es).0 (span_solid es).1
    ∙ ap (λ l. l ++ solid_specs (span_solid es).1)
        (sym (fill_run-specs (span_solid es).0 empty_run (span_Solids es)).0)

run-blobs :
    (es : List BlobDescriptor)
    → solid_blobs es ≡ (fill_run (span_solid es).0 empty_run).blobs ++ solid_blobs (span_solid es).1
run-blobs es =
    ap solid_blobs (sym (span_splits es))
    ∙ blobs-append (span_solid es).0 (span_solid es).1
    ∙ ap (λ l. l ++ solid_blobs (span_solid es).1)
        (sym (fill_run-specs (span_solid es).0 empty_run (span_Solids es)).1)

-- The head entry of a run is passed, so the table behind the run is shorter.
rest_shorter :
    (e : BlobDescriptor) (es : List BlobDescriptor)
    → is_solid e.resource ≡ true
    → length (span_solid (e ∷ es)).1 ≤ length es
unfolding span_solid
rest_shorter e es h = ground (arith, span_shorter es)

abbrev Collected : List SolidResourceRun → List BlobDescriptor → List SolidResourceRun → Type 0
Collected rs es out =
    (all_specs rs ≡ all_specs out ++ solid_specs es)
    × (all_blobs rs ≡ all_blobs out ++ solid_blobs es)

-- Filing a run first is filing it behind what was out before.
Collected-run :
    (es rest : List BlobDescriptor) (run : SolidResourceRun) (out rs : List SolidResourceRun)
    → solid_specs es ≡ run.specs ++ solid_specs rest
    → solid_blobs es ≡ run.blobs ++ solid_blobs rest
    → Collected rs rest (out ++ (run ∷ []))
    → Collected rs es out
Collected-run es rest run out rs specs blobs (p, q) = (
  p
      ∙ ap (λ l. l ++ solid_specs rest) (all_specs-append out (run ∷ []))
      ∙ rw (append-nil, specs, append_assoc),
  q
      ∙ ap (λ l. l ++ solid_blobs rest) (all_blobs-append out (run ∷ []))
      ∙ rw (append-nil, blobs, append_assoc),
)

solid_loop-Collected :
    (fuel : ℕ) (es : List BlobDescriptor) (out : List SolidResourceRun)
    → length es ≤ fuel
    → Collected (solid_loop fuel es out) es out
unfolding solid_loop
solid_loop-Collected zero [] out h = (sym (append-nil _), sym (append-nil _))
solid_loop-Collected zero (e ∷ es) out h = absurd (omega arith)
solid_loop-Collected (suc fuel) [] out h = (sym (append-nil _), sym (append-nil _))
solid_loop-Collected (suc fuel) (e ∷ es) out h = elim (Bool-cases (is_solid e.resource)) [
  | inl solid ↦
      let (run, rest) = span_solid (e ∷ es) in
      let filed = fill_run run empty_run in
      let later =
        solid_loop-Collected fuel rest (out ++ (filed ∷ []))
          (omega (arith, rest_shorter e es solid)) in
      let whole =
        Collected-run (e ∷ es) rest filed out (solid_loop fuel rest (out ++ (filed ∷ [])))
          (run-specs (e ∷ es)) (run-blobs (e ∷ es)) later in
      rw (solid, solid_loop) (rw solid at whole)
  | inr other ↦ rw (other, solid_loop) (solid_loop-Collected fuel es out (omega arith))
]

-- With `solidValid`, the runs hold every solid entry of the table, in table order and nothing else:
-- their specs are the solid entries with the magic size, and their blobs are the other solid
-- entries. The loop ends by itself within as many rounds as there are entries.
pub solid_resources_collect :
    (es : List BlobDescriptor)
    → (all_specs (solid_resources true es) ≡ solid_specs es)
      × (all_blobs (solid_resources true es) ≡ solid_blobs es)
unfolding solid_resources
solid_resources_collect es = solid_loop-Collected (length es) es [] (omega arith)
