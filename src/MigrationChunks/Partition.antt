-- ===== src/MigrationChunks/Partition.antt =====
-- The chunks are exactly the previews in order, each within the chunk size and of one table plan, and
-- numbered without a gap.
use mnemex.Base.{
  ℕ, zero, suc, ◌+◌, ◌≤◌, ◌≡◌, refl, sym, ap, subst, ◌∙◌, List, [], ◌∷◌, ◌++◌, arith, ◌==◌, ==_iff,
  ==_refl, take, drop, length, length-take, length-drop, take-append-drop, All, All-append,
  All-take, All-drop, Bool-cases, inl, inr,
}
use mnemex.MigrationChunks.Model.{
  Preview, ApplyChunk, table_previews, after_table, cut, chunks_from, planned_chunks,
}

abbrev pub rows_of : List ApplyChunk → List Preview
rows_of [] = []
rows_of (c ∷ cs) = c.previews ++ rows_of cs

-- The sequences are consecutive, from the given one.
abbrev pub NumberedFrom : ℕ → List ApplyChunk → Type 0
NumberedFrom n [] = Unit
NumberedFrom n (c ∷ cs) = (c.sequence ≡ n) × NumberedFrom (suc n) cs

-- Every preview belongs to the table plan.
abbrev pub OfTable : ℕ → List Preview → Type 0
OfTable plan ps = All (λ (p : Preview). p.table_plan_id ≡ plan) ps

-- A chunk that is not empty, not too long, and of one table plan.
abbrev pub IsChunk : ℕ → ApplyChunk → Type 0
IsChunk chunk_size c =
    (1 ≤ length c.previews) × (length c.previews ≤ chunk_size) × OfTable c.table_plan_id c.previews

append_assoc : {A : Type 0} (xs ys zs : List A) → (xs ++ ys) ++ zs ≡ xs ++ (ys ++ zs)
append_assoc [] ys zs = refl
append_assoc (x ∷ xs) ys zs = ap (λ t. x ∷ t) (append_assoc xs ys zs)

rows_of-append : (a b : List ApplyChunk) → rows_of (a ++ b) ≡ rows_of a ++ rows_of b
rows_of-append [] b = refl
rows_of-append (c ∷ a) b =
    ap (λ t. c.previews ++ t) (rows_of-append a b)
    ∙ sym (append_assoc c.previews (rows_of a) (rows_of b))

NumberedFrom-append :
    (n : ℕ) (a b : List ApplyChunk)
    → NumberedFrom n a
    → NumberedFrom (n + length a) b
    → NumberedFrom n (a ++ b)
NumberedFrom-append n [] b ha hb =
    subst (λ m. NumberedFrom m b) (let e : n + 0 ≡ n = omega arith in e) hb
NumberedFrom-append n (c ∷ a) b ha hb = (
  ha.0,
  NumberedFrom-append (suc n) a b ha.1 (
      subst (λ m. NumberedFrom m b)
        (let e : n + suc (length a) ≡ suc n + length a = omega arith in e) hb),
)

table-append : (plan : ℕ) (ps : List Preview) → table_previews plan ps ++ after_table plan ps ≡ ps
unfolding table_previews after_table
table-append plan [] = refl
table-append plan (p ∷ ps) = elim (Bool-cases (p.table_plan_id == plan)) [
  | inl e ↦ rw e (ap (λ t. p ∷ t) (table-append plan ps))
  | inr e ↦ rw e refl
]

table-OfTable : (plan : ℕ) (ps : List Preview) → OfTable plan (table_previews plan ps)
unfolding table_previews
table-OfTable plan [] = tt
table-OfTable plan (p ∷ ps) = elim (Bool-cases (p.table_plan_id == plan)) [
  | inl e ↦ rw e ((==_iff p.table_plan_id plan).0 e, table-OfTable plan ps)
  | inr e ↦ rw e tt
]

length-after : (plan : ℕ) (ps : List Preview) → length (after_table plan ps) ≤ length ps
unfolding after_table
length-after plan [] = omega arith
length-after plan (p ∷ ps) = elim (Bool-cases (p.table_plan_id == plan)) [
  | inl e ↦ rw e (omega (arith, length-after plan ps))
  | inr e ↦ rw e (omega arith)
]

cut-rows :
    (fuel size n plan : ℕ) (ps : List Preview)
    → 1 ≤ size
    → length ps ≤ fuel
    → rows_of (cut fuel size n plan ps) ≡ ps
unfolding cut
cut-rows zero size n plan [] h l = refl
cut-rows zero size n plan (p ∷ ps) h l = absurd (omega arith)
cut-rows (suc fuel) size n plan [] h l = refl
cut-rows (suc fuel) size n plan (p ∷ ps) h l =
    ap (λ t. take size (p ∷ ps) ++ t)
      (cut-rows fuel size (suc n) plan (drop size (p ∷ ps)) h
        (omega (arith, length-drop size (p ∷ ps))))
    ∙ take-append-drop size (p ∷ ps)

cut-NumberedFrom :
    (fuel size n plan : ℕ) (ps : List Preview) → NumberedFrom n (cut fuel size n plan ps)
unfolding cut
cut-NumberedFrom zero size n plan ps = tt
cut-NumberedFrom (suc fuel) size n plan [] = tt
cut-NumberedFrom (suc fuel) size n plan (p ∷ ps) =
    (refl, cut-NumberedFrom fuel size (suc n) plan (drop size (p ∷ ps)))

cut-IsChunk :
    (fuel size n plan : ℕ) (ps : List Preview)
    → 1 ≤ size
    → OfTable plan ps
    → All (IsChunk size) (cut fuel size n plan ps)
unfolding cut
cut-IsChunk zero size n plan ps h t = tt
cut-IsChunk (suc fuel) size n plan [] h t = tt
cut-IsChunk (suc fuel) size n plan (p ∷ ps) h t = (
  (
    omega (arith, length-take size (p ∷ ps)),
    omega (arith, length-take size (p ∷ ps)),
    All-take (λ (q : Preview). q.table_plan_id ≡ plan) size (p ∷ ps) t,
  ),
  cut-IsChunk fuel size (suc n) plan (drop size (p ∷ ps)) h
      (All-drop (λ (q : Preview). q.table_plan_id ≡ plan) size (p ∷ ps) t),
)

abbrev Planned : ℕ → ℕ → List Preview → List ApplyChunk → Type 0
Planned size n ps cs = (rows_of cs ≡ ps) × All (IsChunk size) cs × NumberedFrom n cs

after-shorter :
    (p : Preview) (ps : List Preview) (fuel : ℕ)
    → length (p ∷ ps) ≤ suc fuel
    → length (after_table p.table_plan_id (p ∷ ps)) ≤ fuel
unfolding after_table
after-shorter p ps fuel l =
    rw (==_refl p.table_plan_id) (omega (arith, length-after p.table_plan_id ps))

chunks_from-Planned :
    (fuel size n : ℕ) (ps : List Preview)
    → 1 ≤ size
    → length ps ≤ fuel
    → Planned size n ps (chunks_from fuel size n ps)
unfolding chunks_from
chunks_from-Planned zero size n [] h l = (refl, tt, tt)
chunks_from-Planned zero size n (p ∷ ps) h l = absurd (omega arith)
chunks_from-Planned (suc fuel) size n [] h l = (refl, tt, tt)
chunks_from-Planned (suc fuel) size n (p ∷ ps) h l =
    let plan = p.table_plan_id in
    let table = table_previews plan (p ∷ ps) in
    let rest = after_table plan (p ∷ ps) in
    let made = cut (length table) size n plan table in
    let later = chunks_from fuel size (n + length made) rest in
    let (rows, chunks, numbers) =
      chunks_from-Planned fuel size (n + length made) rest h (after-shorter p ps fuel l) in
    (
      rows_of-append made later
          ∙ ap (λ t. t ++ rows_of later) (cut-rows (length table) size n plan table h (omega arith))
          ∙ ap (λ t. table ++ t) rows
          ∙ table-append plan (p ∷ ps),
      All-append (IsChunk size) made later
          (cut-IsChunk (length table) size n plan table h (table-OfTable plan (p ∷ ps))) chunks,
      NumberedFrom-append n made later (cut-NumberedFrom (length table) size n plan table) numbers,
    )

-- With a chunk size of at least 1, the planned chunks hold every preview exactly once and in order;
-- each of them is not empty, within the chunk size and of the one table plan that it names; and their
-- sequences are 1, 2, 3 and so on.
pub planned_chunks-partition :
    (chunk_size : ℕ) (ps : List Preview)
    → 1 ≤ chunk_size
    → (rows_of (planned_chunks chunk_size ps) ≡ ps)
      × All (IsChunk chunk_size) (planned_chunks chunk_size ps)
      × NumberedFrom 1 (planned_chunks chunk_size ps)
unfolding planned_chunks
planned_chunks-partition chunk_size ps h =
    chunks_from-Planned (length ps) chunk_size 1 ps h (omega arith)
