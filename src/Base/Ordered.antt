-- ===== src/Base/Ordered.antt =====
-- `order_by` and slices of a query: a stable sort by a strict order of keys.
-- An order is a Boolean test that a row must come before another.
use Prim.Native.Nat.{ℕ, suc}
use mathlib.Core.Path.{◌≡◌, refl, sym, ap, ◌∙◌, subst}
use mathlib.Core.Logic.{inl, inr, ◌≢◌}
use mathlib.Core.Bool.{Bool, true, false, ◌&&◌, ◌||◌}
use mathlib.Core.Option.{Option, none, some, some-injective}
use mathlib.Core.List.{List, [], ◌∷◌}
use native.Mathlib.Omega.{arith}
use mnemex.Base.Tests.{ltb, ◌==◌, Bool-cases, if◌then◌else◌}
use mnemex.Base.Lists.{All, All-map, select, length}

-- Lexicographic order of three keys.
abbrev pub Key3 : Type 0
Key3 = ℕ × ℕ × ℕ

unfoldable pub before3 : Key3 → Key3 → Bool
before3 (a, b, c) (x, y, z) = ltb a x || (a == x && (ltb b y || (b == y && ltb c z)))

unfoldable pub head? {ℓ} : {A : Type ℓ} → List A → Option A
head? [] = none
head? (x ∷ xs) = some x

module _ {ℓ} {A : Type ℓ} (before : A → A → Bool) where
  unfoldable pub place : A → List A → List A
  place r [] = r ∷ []
  place r (x ∷ xs) = if before x r then x ∷ place r xs else r ∷ x ∷ xs

  unfoldable pub order_by : List A → List A
  order_by [] = []
  order_by (x ∷ xs) = place x (order_by xs)

module _ {ℓ κ} {A : Type ℓ} (before : A → A → Bool) (P : A → Type κ) where
  pub All-place : (r : A) (xs : List A) → P r → All P xs → All P (place before r xs)
  unfolding place
  All-place r [] p ps = (p, tt)
  All-place r (x ∷ xs) p ps = elim (Bool-cases (before x r)) [
    | inl e ↦ rw e (ps.0, All-place r xs p ps.1)
    | inr e ↦ rw e (p, ps)
  ]

  pub All-order_by : (xs : List A) → All P xs → All P (order_by before xs)
  unfolding order_by
  All-order_by [] ps = tt
  All-order_by (x ∷ xs) ps = All-place x (order_by before xs) ps.0 (All-order_by xs ps.1)

  All-of-place : (r : A) (xs : List A) → All P (place before r xs) → P r × All P xs
  unfolding place
  All-of-place r [] h = (h.0, tt)
  All-of-place r (x ∷ xs) h = elim (Bool-cases (before x r)) [
    | inl e ↦
        let h' : All P (x ∷ place before r xs) = rw e at h in
        let (p, ps) = All-of-place r xs h'.1 in (p, (h'.0, ps))
    | inr e ↦ let h' : All P (r ∷ x ∷ xs) = rw e at h in (h'.0, h'.1)
  ]

  -- Sorting loses nothing.
  pub All-of-order_by : (xs : List A) → All P (order_by before xs) → All P xs
  unfolding order_by
  All-of-order_by [] h = tt
  All-of-order_by (x ∷ xs) h =
      let (p, ps) = All-of-place x (order_by before xs) h in (p, All-of-order_by xs ps)

  pub All-head? : (xs : List A) (r : A) → All P xs → head? xs ≡ some r → P r
  unfolding head?
  All-head? [] r ps h = cc
  All-head? (x ∷ xs) r ps h = subst P (some-injective x r h) ps.0

-- The order is a strict weak order: what the sort needs of it.
pub record IsOrder {ℓ} {A : Type ℓ} (before : A → A → Bool) : Type ℓ where
  pub asym : (a b : A) → before a b ≡ true → before b a ≡ false
  pub neg_trans : (a b c : A) → before b a ≡ false → before c b ≡ false → before c a ≡ false

pub before3_asym : (a b : Key3) → before3 a b ≡ true → before3 b a ≡ false
unfolding before3
before3_asym (a, b, c) (x, y, z) h = ground arith

pub before3_neg_trans :
    (a b c : Key3) → before3 b a ≡ false → before3 c b ≡ false → before3 c a ≡ false
unfolding before3
before3_neg_trans (a, b, c) (d, e, f) (g, h, i) p q = ground arith

pub before3_irrefl : (a : Key3) → before3 a a ≡ false
unfolding before3
before3_irrefl (a, b, c) = ground arith

-- Rows compared by a key of theirs.
pub IsOrder-key3 {ℓ} : {A : Type ℓ} (f : A → Key3) → IsOrder (λ a b. before3 (f a) (f b))
IsOrder-key3 f = record {
  asym = λ a b. before3_asym (f a) (f b);
  neg_trans = λ a b c. before3_neg_trans (f a) (f b) (f c);
}

module _ {ℓ} {A : Type ℓ} (before : A → A → Bool) (order : IsOrder before) where
  abbrev pub LeadsAll : A → List A → Type 0
  LeadsAll r xs = All (λ x. before x r ≡ false) xs

  abbrev pub IsSorted : List A → Type 0
  IsSorted [] = Unit
  IsSorted (x ∷ xs) = LeadsAll x xs × IsSorted xs

  place-IsSorted : (r : A) (xs : List A) → IsSorted xs → IsSorted (place before r xs)
  unfolding place
  place-IsSorted r [] s = (tt, tt)
  place-IsSorted r (x ∷ xs) s = elim (Bool-cases (before x r)) [
    | inl e ↦ rw e (
      All-place before (λ y. before y x ≡ false) r xs (order.asym x r e) s.0,
      place-IsSorted r xs s.1,
    )
    | inr e ↦ rw e ((e, All-map (λ y h. order.neg_trans r x y e h) xs s.0), s)
  ]

  pub order_by-IsSorted : (xs : List A) → IsSorted (order_by before xs)
  unfolding order_by
  order_by-IsSorted [] = tt
  order_by-IsSorted (x ∷ xs) = place-IsSorted x (order_by before xs) (order_by-IsSorted xs)

  head?-leads :
      (xs : List A) (r : A) → before r r ≡ false → IsSorted xs → head? xs ≡ some r → LeadsAll r xs
  unfolding head?
  head?-leads [] r n s h = tt
  head?-leads (x ∷ xs) r n s h =
      let e = some-injective x r h in
      (subst (λ y. before y r ≡ false) (sym e) n, subst (λ y. LeadsAll y xs) e s.0)

  -- The first row of a sorted query comes before none of the others.
  pub first_leads :
      (xs : List A) (r : A)
      → before r r ≡ false
      → head? (order_by before xs) ≡ some r
      → All (λ x. before x r ≡ false) xs
  first_leads xs r n h =
      All-of-order_by before (λ x. before x r ≡ false) xs
        (head?-leads (order_by before xs) r n (order_by-IsSorted xs) h)

module _ {ℓ κ} {A : Type ℓ} (p : A → Bool) (P : A → Type κ) where
  -- What passes a test has it, and keeps what held of all.
  pub All-select : (xs : List A) → All P xs → All (λ x. (p x ≡ true) × P x) (select p xs)
  All-select [] ps = tt
  All-select (x ∷ xs) ps = elim (Bool-cases (p x)) [
    | inl e ↦ rw e ((e, ps.0), All-select xs ps.1)
    | inr e ↦ rw e (All-select xs ps.1)
  ]

  -- What holds of all that pass holds of each row that passes.
  pub All-of-select : (xs : List A) → All P (select p xs) → All (λ x. p x ≡ true → P x) xs
  All-of-select [] h = tt
  All-of-select (x ∷ xs) h = elim (Bool-cases (p x)) [
    | inl e ↦ let h' : All P (x ∷ select p xs) = rw e at h in ((λ _. h'.0), All-of-select xs h'.1)
    | inr e ↦ let h' : All P (select p xs) = rw e at h in ((λ t. cc), All-of-select xs h')
  ]

module _ {ℓ} {A : Type ℓ} (before : A → A → Bool) where
  place-nonempty : (r : A) (xs : List A) → head? (place before r xs) ≢ none
  unfolding place head?
  place-nonempty r [] h = cc
  place-nonempty r (x ∷ xs) h = elim (Bool-cases (before x r)) [
    | inl e ↦ cc (rw e at h)
    | inr e ↦ cc (rw e at h)
  ]

module _ {ℓ κ} {A : Type ℓ} (before : A → A → Bool) (P : A → Type κ) where
  -- A sorted query has no first row only if it has no row at all.
  pub no_first : (xs : List A) → head? (order_by before xs) ≡ none → All P xs
  unfolding order_by
  no_first [] h = tt
  no_first (x ∷ xs) h = absurd (place-nonempty before x (order_by before xs) h)

module _ {ℓ} {A : Type ℓ} (before : A → A → Bool) where
  length-place : (r : A) (xs : List A) → length (place before r xs) ≡ suc (length xs)
  unfolding place
  length-place r [] = refl
  length-place r (x ∷ xs) = elim (Bool-cases (before x r)) [
    | inl e ↦ rw e (ap (λ n. suc n) (length-place r xs))
    | inr e ↦ rw e refl
  ]

  pub length-order_by : (xs : List A) → length (order_by before xs) ≡ length xs
  unfolding order_by
  length-order_by [] = refl
  length-order_by (x ∷ xs) =
      length-place x (order_by before xs) ∙ ap (λ n. suc n) (length-order_by xs)
