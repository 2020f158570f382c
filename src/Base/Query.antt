-- ===== src/Base/Query.antt =====
-- Queries over a table: the first row of a sorted selection, and a page of the selection by key.
use Prim.Native.Nat.{ℕ, zero, suc, ◌≤◌}
use mathlib.Core.Path.{◌≡◌, refl}
use mathlib.Core.Logic.{◌⊎◌, inl, inr}
use mathlib.Core.Bool.{Bool, true, false, ◌||◌}
use mathlib.Core.Option.{none, some}
use mathlib.Core.List.{List, [], ◌∷◌}
use native.Mathlib.Omega.{arith}
use mnemex.Base.Tests.{ltb, ◌==◌, ==_refl, ==-flip, Bool-cases}
use mnemex.Base.Lists.{length, take, select, All, All-map, All-take, All-both}
use mnemex.Base.Rows
use mnemex.Base.Rows.{Unique, Avoids, All-get, All-get_self}
use mnemex.Base.Ordered.{
  IsOrder, place, order_by, head?, IsSorted, order_by-IsSorted, All-place, All-order_by,
  All-of-order_by, All-head?, All-select, All-of-select, no_first,
}

module _ {ℓ} {A : Type ℓ} (key : A → ℕ) (before : A → A → Bool) (p : A → Bool) (rows : List A)
    (u : Unique key rows) where
  -- Every row of the sorted selection passes the test, and is the table's row of its key.
  pub query-held :
      All
        (λ x. (p x ≡ true) × (Rows.get key (key x) rows ≡ some x))
        (order_by before (select p rows))
  query-held =
      All-order_by before (λ x. (p x ≡ true) × (Rows.get key (key x) rows ≡ some x)) (select p rows)
        (All-select p (λ x. Rows.get key (key x) rows ≡ some x) rows (All-get_self key rows u))

  pub first_row :
      (r : A)
      → head? (order_by before (select p rows)) ≡ some r
      → (p r ≡ true) × (Rows.get key (key r) rows ≡ some r)
  first_row r h =
      All-head? before (λ x. (p x ≡ true) × (Rows.get key (key x) rows ≡ some x))
        (order_by before (select p rows)) r query-held h

not_passing : (b : Bool) → (b ≡ true → ⊥) → b ≡ false
not_passing true h = absurd (h refl)
not_passing false h = refl

-- A sorted selection with no first row selects none.
pub no_row {ℓ} :
    {A : Type ℓ} (before : A → A → Bool) (p : A → Bool) (rows : List A)
    → head? (order_by before (select p rows)) ≡ none
    → All (λ x. p x ≡ false) rows
no_row before p rows h =
    All-map (λ x (k : p x ≡ true → ⊥). not_passing (p x) k) rows
      (All-of-select p (λ x. ⊥) rows (no_first before (λ x. ⊥) (select p rows) h))

module _ {ℓ} {A : Type ℓ} (key : A → ℕ) where
  abbrev pub by_key : A → A → Bool
  by_key a b = ltb (key a) (key b)

  abbrev pub page : ℕ → (A → Bool) → List A → List A
  page n p rows = take n (order_by by_key (select p rows))

  abbrev pub has_row : ℕ → List A → Bool
  has_row k [] = false
  has_row k (x ∷ xs) = key x == k || has_row k xs

  by_key-IsOrder : IsOrder by_key
  by_key-IsOrder = record { asym = λ a b h. ground arith; neg_trans = λ a b c g h. ground arith }

  -- A row is on the page, or the page is full and ends no later than the row.
  abbrev pub Placed : ℕ → List A → ℕ → Type 0
  Placed n rows k = (has_row k rows ≡ true) ⊎ (All (λ y. key y ≤ k) rows × (length rows ≡ n))

  Placed-cons :
      (n : ℕ) (x : A) (xs : List A) (k : ℕ) → key x ≤ k → Placed n xs k → Placed (suc n) (x ∷ xs) k
  Placed-cons n x xs k h (inl e) = inl (ground arith)
  Placed-cons n x xs k h (inr (all, full)) = inr ((h, all), omega arith)

  sorted-Placed :
      (n : ℕ) (xs : List A)
      → IsSorted by_key by_key-IsOrder xs
      → All (λ y. Placed n (take n xs) (key y)) xs
  sorted-Placed zero [] s = tt
  sorted-Placed zero (x ∷ xs) s = (inr (tt, refl), All-map (λ y _. inr (tt, refl)) xs s.0)
  sorted-Placed (suc n) [] s = tt
  sorted-Placed (suc n) (x ∷ xs) s = (
    inl (let e = ==_refl (key x) in ground arith),
    All-map
        (λ y (h : (by_key y x ≡ false) × Placed n (take n xs) (key y)).
          Placed-cons n x (take n xs) (key y) (ground arith) h.1)
        xs
        (All-both (λ y. by_key y x ≡ false) (λ y. Placed n (take n xs) (key y)) xs s.0
          (sorted-Placed n xs s.1)),
  )

  -- A row of the table that passes the test is on the page, or the page is full before it.
  pub page-Placed :
      (n : ℕ) (p : A → Bool) (rows : List A) (k : ℕ) (a : A)
      → Rows.get key k rows ≡ some a
      → p a ≡ true
      → Placed n (page n p rows) (key a)
  page-Placed n p rows k a found passes =
      All-get key (λ x. p x ≡ true → Placed n (page n p rows) (key x)) k rows a
        (All-of-select p (λ x. Placed n (page n p rows) (key x)) rows
          (All-of-order_by by_key (λ x. Placed n (page n p rows) (key x)) (select p rows)
            (sorted-Placed n (order_by by_key (select p rows))
              (order_by-IsSorted by_key by_key-IsOrder (select p rows)))))
        found passes

  Unique-select : (p : A → Bool) (xs : List A) → Unique key xs → Unique key (select p xs)
  Unique-select p [] u = tt
  Unique-select p (x ∷ xs) u = elim (Bool-cases (p x)) [
    | inl e ↦ rw e (
      All-map (λ y h. h.1) (select p xs) (All-select p (λ y. (key y == key x) ≡ false) xs u.0),
      Unique-select p xs u.1,
    )
    | inr e ↦ rw e (Unique-select p xs u.1)
  ]

  Unique-place :
      (r : A) (xs : List A) → Avoids key (key r) xs → Unique key xs → Unique key (place by_key r xs)
  unfolding place
  Unique-place r [] a u = (tt, tt)
  Unique-place r (x ∷ xs) a u = elim (Bool-cases (by_key x r)) [
    | inl e ↦ rw e (
      All-place by_key (λ y. (key y == key x) ≡ false) r xs (==-flip (key x) (key r) a.0) u.0,
      Unique-place r xs a.1 u.1,
    )
    | inr e ↦ rw e (a, u)
  ]

  Unique-order_by : (xs : List A) → Unique key xs → Unique key (order_by by_key xs)
  unfolding order_by
  Unique-order_by [] u = tt
  Unique-order_by (x ∷ xs) u =
      Unique-place x (order_by by_key xs)
        (All-order_by by_key (λ y. (key y == key x) ≡ false) xs u.0) (Unique-order_by xs u.1)

  Unique-take : (n : ℕ) (xs : List A) → Unique key xs → Unique key (take n xs)
  Unique-take zero xs u = tt
  Unique-take (suc n) [] u = tt
  Unique-take (suc n) (x ∷ xs) u =
      (All-take (λ y. (key y == key x) ≡ false) n xs u.0, Unique-take n xs u.1)

  pub Unique-page :
      (n : ℕ) (p : A → Bool) (rows : List A) → Unique key rows → Unique key (page n p rows)
  Unique-page n p rows u =
      Unique-take n (order_by by_key (select p rows))
        (Unique-order_by (select p rows) (Unique-select p rows u))

  pub page-held :
      (n : ℕ) (p : A → Bool) (rows : List A)
      → Unique key rows
      → All (λ x. (p x ≡ true) × (Rows.get key (key x) rows ≡ some x)) (page n p rows)
  page-held n p rows u =
      All-take (λ x. (p x ≡ true) × (Rows.get key (key x) rows ≡ some x)) n
        (order_by by_key (select p rows)) (query-held key by_key p rows u)
