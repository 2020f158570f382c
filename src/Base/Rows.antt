-- ===== src/Base/Rows.antt =====
-- A database table as the list of its rows, in the order of insertion, with a numeric primary key.
-- `get` is `filter(pk=k).first()`, `save` is the UPDATE of the row with the same key.
use Prim.Native.Nat.{ℕ}
use mathlib.Core.Path.{◌≡◌, refl, sym, ap, subst, ◌∙◌}
use mathlib.Core.Logic.{inl, inr}
use mathlib.Core.Bool.{false}
use mathlib.Core.Option.{Option, none, some, some-injective}
use mathlib.Core.List.{List, [], ◌∷◌, ◌++◌}
use native.Mathlib.Omega.{arith}
use mnemex.Base.Tests.{◌==◌, ==_iff, ==_refl, ==-transfer, ==-flip, Bool-cases, if◌then◌else◌}
use mnemex.Base.Lists.{All}

module _ {ℓ} {A : Type ℓ} (key : A → ℕ) where
  unfoldable pub get : ℕ → List A → Option A
  get k [] = none
  get k (x ∷ xs) = if key x == k then some x else get k xs

  unfoldable pub save : A → List A → List A
  save r [] = []
  save r (x ∷ xs) = if key x == key r then r ∷ xs else x ∷ save r xs

  pub key-get : (k : ℕ) (xs : List A) (r : A) → get k xs ≡ some r → key r ≡ k
  unfolding get
  key-get k [] r h = cc
  key-get k (x ∷ xs) r h = ground (arith, key-get k xs r)

  pub get-save_self :
      (r old : A) (xs : List A) → get (key r) xs ≡ some old → get (key r) (save r xs) ≡ some r
  unfolding get save
  get-save_self r old [] h = cc
  get-save_self r old (x ∷ xs) h = elim (Bool-cases (key x == key r)) [
    | inl e ↦ rw (e, ==_refl (key r))
    | inr e ↦ rw (e, e) (get-save_self r old xs (rw e at h))
  ]

  pub get-save_ne :
      (k : ℕ) (r : A) (xs : List A) → (key r == k) ≡ false → get k (save r xs) ≡ get k xs
  unfolding get save
  get-save_ne k r [] h = refl
  get-save_ne k r (x ∷ xs) h = elim (Bool-cases (key x == key r)) [
    | inl e ↦ rw e (rw h (rw (==-transfer (key x) (key r) k e h)))
    | inr e ↦ rw e (ap (λ t. if key x == k then some x else t) (get-save_ne k r xs h))
  ]

  pub get-append_some :
      (k : ℕ) (xs ys : List A) (r : A) → get k xs ≡ some r → get k (xs ++ ys) ≡ some r
  unfolding get
  get-append_some k [] ys r h = cc
  get-append_some k (x ∷ xs) ys r h = elim (Bool-cases (key x == k)) [
    | inl e ↦ rw e (rw e at h)
    | inr e ↦ rw e (get-append_some k xs ys r (rw e at h))
  ]

module _ {ℓ κ} {A : Type ℓ} (key : A → ℕ) (P : A → Type κ) where
  pub All-get : (k : ℕ) (xs : List A) (r : A) → All P xs → get key k xs ≡ some r → P r
  unfolding get
  All-get k [] r p h = cc
  All-get k (x ∷ xs) r p h = elim (Bool-cases (key x == k)) [
    | inl e ↦ subst P (some-injective x r (rw e at h)) p.0
    | inr e ↦ All-get k xs r p.1 (rw e at h)
  ]

  pub All-save : (r : A) (xs : List A) → All P xs → P r → All P (save key r xs)
  unfolding save
  All-save r [] p h = tt
  All-save r (x ∷ xs) p h = elim (Bool-cases (key x == key r)) [
    | inl e ↦ rw e (h, p.1)
    | inr e ↦ rw e (p.0, All-save r xs p.1 h)
  ]

-- Each row that a table holds has a successor of the same key in another table, by a relation that
-- a write of a successor keeps.
module _ {ℓ κ} {A : Type ℓ} (key : A → ℕ) (R : A → A → Type κ) where
  abbrev pub Evolves : List A → List A → Type (ℓ ⊔ κ)
  Evolves xs ys =
      (k : ℕ) (r : A) → get key k xs ≡ some r → (s : A) × (get key k ys ≡ some s) × R r s

  pub Evolves-refl : ((r : A) → R r r) → (xs : List A) → Evolves xs xs
  Evolves-refl same xs = λ k r h. (r, h, same r)

  pub Evolves-trans :
      ((a b c : A) → R a b → R b c → R a c)
      → (xs ys zs : List A) → Evolves xs ys
      → Evolves ys zs
      → Evolves xs zs
  Evolves-trans join xs ys zs f g =
      λ k r h. let (s, hs, rs) = f k r h in let (t, ht, st) = g k s hs in (t, ht, join r s t rs st)

  pub Evolves-append : ((r : A) → R r r) → (xs ys : List A) → Evolves xs (xs ++ ys)
  Evolves-append same xs ys = λ k r h. (r, get-append_some key k xs ys r h, same r)

  pub Evolves-save :
      ((r : A) → R r r)
      → (r old : A) (xs : List A) → get key (key r) xs ≡ some old
      → R old r
      → Evolves xs (save key r xs)
  Evolves-save same r old xs h step = λ k q hq. elim (Bool-cases (key r == k)) [
    | inl e ↦ (
      r,
      subst (λ j. get key j (save key r xs) ≡ some r) ((==_iff (key r) k).0 e)
          (get-save_self key r old xs h),
      subst (λ o. R o r)
          (some-injective old q
            (sym h ∙ subst (λ j. get key j xs ≡ some q) (sym ((==_iff (key r) k).0 e)) hq))
          step,
    )
    | inr e ↦ (q, get-save_ne key k r xs e ∙ hq, same q)
  ]

-- No two rows share a key.
module _ {ℓ} {A : Type ℓ} (key : A → ℕ) where
  abbrev pub Avoids : ℕ → List A → Type 0
  Avoids k xs = All (λ y. (key y == k) ≡ false) xs

  abbrev pub Unique : List A → Type 0
  Unique [] = Unit
  Unique (x ∷ xs) = Avoids (key x) xs × Unique xs

  Avoids-save :
      (k : ℕ) (r : A) (xs : List A) → (key r == k) ≡ false → Avoids k xs → Avoids k (save key r xs)
  Avoids-save k r xs h a = All-save key (λ y. (key y == k) ≡ false) r xs a h

  pub Unique-save : (r : A) (xs : List A) → Unique xs → Unique (save key r xs)
  unfolding save
  Unique-save r [] u = tt
  Unique-save r (x ∷ xs) u = elim (Bool-cases (key x == key r)) [
    | inl e ↦ rw e (subst (λ k. Avoids k xs) ((==_iff (key x) (key r)).0 e) u.0, u.1)
    | inr e ↦ rw e (Avoids-save (key x) r xs (==-flip (key x) (key r) e) u.0, Unique-save r xs u.1)
  ]

  get-Avoids : (k : ℕ) (xs : List A) → Avoids k xs → get key k xs ≡ none
  unfolding get
  get-Avoids k [] a = refl
  get-Avoids k (x ∷ xs) a = rw a.0 (get-Avoids k xs a.1)

  Found : List A → A → Type ℓ
  Found ys x = get key (key x) ys ≡ some x

  Found-cons :
      (x : A) (ys zs : List A) → Avoids (key x) zs → All (Found ys) zs → All (Found (x ∷ ys)) zs
  unfolding Found get
  Found-cons x ys [] a f = tt
  Found-cons x ys (z ∷ zs) a f = (rw (==-flip (key z) (key x) a.0) f.0, Found-cons x ys zs a.1 f.1)

  All-Found : (xs : List A) → Unique xs → All (Found xs) xs
  unfolding Found get
  All-Found [] u = tt
  All-Found (x ∷ xs) u =
      (rw (==_refl (key x)) refl, unfold Found in Found-cons x xs xs u.0 (All-Found xs u.1))

  -- Each row of a table with unique keys is the one that its key finds.
  pub All-get_self : (xs : List A) → Unique xs → All (λ x. get key (key x) xs ≡ some x) xs
  unfolding Found
  All-get_self xs u = All-Found xs u
