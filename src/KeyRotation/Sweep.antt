-- ===== src/KeyRotation/Sweep.antt =====
-- What a batch has done when it ends: nothing up to the cursor stands under the source version.
use mnemex.Base.{
  ℕ, ◌≡◌, ◌≢◌, refl, sym, subst, ◌∙◌, true, false, Option, none, some, List, [], ◌∷◌, arith, ◌==◌,
  ==_iff, ==-flip, All, Bool-cases, inl, inr, ok, >>=-eq-ok,
}
use mathlib.Core.Option.{some-injective}
use mnemex.Base.Rows
use mnemex.Base.Rows.{
  Unique, Unique-save, Avoids, Evolves, Evolves-refl, Evolves-trans, Evolves-save, key-get,
  get-save_self, get-save_ne,
}
use mnemex.Base.Query.{has_row}
use mnemex.Keyring.Decimal.{Text}
use mnemex.Keyring.Model.{Bytes, Cipher, KeyRing}
use mnemex.KeyRotation.Model.{Authenticator, authenticator_key}
use mnemex.KeyRotation.Batch.{
  authenticator_secret, with_secret, reencrypt_and_verify, rotate_each, stored, counted,
}
use mnemex.KeyRotation.Retirement.{depends_on}
use mnemex.KeyRotation.Reseal.{
  after_round, with_secret-id, after_round-free, after_round-text, text_of,
}

abbrev pub Held : List Authenticator → Authenticator → Type 0
Held table a = Rows.get authenticator_key a.id table ≡ some a

after_round-id : (x : Option Text) (a : Authenticator) → (after_round x a).id ≡ a.id
after_round-id none a = refl
after_round-id (some t) a = with_secret-id t a

get-stored :
    (x : Option Text) (a : Authenticator) (table : List Authenticator)
    → Held table a
    → Rows.get authenticator_key a.id (stored x a table) ≡ some (after_round x a)
get-stored none a table h = h
get-stored (some t) a table h =
    let found =
      get-save_self authenticator_key (with_secret t a) a table (rw (with_secret-id t a) h) in
    subst
      (λ k.
        Rows.get authenticator_key k (Rows.save authenticator_key (with_secret t a) table)
        ≡ some (with_secret t a))
      (with_secret-id t a) found

get-stored_ne :
    (k : ℕ) (x : Option Text) (a : Authenticator) (table : List Authenticator)
    → (a.id == k) ≡ false
    → Rows.get authenticator_key k (stored x a table) ≡ Rows.get authenticator_key k table
get-stored_ne k none a table h = refl
get-stored_ne k (some t) a table h =
    get-save_ne authenticator_key k (with_secret t a) table (rw (with_secret-id t a) h)

Held-stored :
    (x : Option Text) (a : Authenticator) (table batch : List Authenticator)
    → Avoids authenticator_key a.id batch
    → All (Held table) batch
    → All (Held (stored x a table)) batch
Held-stored x a table [] u h = tt
Held-stored x a table (b ∷ batch) u h = (
  get-stored_ne b.id x a table (==-flip b.id a.id u.0) ∙ h.0,
  Held-stored x a table batch u.1 h.1,
)

has_row-Avoids :
    (k : ℕ) (batch : List Authenticator)
    → Avoids authenticator_key k batch
    → has_row authenticator_key k batch ≡ false
has_row-Avoids k [] u = refl
has_row-Avoids k (b ∷ batch) u = rw (u.0, has_row-Avoids k batch u.1)

-- The same text is read from two authenticators.
abbrev pub SameText : Cipher → KeyRing → Authenticator → Authenticator → Type 0
SameText z ring a b = text_of z ring b ≡ text_of z ring a

stored-Unique :
    (x : Option Text) (a : Authenticator) (table : List Authenticator)
    → Unique authenticator_key table
    → Unique authenticator_key (stored x a table)
stored-Unique none a table u = u
stored-Unique (some t) a table u = Unique-save authenticator_key (with_secret t a) table u

module _ (z : Cipher) (ring : KeyRing) (nonce : ℕ → Bytes) (source target : ℕ) where
  -- The parts of a round that went well.
  rotate_each-cons :
      (a : Authenticator) (batch table : List Authenticator) (n : ℕ) {end : List Authenticator × ℕ}
      → rotate_each z ring nonce source target (a ∷ batch) table n ≡ ok end
      → (c : Text) × (x : Option Text) × (authenticator_secret a ≡ ok c)
        × (reencrypt_and_verify z ring (nonce a.id) c source target ≡ ok x)
        × (rotate_each z ring nonce source target batch (stored x a table) (counted x n) ≡ ok end)
  unfolding rotate_each
  rotate_each-cons a batch table n h =
      let (c, h1, h2) = >>=-eq-ok (authenticator_secret a) _ h in
      let (x, h3, h4) = >>=-eq-ok (reencrypt_and_verify z ring (nonce a.id) c source target) _ h2 in
      (c, x, h1, h3, h4)

  -- A row that is not in the batch is as it was.
  pub rotate_each-other :
      (k : ℕ) (batch table : List Authenticator) (n : ℕ) {table' : List Authenticator} {n' : ℕ}
      → rotate_each z ring nonce source target batch table n ≡ ok (table', n')
      → has_row authenticator_key k batch ≡ false
      → Rows.get authenticator_key k table' ≡ Rows.get authenticator_key k table
  unfolding rotate_each
  rotate_each-other k [] table n h e = cc
  rotate_each-other k (a ∷ batch) table n h e =
      let (c, x, h1, h2, h3) = rotate_each-cons a batch table n h in
      let not_rest : has_row authenticator_key k batch ≡ false = ground arith in
      let not_here : (a.id == k) ≡ false = ground arith in
      rotate_each-other k batch (stored x a table) (counted x n) h3 not_rest
      ∙ get-stored_ne k x a table not_here

  -- A row of the batch does not depend on the source version afterwards.
  pub rotate_each-free :
      (k : ℕ) (batch table : List Authenticator) (n : ℕ) {table' : List Authenticator} {n' : ℕ}
      → source ≢ target
      → Unique authenticator_key batch
      → All (Held table) batch
      → rotate_each z ring nonce source target batch table n ≡ ok (table', n')
      → has_row authenticator_key k batch ≡ true
      → (a : Authenticator) → Rows.get authenticator_key k table' ≡ some a
      → depends_on source a ≡ false
  rotate_each-free k [] table n ne u held h e a found = cc
  rotate_each-free k (b ∷ batch) table n ne u held h e a found =
      let (c, x, h1, h2, h3) = rotate_each-cons b batch table n h in
      elim (Bool-cases (b.id == k)) [
        | inr other ↦
            rotate_each-free k batch (stored x b table) (counted x n) ne u.1
              (Held-stored x b table batch u.0 held.1) h3 (rw other at e) a found
        | inl here ↦
            let same = (==_iff b.id k).0 here in
            let kept =
              rotate_each-other b.id batch (stored x b table) (counted x n) h3
                (has_row-Avoids b.id batch u.0) in
            let it : some (after_round x b) ≡ some a =
              sym (kept ∙ get-stored x b table held.0) ∙ (rw (sym same) at found) in
            subst (λ y. depends_on source y ≡ false) (some-injective (after_round x b) a it)
              (after_round-free z ring (nonce b.id) b c source target x h1 h2 ne)
      ]

  stored-Evolves :
      (x : Option Text) (b : Authenticator) (table : List Authenticator)
      → Held table b
      → SameText z ring b (after_round x b)
      → Evolves authenticator_key (SameText z ring) table (stored x b table)
  stored-Evolves none b table held same =
      Evolves-refl authenticator_key (SameText z ring) (λ a. refl) table
  stored-Evolves (some t) b table held same =
      Evolves-save authenticator_key (SameText z ring) (λ a. refl) (with_secret t b) b table
        (rw (with_secret-id t b) held) same

  pub rotate_each-text :
      (batch table : List Authenticator) (n : ℕ) {table' : List Authenticator} {n' : ℕ}
      → Unique authenticator_key batch
      → All (Held table) batch
      → rotate_each z ring nonce source target batch table n ≡ ok (table', n')
      → Evolves authenticator_key (SameText z ring) table table'
  unfolding rotate_each
  rotate_each-text [] table n u held h =
      subst (λ t. Evolves authenticator_key (SameText z ring) table t)
        (let e : table ≡ _ = cc h in e)
        (Evolves-refl authenticator_key (SameText z ring) (λ a. refl) table)
  rotate_each-text (b ∷ batch) table n u held h =
      let (c, x, h1, h2, h3) = rotate_each-cons b batch table n h in
      Evolves-trans authenticator_key (SameText z ring) (λ p q r f g. g ∙ f) table
        (stored x b table) _
        (stored-Evolves x b table held.0
          (after_round-text z ring (nonce b.id) b c source target x h1 h2))
        (rotate_each-text batch (stored x b table) (counted x n) u.1
          (Held-stored x b table batch u.0 held.1) h3)

  -- The keys stay unique.
  pub rotate_each-Unique :
      (batch table : List Authenticator) (n : ℕ) {table' : List Authenticator} {n' : ℕ}
      → Unique authenticator_key table
      → rotate_each z ring nonce source target batch table n ≡ ok (table', n')
      → Unique authenticator_key table'
  unfolding rotate_each
  rotate_each-Unique [] table n u h =
      subst (λ t. Unique authenticator_key t) (let e : table ≡ _ = cc h in e) u
  rotate_each-Unique (b ∷ batch) table n u h =
      let (c, x, h1, h2, h3) = rotate_each-cons b batch table n h in
      rotate_each-Unique batch (stored x b table) (counted x n) (stored-Unique x b table u) h3
