-- ===== src/Keyring/Validation.antt =====
-- What the checks of a configuration guarantee of the ring that they let through.
use mnemex.Base.{
  ℕ, ◌≤◌, ◌≡◌, refl, subst, Bool, true, false, not, ◌&&◌, Option, List, [], ◌∷◌, ◌++◌, arith, ◌==◌,
  is_some, length, All, All-map, ok, guard, or_raise, >>=-eq-ok, guard-eq-ok, improperly_configured,
  Bool-cases, inl, inr,
}
use mnemex.Keyring.Decimal.{Text}
use mnemex.Keyring.Model.{
  Bytes, Cipher, KeyRing, key_of, has_key, looks_like_placeholder, validate_version, normalize,
  all_available, is_nil, from_keys, decode_entries, parse_key_ring_entries,
}

-- No two of the keys are the same bytes.
abbrev pub DistinctKeys : List (ℕ × Bytes) → Type 0
DistinctKeys [] = Unit
DistinctKeys ((v, k) ∷ ks) = (has_key k ks ≡ false) × DistinctKeys ks

-- A version and its key: positive, of 32 bytes, and with at least 8 different ones where
-- placeholders are rejected.
abbrev pub IsEntry : Bool → ℕ × Bytes → Type 0
IsEntry reject e = (1 ≤ e.0) × (length e.1 ≡ 32) × (reject && looks_like_placeholder e.1 ≡ false)

pub record IsSound (reject : Bool) (required : List ℕ) (ring : KeyRing) : Type 0 where
  pub entries : All (IsEntry reject) ring.keys
  pub distinct_keys : DistinctKeys ring.keys
  pub active : is_some (key_of ring.active_version ring.keys) ≡ true
  pub required_available : All (λ v. is_some (key_of v ring.keys) ≡ true) required
  pub has_context : is_nil ring.aad ≡ false

version-eq-ok : (v : ℕ) {w : ℕ} → validate_version v ≡ ok w → (w ≡ v) × (1 ≤ w)
unfolding validate_version
version-eq-ok v h = ground arith

not-true : (b : Bool) → not b ≡ true → b ≡ false
not-true true h = cc
not-true false h = refl

normalize_sound :
    (reject : Bool) (done keys : List (ℕ × Bytes)) {out : List (ℕ × Bytes)}
    → normalize reject done keys ≡ ok out
    → All (IsEntry reject) done
    → DistinctKeys done
    → All (IsEntry reject) out × DistinctKeys out
unfolding normalize
normalize_sound reject done [] {out} h e d =
    let same : done ≡ out = cc h in
    subst (λ (l : List (ℕ × Bytes)). All (IsEntry reject) l × DistinctKeys l) same (e, d)
normalize_sound reject done ((v, key) ∷ rest) h e d =
    let (version, h1, h2) = >>=-eq-ok (validate_version v) _ h in
    let (t1, h3, h4) = >>=-eq-ok (guard (length key == 32) improperly_configured) _ h2 in
    let (t2, h5, h6) =
      >>=-eq-ok (guard (not (reject && looks_like_placeholder key)) improperly_configured) _ h4 in
    let (t3, h7, h8) = >>=-eq-ok (guard (not (has_key key done)) improperly_configured) _ h6 in
    let size = guard-eq-ok (length key == 32) improperly_configured h3 in
    normalize_sound reject ((version, key) ∷ done) rest h8
      (
        (
          (version-eq-ok v h1).1,
          (let n : length key ≡ 32 = ground arith in n),
          not-true (reject && looks_like_placeholder key) (guard-eq-ok _ improperly_configured h5),
        ),
        e,
      )
      (not-true (has_key key done) (guard-eq-ok _ improperly_configured h7), d)

all_available_sound :
    (required : List ℕ) (keys : List (ℕ × Bytes)) {t : Unit {0}}
    → all_available required keys ≡ ok t
    → All (λ v. is_some (key_of v keys) ≡ true) required
unfolding all_available
all_available_sound [] keys h = tt
all_available_sound (v ∷ vs) keys h =
    let (version, h1, h2) = >>=-eq-ok (validate_version v) _ h in
    let (t1, h3, h4) =
      >>=-eq-ok (guard (is_some (key_of version keys)) improperly_configured) _ h2 in
    (
      subst (λ w. is_some (key_of w keys) ≡ true) (version-eq-ok v h1).0
          (guard-eq-ok (is_some (key_of version keys)) improperly_configured h3),
      all_available_sound vs keys h4,
    )

-- A ring that `from_keys` makes is sound: every version is positive, every key has 32 bytes and is
-- no placeholder where those are rejected, no two versions share their key, the active and all the
-- required versions have one, and the context is not empty.
pub from_keys-IsSound :
    (keys : List (ℕ × Bytes)) (active : ℕ) (aad : Bytes) (required : List ℕ) (reject : Bool)
    (ring : KeyRing)
    → from_keys keys active aad required reject ≡ ok ring
    → IsSound reject required ring
unfolding from_keys
from_keys-IsSound keys active aad required reject ring h =
    let (normalized, h1, h2) = >>=-eq-ok (normalize reject [] keys) _ h in
    let (version, h3, h4) = >>=-eq-ok (validate_version active) _ h2 in
    let (t1, h5, h6) =
      >>=-eq-ok (guard (is_some (key_of version normalized)) improperly_configured) _ h4 in
    let (t2, h7, h8) = >>=-eq-ok (all_available required normalized) _ h6 in
    let (t3, h9, h10) = >>=-eq-ok (guard (not (is_nil aad)) improperly_configured) _ h8 in
    let made : KeyRing = record { keys = normalized; active_version = version; aad = aad } in
    let same : made ≡ ring = cc h10 in
    let (entries, distinct) = normalize_sound reject [] keys h1 tt tt in
    subst (IsSound reject required) same (record {
      entries = entries;
      distinct_keys = distinct;
      active = guard-eq-ok (is_some (key_of version normalized)) improperly_configured h5;
      required_available = all_available_sound required normalized h7;
      has_context = not-true (is_nil aad) (guard-eq-ok _ improperly_configured h9);
    })

-- The versions of a configuration, in its order, with no version twice.
abbrev pub DistinctVersions : List (ℕ × Option Text) → Type 0
DistinctVersions [] = Unit
DistinctVersions ((v, value) ∷ es) =
    All (λ (e : ℕ × Option Text). (v == e.0) ≡ false) es × DistinctVersions es

not_after :
    (v w : ℕ) (k : Bytes) (ks : List (ℕ × Bytes))
    → is_some (key_of v (ks ++ (w, k) ∷ [])) ≡ false
    → (is_some (key_of v ks) ≡ false) × ((w == v) ≡ false)
unfolding key_of
not_after v w k [] h = elim (Bool-cases (w == v)) [ inl e ↦ cc (rw e at h) | inr e ↦ (refl, e) ]
not_after v w k ((x, l) ∷ ks) h = elim (Bool-cases (x == v)) [
  | inl e ↦ cc (rw e at h)
  | inr e ↦ rw e (not_after v w k ks (rw e at h))
]

abbrev New : List (ℕ × Bytes) → ℕ × Option Text → Type 0
New decoded e = is_some (key_of e.0 decoded) ≡ false

decode_entries-distinct :
    (z : Cipher) (decoded : List (ℕ × Bytes)) (entries : List (ℕ × Option Text))
    {out : List (ℕ × Bytes)}
    → decode_entries z decoded entries ≡ ok out
    → All (New decoded) entries × DistinctVersions entries
unfolding decode_entries
decode_entries-distinct z decoded [] h = (tt, tt)
decode_entries-distinct z decoded ((raw, value) ∷ rest) h =
    let (version, h1, h2) = >>=-eq-ok (validate_version raw) _ h in
    let (t1, h3, h4) =
      >>=-eq-ok (guard (not (is_some (key_of version decoded))) improperly_configured) _ h2 in
    let (encoded, h5, h6) = >>=-eq-ok (or_raise value improperly_configured) _ h4 in
    let (key, h7, h8) =
      >>=-eq-ok (or_raise (z.decode64_strict encoded) improperly_configured) _ h6 in
    let (t2, h9, h10) = >>=-eq-ok (guard (length key == 32) improperly_configured) _ h8 in
    let (new, distinct) = decode_entries-distinct z (decoded ++ (version, key) ∷ []) rest h10 in
    let same = (version-eq-ok raw h1).0 in
    let first =
      not-true (is_some (key_of version decoded)) (guard-eq-ok _ improperly_configured h3) in
    let split = λ (e : ℕ × Option Text) (n : New (decoded ++ (version, key) ∷ []) e).
      not_after e.0 version key decoded n in
    (
      (
        subst (λ v. is_some (key_of v decoded) ≡ false) same first,
        All-map (λ e n. (split e n).0) rest new,
      ),
      (
        subst (λ v. All (λ (e : ℕ × Option Text). (v == e.0) ≡ false) rest) same
            (All-map (λ e n. (split e n).1) rest new),
        distinct,
      ),
    )

-- A configuration that `parse_key_ring_entries` accepts names no version twice, and the ring that it
-- makes is sound, placeholders rejected.
pub parse_key_ring_entries-IsSound :
    (z : Cipher) (entries : List (ℕ × Option Text)) (active : ℕ) (aad : Bytes) (required : List ℕ)
    (ring : KeyRing)
    → parse_key_ring_entries z entries active aad required ≡ ok ring
    → DistinctVersions entries × IsSound true required ring
unfolding parse_key_ring_entries
parse_key_ring_entries-IsSound z entries active aad required ring h =
    let (decoded, h1, h2) = >>=-eq-ok (decode_entries z [] entries) _ h in
    (
      (decode_entries-distinct z [] entries h1).1,
      from_keys-IsSound decoded active aad required true ring h2,
    )
