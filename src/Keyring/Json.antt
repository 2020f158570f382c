-- ===== src/Keyring/Json.antt =====
-- A ring from a JSON object (`parse_key_ring_json`). The reading of JSON is a parameter: the pairs of
-- an object in their order, a value none where it is no text, or none where it is no JSON object.
use mnemex.Base.{
  ℕ, ◌≤◌, ◌≡◌, ◌↔◌, refl, sym, subst, ◌∙◌, Bool, true, false, ◌&&◌, Option, none, some, List, [],
  ◌∷◌, arith, leb, ◌==◌, ==_iff, if◌then◌else◌, Bool-cases, inl, inr, and_left, and_right, Result,
  ok, ◌>>=◌, ◌>>◌, guard, or_raise, improperly_configured,
}
use mnemex.Keyring.Decimal.{Text, decimal, number, number-decimal}
use mnemex.Keyring.Model.{Bytes, Cipher, KeyRing, same_bytes, parse_key_ring_entries}

-- `int(raw_version)` where it is positive and written as `str` writes it.
unfoldable pub canonical_version : Text → Option ℕ
unfolding number decimal same_bytes
canonical_version raw =
    let version = number raw in
    if leb 1 version && same_bytes (decimal version) raw then some version else none

unfoldable pub canonical_entries : List (Text × Option Text) → Result (List (ℕ × Option Text))
unfolding canonical_version
canonical_entries [] = ok []
canonical_entries ((raw, value) ∷ pairs) = do
  version ← or_raise (canonical_version raw) improperly_configured
  entries ← canonical_entries pairs
  ok ((version, value) ∷ entries)

abbrev has_pairs : List (Text × Option Text) → Bool
has_pairs [] = false
has_pairs (p ∷ pairs) = true

unfoldable pub parse_key_ring_json :
    (Text → Option (List (Text × Option Text)))
    → Cipher
    → Text
    → ℕ
    → Bytes
    → List ℕ
    → Result KeyRing
unfolding canonical_entries parse_key_ring_entries
parse_key_ring_json loads z raw active aad required = do
  pairs ← or_raise (loads raw) improperly_configured
  guard (has_pairs pairs) improperly_configured
  entries ← canonical_entries pairs
  parse_key_ring_entries z entries active aad required

same_bytes_iff : (b c : Bytes) → (same_bytes b c ≡ true) ↔ (b ≡ c)
unfolding same_bytes
same_bytes_iff [] [] = ((λ h. refl), (λ h. refl))
same_bytes_iff [] (c ∷ cs) = ((λ h. cc), (λ h. cc))
same_bytes_iff (b ∷ bs) [] = ((λ h. cc), (λ h. cc))
same_bytes_iff (b ∷ bs) (c ∷ cs) = (
  (λ h.
      let same : b ≡ c = (==_iff b c).0 (and_left (b == c) (same_bytes bs cs) h) in
      let rest = (same_bytes_iff bs cs).0 (and_right (b == c) (same_bytes bs cs) h) in cc),
  (λ h.
      let head : b ≡ c = cc h in
      let tail : bs ≡ cs = cc h in rw ((==_iff b c).1 head) ((same_bytes_iff bs cs).1 tail)),
)

-- A text is read as a version exactly if the version is positive and the text is its decimal numeral.
pub canonical_version_iff :
    (raw : Text) (version : ℕ)
    → (canonical_version raw ≡ some version) ↔ ((1 ≤ version) × (raw ≡ decimal version))
unfolding canonical_version
canonical_version_iff raw version = (
  (λ h. elim (Bool-cases (leb 1 (number raw) && same_bytes (decimal (number raw)) raw)) [
    | inr e ↦ cc (rw e at h)
    | inl e ↦
        let same : number raw ≡ version = cc (rw e at h) in
        let text =
          (same_bytes_iff (decimal (number raw)) raw).0 (and_right (leb 1 (number raw)) _ e) in
        let low : leb 1 (number raw) ≡ true = and_left (leb 1 (number raw)) _ e in
        (
          (let positive : 1 ≤ number raw = ground arith in subst (λ n. 1 ≤ n) same positive),
          sym text ∙ (rw same),
        )
  ]),
  (λ (low, text).
      let positive : leb 1 version ≡ true = ground arith in
      rw (
        text,
        number-decimal version,
        positive,
        (same_bytes_iff (decimal version) (decimal version)).1 refl,
      )),
)
