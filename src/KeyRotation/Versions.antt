-- ===== src/KeyRotation/Versions.antt =====
-- The two readings of a ciphertext's version agree where the strict one succeeds.
use mnemex.Base.{
  ℕ, ◌≡◌, refl, ap, ◌∙◌, true, false, ◌&&◌, some, [], ◌∷◌, arith, ◌==◌, ==_iff, Bool-cases,
  Option-cases, inl, inr, ok, or_raise, value_error, >>=-eq-ok, or_raise-eq-ok,
}
use mnemex.Keyring.Decimal.{Text, is_digit, leads, number}
use mnemex.Keyring.Model.{
  is_payload, digits_of, after_digits, payload_after_dot, version_and_payload, split_ciphertext,
  ciphertext_version,
}
use mnemex.KeyRotation.Retirement.{
  before_dot, all_digits, is_version, version_number, sealed_version,
}

before_dot-digits :
    (s payload : Text) → after_digits s ≡ 46 ∷ payload → before_dot s ≡ some (digits_of s)
unfolding before_dot after_digits digits_of
before_dot-digits [] payload h = cc
before_dot-digits (c ∷ s) payload h = elim (Bool-cases (is_digit c)) [
  | inl e ↦
      let no : (c == 46) ≡ false = ground arith in
      rw (e, no, before_dot-digits s payload (rw e at h))
  | inr e ↦ let same : c ≡ 46 = cc (rw e at h) in rw (e, (==_iff c 46).1 same)
]

all_digits-digits : (s : Text) → all_digits (digits_of s) ≡ true
unfolding all_digits digits_of
all_digits-digits [] = refl
all_digits-digits (c ∷ s) = elim (Bool-cases (is_digit c)) [
  | inl e ↦ rw e (rw e (all_digits-digits s))
  | inr e ↦ rw e
]

leads-is_version : (s : Text) → leads s ≡ true → is_version (digits_of s) ≡ true
unfolding digits_of
leads-is_version [] h = cc
leads-is_version (c ∷ s) h =
    let d : is_digit c ≡ true = ground arith in
    let n : (c == 48) ≡ false = ground arith in rw d (rw (d, n, all_digits-digits s))

payload_after_dot-dot : (t payload : Text) → payload_after_dot t ≡ some payload → t ≡ 46 ∷ payload
unfolding payload_after_dot
payload_after_dot-dot [] payload h = cc
payload_after_dot-dot (c ∷ t) payload h = elim (Bool-cases (c == 46 && is_payload t)) [
  | inl e ↦ let same : c ≡ 46 = ground arith in let rest : some t ≡ some payload = rw e at h in cc
  | inr e ↦ cc (rw e at h)
]

version_and_payload-number :
    (s : Text) (v : ℕ) (payload : Text)
    → version_and_payload s ≡ some (v, payload)
    → version_number (before_dot s) ≡ some v
unfolding version_and_payload
version_and_payload-number s v payload h = elim (Bool-cases (leads s)) [
  | inr e ↦ cc (rw e at h)
  | inl e ↦ elim (Option-cases (payload_after_dot (after_digits s))) [
    | inl n ↦ cc (rw (e, n) at h)
    | inr (q, n) ↦
        let same : number (digits_of s) ≡ v = cc (rw (e, n) at h) in
        rw (
          before_dot-digits s q (payload_after_dot-dot (after_digits s) q n),
          leads-is_version s e,
          same,
        )
  ]
]

-- The strict reading of a ciphertext's version agrees with the reading that counts dependencies.
pub ciphertext_version-sealed_version :
    (c : Text) (v : ℕ) → ciphertext_version c ≡ ok v → sealed_version (some c) ≡ some v
unfolding ciphertext_version sealed_version split_ciphertext version_and_payload payload_after_dot
ciphertext_version-sealed_version [] v h = cc
ciphertext_version-sealed_version (c ∷ s) v h = elim (Bool-cases (c == 118)) [
  | inr e ↦ cc (rw e at h)
  | inl e ↦
      let (parts, found, same) =
        >>=-eq-ok (or_raise (version_and_payload s) value_error) (λ parts. ok parts.0)
          (rw e at h) in
      let read =
        version_and_payload-number s parts.0 parts.1
          (or_raise-eq-ok (version_and_payload s) value_error found) in
      rw e (read ∙ ap (λ n. some n) (cc same))
]
