-- ===== src/Keyring/Format.antt =====
-- A ciphertext is read back as the version and the payload that it was written from.
use mnemex.Base.{ℕ, ◌≤◌, ◌≡◌, refl, ap, true, some, [], ◌∷◌, ◌++◌}
use mnemex.Keyring.Decimal.{
  Text, leads, decimal, number-decimal, AllDigits, decimal-AllDigits, decimal-leads,
}
use mnemex.Keyring.Model.{
  is_payload, digits_of, after_digits, payload_after_dot, version_and_payload, split_ciphertext,
  joined,
}

digits_of-append : (s payload : Text) → AllDigits s → digits_of (s ++ 46 ∷ payload) ≡ s
unfolding digits_of
digits_of-append [] payload h = refl
digits_of-append (c ∷ s) payload h = rw h.0 (ap (λ t. c ∷ t) (digits_of-append s payload h.1))

after_digits-append :
    (s payload : Text) → AllDigits s → after_digits (s ++ 46 ∷ payload) ≡ 46 ∷ payload
unfolding after_digits
after_digits-append [] payload h = refl
after_digits-append (c ∷ s) payload h = rw h.0 (after_digits-append s payload h.1)

leads-before : (s t : Text) → leads s ≡ true → leads (s ++ t) ≡ true
leads-before [] t h = cc
leads-before (c ∷ s) t h = h

-- What `joined` writes, `split_ciphertext` reads: the version is a positive number and the payload
-- is of the alphabet of base64 with its padding.
pub split_ciphertext-joined :
    (version : ℕ) (payload : Text)
    → 1 ≤ version
    → is_payload payload ≡ true
    → split_ciphertext (joined version payload) ≡ some (version, payload)
unfolding split_ciphertext joined version_and_payload payload_after_dot
split_ciphertext-joined version payload h p = rw (
  leads-before (decimal version) (46 ∷ payload) (decimal-leads version h),
  after_digits-append (decimal version) payload (decimal-AllDigits version),
  p,
  digits_of-append (decimal version) payload (decimal-AllDigits version),
  number-decimal version,
)
