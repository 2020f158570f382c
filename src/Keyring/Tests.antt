-- ===== src/Keyring/Tests.antt =====
-- A ring of one key over a cipher that adds a tag of zeros, with unary numbers in place of base64.
use mnemex.Base.{
  ℕ, zero, suc, ◌+◌, ◌-◌, ◌≤◌, ◌≡◌, ◌≢◌, refl, ap, ◌∙◌, true, some, [], ◌∷◌, ◌++◌, arith, ◌==◌,
  if◌then◌else◌, length, length-append, take, ok, err, improperly_configured, ◌↔◌, value_error,
}
use mnemex.Keyring.Decimal.{Text, decimal, decimal_in, number, number_from}
use mnemex.Keyring.Json.{
  canonical_version, canonical_entries, parse_key_ring_json, canonical_version_iff,
}
use mnemex.Keyring.Model.{
  same_bytes, Bytes, Cipher, KeyRing, key_of, has_key, looks_like_placeholder, validate_version,
  normalize, all_available, from_keys, decode_entries, parse_key_ring_entries, body_then_padding,
  is_payload, joined, encrypt_text, decrypt_text, ciphertext_version,
}
use mnemex.Keyring.Sealing.{IsFaithful, decrypt_text-encrypt_text, decrypt_text-encrypt_text_empty}
use mnemex.Keyring.Validation.{DistinctVersions, IsSound, parse_key_ring_entries-IsSound}

abbrev pub zeros : ℕ → Bytes
zeros zero = []
zeros (suc n) = 0 ∷ zeros n

abbrev pub letters : ℕ → Text → Text
letters zero s = s
letters (suc n) s = 65 ∷ letters n s

abbrev pub unary : Bytes → Text
unary [] = []
unary (b ∷ bs) = letters b (66 ∷ unary bs)

abbrev pub read_unary : ℕ → Text → Bytes
read_unary n [] = []
read_unary n (c ∷ s) = if c == 65 then read_unary (suc n) s else n ∷ read_unary 0 s

abbrev pub plain : Cipher
plain = record {
  seal = λ key nonce content aad. content ++ zeros 16;
  open_sealed = λ key nonce sealed aad. some (take (length sealed - 16) sealed);
  encode64 = unary;
  decode64 = λ s. some (read_unary 0 s);
  decode64_strict = λ s. some (read_unary 0 s);
  encode_utf8 = λ t. t;
  decode_utf8 = λ b. some b;
}

read-letters : (k n : ℕ) (s : Text) → read_unary n (letters k (66 ∷ s)) ≡ (n + k) ∷ read_unary 0 s
read-letters zero n s = ap (λ m. m ∷ read_unary 0 s) (let e : n ≡ n + 0 = omega arith in e)
read-letters (suc k) n s =
    read-letters k (suc n) s
    ∙ ap (λ m. m ∷ read_unary 0 s) (let e : suc n + k ≡ n + suc k = omega arith in e)

read-unary : (b : Bytes) → read_unary 0 (unary b) ≡ b
read-unary [] = refl
read-unary (x ∷ b) =
    read-letters x 0 (unary b)
    ∙ ap (λ m. m ∷ read_unary 0 (unary b)) (let e : 0 + x ≡ x = omega arith in e)
    ∙ ap (λ t. x ∷ t) (read-unary b)

letters-body :
    (k : ℕ) (s : Text) → body_then_padding s ≡ true → body_then_padding (letters k s) ≡ true
unfolding body_then_padding
letters-body zero s h = h
letters-body (suc k) s h = letters-body k s h

unary-body : (b : Bytes) → body_then_padding (unary b) ≡ true
unfolding body_then_padding
unary-body [] = refl
unary-body (x ∷ b) = letters-body x (66 ∷ unary b) (unary-body b)

unary-payload : (b : Bytes) → 1 ≤ length b → is_payload (unary b) ≡ true
unfolding is_payload body_then_padding
unary-payload [] h = absurd (omega arith)
unary-payload (zero ∷ b) h = unary-body b
unary-payload (suc x ∷ b) h = letters-body x (66 ∷ unary b) (unary-body b)

take_front : (b : Bytes) → take (length b) (b ++ zeros 16) ≡ b
take_front [] = refl
take_front (x ∷ b) = ap (λ t. x ∷ t) (take_front b)

plain-IsFaithful : IsFaithful plain
plain-IsFaithful = record {
  opens = λ key nonce content aad.
      ap (λ t. some t)
        (ap (λ n. take n (content ++ zeros 16))
            (let e : length (content ++ zeros 16) - 16 ≡ length content =
                omega (arith, length-append content (zeros 16)) in
              e)
          ∙ take_front content);
  tagged = λ key nonce content aad. length-append content (zeros 16);
  decodes = λ b. ap (λ t. some t) (read-unary b);
  alphabet = unary-payload;
  reads = λ t. refl;
}

-- 32 bytes, 8 of them different.
abbrev pub first_key : Bytes
first_key = 1 ∷ 2 ∷ 3 ∷ 4 ∷ 5 ∷ 6 ∷ 7 ∷ 8 ∷ zeros 24

abbrev ring : KeyRing
ring = record { keys = (3, first_key) ∷ []; active_version = 3; aad = 9 ∷ [] }

abbrev nonce : Bytes
nonce = zeros 12

parsed :
    parse_key_ring_entries plain ((3, some (unary first_key)) ∷ []) 3 (9 ∷ []) (3 ∷ []) ≡ ok ring
unfolding parse_key_ring_entries decode_entries from_keys normalize validate_version
    looks_like_placeholder has_key all_available key_of
parsed = refl

repeated :
    parse_key_ring_entries plain
      ((3, some (unary first_key)) ∷ (3, some (unary first_key)) ∷ [])
      3
      (9 ∷ [])
      []
    ≢ ok ring
unfolding parse_key_ring_entries decode_entries validate_version key_of
repeated h = cc

parse_key_ring_entries-IsSound_example :
    DistinctVersions ((3, some (unary first_key)) ∷ []) × IsSound true (3 ∷ []) ring
parse_key_ring_entries-IsSound_example =
    parse_key_ring_entries-IsSound plain ((3, some (unary first_key)) ∷ []) 3 (9 ∷ []) (3 ∷ []) ring
      parsed

abbrev sealed_of : Text → Text
sealed_of t = joined 3 (unary (nonce ++ (t ++ zeros 16)))

decrypt_text-encrypt_text_example :
    (encrypt_text plain ring nonce (104 ∷ 105 ∷ []) ≡ ok (sealed_of (104 ∷ 105 ∷ [])))
    × (ciphertext_version (sealed_of (104 ∷ 105 ∷ [])) ≡ ok 3)
    × (decrypt_text plain ring (sealed_of (104 ∷ 105 ∷ []))
        ≡ ok (record { plaintext = 104 ∷ 105 ∷ []; key_version = 3 }))
unfolding key_of
decrypt_text-encrypt_text_example =
    decrypt_text-encrypt_text plain plain-IsFaithful ring first_key nonce (104 ∷ 105 ∷ []) refl
      (omega arith) refl (omega arith)

decrypt_text-encrypt_text_empty_example :
    (encrypt_text plain ring nonce [] ≡ ok (sealed_of []))
    × (decrypt_text plain ring (sealed_of []) ≡ err value_error)
unfolding key_of
decrypt_text-encrypt_text_empty_example =
    decrypt_text-encrypt_text_empty plain plain-IsFaithful ring first_key nonce [] refl
      (omega arith) refl refl

canonical_version_iff_example :
    (canonical_version (49 ∷ 48 ∷ []) ≡ some 10) ↔ ((1 ≤ 10) × (49 ∷ 48 ∷ [] ≡ decimal 10))
canonical_version_iff_example = canonical_version_iff (49 ∷ 48 ∷ []) 10

from_json :
    parse_key_ring_json
      (λ raw. some ((51 ∷ [], some (unary first_key)) ∷ []))
      plain
      []
      3
      (9 ∷ [])
      []
    ≡ ok ring
unfolding parse_key_ring_json canonical_entries canonical_version number number_from decimal
    decimal_in same_bytes parse_key_ring_entries decode_entries from_keys normalize validate_version
    looks_like_placeholder has_key all_available key_of
from_json = refl

leading_zero :
    parse_key_ring_json
      (λ raw. some ((48 ∷ 51 ∷ [], some (unary first_key)) ∷ []))
      plain
      []
      3
      (9 ∷ [])
      []
    ≡ err improperly_configured
unfolding parse_key_ring_json canonical_entries canonical_version number number_from decimal
    decimal_in same_bytes
leading_zero = refl
