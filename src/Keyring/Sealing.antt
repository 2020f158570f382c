-- ===== src/Keyring/Sealing.antt =====
-- What a ring seals it opens, under the version of its active key.
use mnemex.Base.{
  ℕ, zero, suc, ◌+◌, ◌≤◌, ◌≡◌, refl, ap, true, false, some, [], ◌∷◌, ◌++◌, arith, leb, length,
  length-append, take, drop, ok, err, value_error,
}
use mnemex.Keyring.Decimal.{Text}
use mnemex.Keyring.Model.{
  Bytes, Cipher, KeyRing, key_of, is_payload, joined, ciphertext_version, encrypt_text,
  decrypt_text,
}
use mnemex.Keyring.Format.{split_ciphertext-joined}

-- The documented behaviour of the libraries: AES-GCM opens what it sealed under the same key, nonce
-- and context, and adds a tag of 16 bytes; base64 reads back what it wrote, in its own alphabet; and
-- so does UTF-8.
pub record IsFaithful (z : Cipher) : Type 0 where
  pub opens :
      (key nonce content aad : Bytes)
      → z.open_sealed key nonce (z.seal key nonce content aad) aad ≡ some content
  pub tagged :
      (key nonce content aad : Bytes) → length (z.seal key nonce content aad) ≡ length content + 16
  pub decodes : (bytes : Bytes) → z.decode64 (z.encode64 bytes) ≡ some bytes
  pub alphabet : (bytes : Bytes) → 1 ≤ length bytes → is_payload (z.encode64 bytes) ≡ true
  pub reads : (text : Text) → z.decode_utf8 (z.encode_utf8 text) ≡ some text

take-append : (n : ℕ) (xs ys : Bytes) → length xs ≡ n → take n (xs ++ ys) ≡ xs
take-append zero [] ys h = refl
take-append zero (x ∷ xs) ys h = absurd (omega arith)
take-append (suc n) [] ys h = absurd (omega arith)
take-append (suc n) (x ∷ xs) ys h = ap (λ t. x ∷ t) (take-append n xs ys (omega arith))

drop-append : (n : ℕ) (xs ys : Bytes) → length xs ≡ n → drop n (xs ++ ys) ≡ ys
drop-append zero [] ys h = refl
drop-append zero (x ∷ xs) ys h = absurd (omega arith)
drop-append (suc n) [] ys h = absurd (omega arith)
drop-append (suc n) (x ∷ xs) ys h = drop-append n xs ys (omega arith)

module _ (z : Cipher) (faithful : IsFaithful z) (ring : KeyRing) (key nonce : Bytes)
    (plaintext : Text) where
  abbrev sealed : Bytes
  sealed = nonce ++ z.seal key nonce (z.encode_utf8 plaintext) ring.aad

  -- For a ring whose active version is positive and has a key, and a nonce of 12 bytes, the
  -- encryption of a text that is not empty in UTF-8 succeeds; the ciphertext names the active
  -- version, and its decryption gives the text and that version back.
  pub decrypt_text-encrypt_text :
      key_of ring.active_version ring.keys ≡ some key
      → 1 ≤ ring.active_version
      → length nonce ≡ 12
      → 1 ≤ length (z.encode_utf8 plaintext)
      → (encrypt_text z ring nonce plaintext ≡ ok (joined ring.active_version (z.encode64 sealed)))
        × (ciphertext_version (joined ring.active_version (z.encode64 sealed))
            ≡ ok ring.active_version)
        × (decrypt_text z ring (joined ring.active_version (z.encode64 sealed))
            ≡ ok (record { plaintext = plaintext; key_version = ring.active_version }))
  unfolding encrypt_text decrypt_text ciphertext_version
  decrypt_text-encrypt_text found positive twelve some_text =
      let body = z.seal key nonce (z.encode_utf8 plaintext) ring.aad in
      let size : 29 ≤ length sealed = omega (
        arith,
        length-append nonce body,
        faithful.tagged key nonce (z.encode_utf8 plaintext) ring.aad,
      ) in
      let back =
        split_ciphertext-joined ring.active_version (z.encode64 sealed) positive
          (faithful.alphabet sealed (omega arith)) in
      let enough : leb 29 (length sealed) ≡ true = ground arith in
      (
        rw found,
        rw back,
        rw (
          back,
          found,
          faithful.decodes sealed,
          enough,
          take-append 12 nonce body twelve,
          drop-append 12 nonce body twelve,
          faithful.opens key nonce (z.encode_utf8 plaintext) ring.aad,
          faithful.reads plaintext,
        ),
      )

  -- A text that is empty in UTF-8 is encrypted without an error under the same conditions, but its
  -- ciphertext is never decrypted: the nonce and the tag are 28 bytes, and 29 are asked for.
  pub decrypt_text-encrypt_text_empty :
      key_of ring.active_version ring.keys ≡ some key
      → 1 ≤ ring.active_version
      → length nonce ≡ 12
      → length (z.encode_utf8 plaintext) ≡ 0
      → (encrypt_text z ring nonce plaintext ≡ ok (joined ring.active_version (z.encode64 sealed)))
        × (decrypt_text z ring (joined ring.active_version (z.encode64 sealed)) ≡ err value_error)
  unfolding encrypt_text decrypt_text
  decrypt_text-encrypt_text_empty found positive twelve no_text =
      let body = z.seal key nonce (z.encode_utf8 plaintext) ring.aad in
      let size : length sealed ≡ 28 = omega (
        arith,
        length-append nonce body,
        faithful.tagged key nonce (z.encode_utf8 plaintext) ring.aad,
      ) in
      let back =
        split_ciphertext-joined ring.active_version (z.encode64 sealed) positive
          (faithful.alphabet sealed (omega arith)) in
      let short : leb 29 (length sealed) ≡ false = ground arith in
      (rw found, rw (back, found, faithful.decodes sealed, short))
