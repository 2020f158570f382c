-- ===== src/KeyRotation/Reseal.antt =====
-- What one round of a batch does to an authenticator: it stands under another version than the
-- source afterwards, and under what it is sealed with the same text is read.
use mnemex.Base.{
  ℕ, ◌≡◌, ◌≢◌, refl, ap, sym, subst, ◌∙◌, true, false, ◌&&◌, Option, none, some, [], ◌∷◌, arith,
  leb, length, take, drop, ◌==◌, ==_iff, Bool-cases, inl, inr, Result, ok, ◌>>=◌, guard, or_raise,
  value_error, type_error, >>=-eq-ok, guard-eq-ok, or_raise-eq-ok,
}
use mnemex.Keyring.Decimal.{Text}
use mnemex.Keyring.Model.{
  Bytes, Cipher, KeyRing, DecryptedText, key_of, same_bytes, split_ciphertext, ciphertext_version,
  encrypt_text, decrypt_text,
}
use mnemex.KeyRotation.Model.{Authenticator, AuthenticatorType, totp, recovery_codes, other}
use mnemex.KeyRotation.Batch.{
  is_ascii, sealed_field, authenticator_secret, replaced_field, with_secret, reencrypt_and_verify,
}
use mnemex.KeyRotation.Retirement.{field_of, depends_on}
use mnemex.KeyRotation.Versions.{ciphertext_version-sealed_version}

same_bytes-eq : (b c : Bytes) → same_bytes b c ≡ true → b ≡ c
unfolding same_bytes
same_bytes-eq [] [] h = refl
same_bytes-eq [] (c ∷ cs) h = cc
same_bytes-eq (b ∷ bs) [] h = cc
same_bytes-eq (b ∷ bs) (c ∷ cs) h = elim (Bool-cases (b == c)) [
  | inl e ↦ let same : b ≡ c = (==_iff b c).0 e in let rest = same_bytes-eq bs cs (rw e at h) in cc
  | inr e ↦ cc (rw e at h)
]

decrypt_text-version :
    (z : Cipher) (ring : KeyRing) (c : Text) (d : DecryptedText)
    → decrypt_text z ring c ≡ ok d
    → ciphertext_version c ≡ ok d.key_version
unfolding decrypt_text ciphertext_version
decrypt_text-version z ring c d h =
    let (parts, h1, h2) = >>=-eq-ok (or_raise (split_ciphertext c) value_error) _ h in
    let (key, h3, h4) = >>=-eq-ok (or_raise (key_of parts.0 ring.keys) value_error) _ h2 in
    let (sealed, h5, h6) = >>=-eq-ok (or_raise (z.decode64 parts.1) value_error) _ h4 in
    let (t1, h7, h8) = >>=-eq-ok (guard (leb 29 (length sealed)) value_error) _ h6 in
    let (content, h9, h10) =
      >>=-eq-ok
        (or_raise (z.open_sealed key (take 12 sealed) (drop 12 sealed) ring.aad) value_error) _
        h8 in
    let (text, h11, h12) = >>=-eq-ok (or_raise (z.decode_utf8 content) value_error) _ h10 in
    let same : parts.0 ≡ d.key_version = cc h12 in rw (h1, same)

-- What a replacement is: the source version stood there, the same text is read from both, and the
-- replacement stands under the target version.
pub record IsReseal (z : Cipher) (ring : KeyRing) (c r : Text) (source target : ℕ) : Type 0 where
  pub old : DecryptedText
  pub new : DecryptedText
  pub was : ciphertext_version c ≡ ok source
  pub read_old : decrypt_text z ring c ≡ ok old
  pub read_new : decrypt_text z ring r ≡ ok new
  pub same_text : new.plaintext ≡ old.plaintext
  pub under_target : new.key_version ≡ target

module _ (z : Cipher) (ring : KeyRing) (nonce : Bytes) (c : Text) (source target : ℕ) where
  pub reencrypt_and_verify-some :
      (r : Text)
      → reencrypt_and_verify z ring nonce c source target ≡ ok (some r)
      → IsReseal z ring c r source target
  unfolding reencrypt_and_verify
  reencrypt_and_verify-some r h =
      let (v, h1, h2) = >>=-eq-ok (ciphertext_version c) _ h in
      elim (Bool-cases (v == source)) [
        | inr e ↦ cc (rw e at h2)
        | inl e ↦
            let (old, h3, h4) = >>=-eq-ok (decrypt_text z ring c) _ (rw e at h2) in
            let (r', h5, h6) = >>=-eq-ok (encrypt_text z ring nonce old.plaintext) _ h4 in
            let (new, h7, h8) = >>=-eq-ok (decrypt_text z ring r') _ h6 in
            let (t1, h9, h10) = >>=-eq-ok (guard (new.key_version == target) value_error) _ h8 in
            let (t2, h11, h12) =
              >>=-eq-ok (guard (is_ascii new.plaintext && is_ascii old.plaintext) type_error) _
                h10 in
            let (t3, h13, h14) =
              >>=-eq-ok (guard (same_bytes new.plaintext old.plaintext) value_error) _ h12 in
            let same : r' ≡ r = cc h14 in
            record {
              old = old;
              new = new;
              was = h1 ∙ ap (λ n. ok n) ((==_iff v source).0 e);
              read_old = h3;
              read_new = subst (λ x. decrypt_text z ring x ≡ ok new) same h7;
              same_text =
                  same_bytes-eq new.plaintext old.plaintext
                    (guard-eq-ok (same_bytes new.plaintext old.plaintext) value_error h13);
              under_target =
                  (==_iff new.key_version target).0
                    (guard-eq-ok (new.key_version == target) value_error h9);
            }
      ]

  pub reencrypt_and_verify-none :
      reencrypt_and_verify z ring nonce c source target ≡ ok none
      → (v : ℕ) × (ciphertext_version c ≡ ok v) × (v ≢ source)
  unfolding reencrypt_and_verify
  reencrypt_and_verify-none h =
      let (v, h1, h2) = >>=-eq-ok (ciphertext_version c) _ h in
      elim (Bool-cases (v == source)) [
        | inr e ↦ (v, h1, λ s. let y = (==_iff v source).1 s in cc)
        | inl e ↦
            let (old, h3, h4) = >>=-eq-ok (decrypt_text z ring c) _ (rw e at h2) in
            let (r', h5, h6) = >>=-eq-ok (encrypt_text z ring nonce old.plaintext) _ h4 in
            let (new, h7, h8) = >>=-eq-ok (decrypt_text z ring r') _ h6 in
            let (t1, h9, h10) = >>=-eq-ok (guard (new.key_version == target) value_error) _ h8 in
            let (t2, h11, h12) =
              >>=-eq-ok (guard (is_ascii new.plaintext && is_ascii old.plaintext) type_error) _
                h10 in
            let (t3, h13, h14) =
              >>=-eq-ok (guard (same_bytes new.plaintext old.plaintext) value_error) _ h12 in
            cc h14
      ]

replaced_id :
    (ty : AuthenticatorType) (t : Text) (a : Authenticator) → (replaced_field ty t a).id ≡ a.id
replaced_id totp t a = refl
replaced_id recovery_codes t a = refl
replaced_id other t a = refl

replaced_type :
    (ty : AuthenticatorType) (t : Text) (a : Authenticator)
    → (replaced_field ty t a).type_of ≡ a.type_of
replaced_type totp t a = refl
replaced_type recovery_codes t a = refl
replaced_type other t a = refl

sealed-replaced :
    (ty : AuthenticatorType) (t c : Text) (a : Authenticator)
    → sealed_field ty a ≡ some c
    → sealed_field ty (replaced_field ty t a) ≡ some t
sealed-replaced totp t c a h = refl
sealed-replaced recovery_codes t c a h = refl
sealed-replaced other t c a h = cc

field_of-sealed :
    (ty : AuthenticatorType) (c : Text) (a : Authenticator)
    → sealed_field ty a ≡ some c
    → field_of ty a ≡ some c
field_of-sealed totp c a h = h
field_of-sealed recovery_codes c a h = h
field_of-sealed other c a h = cc

pub with_secret-id : (t : Text) (a : Authenticator) → (with_secret t a).id ≡ a.id
unfolding with_secret
with_secret-id t a = replaced_id a.type_of t a

authenticator_secret-with_secret :
    (t c : Text) (a : Authenticator)
    → authenticator_secret a ≡ ok c
    → authenticator_secret (with_secret t a) ≡ ok t
unfolding authenticator_secret with_secret
authenticator_secret-with_secret t c a h =
    let held = or_raise-eq-ok (sealed_field a.type_of a) value_error h in
    rw (replaced_type a.type_of t a, sealed-replaced a.type_of t c a held)

-- An authenticator whose ciphertext names another version does not depend on a version.
authenticator_secret-free :
    (a : Authenticator) (c : Text) (v w : ℕ)
    → authenticator_secret a ≡ ok c
    → ciphertext_version c ≡ ok v
    → v ≢ w
    → depends_on w a ≡ false
unfolding authenticator_secret
authenticator_secret-free a c v w h k ne =
    let held =
      field_of-sealed a.type_of c a (or_raise-eq-ok (sealed_field a.type_of a) value_error h) in
    let read = ciphertext_version-sealed_version c v k in
    let differs : (v == w) ≡ false = ground (arith, ne) in rw (held, read, differs) (ground arith)

abbrev pub after_round : Option Text → Authenticator → Authenticator
after_round none a = a
after_round (some t) a = with_secret t a

-- The text that is read from an authenticator.
unfoldable pub text_of : Cipher → KeyRing → Authenticator → Result Text
unfolding authenticator_secret decrypt_text
text_of z ring a = do
  ciphertext ← authenticator_secret a
  decrypted ← decrypt_text z ring ciphertext
  ok decrypted.plaintext

module _ (z : Cipher) (ring : KeyRing) (nonce : Bytes) (a : Authenticator) (c : Text)
    (source target : ℕ) where
  pub after_round-free :
      (x : Option Text)
      → authenticator_secret a ≡ ok c
      → reencrypt_and_verify z ring nonce c source target ≡ ok x
      → source ≢ target
      → depends_on source (after_round x a) ≡ false
  after_round-free none h k ne =
      let (v, read, differs) = reencrypt_and_verify-none z ring nonce c source target k in
      authenticator_secret-free a c v source h read differs
  after_round-free (some r) h k ne =
      let reseal = reencrypt_and_verify-some z ring nonce c source target r k in
      authenticator_secret-free (with_secret r a) r reseal.new.key_version source
        (authenticator_secret-with_secret r c a h)
        (decrypt_text-version z ring r reseal.new reseal.read_new)
        (λ e. ne (sym e ∙ reseal.under_target))

  pub after_round-text :
      (x : Option Text)
      → authenticator_secret a ≡ ok c
      → reencrypt_and_verify z ring nonce c source target ≡ ok x
      → text_of z ring (after_round x a) ≡ text_of z ring a
  unfolding text_of
  after_round-text none h k = refl
  after_round-text (some r) h k =
      let reseal = reencrypt_and_verify-some z ring nonce c source target r k in
      rw (
        authenticator_secret-with_secret r c a h,
        h,
        reseal.read_old,
        reseal.read_new,
        reseal.same_text,
      )
