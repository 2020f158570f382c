-- ===== src/Keyring/Model.antt =====
-- A ring of keys by version, the checks that make one, and its texts `v<version>.<payload>`
-- (`VersionedKeyRing`, `parse_key_ring_entries`). The ciphers, base64 and UTF-8 are parameters; the
-- label and the texts of errors are left out. Bytes and texts are lists of numbers.
use mnemex.Base.{
  ℕ, suc, Bool, true, false, not, ◌&&◌, ◌||◌, Option, none, some, List, [], ◌∷◌, ◌++◌, ltb, leb,
  ◌==◌, if◌then◌else◌, is_some, length, take, drop, Result, ok, err, ◌>>=◌, ◌>>◌, guard, or_raise,
  improperly_configured, value_error, key_error,
}
use mnemex.Keyring.Decimal.{Text, is_digit, leads, decimal, number}

abbrev pub Bytes : Type 0
Bytes = List ℕ

unfoldable pub same_bytes : Bytes → Bytes → Bool
same_bytes [] [] = true
same_bytes (b ∷ bs) (c ∷ cs) = b == c && same_bytes bs cs
same_bytes _ _ = false

-- What the ring uses of the library of ciphers (AES-GCM with a context), of base64 and of UTF-8.
pub record Cipher : Type 0 where
  pub seal : Bytes → Bytes → Bytes → Bytes → Bytes
  pub open_sealed : Bytes → Bytes → Bytes → Bytes → Option Bytes
  pub encode64 : Bytes → Text
  pub decode64 : Text → Option Bytes
  -- `base64.b64decode(encoded, validate=True)`, which the entries of the configuration go through.
  pub decode64_strict : Text → Option Bytes
  pub encode_utf8 : Text → Bytes
  pub decode_utf8 : Bytes → Option Text

pub record KeyRing : Type 0 where
  pub keys : List (ℕ × Bytes)
  pub active_version : ℕ
  pub aad : Bytes

pub record DecryptedText : Type 0 where
  pub plaintext : Text
  pub key_version : ℕ

-- `keys.get(version)`
unfoldable pub key_of : ℕ → List (ℕ × Bytes) → Option Bytes
key_of v [] = none
key_of v ((w, k) ∷ ks) = if w == v then some k else key_of v ks

-- `key in normalized.values()`
unfoldable pub has_key : Bytes → List (ℕ × Bytes) → Bool
unfolding same_bytes
has_key k [] = false
has_key k ((w, l) ∷ ks) = same_bytes l k || has_key k ks

unfoldable pub contains : ℕ → List ℕ → Bool
contains b [] = false
contains b (c ∷ cs) = c == b || contains b cs

-- `len(set(key))`
unfoldable pub distinct : Bytes → ℕ
unfolding contains
distinct [] = 0
distinct (b ∷ bs) = if contains b bs then distinct bs else suc (distinct bs)

unfoldable pub looks_like_placeholder : Bytes → Bool
unfolding distinct
looks_like_placeholder key = ltb (distinct key) 8

unfoldable pub validate_version : ℕ → Result ℕ
validate_version v = if ltb v 1 then err improperly_configured else ok v

-- The loop over the keys; the earlier ones are `normalized`, newest first.
unfoldable pub normalize : Bool → List (ℕ × Bytes) → List (ℕ × Bytes) → Result (List (ℕ × Bytes))
unfolding validate_version looks_like_placeholder has_key
normalize reject normalized [] = ok normalized
normalize reject normalized ((v, key) ∷ rest) = do
  version ← validate_version v
  guard (length key == 32) improperly_configured
  guard (not (reject && looks_like_placeholder key)) improperly_configured
  guard (not (has_key key normalized)) improperly_configured
  normalize reject ((version, key) ∷ normalized) rest

-- `required.issubset(normalized)`, each version checked.
unfoldable pub all_available : List ℕ → List (ℕ × Bytes) → Result (Unit {0})
unfolding validate_version key_of
all_available [] keys = ok tt
all_available (v ∷ vs) keys = do
  version ← validate_version v
  guard (is_some (key_of version keys)) improperly_configured
  all_available vs keys

abbrev pub is_nil : Bytes → Bool
is_nil [] = true
is_nil (b ∷ bs) = false

unfoldable pub from_keys : List (ℕ × Bytes) → ℕ → Bytes → List ℕ → Bool → Result KeyRing
unfolding normalize validate_version key_of all_available
from_keys keys active aad required reject = do
  normalized ← normalize reject [] keys
  version ← validate_version active
  guard (is_some (key_of version normalized)) improperly_configured
  all_available required normalized
  guard (not (is_nil aad)) improperly_configured
  ok (record { keys = normalized; active_version = version; aad = aad })

-- The ordered entries of a configuration; a value is none where it is no text.
unfoldable pub decode_entries :
    Cipher → List (ℕ × Bytes) → List (ℕ × Option Text) → Result (List (ℕ × Bytes))
unfolding validate_version key_of
decode_entries z decoded [] = ok decoded
decode_entries z decoded ((raw, value) ∷ rest) = do
  version ← validate_version raw
  guard (not (is_some (key_of version decoded))) improperly_configured
  encoded ← or_raise value improperly_configured
  key ← or_raise (z.decode64_strict encoded) improperly_configured
  guard (length key == 32) improperly_configured
  decode_entries z (decoded ++ (version, key) ∷ []) rest

unfoldable pub parse_key_ring_entries :
    Cipher → List (ℕ × Option Text) → ℕ → Bytes → List ℕ → Result KeyRing
unfolding decode_entries from_keys
parse_key_ring_entries z entries active aad required = do
  decoded ← decode_entries z [] entries
  from_keys decoded active aad required true

-- `[A-Za-z0-9_-]`
abbrev pub is_body : ℕ → Bool
is_body c =
    (leb 65 c && leb c 90) || ((leb 97 c && leb c 122) || (is_digit c || (c == 95 || c == 45)))

unfoldable pub all_padding : Text → Bool
all_padding [] = true
all_padding (c ∷ s) = c == 61 && all_padding s

unfoldable pub body_then_padding : Text → Bool
unfolding all_padding
body_then_padding [] = true
body_then_padding (c ∷ s) =
    let rest = body_then_padding s in if is_body c then rest else all_padding (c ∷ s)

-- `[A-Za-z0-9_-]+=*`
unfoldable pub is_payload : Text → Bool
unfolding body_then_padding
is_payload [] = false
is_payload (c ∷ s) = is_body c && body_then_padding s

-- The longest run of digits at the start, and what follows it.
unfoldable pub digits_of : Text → Text
digits_of [] = []
digits_of (c ∷ s) = let rest = digits_of s in if is_digit c then c ∷ rest else []

unfoldable pub after_digits : Text → Text
after_digits [] = []
after_digits (c ∷ s) = let rest = after_digits s in if is_digit c then rest else c ∷ s

unfoldable pub payload_after_dot : Text → Option Text
unfolding is_payload
payload_after_dot [] = none
payload_after_dot (c ∷ s) = if c == 46 && is_payload s then some s else none

unfoldable pub version_and_payload : Text → Option (ℕ × Text)
unfolding digits_of after_digits payload_after_dot number
version_and_payload s =
    if leads s
    then elim (payload_after_dot (after_digits s)) [
      | none ↦ none
      | some payload ↦ some (number (digits_of s), payload)
    ]
    else none

-- `_CIPHERTEXT_RE.fullmatch(ciphertext)`: the version and the payload.
unfoldable pub split_ciphertext : Text → Option (ℕ × Text)
unfolding version_and_payload
split_ciphertext [] = none
split_ciphertext (c ∷ s) = if c == 118 then version_and_payload s else none

unfoldable pub ciphertext_version : Text → Result ℕ
unfolding split_ciphertext
ciphertext_version ciphertext = do
  parts ← or_raise (split_ciphertext ciphertext) value_error
  ok parts.0

-- `f"v{version}.{payload}"`
unfoldable pub joined : ℕ → Text → Text
unfolding decimal
joined version payload = 118 ∷ (decimal version ++ 46 ∷ payload)

module _ (z : Cipher) (ring : KeyRing) where
  -- The nonce is the one that `os.urandom(12)` drew. The active key of a ring that `from_keys` made
  -- is there; another ring raises `KeyError`.
  unfoldable pub encrypt_text : Bytes → Text → Result Text
  unfolding key_of joined
  encrypt_text nonce plaintext = do
    key ← or_raise (key_of ring.active_version ring.keys) key_error
    ok (
        joined ring.active_version
          (z.encode64 (nonce ++ z.seal key nonce (z.encode_utf8 plaintext) ring.aad)))

  unfoldable pub decrypt_text : Text → Result DecryptedText
  unfolding split_ciphertext key_of
  decrypt_text ciphertext = do
    parts ← or_raise (split_ciphertext ciphertext) value_error
    key ← or_raise (key_of parts.0 ring.keys) value_error
    sealed ← or_raise (z.decode64 parts.1) value_error
    guard (leb 29 (length sealed)) value_error
    content ← or_raise (z.open_sealed key (take 12 sealed) (drop 12 sealed) ring.aad) value_error
    text ← or_raise (z.decode_utf8 content) value_error
    ok (record { plaintext = text; key_version = parts.0 })
