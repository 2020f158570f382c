-- ===== src/KeyRotation/Retirement.antt =====
-- When a key version may be retired (`required_key_versions`, `key_retirement_blockers`). The
-- versions that the manifests of backups require are a parameter. Texts are ASCII.
use mnemex.Base.{
  ℕ, zero, suc, Bool, true, false, not, ◌&&◌, ◌||◌, Option, none, some, List, [], ◌∷◌, ◌++◌, ltb,
  leb, ◌==◌, if◌then◌else◌, length, select, is_some, Result, ok, ◌>>=◌, guard, or_raise,
  improperly_configured, runtime_error,
}
use mnemex.Base.Strip.{is_empty}
use mnemex.Base.Ordered.{order_by}
use mnemex.Keyring.Decimal.{Text, is_digit, number}
use mnemex.Keyring.Model.{Bytes, contains, key_of}
use mnemex.KeyRotation.Model.{
  Rotation, Authenticator, AuthenticatorType, totp, SealedRecipient, Db, Settings, is_mfa,
  is_active, checked_version,
}

pub data Purpose : Type 0 where
  mfa notification : Purpose

-- What stands before the first dot; none where there is no dot.
unfoldable pub before_dot : Text → Option Text
before_dot [] = none
before_dot (c ∷ s) =
    let rest = before_dot s in
    if c == 46 then some [] else elim rest [ none ↦ none | some t ↦ some (c ∷ t) ]

unfoldable pub all_digits : Text → Bool
all_digits [] = true
all_digits (c ∷ s) = is_digit c && all_digits s

-- `isdigit()` and no leading zero, on ASCII.
abbrev pub is_version : Text → Bool
is_version [] = false
is_version (c ∷ s) = (is_digit c && all_digits s) && not (c == 48)

abbrev pub version_number : Option Text → Option ℕ
version_number none = none
version_number (some t) = if is_version t then some (number t) else none

-- `_ciphertext_version`: it asks nothing of the payload.
unfoldable pub sealed_version : Option Text → Option ℕ
unfolding before_dot all_digits number
sealed_version none = none
sealed_version (some []) = none
sealed_version (some (c ∷ s)) = if c == 118 then version_number (before_dot s) else none

-- The field that holds the ciphertext, for the two types that are read.
abbrev pub field_of : AuthenticatorType → Authenticator → Option Text
field_of totp a = a.secret
field_of _ a = a.seed

abbrev pub version_of : Authenticator → Option ℕ
version_of a = sealed_version (field_of a.type_of a)

abbrev pub is_version_of : ℕ → Option ℕ → Bool
is_version_of v none = false
is_version_of v (some w) = w == v

abbrev pub depends_on : ℕ → Authenticator → Bool
depends_on v a = is_mfa a.type_of && is_version_of v (version_of a)

unfoldable pub authenticator_dependency_count : ℕ → Db → ℕ
authenticator_dependency_count v db = length (select (depends_on v) db.authenticators)

abbrev pub active_version_of : Purpose → Settings → ℕ
active_version_of mfa s = s.mfa_active_version
active_version_of notification s = s.notification_active_version

-- The versions of the authenticators; one that cannot be read stops the whole.
unfoldable pub authenticator_versions : List Authenticator → Result (List ℕ)
unfolding sealed_version
authenticator_versions [] = ok []
authenticator_versions (a ∷ rest) =
    let others = authenticator_versions rest in
    if is_mfa a.type_of
    then (do v ← or_raise (version_of a) improperly_configured; vs ← others; ok (v ∷ vs))
    else others

unfoldable pub rotation_versions : List Rotation → List ℕ
rotation_versions [] = []
rotation_versions (j ∷ rest) =
    let others = rotation_versions rest in
    if is_active j.status then j.source_key_version ∷ j.target_key_version ∷ others else others

unfoldable pub recipient_versions : List SealedRecipient → List ℕ
unfolding is_empty
recipient_versions [] = []
recipient_versions (n ∷ rest) =
    let others = recipient_versions rest in
    if is_empty n.recipient_ciphertext then others else n.encryption_key_version ∷ others

pub data Code : Type 0 where
  active_key_version active_rotation_job authenticator_ciphertext backup_evidence : Code
  notification_ciphertext : Code

pub record KeyRetirementBlocker : Type 0 where
  pub code : Code
  pub count : ℕ

-- The place of a code among the codes sorted as texts.
abbrev rank : Code → ℕ
rank active_key_version = 0
rank active_rotation_job = 1
rank authenticator_ciphertext = 2
rank backup_evidence = 3
rank notification_ciphertext = 4

abbrev pub earlier : KeyRetirementBlocker → KeyRetirementBlocker → Bool
earlier a b = ltb (rank a.code) (rank b.code)

-- `if count: blockers.append(...)`
abbrev pub blocker : Code → ℕ → List KeyRetirementBlocker
blocker code zero = []
blocker code (suc n) = record { code = code; count = suc n } ∷ []

abbrev pub one_if : Bool → ℕ
one_if true = 1
one_if false = 0

abbrev pub names_version : ℕ → Rotation → Bool
names_version v j = is_active j.status && (j.source_key_version == v || j.target_key_version == v)

abbrev pub sealed_under : ℕ → SealedRecipient → Bool
sealed_under v n = n.encryption_key_version == v && not (is_empty n.recipient_ciphertext)

module _ (backup : Purpose → List ℕ) (s : Settings) where
  -- A set as the list of its members.
  unfoldable pub required_key_versions : Purpose → Db → Result (List ℕ)
  unfolding authenticator_versions rotation_versions recipient_versions
  required_key_versions mfa db = do
    vs ← authenticator_versions db.authenticators
    ok (backup mfa ++ s.mfa_active_version ∷ (vs ++ rotation_versions db.rotations))
  required_key_versions notification db =
      ok (backup notification ++ s.notification_active_version ∷ recipient_versions db.recipients)

  abbrev pub configured_keys : Purpose → List (ℕ × Bytes)
  configured_keys mfa = s.mfa_keys
  configured_keys notification = s.notification_keys

  unfoldable pub all_configured : List (ℕ × Bytes) → List ℕ → Bool
  unfolding key_of
  all_configured keys [] = true
  all_configured keys (v ∷ vs) = (leb 1 v && is_some (key_of v keys)) && all_configured keys vs

  unfoldable pub assert_configured_key_versions_available : Purpose → Db → Result (Unit {0})
  unfolding required_key_versions all_configured
  assert_configured_key_versions_available p db = do
    required ← required_key_versions p db
    guard (all_configured (configured_keys p) required) improperly_configured

  -- What stands in the way, by the purpose, before it is sorted.
  abbrev pub row_blockers : Purpose → ℕ → Db → List KeyRetirementBlocker
  row_blockers mfa v db =
      blocker authenticator_ciphertext (authenticator_dependency_count v db)
      ++ blocker active_rotation_job (length (select (names_version v) db.rotations))
  row_blockers notification v db =
      blocker notification_ciphertext (length (select (sealed_under v) db.recipients))

  unfoldable pub key_retirement_blockers : Purpose → ℕ → Db → Result (List KeyRetirementBlocker)
  unfolding authenticator_dependency_count contains checked_version order_by
  key_retirement_blockers p key_version db = do
    v ← checked_version key_version
    ok (
        order_by earlier (
          blocker active_key_version (one_if (active_version_of p s == v))
          ++ (row_blockers p v db ++ blocker backup_evidence (one_if (contains v (backup p))))))

  unfoldable pub assert_key_version_retirable : Purpose → ℕ → Db → Result (Unit {0})
  unfolding key_retirement_blockers
  assert_key_version_retirable p key_version db = do
    blockers ← key_retirement_blockers p key_version db
    guard (length blockers == 0) runtime_error
