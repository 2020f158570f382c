-- ===== src/KeyRotation/Blockers.antt =====
-- A key version may be retired exactly when nothing requires it.
use mnemex.Base.{
  ℕ, zero, suc, ◌≤◌, ◌≡◌, ◌↔◌, refl, ap, sym, ◌∙◌, Bool, true, false, ◌||◌, List, [], ◌∷◌, ◌++◌,
  arith, ltb, ◌==◌, length, select, ok, or_raise, runtime_error, improperly_configured, Bool-cases,
  inl, inr, ◌>>=◌, guard, >>=-eq-ok, or_raise-eq-ok,
}
use mnemex.Base.Strip.{is_empty}
use mnemex.Base.Ordered.{order_by, length-order_by}
use mnemex.Keyring.Model.{contains}
use mnemex.KeyRotation.Model.{
  Rotation, Authenticator, SealedRecipient, Db, Settings, is_mfa, is_active, checked_version,
}
use mnemex.KeyRotation.Retirement.{
  Purpose, KeyRetirementBlocker, active_key_version, active_rotation_job, authenticator_ciphertext,
  backup_evidence, notification_ciphertext, one_if, mfa, notification, version_of, depends_on,
  authenticator_dependency_count, authenticator_versions, rotation_versions, recipient_versions,
  required_key_versions, key_retirement_blockers, assert_key_version_retirable, names_version,
  sealed_under, blocker, Code, earlier, row_blockers, active_version_of,
}

contains-append : (v : ℕ) (xs ys : List ℕ) → contains v (xs ++ ys) ≡ contains v xs || contains v ys
unfolding contains
contains-append v [] ys = refl
contains-append v (x ∷ xs) ys = let more = contains-append v xs ys in ground arith

abbrev has_some {ℓ} : {A : Type ℓ} → List A → Bool
has_some xs = ltb 0 (length xs)

has_some-append {ℓ} :
    {A : Type ℓ} (xs ys : List A) → has_some (xs ++ ys) ≡ has_some xs || has_some ys
has_some-append [] ys = refl
has_some-append (x ∷ xs) ys = ground arith

has_some-blocker : (c : Code) (n : ℕ) → has_some (blocker c n) ≡ ltb 0 n
has_some-blocker c zero = refl
has_some-blocker c (suc n) = ground arith

abbrev some_of {ℓ} : {A : Type ℓ} → (A → Bool) → List A → Bool
some_of p [] = false
some_of p (x ∷ xs) = p x || some_of p xs

select-some_of {ℓ} :
    {A : Type ℓ} (p : A → Bool) (xs : List A) → has_some (select p xs) ≡ some_of p xs
select-some_of p [] = refl
select-some_of p (x ∷ xs) =
    let rest = select-some_of p xs in
    elim (Bool-cases (p x)) [ inl e ↦ rw e (ground arith) | inr e ↦ rw e rest ]

contains-authenticator_versions :
    (v : ℕ) (rows : List Authenticator) (vs : List ℕ)
    → authenticator_versions rows ≡ ok vs
    → contains v vs ≡ some_of (depends_on v) rows
unfolding contains authenticator_versions
contains-authenticator_versions v [] vs h = cc
contains-authenticator_versions v (a ∷ rows) vs h = elim (Bool-cases (is_mfa a.type_of)) [
  | inl m ↦
      let (w, hw, next) =
        >>=-eq-ok (or_raise (version_of a) improperly_configured)
          (λ w. authenticator_versions rows >>= λ ws. ok (w ∷ ws)) (rw m at h) in
      let found = or_raise-eq-ok (version_of a) improperly_configured hw in
      let (ws, hws, last) = >>=-eq-ok (authenticator_versions rows) (λ ws. ok (w ∷ ws)) next in
      let same : w ∷ ws ≡ vs = cc last in
      rw (sym same, m, found)
        (ap (λ b. (w == v) || b) (contains-authenticator_versions v rows ws hws))
  | inr m ↦ rw m (contains-authenticator_versions v rows vs (rw m at h))
]

contains-rotation_versions :
    (v : ℕ) (rows : List Rotation)
    → contains v (rotation_versions rows) ≡ some_of (names_version v) rows
unfolding contains rotation_versions
contains-rotation_versions v [] = refl
contains-rotation_versions v (j ∷ rows) =
    let more = contains-rotation_versions v rows in
    elim (Bool-cases (is_active j.status)) [
      | inl e ↦ rw (e, more) (ground arith)
      | inr e ↦ rw (e, more)
    ]

contains-recipient_versions :
    (v : ℕ) (rows : List SealedRecipient)
    → contains v (recipient_versions rows) ≡ some_of (sealed_under v) rows
unfolding contains recipient_versions
contains-recipient_versions v [] = refl
contains-recipient_versions v (n ∷ rows) =
    let more = contains-recipient_versions v rows in
    elim (Bool-cases (is_empty n.recipient_ciphertext)) [
      | inl e ↦ rw (e, more) (ground arith)
      | inr e ↦ rw (e, more) (ground arith)
    ]

any_order : (a b c : Bool) → ltb 0 (one_if a) || (b || ltb 0 (one_if c)) ≡ c || (a || b)
any_order true true true = refl
any_order true true false = refl
any_order true false true = refl
any_order true false false = refl
any_order false true true = refl
any_order false true false = refl
any_order false false true = refl
any_order false false false = refl

guard_none :
    (n m : ℕ) (b : Bool)
    → n ≡ m
    → ltb 0 m ≡ b
    → (guard (n == 0) runtime_error ≡ ok tt) ↔ (b ≡ false)
guard_none n m true e h = let d : (n == 0) ≡ false = ground arith in rw d ((λ k. cc), (λ k. cc))
guard_none n m false e h = let d : (n == 0) ≡ true = ground arith in rw d ((λ k. refl), (λ k. refl))

-- A version that a row names is counted by a blocker.
abbrev rows_name : Purpose → ℕ → Db → Bool
rows_name mfa v db =
    some_of (depends_on v) db.authenticators || some_of (names_version v) db.rotations
rows_name notification v db = some_of (sealed_under v) db.recipients

module _ (backup : Purpose → List ℕ) (s : Settings) (v : ℕ) (positive : 1 ≤ v) where
  has_some-row_blockers :
      (p : Purpose) (db : Db) → has_some (row_blockers backup s p v db) ≡ rows_name p v db
  unfolding authenticator_dependency_count
  has_some-row_blockers mfa db =
      let count = length (select (depends_on v) db.authenticators) in
      let jobs = length (select (names_version v) db.rotations) in
      rw (
        has_some-append (blocker authenticator_ciphertext count) (blocker active_rotation_job jobs),
        has_some-blocker authenticator_ciphertext count,
        has_some-blocker active_rotation_job jobs,
        select-some_of (depends_on v) db.authenticators,
        select-some_of (names_version v) db.rotations,
      )
  has_some-row_blockers notification db =
      has_some-blocker notification_ciphertext (length (select (sealed_under v) db.recipients))
      ∙ select-some_of (sealed_under v) db.recipients

  required-rows :
      (p : Purpose) (db : Db) (vs : List ℕ)
      → required_key_versions backup s p db ≡ ok vs
      → contains v vs ≡ contains v (backup p) || (active_version_of p s == v || rows_name p v db)
  unfolding required_key_versions contains
  required-rows mfa db vs h =
      let (ws, hws, last) =
        >>=-eq-ok (authenticator_versions db.authenticators)
          (λ ws. ok (backup mfa ++ s.mfa_active_version ∷ (ws ++ rotation_versions db.rotations)))
          h in
      let same : backup mfa ++ s.mfa_active_version ∷ (ws ++ rotation_versions db.rotations) ≡ vs =
        cc last in
      rw (
        sym same,
        contains-append v (backup mfa)
            (s.mfa_active_version ∷ (ws ++ rotation_versions db.rotations)),
        contains-append v ws (rotation_versions db.rotations),
        contains-authenticator_versions v db.authenticators ws hws,
        contains-rotation_versions v db.rotations,
      )
  required-rows notification db vs h =
      let same : backup notification
            ++ s.notification_active_version ∷ recipient_versions db.recipients
          ≡ vs =
        cc h in
      rw (
        sym same,
        contains-append v (backup notification)
            (s.notification_active_version ∷ recipient_versions db.recipients),
        contains-recipient_versions v db.recipients,
      )

  all_blockers : Purpose → Db → List KeyRetirementBlocker
  unfolding contains
  all_blockers p db =
      blocker active_key_version (one_if (active_version_of p s == v))
      ++ (row_blockers backup s p v db ++ blocker backup_evidence (one_if (contains v (backup p))))

  has_some-all_blockers :
      (p : Purpose) (db : Db) (vs : List ℕ)
      → required_key_versions backup s p db ≡ ok vs
      → has_some (all_blockers p db) ≡ contains v vs
  unfolding all_blockers
  has_some-all_blockers p db vs h =
      rw
        (
          has_some-append (blocker active_key_version (one_if (active_version_of p s == v))) (
              row_blockers backup s p v db
              ++ blocker backup_evidence (one_if (contains v (backup p)))),
          has_some-append (row_blockers backup s p v db)
              (blocker backup_evidence (one_if (contains v (backup p)))),
          has_some-blocker active_key_version (one_if (active_version_of p s == v)),
          has_some-blocker backup_evidence (one_if (contains v (backup p))),
          has_some-row_blockers p db,
          required-rows p db vs h,
        )
        (any_order (active_version_of p s == v) (rows_name p v db) (contains v (backup p)))

  -- For a positive version, and where the required versions can be read from the rows, the version
  -- may be retired exactly if it is not one of them.
  pub assert_key_version_retirable_iff :
      (p : Purpose) (db : Db) (vs : List ℕ)
      → required_key_versions backup s p db ≡ ok vs
      → (assert_key_version_retirable backup s p v db ≡ ok tt) ↔ (contains v vs ≡ false)
  unfolding assert_key_version_retirable key_retirement_blockers required_key_versions
      authenticator_dependency_count checked_version all_blockers
  assert_key_version_retirable_iff p db vs h =
      let big : ltb v 1 ≡ false = ground arith in
      rw big (
        guard_none (length (order_by earlier (all_blockers p db))) (length (all_blockers p db))
          (contains v vs) (length-order_by earlier (all_blockers p db))
          (has_some-all_blockers p db vs h))
