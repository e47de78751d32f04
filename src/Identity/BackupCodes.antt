-- ===== src/Identity/BackupCodes.antt =====
-- Backup codes of client users, from the acceptance of a code on.
use brokerplatform.Prelude.{
  sym, subst, ℕ, ◌≡◌, refl, true, false, none, some, List, [], ◌∷◌, ◌&&◌, String, arith, map,
  filter_by, ◌==◌, update_where, inl, inr, is_empty, All, Bool-cases, ap, ◌∙◌, filter_by_none, any,
  conflict_free-update_where, Bool, conflict_free, All-update_where, if◌then◌else◌,
}
use brokerplatform.Identity.Crypto.{Node, hash_backup_code, encrypt_secret}
use brokerplatform.Identity.Mfa.{
  save_mfa_enrollment_work, save_mfa_enrollment, consume_backup_code, holds_code, array_remove,
  consume_backup_code_work, confirm_mfa_enrollment, confirm_mfa_enrollment_work,
}
use brokerplatform.Db.Schema.{MfaSecret, Db}
use brokerplatform.Db.Transaction.{
  World, ok, ◌>>=◌, with_authorization_context, conclude, Ambient, update, begin,
}
use brokerplatform.Db.Inversion.{
  random_bytes_elim, upsert_inv, returned_inv, update_elim, settle, now_elim, insert_inv,
}
use brokerplatform.Db.Policies.Sessions.{client_user_mfa_secrets}
use brokerplatform.Db.Policies.People.{client_users}
use brokerplatform.Db.Policies.Logs.{audit_log}
use brokerplatform.Audit.{record_audit_event}
use brokerplatform.Db.Context.{as_system}

-- The functions that write the secrets and the backup codes of client users.
pub data MfaOperation : Type 0 where
  enrol : ℕ → String → List String → MfaOperation
  confirm : ℕ → MfaOperation
  consume : ℕ → String → MfaOperation

-- The hash is not among the codes that are left.
consumed_row :
    (hash : String) (codes : List String) → holds_code hash (array_remove codes hash) ≡ false
consumed_row hash [] = refl
consumed_row hash (c ∷ codes) = let rest = consumed_row hash codes in ground arith

-- To take a code out adds none.
other_row :
    (hash other : String) (codes : List String)
    → holds_code hash codes ≡ false
    → holds_code hash (array_remove codes other) ≡ false
other_row hash other [] h = refl
other_row hash other (c ∷ codes) h =
    let rest = other_row hash other codes (ground arith) in ground arith

any_of_none :
    (p : MfaSecret → Bool) (rows : List MfaSecret)
    → is_empty (filter_by p rows) ≡ true
    → any p rows ≡ false
any_of_none p [] h = refl
any_of_none p (m ∷ rows) h = elim (Bool-cases (p m)) [
  | inl met ↦ ground arith
  | inr unmet ↦ let rest = any_of_none p rows (ground arith) in ground arith
]

abbrev holds_hash : ℕ → String → MfaSecret → Bool
holds_hash user hash m = m.client_user_id == user && holds_code hash m.backup_codes_hash

abbrev without_hash : String → MfaSecret → MfaSecret
without_hash hash m = record m { backup_codes_hash = array_remove m.backup_codes_hash hash }

-- The client users have one row each, and none of the given one holds the hash.
abbrev IsGone : ℕ → String → List MfaSecret → Type 0
IsGone user hash rows =
    (conflict_free client_user_mfa_secrets.conflicts rows ≡ true)
    × All (λ m. holds_hash user hash m ≡ false) rows

consumed_rows :
    (user : ℕ) (hash : String) (rows : List MfaSecret)
    → All
        (λ m. holds_hash user hash m ≡ false)
        (update_where (holds_hash user hash) (without_hash hash) rows)
consumed_rows user hash [] = tt
consumed_rows user hash (m ∷ rows) =
    let gone = consumed_row hash m.backup_codes_hash in (ground arith, consumed_rows user hash rows)

consumed_keeps :
    (user : ℕ) (hash : String) (other : ℕ) (taken : String) (m : MfaSecret)
    → holds_hash user hash m ≡ false
    → holds_hash user hash (if holds_hash other taken m then without_hash taken m else m) ≡ false
consumed_keeps user hash other taken m h = elim (Bool-cases (holds_code hash m.backup_codes_hash)) [
  | inl held ↦ ground arith
  | inr free ↦ let kept = other_row hash taken m.backup_codes_hash free in ground arith
]

enrolled_keeps :
    (user : ℕ) (hash : String) (other : ℕ) (secret : String) (codes : List String) (m : MfaSecret)
    → (other == user && holds_code hash codes) ≡ false
    → holds_hash user hash m ≡ false
    → holds_hash user hash (
        if other == m.client_user_id
        then record m { secret_encrypted = secret; backup_codes_hash = codes; enrolled_at = none }
        else m)
      ≡ false
enrolled_keeps user hash other secret codes m fresh h = ground arith

module _ (node : Node) where
  -- The database after an operation, whether it returned or threw.
  unfoldable pub run_mfa_operation : MfaOperation → Ambient → Db → Db
  unfolding save_mfa_enrollment confirm_mfa_enrollment consume_backup_code
  run_mfa_operation (MfaOperation.enrol user secret codes) t db =
      (save_mfa_enrollment node user secret codes t db).1
  run_mfa_operation (MfaOperation.confirm user) t db = (confirm_mfa_enrollment user t db).1
  run_mfa_operation (MfaOperation.consume user code) t db =
      (consume_backup_code node user code t db).1

  -- One after the other, each at its time.
  unfoldable pub run_mfa_operations : List (MfaOperation × Ambient) → Db → Db
  unfolding run_mfa_operation
  run_mfa_operations [] db = db
  run_mfa_operations ((operation, t) ∷ rest) db =
      run_mfa_operations rest (run_mfa_operation operation t db)

  -- An enrolment of the client user with a code of the given hash among the codes.
  abbrev pub reissues : ℕ → String → MfaOperation → Bool
  reissues user hash (MfaOperation.enrol other secret codes) =
      other == user && holds_code hash (map (hash_backup_code node) codes)
  reissues user hash (MfaOperation.confirm other) = false
  reissues user hash (MfaOperation.consume other code) = false

  consume_lem :
      (user : ℕ) (code : String) (w : World) {b : Bool} {w' : World}
      → consume_backup_code_work node user code w ≡ ok (b, w')
      → let rows =
          update_where
            (holds_hash user (hash_backup_code node code))
            (without_hash (hash_backup_code node code))
            w.db.client_user_mfa_secrets in
        (conflict_free client_user_mfa_secrets.conflicts rows ≡ true)
        × (w'.db.client_user_mfa_secrets ≡ rows)
  unfolding consume_backup_code_work
  consume_lem user code w h =
      update_elim client_user_mfa_secrets _ _ _ w h λ free h1. (free, ground arith)

  consume_absent :
      (user : ℕ) (code : String) (w : World)
      → filter_by (holds_hash user (hash_backup_code node code)) w.db.client_user_mfa_secrets ≡ []
      → conflict_free client_user_mfa_secrets.conflicts w.db.client_user_mfa_secrets ≡ true
      → (w' : World) × (consume_backup_code_work node user code w ≡ ok (false, w'))
  unfolding consume_backup_code_work update ◌>>=◌
  consume_absent user code w absent free =
      let hash = hash_backup_code node code in
      let kept =
        conflict_free-update_where client_user_mfa_secrets.conflicts (holds_hash user hash)
          (without_hash hash) w.db.client_user_mfa_secrets (λ a b. refl) (λ a b. refl) in
      (
        record w {
          db = record w.db {
            client_user_mfa_secrets =
                update_where (holds_hash user hash) (without_hash hash)
                  w.db.client_user_mfa_secrets;
          };
        },
        ground arith,
      )

  consume-IsGone :
      (user : ℕ) (hash : String) (other : ℕ) (code : String) (w : World) {b : Bool} {w' : World}
      → IsGone user hash w.db.client_user_mfa_secrets
      → consume_backup_code_work node other code w ≡ ok (b, w')
      → IsGone user hash w'.db.client_user_mfa_secrets
  consume-IsGone user hash other code w gone h =
      let (free, same) = consume_lem other code w h in
      subst (IsGone user hash) (sym same) (
        free,
        All-update_where (λ m. holds_hash user hash m ≡ false) (λ m. holds_hash user hash m ≡ false)
            (holds_hash other (hash_backup_code node code))
            (without_hash (hash_backup_code node code)) w.db.client_user_mfa_secrets
            (λ m e. consumed_keeps user hash other (hash_backup_code node code) m e) gone.1,
      )

  confirm-IsGone :
      (user : ℕ) (hash : String) (other : ℕ) (w : World) {u : Unit {0}} {w' : World}
      → IsGone user hash w.db.client_user_mfa_secrets
      → confirm_mfa_enrollment_work other w ≡ ok (u, w')
      → IsGone user hash w'.db.client_user_mfa_secrets
  unfolding confirm_mfa_enrollment_work record_audit_event
  confirm-IsGone user hash other w {w' = w'} gone h = now_elim _ w h λ h1.
      update_elim client_user_mfa_secrets _ _ _ w h1 λ free h2.
        update_elim client_users _ _ _ _ h2 λ one h3. now_elim _ _ h3 λ h4.
          let e = (insert_inv audit_log _ _ h4).2 in
          let same : w'.db.client_user_mfa_secrets
              ≡ update_where (λ m. m.client_user_id == other)
                  (λ m. record m { enrolled_at = some w.ambient.now })
                  w.db.client_user_mfa_secrets =
            ground arith in
          subst (IsGone user hash) (sym same) (
            ground arith,
            All-update_where (λ m. holds_hash user hash m ≡ false)
                (λ m. holds_hash user hash m ≡ false) (λ m. m.client_user_id == other)
                (λ m. record m { enrolled_at = some w.ambient.now }) w.db.client_user_mfa_secrets
                (λ m e. ground arith) gone.1,
          )

  enrol-IsGone :
      (user : ℕ) (hash : String) (other : ℕ) (secret : String) (codes : List String) (w : World)
      {u : Unit {0}} {w' : World}
      → IsGone user hash w.db.client_user_mfa_secrets
      → (other == user && holds_code hash (map (hash_backup_code node) codes)) ≡ false
      → save_mfa_enrollment_work node other secret codes w ≡ ok (u, w')
      → IsGone user hash w'.db.client_user_mfa_secrets
  unfolding save_mfa_enrollment_work
  enrol-IsGone user hash other secret codes w gone fresh h = random_bytes_elim _ w h λ h1.
      let iv = w.ambient.random_bytes 12 w.drawn in
      let rows = w.db.client_user_mfa_secrets in
      elim (upsert_inv client_user_mfa_secrets _ _ _ h1) [
        | inl (blank, same) ↦
            let alone = any_of_none _ rows blank in
            subst (IsGone user hash) (sym (ap (λ (x : World). x.db.client_user_mfa_secrets) same))
              ((let free = gone.0 in ground arith), (fresh, gone.1))
        | inr (there, same) ↦
            subst (IsGone user hash) (sym (ap (λ (x : World). x.db.client_user_mfa_secrets) same)) (
              conflict_free-update_where client_user_mfa_secrets.conflicts _ _ rows (λ a b. refl)
                    (λ a b. refl)
                  ∙ gone.0,
              All-update_where (λ m. holds_hash user hash m ≡ false)
                  (λ m. holds_hash user hash m ≡ false) (λ m. other == m.client_user_id)
                  (λ m. record m {
                    secret_encrypted = encrypt_secret node secret iv;
                    backup_codes_hash = map (hash_backup_code node) codes;
                    enrolled_at = none;
                  })
                  rows
                  (λ m e.
                    enrolled_keeps user hash other (encrypt_secret node secret iv)
                      (map (hash_backup_code node) codes) m fresh e)
                  gone.1,
            )
      ]

  run_mfa_operation-IsGone :
      (user : ℕ) (hash : String) (operation : MfaOperation) (t : Ambient) (db : Db)
      → reissues user hash operation ≡ false
      → IsGone user hash db.client_user_mfa_secrets
      → IsGone user hash (run_mfa_operation operation t db).client_user_mfa_secrets
  unfolding run_mfa_operation save_mfa_enrollment confirm_mfa_enrollment consume_backup_code
  run_mfa_operation-IsGone user hash (MfaOperation.enrol other secret codes) t db fresh gone =
      settle (λ x. IsGone user hash x.client_user_mfa_secrets) _ _ t db gone
        λ a w h. enrol-IsGone user hash other secret codes _ gone fresh h
  run_mfa_operation-IsGone user hash (MfaOperation.confirm other) t db fresh gone =
      settle (λ x. IsGone user hash x.client_user_mfa_secrets) _ _ t db gone
        λ a w h. confirm-IsGone user hash other _ gone h
  run_mfa_operation-IsGone user hash (MfaOperation.consume other code) t db fresh gone =
      settle (λ x. IsGone user hash x.client_user_mfa_secrets) _ _ t db gone
        λ a w h. consume-IsGone user hash other code _ gone h

  run_mfa_operations-IsGone :
      (user : ℕ) (hash : String) (operations : List (MfaOperation × Ambient)) (db : Db)
      → All (λ o. reissues user hash o.0 ≡ false) operations
      → IsGone user hash db.client_user_mfa_secrets
      → IsGone user hash (run_mfa_operations operations db).client_user_mfa_secrets
  unfolding run_mfa_operations
  run_mfa_operations-IsGone user hash [] db fresh gone = gone
  run_mfa_operations-IsGone user hash ((operation, t) ∷ rest) db fresh gone =
      run_mfa_operations-IsGone user hash rest _ fresh.1
        (run_mfa_operation-IsGone user hash operation t db fresh.0 gone)

  -- A backup code that was accepted is not accepted again, whatever functions that write MFA secrets
  -- run in between, as long as no enrolment of the client user gives them a code of the same hash.
  pub consume_backup_code-once :
      (user : ℕ) (code : String) (t t' : Ambient) (operations : List (MfaOperation × Ambient))
      (db : Db) {db' : Db}
      → consume_backup_code node user code t db ≡ (ok true, db')
      → All (λ o. reissues user (hash_backup_code node code) o.0 ≡ false) operations
      → (consume_backup_code node user code t' (run_mfa_operations operations db')).0 ≡ ok false
  unfolding consume_backup_code with_authorization_context conclude
  consume_backup_code-once user code t t' operations db {db'} h fresh =
      let (w, runs, same) =
        returned_inv as_system (consume_backup_code_work node user code) t db h in
      let hash = hash_backup_code node code in
      let (free, rows) = consume_lem user code (begin as_system t db) runs in
      let there = ap (λ (x : Db). x.client_user_mfa_secrets) same ∙ rows in
      let after = run_mfa_operations operations db' in
      let (kept, gone) = run_mfa_operations-IsGone user hash operations db' fresh (
        subst (IsGone user hash) (sym there)
          (free, consumed_rows user hash db.client_user_mfa_secrets)) in
      let (w', again) =
        consume_absent user code (begin as_system t' after)
          (filter_by_none (holds_hash user hash) _ gone) kept in
      ap (λ r. (conclude after r).0) again
