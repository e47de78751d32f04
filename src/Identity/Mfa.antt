-- ===== src/Identity/Mfa.antt =====
-- identity.repository.ts: the secrets and backup codes of client users.
use brokerplatform.Db.Transaction.{
  ◌>>=◌, ◌>>◌, Tx, Call, now, with_authorization_context, random_bytes, select, update, upsert,
  pure, or_throw,
}
use brokerplatform.Prelude.{
  ℕ, Bool, true, none, some, List, String, map, filter_by, any, Option, str_eq, not, if◌then◌else◌,
  ◌==◌, first, ◌&&◌, is_empty, is_some,
}
use brokerplatform.Audit.{record_audit_event}
use brokerplatform.Identity.Crypto.{Node, hash_backup_code, decrypt_secret, encrypt_secret, Bytes}
use brokerplatform.Db.Schema.{AuditAction, MfaSecret, AuditSubject}
use brokerplatform.Db.Context.{as_system, ActorType}
use brokerplatform.Db.Policies.Sessions.{client_user_mfa_secrets}
use brokerplatform.Db.Errors.{type_error}
use brokerplatform.Db.Policies.People.{client_users}

pub record MfaCredential : Type 0 where
  pub secret : String
  pub backup_codes_hash : List String
  pub enrolled : Bool

-- `$2 = ANY(codes)` and `array_remove(codes, $2)`
abbrev pub holds_code : String → List String → Bool
holds_code code codes = any (λ c. str_eq c code) codes

abbrev pub array_remove : List String → String → List String
array_remove codes code = filter_by (λ c. not (str_eq c code)) codes

module _ (node : Node) where
  abbrev pub enrollment_row : ℕ → String → List String → Bytes → MfaSecret
  enrollment_row user secret codes iv = record {
    client_user_id = user;
    secret_encrypted = encrypt_secret node secret iv;
    backup_codes_hash = map (hash_backup_code node) codes;
    enrolled_at = none;
  }

  -- `saveMfaEnrollment`
  unfoldable pub save_mfa_enrollment_work : ℕ → String → List String → Tx (Unit {0})
  save_mfa_enrollment_work user secret codes = do
    iv ← random_bytes 12
    upsert client_user_mfa_secrets (enrollment_row user secret codes iv) (λ old. record old {
      secret_encrypted = (enrollment_row user secret codes iv).secret_encrypted;
      backup_codes_hash = (enrollment_row user secret codes iv).backup_codes_hash;
      enrolled_at = none;
    })

  unfoldable pub save_mfa_enrollment : ℕ → String → List String → Call (Unit {0})
  unfolding save_mfa_enrollment_work
  save_mfa_enrollment user secret codes =
      with_authorization_context as_system (save_mfa_enrollment_work user secret codes)

  abbrev pub credential_of : Option MfaSecret → Tx (Option MfaCredential)
  credential_of none = pure none
  credential_of (some row) = do
    secret ← or_throw (decrypt_secret node row.secret_encrypted) type_error
    pure (
        some (record {
          secret = secret;
          backup_codes_hash = row.backup_codes_hash;
          enrolled = is_some row.enrolled_at;
        }))

  -- `getMfaCredential`
  unfoldable pub get_mfa_credential_work : ℕ → Tx (Option MfaCredential)
  get_mfa_credential_work user = do
    rows ← select client_user_mfa_secrets (λ m. m.client_user_id == user)
    credential_of (first rows)

  unfoldable pub get_mfa_credential : ℕ → Call (Option MfaCredential)
  unfolding get_mfa_credential_work
  get_mfa_credential user = with_authorization_context as_system (get_mfa_credential_work user)

  -- `consumeBackupCode`
  unfoldable pub consume_backup_code_work : ℕ → String → Tx Bool
  unfolding hash_backup_code
  consume_backup_code_work user code = do
    rows ←
        update client_user_mfa_secrets
          (λ m.
            m.client_user_id == user && holds_code (hash_backup_code node code) m.backup_codes_hash)
          (λ m. record m {
            backup_codes_hash = array_remove m.backup_codes_hash (hash_backup_code node code);
          })
    pure (not (is_empty rows))

  unfoldable pub consume_backup_code : ℕ → String → Call Bool
  unfolding consume_backup_code_work
  consume_backup_code user code =
      with_authorization_context as_system (consume_backup_code_work user code)

-- An audit entry of a client user about themselves, for `confirmMfaEnrollment` and
-- `recordMfaVerification`.
abbrev pub audit_client_user : ℕ → AuditAction → Tx (Unit {0})
audit_client_user user action = record_audit_event (record {
  actor_type = ActorType.client_user;
  actor_id = some user;
  action = action;
  subject_type = AuditSubject.client_user;
  subject_id = user;
  client_organisation_id = none;
})

-- `confirmMfaEnrollment`
unfoldable pub confirm_mfa_enrollment_work : ℕ → Tx (Unit {0})
confirm_mfa_enrollment_work user = do
  t ← now
  update client_user_mfa_secrets (λ m. m.client_user_id == user)
      (λ m. record m { enrolled_at = some t })
  update client_users (λ u. u.id == user) (λ u. record u { mfa_enrolled = true })
  audit_client_user user AuditAction.client_user_mfa_enrolled

unfoldable pub confirm_mfa_enrollment : ℕ → Call (Unit {0})
unfolding confirm_mfa_enrollment_work
confirm_mfa_enrollment user =
    with_authorization_context as_system (confirm_mfa_enrollment_work user)

-- `recordMfaVerification`
unfoldable pub record_mfa_verification : ℕ → Bool → Call (Unit {0})
record_mfa_verification user success = with_authorization_context as_system do
  audit_client_user user (
      if success
      then AuditAction.client_user_mfa_verified
      else AuditAction.client_user_mfa_verification_failed)
