-- ===== src/Identity/SignIn.antt =====
-- identity.repository.ts: signing in. These functions run as the system, and leave an audit entry
-- whether the password was right or not.
use brokerplatform.Db.Transaction.{
  ◌>>=◌, ◌>>◌, Call, with_authorization_context, Tx, pure, select, or_throw,
}
use brokerplatform.Prelude.{
  false, ℕ, Bool, none, some, String, Option, if◌then◌else◌, ◌==◌, str_eq, first, true,
}
use brokerplatform.Audit.{record_audit_event}
use brokerplatform.Identity.Crypto.{Node, verify_password}
use brokerplatform.Db.Schema.{
  ClientUserRole, ClientUser, PasswordActorType, BrokerProfile, PlatformAdministrator, AuditSubject,
  AuditAction,
}
use brokerplatform.Db.Context.{ActorType, as_system}
use brokerplatform.Db.Policies.Sessions.{platform_administrators}
use brokerplatform.Db.Policies.People.{client_users, broker_profiles}
use brokerplatform.Db.Errors.{type_error, of_identity, client_user_not_found}

-- The audit entry of an attempt.
abbrev pub audit_attempt :
    PasswordActorType → ActorType → AuditSubject → ℕ → Option ℕ → Bool → Tx (Unit {0})
audit_attempt type actor subject id organisation success = record_audit_event (record {
  actor_type = actor;
  actor_id = some id;
  action = if success then AuditAction.login_succeeded type else AuditAction.login_failed type;
  subject_type = subject;
  subject_id = id;
  client_organisation_id = organisation;
})

pub record SignedInClientUser : Type 0 where
  pub id : ℕ
  pub client_organisation_id : ℕ
  pub role : ClientUserRole
  pub mfa_enrolled : Bool

-- The claims that `authenticateClientUserById` derives again.
pub record ClientUserClaims : Type 0 where
  pub id : ℕ
  pub client_organisation_id : ℕ
  pub role : ClientUserRole

-- `isActive && verifyPassword(…)`: an inactive account does not come to the password.
abbrev pub active_and : Bool → Option Bool → Option Bool
active_and true verified = verified
active_and false verified = some false

module _ (node : Node) where
  abbrev pub try_broker : String → Option BrokerProfile → Tx (Option ℕ)
  try_broker password none = pure none
  try_broker password (some b) = do
    success ← or_throw (verify_password node password b.password_hash) type_error
    audit_attempt PasswordActorType.broker ActorType.broker AuditSubject.broker_profile b.id none
        success
    pure (if success then some b.id else none)

  -- `authenticateBroker`
  unfoldable pub authenticate_broker : String → String → Call (Option ℕ)
  authenticate_broker email password = with_authorization_context as_system do
    rows ← select broker_profiles (λ b. str_eq b.email (node.to_lower_case email))
    try_broker password (first rows)

  abbrev pub signed_in : ClientUser → SignedInClientUser
  signed_in u = record {
    id = u.id;
    client_organisation_id = u.client_organisation_id;
    role = u.role;
    mfa_enrolled = u.mfa_enrolled;
  }

  abbrev pub try_client_user : String → Option ClientUser → Tx (Option SignedInClientUser)
  try_client_user password none = pure none
  try_client_user password (some u) = do
    success ←
        or_throw (active_and u.is_active (verify_password node password u.password_hash)) type_error
    audit_attempt PasswordActorType.client_user ActorType.client_user AuditSubject.client_user u.id
        (some u.client_organisation_id) success
    pure (if success then some (signed_in u) else none)

  -- `authenticateClientUser`
  unfoldable pub authenticate_client_user : String → String → Call (Option SignedInClientUser)
  authenticate_client_user email password = with_authorization_context as_system do
    rows ← select client_users (λ u. str_eq u.email (node.to_lower_case email))
    try_client_user password (first rows)

  abbrev pub try_platform_admin : String → Option PlatformAdministrator → Tx (Option ℕ)
  try_platform_admin password none = pure none
  try_platform_admin password (some a) = do
    success ←
        or_throw (active_and a.is_active (verify_password node password a.password_hash)) type_error
    audit_attempt PasswordActorType.platform_admin ActorType.platform_admin
        AuditSubject.platform_administrator a.id none success
    pure (if success then some a.id else none)

  -- `authenticatePlatformAdmin`
  unfoldable pub authenticate_platform_admin : String → String → Call (Option ℕ)
  authenticate_platform_admin email password = with_authorization_context as_system do
    rows ← select platform_administrators (λ a. str_eq a.email (node.to_lower_case email))
    try_platform_admin password (first rows)

-- `authenticateClientUserById`
unfoldable pub authenticate_client_user_by_id : ℕ → Call ClientUserClaims
authenticate_client_user_by_id id = with_authorization_context as_system do
  rows ← select client_users (λ u. u.id == id)
  u ← or_throw (first rows) (of_identity (client_user_not_found id))
  pure (record { id = u.id; client_organisation_id = u.client_organisation_id; role = u.role })
