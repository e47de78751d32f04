-- ===== src/Identity/Sessions.antt =====
-- identity.repository.ts: the refresh tokens of sessions, and `setClientUserActive`.
use brokerplatform.Db.Transaction.{
  ◌>>=◌, ◌>>◌, Tx, pure, now, random_bytes, Result, Call, update, date_now, select, random_uuid,
  with_authorization_context, insert, throw_if, ok, err,
}
use brokerplatform.Prelude.{
  ℕ, Bool, true, false, none, some, String, Option, ◌&&◌, not, ◌+◌, is_some, ◌*◌, ◌==◌, ltb,
  if◌then◌else◌, str_eq, first, is_empty,
}
use brokerplatform.Db.Context.{
  AuthorizationContext, actor_type_of, ActorType, actor_id_of, as_system,
}
use brokerplatform.Db.Schema.{RefreshToken, PasswordActorType, AuditSubject, AuditAction, Db}
use brokerplatform.Audit.{record_audit_event}
use brokerplatform.Identity.Crypto.{Node, hash_opaque_token}
use brokerplatform.Db.Policies.Sessions.{refresh_tokens}
use brokerplatform.Db.Policies.People.{client_users}
use brokerplatform.Db.Errors.{of_identity, refresh_token_reuse_detected, client_user_not_found}

abbrev pub same_actor_type : PasswordActorType → PasswordActorType → Bool
same_actor_type PasswordActorType.broker PasswordActorType.broker = true
same_actor_type PasswordActorType.client_user PasswordActorType.client_user = true
same_actor_type PasswordActorType.platform_admin PasswordActorType.platform_admin = true
same_actor_type other another = false

-- A refresh token of the actor: `actor_type = $1 AND actor_id = $2`.
abbrev pub is_session_of : PasswordActorType → ℕ → RefreshToken → Bool
is_session_of type id r = same_actor_type r.actor_type type && r.actor_id == id

-- `revoked_at IS NULL`
abbrev pub is_live : RefreshToken → Bool
is_live r = not (is_some r.revoked_at)

-- The statement that signs an actor out everywhere.
unfoldable pub revoke_sessions : PasswordActorType → ℕ → Tx (Unit {0})
revoke_sessions type id = do
  t ← now
  update refresh_tokens (λ r. is_session_of type id r && is_live r)
      (λ r. record r { revoked_at = some t })
  pure tt

abbrev pub audit_active : AuthorizationContext → ℕ → ℕ → Bool → Tx (Unit {0})
audit_active ctx organisation user is_active = record_audit_event (record {
  actor_type = actor_type_of ctx;
  actor_id = actor_id_of ctx;
  action =
      if is_active
      then AuditAction.client_user_reactivated
      else AuditAction.client_user_deactivated;
  subject_type = AuditSubject.client_user;
  subject_id = user;
  client_organisation_id = some organisation;
})

abbrev pub unless : Bool → Tx (Unit {0}) → Tx (Unit {0})
unless true m = pure tt
unless false m = m

-- `setClientUserActive`
unfoldable pub set_client_user_active_work : AuthorizationContext → ℕ → ℕ → Bool → Tx (Unit {0})
unfolding revoke_sessions
set_client_user_active_work ctx organisation user is_active = do
  rows ←
      update client_users (λ u. u.id == user && u.client_organisation_id == organisation)
        (λ u. record u { is_active = is_active })
  throw_if (is_empty rows) (of_identity (client_user_not_found user))
  unless is_active (revoke_sessions PasswordActorType.client_user user)
  audit_active ctx organisation user is_active

unfoldable pub set_client_user_active : AuthorizationContext → ℕ → ℕ → Bool → Call (Unit {0})
unfolding set_client_user_active_work
set_client_user_active ctx organisation user is_active =
    with_authorization_context ctx (set_client_user_active_work ctx organisation user is_active)

pub record RefreshTokenMeta : Type 0 where
  pub user_agent : Option String
  pub ip_address : Option String

pub record IssuedRefreshToken : Type 0 where
  pub raw_token : String
  pub expires_at : ℕ

pub record RotatedRefreshToken : Type 0 where
  pub actor_type : PasswordActorType
  pub actor_id : ℕ
  pub raw_token : String
  pub expires_at : ℕ

-- The outcome of the transaction of `rotateRefreshToken`.
pub data Rotation : Type 0 where
  reused not_rotated : Rotation
  rotated : RotatedRefreshToken → Rotation

abbrev pub actor_type_as : PasswordActorType → ActorType
actor_type_as PasswordActorType.broker = ActorType.broker
actor_type_as PasswordActorType.client_user = ActorType.client_user
actor_type_as PasswordActorType.platform_admin = ActorType.platform_admin

abbrev pub actor_subject : PasswordActorType → AuditSubject
actor_subject PasswordActorType.broker = AuditSubject.broker
actor_subject PasswordActorType.client_user = AuditSubject.client_user
actor_subject PasswordActorType.platform_admin = AuditSubject.platform_admin

-- An audit entry of an actor about themselves.
abbrev pub audit_self : PasswordActorType → ℕ → AuditAction → Tx (Unit {0})
audit_self type id action = record_audit_event (record {
  actor_type = actor_type_as type;
  actor_id = some id;
  action = action;
  subject_type = actor_subject type;
  subject_id = id;
  client_organisation_id = none;
})

module _ (node : Node) where
  -- The row of a new token.
  abbrev pub session_row :
      ℕ → PasswordActorType → ℕ → String → ℕ → ℕ → RefreshTokenMeta → RefreshToken
  session_row id type actor raw t expires_at meta = record {
    id = id;
    actor_type = type;
    actor_id = actor;
    token_hash = hash_opaque_token node raw;
    issued_at = t;
    expires_at = expires_at;
    revoked_at = none;
    replaced_by = none;
    user_agent = meta.user_agent;
    ip_address = meta.ip_address;
  }

  abbrev pub session_expiry : ℕ → ℕ
  session_expiry clock = clock + node.refresh_ttl_days * 24 * 60 * 60

  -- `issueRefreshToken`
  unfoldable pub issue_refresh_token_work :
      PasswordActorType → ℕ → RefreshTokenMeta → Tx IssuedRefreshToken
  issue_refresh_token_work type actor meta = do
    bytes ← random_bytes 32
    clock ← date_now
    id ← random_uuid
    t ← now
    insert refresh_tokens
        (session_row id type actor (node.to_base64url bytes) t (session_expiry clock) meta)
    pure (record { raw_token = node.to_base64url bytes; expires_at = session_expiry clock })

  unfoldable pub issue_refresh_token :
      PasswordActorType → ℕ → RefreshTokenMeta → Call IssuedRefreshToken
  unfolding issue_refresh_token_work
  issue_refresh_token type actor meta =
      with_authorization_context as_system (issue_refresh_token_work type actor meta)

  -- A token that was revoked is presented again: every session of the actor ends.
  unfoldable pub detect_reuse : RefreshToken → Tx Rotation
  unfolding revoke_sessions
  detect_reuse row = do
    revoke_sessions row.actor_type row.actor_id
    audit_self row.actor_type row.actor_id AuditAction.session_refresh_token_reuse_detected
    pure reused

  -- A token that is live and has not expired is replaced.
  unfoldable pub replace_session : RefreshToken → RefreshTokenMeta → Tx Rotation
  replace_session row meta = do
    bytes ← random_bytes 32
    clock ← date_now
    id ← random_uuid
    t ← now
    insert refresh_tokens (
        session_row id row.actor_type row.actor_id (node.to_base64url bytes) t
          (session_expiry clock) meta)
    update refresh_tokens (λ r. r.id == row.id)
        (λ r. record r { revoked_at = some t; replaced_by = some id })
    pure (
        rotated (record {
          actor_type = row.actor_type;
          actor_id = row.actor_id;
          raw_token = node.to_base64url bytes;
          expires_at = session_expiry clock;
        }))

  abbrev pub rotate_unexpired : Bool → RefreshToken → RefreshTokenMeta → Tx Rotation
  rotate_unexpired true row meta = pure not_rotated
  rotate_unexpired false row meta = replace_session row meta

  abbrev pub rotate_row : Bool → RefreshToken → RefreshTokenMeta → Tx Rotation
  rotate_row true row meta = detect_reuse row
  rotate_row false row meta = do
    clock ← date_now
    rotate_unexpired (ltb row.expires_at clock) row meta

  abbrev pub rotate_found : Option RefreshToken → RefreshTokenMeta → Tx Rotation
  rotate_found none meta = pure not_rotated
  rotate_found (some row) meta = rotate_row (is_some row.revoked_at) row meta

  -- The transaction of `rotateRefreshToken`.
  unfoldable pub rotate_refresh_token_work : String → RefreshTokenMeta → Tx Rotation
  unfolding hash_opaque_token
  rotate_refresh_token_work raw meta = do
    rows ← select refresh_tokens (λ r. str_eq r.token_hash (hash_opaque_token node raw))
    rotate_found (first rows) meta

  -- The error is thrown after the transaction: what it revoked stays revoked.
  abbrev pub rotation_result : Result Rotation × Db → Result (Option RotatedRefreshToken) × Db
  rotation_result (ok reused, db) = (err (of_identity refresh_token_reuse_detected), db)
  rotation_result (ok not_rotated, db) = (ok none, db)
  rotation_result (ok (rotated r), db) = (ok (some r), db)
  rotation_result (err e, db) = (err e, db)

  -- `rotateRefreshToken`
  unfoldable pub rotate_refresh_token :
      String → RefreshTokenMeta → Call (Option RotatedRefreshToken)
  unfolding rotate_refresh_token_work
  rotate_refresh_token raw meta ambient db =
      rotation_result
        (with_authorization_context as_system (rotate_refresh_token_work raw meta) ambient db)

  -- `revokeRefreshToken`
  unfoldable pub revoke_refresh_token_work : String → Tx (Unit {0})
  unfolding hash_opaque_token
  revoke_refresh_token_work raw = do
    t ← now
    update refresh_tokens (λ r. str_eq r.token_hash (hash_opaque_token node raw) && is_live r)
        (λ r. record r { revoked_at = some t })
    pure tt

  unfoldable pub revoke_refresh_token : String → Call (Unit {0})
  unfolding revoke_refresh_token_work
  revoke_refresh_token raw = with_authorization_context as_system (revoke_refresh_token_work raw)
