-- ===== src/Identity/Passwords.antt =====
-- identity.repository.ts: changing and resetting a password, for the three kinds of actor.
use brokerplatform.Db.Transaction.{
  ◌>>=◌, ◌>>◌, Call, Tx, pure, update, with_authorization_context, select, or_throw, now,
  random_bytes, throw_if, date_now, random_uuid, insert,
}
use brokerplatform.Prelude.{
  ℕ, Bool, false, none, some, String, map, Option, not, is_some, ◌+◌, ◌*◌, ◌&&◌, ltb, str_eq, ◌==◌,
  first,
}
use brokerplatform.Identity.Crypto.{Node, verify_password, hash_password, hash_opaque_token}
use brokerplatform.Db.Schema.{PasswordActorType, PasswordResetToken, AuditAction}
use brokerplatform.Db.Context.{AuthorizationContext, as_system}
use brokerplatform.Identity.Sessions.{revoke_sessions, audit_self}
use brokerplatform.Db.Errors.{
  type_error, of_identity, invalid_reset_token, invalid_current_password,
}
use brokerplatform.Db.Policies.People.{broker_profiles, client_users}
use brokerplatform.Db.Policies.Sessions.{password_reset_tokens, platform_administrators}

-- `SELECT password_hash FROM ${PASSWORD_TABLE[type]} WHERE id = $1`
unfoldable pub select_password_hash : PasswordActorType → ℕ → Tx (Option String)
select_password_hash PasswordActorType.broker id = do
  rows ← select broker_profiles (λ b. b.id == id)
  pure (first (map (λ b. b.password_hash) rows))
select_password_hash PasswordActorType.client_user id = do
  rows ← select client_users (λ u. u.id == id)
  pure (first (map (λ u. u.password_hash) rows))
select_password_hash PasswordActorType.platform_admin id = do
  rows ← select platform_administrators (λ a. a.id == id)
  pure (first (map (λ a. a.password_hash) rows))

-- `UPDATE ${PASSWORD_TABLE[type]} SET password_hash = $1 WHERE id = $2`
unfoldable pub update_password_hash : PasswordActorType → String → ℕ → Tx (Unit {0})
update_password_hash PasswordActorType.broker hash id = do
  update broker_profiles (λ b. b.id == id) (λ b. record b { password_hash = hash })
  pure tt
update_password_hash PasswordActorType.client_user hash id = do
  update client_users (λ u. u.id == id) (λ u. record u { password_hash = hash })
  pure tt
update_password_hash PasswordActorType.platform_admin hash id = do
  update platform_administrators (λ a. a.id == id) (λ a. record a { password_hash = hash })
  pure tt

-- `SELECT id FROM ${PASSWORD_TABLE[type]} WHERE email = $1`
unfoldable pub select_account : PasswordActorType → String → Tx (Option ℕ)
select_account PasswordActorType.broker email = do
  rows ← select broker_profiles (λ b. str_eq b.email email)
  pure (first (map (λ b. b.id) rows))
select_account PasswordActorType.client_user email = do
  rows ← select client_users (λ u. str_eq u.email email)
  pure (first (map (λ u. u.id) rows))
select_account PasswordActorType.platform_admin email = do
  rows ← select platform_administrators (λ a. str_eq a.email email)
  pure (first (map (λ a. a.id) rows))

pub record IssuedResetToken : Type 0 where
  pub actor_id : ℕ
  pub raw_token : String

-- `used_at IS NULL AND expires_at > now()`
abbrev pub is_redeemable : ℕ → PasswordResetToken → Bool
is_redeemable t r = not (is_some r.used_at) && ltb t r.expires_at

module _ (node : Node) where
  -- `verifyPassword` of the hash that was found; `none` where it throws.
  abbrev pub verify_stored : String → Option String → Option Bool
  verify_stored plain none = some false
  verify_stored plain (some stored) = verify_password node plain stored

  -- The second half of `changePassword` and of `redeemPasswordResetToken`.
  unfoldable pub store_password : PasswordActorType → ℕ → String → AuditAction → Tx (Unit {0})
  unfolding update_password_hash hash_password revoke_sessions
  store_password type id password action = do
    salt ← random_bytes 16
    update_password_hash type (hash_password node password salt) id
    revoke_sessions type id
    audit_self type id action

  -- `changePassword`
  unfoldable pub change_password_work : PasswordActorType → ℕ → String → String → Tx (Unit {0})
  unfolding select_password_hash store_password
  change_password_work type id current new = do
    stored ← select_password_hash type id
    verified ← or_throw (verify_stored current stored) type_error
    throw_if (not verified) (of_identity invalid_current_password)
    store_password type id new (AuditAction.password_changed type)

  unfoldable pub change_password :
      AuthorizationContext → PasswordActorType → ℕ → String → String → Call (Unit {0})
  unfolding change_password_work
  change_password ctx type id current new =
      with_authorization_context ctx (change_password_work type id current new)

  abbrev pub reset_token_row : ℕ → PasswordActorType → ℕ → String → ℕ → PasswordResetToken
  reset_token_row id type actor raw clock = record {
    id = id;
    actor_type = type;
    actor_id = actor;
    token_hash = hash_opaque_token node raw;
    expires_at = clock + 60 * 60;
    used_at = none;
  }

  abbrev pub issue_reset_token : PasswordActorType → Option ℕ → Tx (Option IssuedResetToken)
  issue_reset_token type none = pure none
  issue_reset_token type (some actor) = do
    bytes ← random_bytes 32
    clock ← date_now
    id ← random_uuid
    insert password_reset_tokens (reset_token_row id type actor (node.to_base64url bytes) clock)
    audit_self type actor (AuditAction.password_reset_requested type)
    pure (some (record { actor_id = actor; raw_token = node.to_base64url bytes }))

  -- `createPasswordResetToken`
  unfoldable pub create_password_reset_token_work :
      PasswordActorType → String → Tx (Option IssuedResetToken)
  unfolding select_account
  create_password_reset_token_work type email = do
    account ← select_account type (node.to_lower_case email)
    issue_reset_token type account

  unfoldable pub create_password_reset_token :
      PasswordActorType → String → Call (Option IssuedResetToken)
  unfolding create_password_reset_token_work
  create_password_reset_token type email =
      with_authorization_context as_system (create_password_reset_token_work type email)

  -- `redeemPasswordResetToken`
  unfoldable pub redeem_password_reset_token_work : String → String → Tx (Unit {0})
  unfolding hash_opaque_token store_password
  redeem_password_reset_token_work raw password = do
    t ← now
    rows ←
        select password_reset_tokens
          (λ r. str_eq r.token_hash (hash_opaque_token node raw) && is_redeemable t r)
    token ← or_throw (first rows) (of_identity invalid_reset_token)
    update password_reset_tokens (λ r. r.id == token.id) (λ r. record r { used_at = some t })
    store_password token.actor_type token.actor_id password
        (AuditAction.password_reset_completed token.actor_type)

  unfoldable pub redeem_password_reset_token : String → String → Call (Unit {0})
  unfolding redeem_password_reset_token_work
  redeem_password_reset_token raw password =
      with_authorization_context as_system (redeem_password_reset_token_work raw password)
