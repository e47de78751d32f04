-- ===== src/Identity/Operations.antt =====
-- The functions of identity.repository.ts that write refresh tokens or password reset tokens, as one type.
use brokerplatform.Prelude.{ℕ, Bool, List, [], ◌∷◌, String}
use brokerplatform.Db.Schema.{PasswordActorType, Db}
use brokerplatform.Identity.Crypto.{Node}
use brokerplatform.Identity.Sessions.{
  RefreshTokenMeta, issue_refresh_token, rotate_refresh_token, revoke_refresh_token,
  set_client_user_active,
}
use brokerplatform.Db.Context.{AuthorizationContext}
use brokerplatform.Db.Transaction.{Ambient}
use brokerplatform.Identity.Passwords.{
  change_password, redeem_password_reset_token, create_password_reset_token,
}

pub data SessionOperation : Type 0 where
  issue : PasswordActorType → ℕ → RefreshTokenMeta → SessionOperation
  rotate : String → RefreshTokenMeta → SessionOperation
  sign_out : String → SessionOperation
  set_active : AuthorizationContext → ℕ → ℕ → Bool → SessionOperation
  change : AuthorizationContext → PasswordActorType → ℕ → String → String → SessionOperation
  forget : PasswordActorType → String → SessionOperation
  redeem : String → String → SessionOperation

module _ (node : Node) where
  -- The database after an operation, whether it returned or threw.
  unfoldable pub run_session : SessionOperation → Ambient → Db → Db
  unfolding issue_refresh_token rotate_refresh_token revoke_refresh_token set_client_user_active
      change_password create_password_reset_token redeem_password_reset_token
  run_session (SessionOperation.issue type actor meta) t db =
      (issue_refresh_token node type actor meta t db).1
  run_session (SessionOperation.rotate raw meta) t db = (rotate_refresh_token node raw meta t db).1
  run_session (SessionOperation.sign_out raw) t db = (revoke_refresh_token node raw t db).1
  run_session (SessionOperation.set_active ctx organisation user is_active) t db =
      (set_client_user_active ctx organisation user is_active t db).1
  run_session (SessionOperation.change ctx type id current new) t db =
      (change_password node ctx type id current new t db).1
  run_session (SessionOperation.forget type email) t db =
      (create_password_reset_token node type email t db).1
  run_session (SessionOperation.redeem raw password) t db =
      (redeem_password_reset_token node raw password t db).1

  -- One after the other, each at its time.
  unfoldable pub run_sessions : List (SessionOperation × Ambient) → Db → Db
  unfolding run_session
  run_sessions [] db = db
  run_sessions ((operation, t) ∷ rest) db = run_sessions rest (run_session operation t db)
