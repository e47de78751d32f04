-- ===== src/Identity/Spent.antt =====
-- Refresh tokens of identity.repository.ts that were revoked.
use brokerplatform.Prelude.{
  [], ◌∷◌, false, ℕ, ◌≡◌, String, arith, any-update_where, Bool, List, true, Option, update_where,
  some, is_some, first, ◌==◌, suc, ltb, none, str_eq,
}
use brokerplatform.Identity.Crypto.{Node, hash_opaque_token}
use brokerplatform.Identity.Sessions.{
  replace_session, detect_reuse, issue_refresh_token_work, RefreshTokenMeta, IssuedRefreshToken,
  Rotation, revoke_refresh_token_work, rotate_refresh_token_work, rotate_unexpired, rotate_row,
  rotate_found, set_client_user_active_work, unless, revoke_sessions, issue_refresh_token,
  rotate_refresh_token, revoke_refresh_token, set_client_user_active, rotation_result,
}
use brokerplatform.Db.Schema.{RefreshToken, PasswordActorType, AuditAction, Db}
use brokerplatform.Db.Transaction.{World, ok, seen, ◌>>=◌, Ambient, Result, err}
use brokerplatform.Identity.Revocation.{
  IsSpent, revoke_sessions_inv, audit_self_inv, has_spent-revocation, has_spent,
  after_revocation-IsSpent, select_password_hash_inv, update_password_hash_inv, select_account_inv,
}
use brokerplatform.Db.Inversion.{
  bind_elim, random_bytes_elim, date_now_elim, random_uuid_elim, now_elim, insert_elim, update_elim,
  pure_elim, select_elim, reader_elim, or_throw_elim, throw_if_elim, insert_inv, settle,
}
use brokerplatform.Db.Policies.Sessions.{refresh_tokens, password_reset_tokens}
use brokerplatform.Identity.Passwords.{
  redeem_password_reset_token_work, change_password_work, store_password, change_password,
  redeem_password_reset_token, create_password_reset_token_work, create_password_reset_token,
  IssuedResetToken, issue_reset_token,
}
use brokerplatform.Audit.{record_audit_event}
use brokerplatform.Db.Context.{AuthorizationContext}
use brokerplatform.Db.Policies.People.{client_users}
use brokerplatform.Db.Policies.Logs.{audit_log}
use brokerplatform.Identity.Operations.{run_session, run_sessions, SessionOperation}

has_spent-replaced :
    (hash : String) (hit : RefreshToken → Bool) (t id : ℕ) (rs : List RefreshToken)
    → has_spent hash rs ≡ true
    → has_spent hash
        (update_where hit (λ r. record r { revoked_at = some t; replaced_by = some id }) rs)
      ≡ true
has_spent-replaced hash hit t id rs h = any-update_where _ hit _ rs (λ r e. ground arith) h

module _ (node : Node) where
  issue-IsSpent :
      (hash : String) (type : PasswordActorType) (actor : ℕ) (meta : RefreshTokenMeta) (w : World)
      {r : IssuedRefreshToken × World}
      → issue_refresh_token_work node type actor meta w ≡ ok r
      → IsSpent hash w.db
      → IsSpent hash r.1.db
  unfolding issue_refresh_token_work
  issue-IsSpent hash type actor meta w h spent = random_bytes_elim _ w h λ h1.
      date_now_elim _ _ h1 λ h2.
        random_uuid_elim _ _ h2
          λ h3. now_elim _ _ h3 λ h4. insert_elim refresh_tokens _ _ h4 λ may fresh h5. ground arith

  detect-IsSpent :
      (hash : String) (row : RefreshToken) (w : World) {r : Rotation × World}
      → detect_reuse node row w ≡ ok r
      → IsSpent hash w.db
      → IsSpent hash r.1.db
  unfolding detect_reuse
  detect-IsSpent hash row w h spent = bind_elim _ _ w h λ u w1 p h1.
      bind_elim _ _ w1 h1 λ v w2 q h2.
        let e = revoke_sessions_inv row.actor_type row.actor_id w p in
        let f = audit_self_inv row.actor_type row.actor_id _ w1 q in
        let s =
          after_revocation-IsSpent hash w.ambient.now row.actor_type row.actor_id
            w.db.refresh_tokens spent in
        ground arith

  replace-IsSpent :
      (hash : String) (row : RefreshToken) (meta : RefreshTokenMeta) (w : World)
      {r : Rotation × World}
      → replace_session node row meta w ≡ ok r
      → IsSpent hash w.db
      → IsSpent hash r.1.db
  unfolding replace_session
  replace-IsSpent hash row meta w h spent = random_bytes_elim _ w h λ h1. date_now_elim _ _ h1 λ h2.
      random_uuid_elim _ _ h2 λ h3. now_elim _ _ h3 λ h4.
        insert_elim refresh_tokens _ _ h4 λ may fresh h5.
          update_elim refresh_tokens _ _ _ _ h5 λ free h6.
            pure_elim (λ x. IsSpent hash x.1.db) h6
              (let s =
                  has_spent-replaced hash (λ a. a.id == row.id) w.ambient.now
                    (w.ambient.uuid (suc w.drawn)) w.db.refresh_tokens spent in
                ground arith)

  rotate-IsSpent :
      (hash raw : String) (meta : RefreshTokenMeta) (w : World) {r : Rotation × World}
      → rotate_refresh_token_work node raw meta w ≡ ok r
      → IsSpent hash w.db
      → IsSpent hash r.1.db
  unfolding rotate_refresh_token_work replace_session detect_reuse ◌>>=◌
  rotate-IsSpent hash raw meta w {r} h spent =
      found
        (first (
          seen refresh_tokens w.session w.db
            (λ a. str_eq a.token_hash (hash_opaque_token node raw))))
        h
    where
      live :
          (late : Bool) (row : RefreshToken)
          → rotate_unexpired node late row meta w ≡ ok r
          → IsSpent hash r.1.db
      live true row h = pure_elim (λ x. IsSpent hash x.1.db) h spent
      live false row h = replace-IsSpent hash row meta w h spent

      present :
          (gone : Bool) (row : RefreshToken)
          → rotate_row node gone row meta w ≡ ok r
          → IsSpent hash r.1.db
      present true row h = detect-IsSpent hash row w h spent
      present false row h = live (ltb row.expires_at w.ambient.date_now) row h

      found : (o : Option RefreshToken) → rotate_found node o meta w ≡ ok r → IsSpent hash r.1.db
      found none h = pure_elim (λ x. IsSpent hash x.1.db) h spent
      found (some row) h = present (is_some row.revoked_at) row h

  revoke-IsSpent :
      (hash raw : String) (w : World) {r : Unit {0} × World}
      → revoke_refresh_token_work node raw w ≡ ok r
      → IsSpent hash w.db
      → IsSpent hash r.1.db
  unfolding revoke_refresh_token_work
  revoke-IsSpent hash raw w h spent = now_elim _ w h λ h1.
      update_elim refresh_tokens _ _ _ w h1
        λ free h2. pure_elim (λ x. IsSpent hash x.1.db) h2 (has_spent-revocation hash _ _ _ spent)

  store-IsSpent :
      (hash : String) (type : PasswordActorType) (id : ℕ) (password : String) (action : AuditAction)
      (w : World) {r : Unit {0} × World}
      → store_password node type id password action w ≡ ok r
      → IsSpent hash w.db
      → IsSpent hash r.1.db
  unfolding store_password
  store-IsSpent hash type id password action w h spent = random_bytes_elim _ w h λ h1.
      bind_elim _ _ _ h1 λ u w1 p h2. bind_elim _ _ w1 h2 λ v w2 q h3.
        let same = update_password_hash_inv type _ id _ p in
        let e = revoke_sessions_inv type id w1 q in
        let f = audit_self_inv type id action w2 h3 in
        let s =
          after_revocation-IsSpent hash w1.ambient.now type id w1.db.refresh_tokens
            (ground arith) in
        ground arith

  change-IsSpent :
      (hash : String) (type : PasswordActorType) (id : ℕ) (current new : String) (w : World)
      {r : Unit {0} × World}
      → change_password_work node type id current new w ≡ ok r
      → IsSpent hash w.db
      → IsSpent hash r.1.db
  unfolding change_password_work
  change-IsSpent hash type id current new w h spent =
      reader_elim _ _ w h (select_password_hash_inv type id w) λ stored p h1.
        or_throw_elim _ _ w h1 λ verified q h2.
          throw_if_elim _ _ w h2 λ right h3. store-IsSpent hash type id new _ w h3 spent

  forget-IsSpent :
      (hash : String) (type : PasswordActorType) (email : String) (w : World)
      {r : Option IssuedResetToken × World}
      → create_password_reset_token_work node type email w ≡ ok r
      → IsSpent hash w.db
      → IsSpent hash r.1.db
  unfolding create_password_reset_token_work
  forget-IsSpent hash type email w {r} h spent =
      reader_elim _ _ w h (select_account_inv type _ w) λ account p h1. known account h1
    where
      known : (o : Option ℕ) → issue_reset_token node type o w ≡ ok r → IsSpent hash r.1.db
      known none h = pure_elim (λ x. IsSpent hash x.1.db) h spent
      known (some actor) h = random_bytes_elim _ w h λ h1. date_now_elim _ _ h1 λ h2.
          random_uuid_elim _ _ h2 λ h3. insert_elim password_reset_tokens _ _ h3 λ may fresh h4.
            bind_elim _ _ _ h4 λ u w1 p h5. let e = audit_self_inv type actor _ _ p in ground arith

  redeem-IsSpent :
      (hash raw password : String) (w : World) {r : Unit {0} × World}
      → redeem_password_reset_token_work node raw password w ≡ ok r
      → IsSpent hash w.db
      → IsSpent hash r.1.db
  unfolding redeem_password_reset_token_work
  redeem-IsSpent hash raw password w h spent = now_elim _ w h λ h1.
      select_elim password_reset_tokens _ _ w h1 λ h2. or_throw_elim _ _ w h2 λ token found h3.
        update_elim password_reset_tokens _ _ _ w h3
          λ free h4. store-IsSpent hash token.actor_type token.actor_id password _ _ h4 spent

  active-IsSpent :
      (hash : String) (ctx : AuthorizationContext) (organisation user : ℕ) (is_active : Bool)
      (w : World) {r : Unit {0} × World}
      → set_client_user_active_work ctx organisation user is_active w ≡ ok r
      → IsSpent hash w.db
      → IsSpent hash r.1.db
  unfolding set_client_user_active_work record_audit_event
  active-IsSpent hash ctx organisation user is_active w {r} h spent =
      update_elim client_users _ _ _ w h λ free h1. throw_if_elim _ _ _ h1 λ present h2.
        bind_elim _ _ _ h2 λ u w1 p h3. now_elim _ w1 h3 λ h4.
          let kept = signing is_active _ p spent in
          let e = (insert_inv audit_log _ w1 h4).2 in ground arith
    where
      signing :
          (b : Bool) (v : World) {u : Unit {0}} {v' : World}
          → unless b (revoke_sessions PasswordActorType.client_user user) v ≡ ok (u, v')
          → IsSpent hash v.db
          → IsSpent hash v'.db
      signing true v {v' = v'} p s = pure_elim (λ x. IsSpent hash x.1.db) p s
      signing false v p s =
          let e = revoke_sessions_inv PasswordActorType.client_user user v p in
          let k =
            after_revocation-IsSpent hash v.ambient.now PasswordActorType.client_user user
              v.db.refresh_tokens s in
          ground arith

  run-IsSpent :
      (hash : String) (operation : SessionOperation) (t : Ambient) (db : Db)
      → IsSpent hash db
      → IsSpent hash (run_session node operation t db)
  unfolding run_session issue_refresh_token rotate_refresh_token revoke_refresh_token
      set_client_user_active change_password create_password_reset_token redeem_password_reset_token
  run-IsSpent hash (SessionOperation.issue type actor meta) t db s =
      settle (IsSpent hash) _ _ t db s λ a w h. issue-IsSpent hash type actor meta _ h s
  run-IsSpent hash (SessionOperation.rotate raw meta) t db s =
      outcome _ (settle (IsSpent hash) _ _ t db s λ a w h. rotate-IsSpent hash raw meta _ h s)
    where
      outcome :
          (o : Result Rotation × Db) → IsSpent hash o.1 → IsSpent hash (rotation_result node o).1
      outcome (ok Rotation.reused, db) s = s
      outcome (ok Rotation.not_rotated, db) s = s
      outcome (ok (Rotation.rotated r), db) s = s
      outcome (err e, db) s = s
  run-IsSpent hash (SessionOperation.sign_out raw) t db s =
      settle (IsSpent hash) _ _ t db s λ a w h. revoke-IsSpent hash raw _ h s
  run-IsSpent hash (SessionOperation.set_active ctx organisation user is_active) t db s =
      settle (IsSpent hash) _ _ t db s
        λ a w h. active-IsSpent hash ctx organisation user is_active _ h s
  run-IsSpent hash (SessionOperation.change ctx type id current new) t db s =
      settle (IsSpent hash) _ _ t db s λ a w h. change-IsSpent hash type id current new _ h s
  run-IsSpent hash (SessionOperation.forget type email) t db s =
      settle (IsSpent hash) _ _ t db s λ a w h. forget-IsSpent hash type email _ h s
  run-IsSpent hash (SessionOperation.redeem raw password) t db s =
      settle (IsSpent hash) _ _ t db s λ a w h. redeem-IsSpent hash raw password _ h s

  -- A refresh token that was revoked stays revoked, whatever functions that write refresh tokens
  -- run, by whom and when, and whether they return or throw.
  pub run_sessions-IsSpent :
      (hash : String) (operations : List (SessionOperation × Ambient)) (db : Db)
      → IsSpent hash db
      → IsSpent hash (run_sessions node operations db)
  unfolding run_sessions
  run_sessions-IsSpent hash [] db s = s
  run_sessions-IsSpent hash ((operation, t) ∷ rest) db s =
      run_sessions-IsSpent hash rest _ (run-IsSpent hash operation t db s)
