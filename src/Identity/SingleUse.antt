-- ===== src/Identity/SingleUse.antt =====
-- Password reset tokens of identity.repository.ts, from one redemption to the next.
use brokerplatform.Prelude.{
  ℕ, ◌≡◌, refl, Bool, true, false, none, some, List, [], ◌∷◌, String, arith, Option, conflict_free,
  ltb, is_some, str_eq, str_eq_iff, none_passes, subst, sym,
}
use brokerplatform.Identity.Crypto.{Node, hash_opaque_token}
use brokerplatform.Identity.Passwords.{
  change_password_work, create_password_reset_token_work, redeem_password_reset_token,
  redeem_password_reset_token_work, IssuedResetToken, issue_reset_token, change_password,
  create_password_reset_token, is_redeemable,
}
use brokerplatform.Db.Transaction.{
  World, ◌>>=◌, ok, Ambient, with_authorization_context, conclude, err, Result,
}
use brokerplatform.Identity.Sessions.{
  revoke_refresh_token_work, detect_reuse, rotate_refresh_token_work, set_client_user_active_work,
  issue_refresh_token_work, replace_session, issue_refresh_token, Rotation, rotate_refresh_token,
  RefreshTokenMeta, unless, rotate_unexpired, IssuedRefreshToken, revoke_refresh_token,
  revoke_sessions, set_client_user_active, rotate_row, rotate_found, rotation_result,
}
use brokerplatform.Identity.Operations.{run_sessions, run_session, SessionOperation}
use brokerplatform.Audit.{record_audit_event}
use brokerplatform.Db.Schema.{PasswordActorType, RefreshToken, Db, PasswordResetToken}
use brokerplatform.Db.Inversion.{
  now_elim, reader_elim, bind_elim, update_elim, random_bytes_elim, pure_elim, or_throw_elim,
  date_now_elim, random_uuid_elim, throw_if_elim, insert_elim, insert_inv, settle, returned_inv,
}
use brokerplatform.Db.Context.{AuthorizationContext, as_system}
use brokerplatform.Identity.Revocation.{
  select_password_hash_inv, revoke_sessions_inv, audit_self_inv, select_account_inv,
}
use brokerplatform.Identity.Resets.{IsRedeemed, store_password_inv, redeem-keeps, redeem_work_lem}
use brokerplatform.Db.Policies.Sessions.{refresh_tokens, password_reset_tokens}
use brokerplatform.Db.Policies.People.{client_users}
use brokerplatform.Db.Policies.Logs.{audit_log}
use brokerplatform.Db.Errors.{of_identity, IdentityError}
use brokerplatform.Identity.Rotation.{found_by}

module _ (node : Node) where
  -- The password reset tokens stay as they are.
  abbrev Untouched : World → World → Type 0
  Untouched w w' = w'.db.password_reset_tokens ≡ w.db.password_reset_tokens

  issue-Untouched :
      (type : PasswordActorType) (actor : ℕ) (meta : RefreshTokenMeta) (w : World)
      {r : IssuedRefreshToken × World}
      → issue_refresh_token_work node type actor meta w ≡ ok r
      → Untouched w r.1
  unfolding issue_refresh_token_work
  issue-Untouched type actor meta w h = random_bytes_elim _ w h λ h1. date_now_elim _ _ h1 λ h2.
      random_uuid_elim _ _ h2
        λ h3. now_elim _ _ h3 λ h4. insert_elim refresh_tokens _ _ h4 λ may fresh h5. ground arith

  detect-Untouched :
      (row : RefreshToken) (w : World) {r : Rotation × World}
      → detect_reuse node row w ≡ ok r
      → Untouched w r.1
  unfolding detect_reuse
  detect-Untouched row w h = bind_elim _ _ w h λ u w1 p h1. bind_elim _ _ w1 h1 λ v w2 q h2.
      let e = revoke_sessions_inv row.actor_type row.actor_id w p in
      let f = audit_self_inv row.actor_type row.actor_id _ w1 q in ground arith

  replace-Untouched :
      (row : RefreshToken) (meta : RefreshTokenMeta) (w : World) {r : Rotation × World}
      → replace_session node row meta w ≡ ok r
      → Untouched w r.1
  unfolding replace_session
  replace-Untouched row meta w h = random_bytes_elim _ w h λ h1. date_now_elim _ _ h1 λ h2.
      random_uuid_elim _ _ h2 λ h3. now_elim _ _ h3 λ h4.
        insert_elim refresh_tokens _ _ h4
          λ may fresh h5. update_elim refresh_tokens _ _ _ _ h5 λ free h6. ground arith

  rotate-Untouched :
      (raw : String) (meta : RefreshTokenMeta) (w : World) {r : Rotation × World}
      → rotate_refresh_token_work node raw meta w ≡ ok r
      → Untouched w r.1
  unfolding rotate_refresh_token_work replace_session detect_reuse ◌>>=◌
  rotate-Untouched raw meta w {r} h = found (found_by node raw w.db) h
    where
      late :
          (expired : Bool) (row : RefreshToken)
          → rotate_unexpired node expired row meta w ≡ ok r
          → Untouched w r.1
      late true row h = pure_elim (λ x. Untouched w x.1) h refl
      late false row h = replace-Untouched row meta w h

      gone :
          (revoked : Bool) (row : RefreshToken)
          → rotate_row node revoked row meta w ≡ ok r
          → Untouched w r.1
      gone true row h = detect-Untouched row w h
      gone false row h = late (ltb row.expires_at w.ambient.date_now) row h

      found : (o : Option RefreshToken) → rotate_found node o meta w ≡ ok r → Untouched w r.1
      found none h = pure_elim (λ x. Untouched w x.1) h refl
      found (some row) h = gone (is_some row.revoked_at) row h

  revoke-Untouched :
      (raw : String) (w : World) {r : Unit {0} × World}
      → revoke_refresh_token_work node raw w ≡ ok r
      → Untouched w r.1
  unfolding revoke_refresh_token_work
  revoke-Untouched raw w h =
      now_elim _ w h λ h1. update_elim refresh_tokens _ _ _ w h1 λ free h2. ground arith

  change-Untouched :
      (type : PasswordActorType) (id : ℕ) (current new : String) (w : World) {r : Unit {0} × World}
      → change_password_work node type id current new w ≡ ok r
      → Untouched w r.1
  unfolding change_password_work
  change-Untouched type id current new w h =
      reader_elim _ _ w h (select_password_hash_inv type id w) λ stored p h1.
        or_throw_elim _ _ w h1 λ verified q h2.
          throw_if_elim _ _ w h2 λ right h3. (store_password_inv node type id new _ w h3).0

  active-Untouched :
      (ctx : AuthorizationContext) (organisation user : ℕ) (is_active : Bool) (w : World)
      {r : Unit {0} × World}
      → set_client_user_active_work ctx organisation user is_active w ≡ ok r
      → Untouched w r.1
  unfolding set_client_user_active_work record_audit_event
  active-Untouched ctx organisation user is_active w h =
      update_elim client_users _ _ _ w h λ free h1. throw_if_elim _ _ _ h1 λ present h2.
        bind_elim _ _ _ h2 λ u w1 p h3. now_elim _ w1 h3 λ h4.
          let kept = signing is_active _ p in
          let e = (insert_inv audit_log _ w1 h4).2 in ground arith
    where
      signing :
          (b : Bool) (v : World) {u : Unit {0}} {v' : World}
          → unless b (revoke_sessions PasswordActorType.client_user user) v ≡ ok (u, v')
          → Untouched v v'
      signing true v p = pure_elim (λ x. Untouched v x.1) p refl
      signing false v p =
          let e = revoke_sessions_inv PasswordActorType.client_user user v p in ground arith

  forget-keeps :
      (hash : String) (type : PasswordActorType) (email : String) (w : World)
      {r : Option IssuedResetToken × World}
      → create_password_reset_token_work node type email w ≡ ok r
      → IsRedeemed hash w.db
      → IsRedeemed hash r.1.db
  unfolding create_password_reset_token_work
  forget-keeps hash type email w {r} h used =
      reader_elim _ _ w h (select_account_inv type _ w) λ account p h1. known account h1
    where
      known : (o : Option ℕ) → issue_reset_token node type o w ≡ ok r → IsRedeemed hash r.1.db
      known none h = pure_elim (λ x. IsRedeemed hash x.1.db) h used
      known (some actor) h = random_bytes_elim _ w h λ h1. date_now_elim _ _ h1 λ h2.
          random_uuid_elim _ _ h2 λ h3. insert_elim password_reset_tokens _ _ h3 λ may fresh h4.
            bind_elim _ _ _ h4 λ u w1 p h5. let e = audit_self_inv type actor _ _ p in ground arith

  run-IsRedeemed :
      (hash : String) (operation : SessionOperation) (t : Ambient) (db : Db)
      → IsRedeemed hash db
      → IsRedeemed hash (run_session node operation t db)
  unfolding run_session issue_refresh_token rotate_refresh_token revoke_refresh_token
      set_client_user_active change_password create_password_reset_token redeem_password_reset_token
  run-IsRedeemed hash (SessionOperation.issue type actor meta) t db s =
      settle (IsRedeemed hash) _ _ t db s
        λ a w h. let e = issue-Untouched type actor meta _ h in ground arith
  run-IsRedeemed hash (SessionOperation.rotate raw meta) t db s = outcome _ (
      settle (IsRedeemed hash) _ _ t db s
        λ a w h. let e = rotate-Untouched raw meta _ h in ground arith)
    where
      outcome :
          (o : Result Rotation × Db)
          → IsRedeemed hash o.1
          → IsRedeemed hash (rotation_result node o).1
      outcome (ok Rotation.reused, db) s = s
      outcome (ok Rotation.not_rotated, db) s = s
      outcome (ok (Rotation.rotated r), db) s = s
      outcome (err e, db) s = s
  run-IsRedeemed hash (SessionOperation.sign_out raw) t db s =
      settle (IsRedeemed hash) _ _ t db s λ a w h. let e = revoke-Untouched raw _ h in ground arith
  run-IsRedeemed hash (SessionOperation.set_active ctx organisation user is_active) t db s =
      settle (IsRedeemed hash) _ _ t db s
        λ a w h. let e = active-Untouched ctx organisation user is_active _ h in ground arith
  run-IsRedeemed hash (SessionOperation.change ctx type id current new) t db s =
      settle (IsRedeemed hash) _ _ t db s
        λ a w h. let e = change-Untouched type id current new _ h in ground arith
  run-IsRedeemed hash (SessionOperation.forget type email) t db s =
      settle (IsRedeemed hash) _ _ t db s λ a w h. forget-keeps hash type email _ h s
  run-IsRedeemed hash (SessionOperation.redeem raw password) t db s =
      settle (IsRedeemed hash) _ _ t db s λ a w h. redeem-keeps node hash raw password _ h s

  run_sessions-IsRedeemed :
      (hash : String) (operations : List (SessionOperation × Ambient)) (db : Db)
      → IsRedeemed hash db
      → IsRedeemed hash (run_sessions node operations db)
  unfolding run_sessions
  run_sessions-IsRedeemed hash [] db s = s
  run_sessions-IsRedeemed hash ((operation, t) ∷ rest) db s =
      run_sessions-IsRedeemed hash rest _ (run-IsRedeemed hash operation t db s)

  -- A stored reset token that was used, of a unique hash, is not redeemed.
  redeem_used :
      (raw password : String) (t : Ambient) (db : Db)
      → conflict_free password_reset_tokens.conflicts db.password_reset_tokens ≡ true
      → IsRedeemed (hash_opaque_token node raw) db
      → (redeem_password_reset_token node raw password t db).0
        ≡ err (of_identity IdentityError.invalid_reset_token)
  unfolding redeem_password_reset_token redeem_password_reset_token_work with_authorization_context
      conclude ◌>>=◌
  redeem_used raw password t db free used =
      let nothing =
        none_passes password_reset_tokens.conflicts
          (λ a. str_eq a.token_hash (hash_opaque_token node raw)) (λ a. is_some a.used_at)
          (is_redeemable t.now) db.password_reset_tokens (λ a b p q. shared a b p q)
          (λ a e. ground arith) free used in
      ground arith
    where
      shared :
          (a b : PasswordResetToken)
          → str_eq a.token_hash (hash_opaque_token node raw) ≡ true
          → str_eq b.token_hash (hash_opaque_token node raw) ≡ true
          → password_reset_tokens.conflicts a b ≡ true
      shared a b p q = ground (
        arith,
        str_eq_iff a.token_hash (hash_opaque_token node raw),
        str_eq_iff b.token_hash (hash_opaque_token node raw),
        str_eq_iff a.token_hash b.token_hash,
      )

  -- A reset token that was redeemed is refused after it, whatever functions that write tokens run in
  -- between, as long as the hashes of the stored tokens are unique.
  pub redeem_password_reset_token-once :
      (raw password again : String) (t t' : Ambient)
      (operations : List (SessionOperation × Ambient)) (db : Db) {db' : Db}
      → redeem_password_reset_token node raw password t db ≡ (ok tt, db')
      → conflict_free password_reset_tokens.conflicts
          (run_sessions node operations db').password_reset_tokens
        ≡ true
      → (redeem_password_reset_token node raw again t' (run_sessions node operations db')).0
        ≡ err (of_identity IdentityError.invalid_reset_token)
  unfolding redeem_password_reset_token
  redeem_password_reset_token-once raw password again t t' operations db {db'} h free =
      let (w, runs, same) =
        returned_inv as_system (redeem_password_reset_token_work node raw password) t db h in
      let (token, found, hash, redeemable, used, out) = redeem_work_lem node raw password _ runs in
      redeem_used raw again t' (run_sessions node operations db') free (
        run_sessions-IsRedeemed (hash_opaque_token node raw) operations db'
          (subst (IsRedeemed (hash_opaque_token node raw)) (sym same) used))
