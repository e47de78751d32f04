-- ===== src/Identity/SignOut.antt =====
-- Which functions of identity.repository.ts end the sessions of an actor, and what a new password
-- changes.
use brokerplatform.Prelude.{
  ℕ, ◌≡◌, refl, Bool, true, false, none, some, List, [], ◌∷◌, String, arith, Option, str_eq_iff,
  subst, sym, All-found, All-intro, ◌∙◌, ap, update_where, str_eq, ◌==◌, All, first,
}
use brokerplatform.Identity.Crypto.{Node, verify_password, hash_opaque_token, hash_password}
use brokerplatform.Identity.Replacement.{IsReplaced, rotate_refresh_token-replaces}
use brokerplatform.Identity.Passwords.{
  change_password, change_password_work, select_password_hash, verify_stored, store_password,
  redeem_password_reset_token, update_password_hash, is_redeemable,
  redeem_password_reset_token_work,
}
use brokerplatform.Identity.Sessions.{
  set_client_user_active, set_client_user_active_work, RefreshTokenMeta, RotatedRefreshToken,
  rotate_refresh_token, is_session_of, is_live,
}
use brokerplatform.Db.Transaction.{Ambient, ok, begin, err, reached, World}
use brokerplatform.Db.Context.{AuthorizationContext, as_platform_admin, as_system, session_of}
use brokerplatform.Audit.{record_audit_event}
use brokerplatform.Identity.Operations.{SessionOperation, run_sessions}
use brokerplatform.Db.Schema.{
  Db, PasswordActorType, PlatformAdministrator, PasswordResetToken, AuditAction,
}
use brokerplatform.Identity.Revocation.{
  SignedOut, select_password_hash_inv, revoke_sessions_inv, IsSpent, after_revocation-SignedOut,
  audit_self_inv, after_revocation,
}
use brokerplatform.Db.Inversion.{
  returned_inv, update_elim, throw_if_elim, reader_elim, bind_elim, now_elim, or_throw_elim,
  insert_inv, random_bytes_elim,
}
use brokerplatform.Identity.Rotation.{tokens_unique, rotate_refresh_token-reuse}
use brokerplatform.Db.Policies.People.{client_users}
use brokerplatform.Db.Errors.{of_identity, IdentityError}
use brokerplatform.Db.Policies.Logs.{audit_log}
use brokerplatform.Identity.Resets.{store_password_inv, redeem_work_lem, presented, IsRedeemed}
use brokerplatform.Identity.Spent.{run_sessions-IsSpent}
use brokerplatform.Db.Policies.Sessions.{platform_administrators}

-- A client user who was deactivated has no live session left.
pub set_client_user_active-SignedOut :
    (ctx : AuthorizationContext) (organisation user : ℕ) (t : Ambient) (db : Db) {db' : Db}
    → set_client_user_active ctx organisation user false t db ≡ (ok tt, db')
    → SignedOut PasswordActorType.client_user user db'
unfolding set_client_user_active set_client_user_active_work record_audit_event
set_client_user_active-SignedOut ctx organisation user t db {db'} h =
    let (w, runs, same) =
      returned_inv ctx (set_client_user_active_work ctx organisation user false) t db h in
    update_elim client_users _ _ _ (begin ctx t db) runs λ free h1.
      throw_if_elim _ _ _ h1 λ present h2. bind_elim _ _ _ h2 λ u w1 p h3. now_elim _ w1 h3 λ h4.
        let e = revoke_sessions_inv PasswordActorType.client_user user _ p in
        let f = (insert_inv audit_log _ w1 h4).2 in
        let rows : db'.refresh_tokens
            ≡ after_revocation t.now PasswordActorType.client_user user db.refresh_tokens =
          ground arith in
        subst
          (All (λ r. is_session_of PasswordActorType.client_user user r ≡ true → is_live r ≡ false))
          (sym rows)
          (after_revocation-SignedOut t.now PasswordActorType.client_user user db.refresh_tokens)

module _ (node : Node) where
  -- Each refresh token is good for one rotation: whatever functions that write tokens run after it,
  -- whoever presents the token again gets the error of `RefreshTokenReuseDetectedError`. The hashes
  -- of the stored tokens have to be unique.
  pub rotate_refresh_token-once :
      (raw : String) (meta again : RefreshTokenMeta) (t t' : Ambient)
      (operations : List (SessionOperation × Ambient)) (db : Db) {new : RotatedRefreshToken}
      {db' : Db}
      → rotate_refresh_token node raw meta t db ≡ (ok (some new), db')
      → tokens_unique (run_sessions node operations db') ≡ true
      → (rotate_refresh_token node raw again t' (run_sessions node operations db')).0
        ≡ err (of_identity IdentityError.refresh_token_reuse_detected)
  unfolding IsReplaced
  rotate_refresh_token-once raw meta again t t' operations db {db'} h free =
      let (row, found, live, fresh, (type, actor, spent, session)) =
        rotate_refresh_token-replaces node raw meta t db h in
      let hash =
        (str_eq_iff row.token_hash (hash_opaque_token node raw)).0
          (All-found (λ _. Unit {0}) _ db.refresh_tokens (All-intro _ db.refresh_tokens (λ a. tt))
            found).1 in
      (rotate_refresh_token-reuse node raw again t' (run_sessions node operations db') free (
        run_sessions-IsSpent node (hash_opaque_token node raw) operations db'
          (subst (λ x. IsSpent x db') hash spent))).0

  -- A password that was changed was verified against the stored hash, and no session of the actor
  -- is live after it.
  pub change_password-SignedOut :
      (ctx : AuthorizationContext) (type : PasswordActorType) (id : ℕ) (current new : String)
      (t : Ambient) (db : Db) {db' : Db}
      → change_password node ctx type id current new t db ≡ (ok tt, db')
      → ((stored : String) × (select_password_hash type id (begin ctx t db)
            ≡ ok (some stored, begin ctx t db))
          × (verify_password node current stored ≡ some true))
        × SignedOut type id db'
  unfolding change_password change_password_work
  change_password-SignedOut ctx type id current new t db {db'} h =
      let (w, runs, same) =
        returned_inv ctx (change_password_work node type id current new) t db h in
      reader_elim _ _ (begin ctx t db) runs (select_password_hash_inv type id _) λ stored p h1.
        or_throw_elim _ _ _ h1 λ verified q h2. throw_if_elim _ _ _ h2 λ right h3. (
          known stored p (verified_stored stored verified q (ground arith)),
          subst (SignedOut type id) (sym same) (store_password_inv node type id new _ _ h3).1,
        )
    where
      verified_stored :
          (o : Option String) (b : Bool)
          → verify_stored node current o ≡ some b
          → b ≡ true
          → verify_stored node current o ≡ some true
      verified_stored o b e f = ground arith

      known :
          (o : Option String)
          → select_password_hash type id (begin ctx t db) ≡ ok (o, begin ctx t db)
          → verify_stored node current o ≡ some true
          → (stored : String) × (select_password_hash type id (begin ctx t db)
              ≡ ok (some stored, begin ctx t db))
            × (verify_password node current stored ≡ some true)
      known none e v = cc
      known (some stored) e v = (stored, e, v)

  -- A password that was reset was so by a stored token with the hash of the one presented, the first
  -- such that was not used and had not expired. After it a stored token with that hash is used, and
  -- no session of the token's actor is live.
  pub redeem_password_reset_token-SignedOut :
      (raw password : String) (t : Ambient) (db : Db) {db' : Db}
      → redeem_password_reset_token node raw password t db ≡ (ok tt, db')
      → (token : PasswordResetToken) × (first (presented node raw t.now db) ≡ some token)
        × (str_eq token.token_hash (hash_opaque_token node raw) ≡ true)
        × (is_redeemable t.now token ≡ true)
        × IsRedeemed (hash_opaque_token node raw) db'
        × SignedOut token.actor_type token.actor_id db'
  unfolding redeem_password_reset_token
  redeem_password_reset_token-SignedOut raw password t db {db'} h =
      let (w, runs, same) =
        returned_inv as_system (redeem_password_reset_token_work node raw password) t db h in
      let (token, found, hash, redeemable, used, out) =
        redeem_work_lem node raw password (begin as_system t db) runs in
      (
        token,
        found,
        hash,
        redeemable,
        subst (IsRedeemed (hash_opaque_token node raw)) (sym same) used,
        subst (SignedOut token.actor_type token.actor_id) (sym same) out,
      )

  no_admin_reached :
      (admin id : ℕ) (db : Db) (hash : String) (rows : List PlatformAdministrator)
      → update_where
          (reached platform_administrators
            (session_of (as_platform_admin admin))
            db
            (λ a. a.id == id))
          (λ a. record a { password_hash = hash })
          rows
        ≡ rows
  no_admin_reached admin id db hash [] = refl
  no_admin_reached admin id db hash (a ∷ rows) =
      let rest = no_admin_reached admin id db hash rows in ground arith

  store_admin_lem :
      (admin id : ℕ) (password : String) (action : AuditAction) (w : World) {u : Unit {0}}
      {w' : World}
      → w.session ≡ session_of (as_platform_admin admin)
      → store_password node PasswordActorType.platform_admin id password action w ≡ ok (u, w')
      → w'.db.platform_administrators ≡ w.db.platform_administrators
  unfolding store_password update_password_hash
  store_admin_lem admin id password action w s h = random_bytes_elim _ w h λ h1.
      bind_elim _ _ _ h1 λ u w1 p h2. update_elim platform_administrators _ _ _ _ p λ free p1.
        bind_elim _ _ w1 h2 λ v w2 q h3.
          let e = revoke_sessions_inv PasswordActorType.platform_admin id w1 q in
          let f = audit_self_inv PasswordActorType.platform_admin id action w2 h3 in
          let hash = hash_password node password (w.ambient.random_bytes 16 w.drawn) in
          let kept =
            subst
              (λ x.
                update_where (reached platform_administrators x w.db (λ a. a.id == id))
                  (λ a. record a { password_hash = hash }) w.db.platform_administrators
                ≡ w.db.platform_administrators)
              (sym s) (no_admin_reached admin id w.db hash w.db.platform_administrators) in
          ground arith

  -- A platform administrator who changes their password, and to whom that is reported as done,
  -- still has the old one: the policy lets only the system write `platform_administrators`. Their
  -- sessions have ended all the same.
  pub change_password-administrators :
      (admin id : ℕ) (current new : String) (t : Ambient) (db : Db) {db' : Db}
      → change_password node
          (as_platform_admin admin)
          PasswordActorType.platform_admin
          id
          current
          new
          t
          db
        ≡ (ok tt, db')
      → (db'.platform_administrators ≡ db.platform_administrators)
        × SignedOut PasswordActorType.platform_admin id db'
  unfolding change_password change_password_work
  change_password-administrators admin id current new t db {db'} h =
      let (w, runs, same) =
        returned_inv (as_platform_admin admin)
          (change_password_work node PasswordActorType.platform_admin id current new) t db h in
      reader_elim _ _ (begin (as_platform_admin admin) t db) runs
        (select_password_hash_inv PasswordActorType.platform_admin id _)
        λ stored p h1. or_throw_elim _ _ _ h1 λ verified q h2. throw_if_elim _ _ _ h2 λ right h3.
          let admins =
            store_admin_lem admin id new _ (begin (as_platform_admin admin) t db) refl h3 in
          (
            ap (λ (x : Db). x.platform_administrators) same ∙ admins,
            subst (SignedOut PasswordActorType.platform_admin id) (sym same)
                (store_password_inv node PasswordActorType.platform_admin id new _ _ h3).1,
          )
