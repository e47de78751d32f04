-- ===== src/Identity/Resets.antt =====
-- What the functions of identity.repository.ts do to the password reset tokens.
use brokerplatform.Prelude.{
  ℕ, ◌≡◌, true, some, ◌&&◌, String, arith, any, str_eq, is_some, All-found, any-update_where, ◌==◌,
  All-intro, subst, sym, any-hit, ap, List, first, filter_by,
}
use brokerplatform.Db.Schema.{Db, PasswordActorType, AuditAction, PasswordResetToken}
use brokerplatform.Identity.Crypto.{Node, hash_opaque_token}
use brokerplatform.Identity.Passwords.{
  redeem_password_reset_token_work, store_password, is_redeemable,
}
use brokerplatform.Db.Transaction.{World, ok}
use brokerplatform.Identity.Revocation.{
  SignedOut, update_password_hash_inv, revoke_sessions_inv, audit_self_inv,
  after_revocation-SignedOut,
}
use brokerplatform.Db.Inversion.{
  now_elim, random_bytes_elim, select_elim, bind_elim, or_throw_elim, update_elim,
}
use brokerplatform.Db.Policies.Sessions.{password_reset_tokens}

-- A reset token with this hash was used.
abbrev pub IsRedeemed : String → Db → Type 0
IsRedeemed hash db =
    any (λ r. str_eq r.token_hash hash && is_some r.used_at) db.password_reset_tokens ≡ true

module _ (node : Node) where
  pub store_password_inv :
      (type : PasswordActorType) (id : ℕ) (password : String) (action : AuditAction) (w : World)
      {u : Unit {0}} {w' : World}
      → store_password node type id password action w ≡ ok (u, w')
      → (w'.db.password_reset_tokens ≡ w.db.password_reset_tokens) × SignedOut type id w'.db
  unfolding store_password
  store_password_inv type id password action w h = random_bytes_elim _ w h λ h1.
      bind_elim _ _ _ h1 λ u w1 p h2. bind_elim _ _ w1 h2 λ v w2 q h3.
        let same = update_password_hash_inv type _ id _ p in
        let e = revoke_sessions_inv type id w1 q in
        let f = audit_self_inv type id action w2 h3 in
        (
          ground arith,
          subst (SignedOut type id) (sym (ap (λ x. x.db) f)) (
              subst (λ x. SignedOut type id x.db) (sym e)
                (after_revocation-SignedOut w1.ambient.now type id w1.db.refresh_tokens)),
        )

  -- The stored tokens that `redeemPasswordResetToken` may choose of.
  abbrev pub presented : String → ℕ → Db → List PasswordResetToken
  presented raw now db =
      filter_by (λ r. str_eq r.token_hash (hash_opaque_token node raw) && is_redeemable now r)
        db.password_reset_tokens

  pub redeem_work_lem :
      (raw password : String) (w : World) {u : Unit {0}} {w' : World}
      → redeem_password_reset_token_work node raw password w ≡ ok (u, w')
      → (token : PasswordResetToken) × (first (presented raw w.ambient.now w.db) ≡ some token)
        × (str_eq token.token_hash (hash_opaque_token node raw) ≡ true)
        × (is_redeemable w.ambient.now token ≡ true)
        × IsRedeemed (hash_opaque_token node raw) w'.db
        × SignedOut token.actor_type token.actor_id w'.db
  unfolding redeem_password_reset_token_work
  redeem_work_lem raw password w h = now_elim _ w h λ h1.
      select_elim password_reset_tokens _ _ w h1 λ h2. or_throw_elim _ _ w h2 λ token found h3.
        update_elim password_reset_tokens _ _ _ w h3 λ free h4.
          let stored = store_password_inv token.actor_type token.actor_id password _ _ h4 in
          let met =
            (All-found (λ _. Unit {0}) _ w.db.password_reset_tokens
              (All-intro _ w.db.password_reset_tokens (λ a. tt)) found).1 in
          let used =
            any-hit _ (λ a. a.id == token.id)
              (λ a. str_eq a.token_hash (hash_opaque_token node raw) && is_some a.used_at)
              (λ a. record a { used_at = some w.ambient.now }) w.db.password_reset_tokens found
              (ground arith) (ground arith) in
          (token, ground arith, ground arith, ground arith, ground arith, stored.1)

  pub redeem-keeps :
      (hash raw password : String) (w : World) {r : Unit {0} × World}
      → redeem_password_reset_token_work node raw password w ≡ ok r
      → IsRedeemed hash w.db
      → IsRedeemed hash r.1.db
  unfolding redeem_password_reset_token_work
  redeem-keeps hash raw password w h used = now_elim _ w h λ h1.
      select_elim password_reset_tokens _ _ w h1 λ h2. or_throw_elim _ _ w h2 λ token found h3.
        update_elim password_reset_tokens _ _ _ w h3 λ free h4.
          let same = (store_password_inv token.actor_type token.actor_id password _ _ h4).0 in
          let kept =
            any-update_where (λ a. str_eq a.token_hash hash && is_some a.used_at)
              (λ a. a.id == token.id) (λ a. record a { used_at = some w.ambient.now })
              w.db.password_reset_tokens (λ a e. ground arith) used in
          ground arith
