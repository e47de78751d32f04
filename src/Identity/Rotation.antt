-- ===== src/Identity/Rotation.antt =====
-- What `rotateRefreshToken` of identity.repository.ts does with a token.
use brokerplatform.Prelude.{
  ℕ, ◌≡◌, refl, Bool, true, some, ◌∷◌, ◌&&◌, String, arith, conflict_free, Option, first, filter_by,
  str_eq, any-never, conflict_free-update_where, str_eq_iff, found_unique, not, ap, false, is_some,
  subst, ◌∙◌, sym,
}
use brokerplatform.Identity.Crypto.{hash_opaque_token, Node}
use brokerplatform.Db.Schema.{Db, RefreshToken, PasswordActorType, AuditAction}
use brokerplatform.Identity.Sessions.{
  revoke_sessions, audit_self, is_session_of, is_live, rotate_refresh_token, detect_reuse, Rotation,
  rotate_refresh_token_work, RefreshTokenMeta, replace_session, rotation_result, rotate_found,
  rotate_row,
}
use brokerplatform.Audit.{record_audit_event}
use brokerplatform.Db.Transaction.{
  ◌>>=◌, update, insert, World, ok, with_authorization_context, Ambient, err, begin, conclude,
}
use brokerplatform.Db.Policies.Sessions.{refresh_tokens}
use brokerplatform.Identity.Revocation.{
  after_revocation, self_entry, IsSpent, SignedOut, after_revocation-SignedOut,
}
use brokerplatform.Db.Errors.{of_identity, IdentityError}
use brokerplatform.Db.Context.{as_system}

-- The row that a raw token is found by.
abbrev pub found_by : Node → String → Db → Option RefreshToken
found_by node raw db =
    first (filter_by (λ r. str_eq r.token_hash (hash_opaque_token node raw)) db.refresh_tokens)

abbrev pub tokens_unique : Db → Bool
tokens_unique db = conflict_free refresh_tokens.conflicts db.refresh_tokens

pub revoke_sessions_runs :
    (type : PasswordActorType) (id : ℕ) (w : World)
    → tokens_unique w.db ≡ true
    → revoke_sessions type id w
      ≡ ok (
        tt,
        record w {
          db = record w.db {
            refresh_tokens = after_revocation w.ambient.now type id w.db.refresh_tokens;
          };
        },
      )
unfolding revoke_sessions ◌>>=◌ update
revoke_sessions_runs type id w free =
    let kept =
      conflict_free-update_where refresh_tokens.conflicts
        (λ r. is_session_of type id r && is_live r)
        (λ r. record r { revoked_at = some w.ambient.now }) w.db.refresh_tokens (λ a b. refl)
        (λ a b. refl) in
    ground arith

pub audit_self_runs :
    (type : PasswordActorType) (id : ℕ) (action : AuditAction) (w : World)
    → audit_self type id action w
      ≡ ok (
        tt,
        record w {
          db = record w.db { audit_log = self_entry type id action w.ambient.now ∷ w.db.audit_log };
        },
      )
unfolding record_audit_event ◌>>=◌ insert
audit_self_runs type id action w = let never = any-never w.db.audit_log in ground arith

module _ (node : Node) where
  -- The world after the sessions of a token's actor were revoked, and after the audit entry.
  abbrev pub without_sessions : RefreshToken → World → World
  without_sessions row w = record w {
    db = record w.db {
      refresh_tokens =
          after_revocation w.ambient.now row.actor_type row.actor_id w.db.refresh_tokens;
    };
  }

  abbrev pub after_reuse : RefreshToken → World → World
  after_reuse row w = record (without_sessions row w) {
    db = record (without_sessions row w).db {
      audit_log =
          self_entry row.actor_type row.actor_id AuditAction.session_refresh_token_reuse_detected
            w.ambient.now
          ∷ w.db.audit_log;
    };
  }

  detect_reuse_runs :
      (row : RefreshToken) (w : World)
      → tokens_unique w.db ≡ true
      → detect_reuse node row w ≡ ok (Rotation.reused, after_reuse row w)
  unfolding detect_reuse ◌>>=◌
  detect_reuse_runs row w free =
      let revoked = revoke_sessions_runs row.actor_type row.actor_id w free in
      let told =
        audit_self_runs row.actor_type row.actor_id AuditAction.session_refresh_token_reuse_detected
          (without_sessions row w) in
      rw (revoked, told)

  rotate_revoked_runs :
      (raw : String) (meta : RefreshTokenMeta) (w : World) {row : RefreshToken}
      → tokens_unique w.db ≡ true
      → found_by node raw w.db ≡ some row
      → is_live row ≡ false
      → rotate_refresh_token_work node raw meta w ≡ ok (Rotation.reused, after_reuse row w)
  unfolding rotate_refresh_token_work ◌>>=◌ detect_reuse replace_session
  rotate_revoked_runs raw meta w {row} free found gone =
      let revoked : is_some row.revoked_at ≡ true = ground arith in
      ap (λ o. rotate_found node o meta w) found
      ∙ ap (λ b. rotate_row node b row meta w) revoked
      ∙ detect_reuse_runs row w free

  -- Whoever presents a refresh token that was revoked gets the error of
  -- `RefreshTokenReuseDetectedError`, and after it no session of that token's actor is live: the
  -- error does not undo the revocation. The hashes of the stored tokens have to be unique.
  pub rotate_refresh_token-reuse :
      (raw : String) (meta : RefreshTokenMeta) (t : Ambient) (db : Db)
      → tokens_unique db ≡ true
      → IsSpent (hash_opaque_token node raw) db
      → ((rotate_refresh_token node raw meta t db).0
          ≡ err (of_identity IdentityError.refresh_token_reuse_detected))
        × ((row : RefreshToken) × (found_by node raw db ≡ some row)
            × SignedOut row.actor_type row.actor_id (rotate_refresh_token node raw meta t db).1)
  unfolding rotate_refresh_token with_authorization_context conclude
  rotate_refresh_token-reuse raw meta t db free spent =
      let (row, found, gone, same) =
        found_unique refresh_tokens.conflicts
          (λ r. str_eq r.token_hash (hash_opaque_token node raw)) (λ r. not (is_live r))
          db.refresh_tokens (λ a b p q. shared a b p q) free spent in
      let runs = rotate_revoked_runs raw meta (begin as_system t db) free found (ground arith) in
      let result = ap (λ r. rotation_result node (conclude db r)) runs in
      (
        ap (λ x. x.0) result,
        (
          row,
          found,
          subst (SignedOut row.actor_type row.actor_id) (sym (ap (λ x. x.1) result))
              (after_revocation-SignedOut t.now row.actor_type row.actor_id db.refresh_tokens),
        ),
      )
    where
      shared :
          (a b : RefreshToken)
          → str_eq a.token_hash (hash_opaque_token node raw) ≡ true
          → str_eq b.token_hash (hash_opaque_token node raw) ≡ true
          → refresh_tokens.conflicts a b ≡ true
      shared a b p q = ground (
        arith,
        str_eq_iff a.token_hash (hash_opaque_token node raw),
        str_eq_iff b.token_hash (hash_opaque_token node raw),
        str_eq_iff a.token_hash b.token_hash,
      )
