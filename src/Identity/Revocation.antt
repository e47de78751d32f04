-- ===== src/Identity/Revocation.antt =====
-- What the functions of identity.repository.ts do to the refresh tokens.
use brokerplatform.Prelude.{
  ℕ, ◌≡◌, Bool, true, false, none, some, List, [], ◌∷◌, ◌&&◌, String, arith, All, any, update_where,
  any-update_where, str_eq, not, Option,
}
use brokerplatform.Db.Schema.{PasswordActorType, RefreshToken, Db, AuditAction, AuditEntry}
use brokerplatform.Audit.{record_audit_event}
use brokerplatform.Identity.Sessions.{
  revoke_sessions, audit_self, is_session_of, is_live, actor_type_as, actor_subject,
}
use brokerplatform.Db.Transaction.{World, ok, ◌>>=◌}
use brokerplatform.Db.Inversion.{now_elim, update_elim, insert_inv}
use brokerplatform.Db.Policies.Sessions.{refresh_tokens, platform_administrators}
use brokerplatform.Db.Policies.Logs.{audit_log}
use brokerplatform.Identity.Passwords.{select_password_hash, update_password_hash, select_account}
use brokerplatform.Db.Policies.People.{broker_profiles, client_users}

-- A refresh token with this hash was revoked.
abbrev pub has_spent : String → List RefreshToken → Bool
has_spent hash rs = any (λ r. str_eq r.token_hash hash && not (is_live r)) rs

abbrev pub IsSpent : String → Db → Type 0
IsSpent hash db = has_spent hash db.refresh_tokens ≡ true

-- The refresh tokens after `revoke_sessions`.
abbrev pub after_revocation : ℕ → PasswordActorType → ℕ → List RefreshToken → List RefreshToken
after_revocation t type id rs =
    update_where (λ r. is_session_of type id r && is_live r) (λ r. record r { revoked_at = some t })
      rs

pub revoke_sessions_inv :
    (type : PasswordActorType) (id : ℕ) (w : World) {u : Unit {0}} {w' : World}
    → revoke_sessions type id w ≡ ok (u, w')
    → w' ≡ record w {
      db = record w.db {
        refresh_tokens = after_revocation w.ambient.now type id w.db.refresh_tokens;
      };
    }
unfolding revoke_sessions
revoke_sessions_inv type id w h =
    now_elim _ w h λ h1. update_elim refresh_tokens _ _ _ w h1 λ free h2. ground arith

-- No session of the actor is live.
abbrev pub SignedOut : PasswordActorType → ℕ → Db → Type 0
SignedOut type id db =
    All (λ r. is_session_of type id r ≡ true → is_live r ≡ false) db.refresh_tokens

pub after_revocation-SignedOut :
    (t : ℕ) (type : PasswordActorType) (id : ℕ) (rs : List RefreshToken)
    → All (λ r. is_session_of type id r ≡ true → is_live r ≡ false) (after_revocation t type id rs)
after_revocation-SignedOut t type id [] = tt
after_revocation-SignedOut t type id (r ∷ rs) =
    (λ own. ground arith, after_revocation-SignedOut t type id rs)

-- Revoking keeps what was revoked.
pub has_spent-revocation :
    (hash : String) (hit : RefreshToken → Bool) (t : ℕ) (rs : List RefreshToken)
    → has_spent hash rs ≡ true
    → has_spent hash (update_where hit (λ r. record r { revoked_at = some t }) rs) ≡ true
has_spent-revocation hash hit t rs h = any-update_where _ hit _ rs (λ r e. ground arith) h

abbrev pub self_entry : PasswordActorType → ℕ → AuditAction → ℕ → AuditEntry
self_entry type id action t = record {
  occurred_at = t;
  actor_type = actor_type_as type;
  actor_id = some id;
  action = action;
  subject_type = actor_subject type;
  subject_id = id;
  client_organisation_id = none;
}

pub audit_self_inv :
    (type : PasswordActorType) (id : ℕ) (action : AuditAction) (w : World) {u : Unit {0}}
    {w' : World}
    → audit_self type id action w ≡ ok (u, w')
    → w' ≡ record w {
      db = record w.db { audit_log = self_entry type id action w.ambient.now ∷ w.db.audit_log };
    }
unfolding record_audit_event
audit_self_inv type id action w h = now_elim _ w h λ h1. (insert_inv audit_log _ w h1).2

pub after_revocation-IsSpent :
    (hash : String) (t : ℕ) (type : PasswordActorType) (id : ℕ) (rs : List RefreshToken)
    → has_spent hash rs ≡ true
    → has_spent hash (after_revocation t type id rs) ≡ true
after_revocation-IsSpent hash t type id rs h = has_spent-revocation hash _ t rs h

pub select_password_hash_inv :
    (type : PasswordActorType) (id : ℕ) (w : World) (o : Option String) (w' : World)
    → select_password_hash type id w ≡ ok (o, w')
    → w' ≡ w
unfolding select_password_hash ◌>>=◌
select_password_hash_inv PasswordActorType.broker id w o w' h = ground arith
select_password_hash_inv PasswordActorType.client_user id w o w' h = ground arith
select_password_hash_inv PasswordActorType.platform_admin id w o w' h = ground arith

-- A new password changes no token and no clock.
pub update_password_hash_inv :
    (type : PasswordActorType) (hash : String) (id : ℕ) (w : World) {u : Unit {0}} {w' : World}
    → update_password_hash type hash id w ≡ ok (u, w')
    → (w'.db.refresh_tokens ≡ w.db.refresh_tokens)
      × (w'.db.password_reset_tokens ≡ w.db.password_reset_tokens)
      × (w'.ambient ≡ w.ambient)
unfolding update_password_hash
update_password_hash_inv PasswordActorType.broker hash id w h =
    update_elim broker_profiles _ _ _ w h λ free h1. (ground arith, ground arith, ground arith)
update_password_hash_inv PasswordActorType.client_user hash id w h =
    update_elim client_users _ _ _ w h λ free h1. (ground arith, ground arith, ground arith)
update_password_hash_inv PasswordActorType.platform_admin hash id w h =
    update_elim platform_administrators _ _ _ w h
      λ free h1. (ground arith, ground arith, ground arith)

pub select_account_inv :
    (type : PasswordActorType) (email : String) (w : World) (o : Option ℕ) (w' : World)
    → select_account type email w ≡ ok (o, w')
    → w' ≡ w
unfolding select_account ◌>>=◌
select_account_inv PasswordActorType.broker email w o w' h = ground arith
select_account_inv PasswordActorType.client_user email w o w' h = ground arith
select_account_inv PasswordActorType.platform_admin email w o w' h = ground arith
