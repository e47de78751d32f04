-- ===== src/Accreditation/History.antt =====
-- The audit log as a record of what happened: the status that the entries about an accreditation
-- give it, and how the entries of an action change it.
use brokerplatform.Prelude.{
  ℕ, ◌≡◌, refl, Option, some, none, List, [], ◌∷◌, ◌==◌, any, filter_by, if◌then◌else◌, arith,
}
use brokerplatform.Db.Context.{AuthorizationContext}
use brokerplatform.Db.Schema.{Accreditation, AccreditationStatus, AuditAction, AuditEntry}
use brokerplatform.Brokers.Reconstruction.{status_by_action, or_keep, is_about}
use brokerplatform.Accreditation.Parties.{audit_each}
use brokerplatform.Accreditation.Effects.{audit_row, audit_elim}
use brokerplatform.Db.Transaction.{World, ok}

-- The status that the newest entry with one gives, in a log whose newest entry stands first.
unfoldable pub latest_status : List AuditEntry → Option AccreditationStatus
unfolding status_by_action
latest_status [] = none
latest_status (e ∷ es) = or_keep (status_by_action e.action) (latest_status es)

unfoldable pub recorded_status : ℕ → List AuditEntry → Option AccreditationStatus
unfolding latest_status
recorded_status id log = latest_status (filter_by (is_about id) log)

pub recorded_status-row :
    (id : ℕ) (ctx : AuthorizationContext) (action : AuditAction) (k : ℕ) (lender : Option ℕ) (t : ℕ)
    (log : List AuditEntry)
    → recorded_status id (audit_row ctx action k lender t ∷ log) ≡ (
        if k == id
        then or_keep (status_by_action action) (recorded_status id log)
        else recorded_status id log)
unfolding recorded_status
recorded_status-row id ctx action k lender t log = ground arith

-- The log after the loop that writes one entry for each row.
unfoldable pub logged_each :
    AuthorizationContext
    → AuditAction
    → Option ℕ
    → ℕ
    → List Accreditation
    → List AuditEntry
    → List AuditEntry
logged_each ctx action lender t [] log = log
logged_each ctx action lender t (a ∷ rest) log =
    logged_each ctx action lender t rest (audit_row ctx action a.id lender t ∷ log)

pub audit_each_inv :
    (ctx : AuthorizationContext) (action : AuditAction) (lender : Option ℕ)
    (bs : List Accreditation) (w : World) {u : Unit {0}} {w' : World}
    → audit_each ctx action lender bs w ≡ ok (u, w')
    → w' ≡ record w {
      db = record w.db {
        audit_log = logged_each ctx action lender w.ambient.now bs w.db.audit_log;
      };
    }
unfolding audit_each logged_each
audit_each_inv ctx action lender [] w h = ground arith
audit_each_inv ctx action lender (b ∷ bs) w h =
    audit_elim ctx action b.id lender _ w h λ h1. audit_each_inv ctx action lender bs _ h1

or_keep-recorded :
    (id : ℕ) (ctx : AuthorizationContext) (action : AuditAction) (lender : Option ℕ) (t : ℕ)
    (bs : List Accreditation) (log : List AuditEntry) {s : AccreditationStatus}
    → status_by_action action ≡ some s
    → recorded_status id (logged_each ctx action lender t bs log)
      ≡ (if any (λ b. b.id == id) bs then some s else recorded_status id log)
unfolding logged_each
or_keep-recorded id ctx action lender t [] log h = refl
or_keep-recorded id ctx action lender t (b ∷ bs) log h =
    let rest =
      or_keep-recorded id ctx action lender t bs (audit_row ctx action b.id lender t ∷ log) h in
    let step = recorded_status-row id ctx action b.id lender t log in ground arith

-- Of an action that sets a status, the entries say so of each row of the list and of no other.
pub recorded_status-logged_each :
    (id : ℕ) (ctx : AuthorizationContext) (action : AuditAction) (lender : Option ℕ) (t : ℕ)
    (bs : List Accreditation) (log : List AuditEntry) {s : AccreditationStatus}
    → status_by_action action ≡ some s
    → recorded_status id (logged_each ctx action lender t bs log) ≡ (
        if any (λ b. b.id == id) bs
        then or_keep (status_by_action action) (recorded_status id log)
        else recorded_status id log)
recorded_status-logged_each id ctx action lender t bs log h =
    let e = or_keep-recorded id ctx action lender t bs log h in ground arith
