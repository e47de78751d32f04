-- ===== src/Accreditation/Transitions.antt =====
-- The abstract state machine of an accreditation, and the step of a database that follows it: the
-- specification that the operations implement.
use brokerplatform.Prelude.{
  ℕ, ◌≡◌, Bool, true, false, Option, some, none, ◌∷◌, ◌⊎◌, ◌==◌, any, if◌then◌else◌,
}
use brokerplatform.Db.Context.{
  AuthorizationContext, as_broker, as_client_user, as_platform_admin, as_system,
}
use brokerplatform.Db.Schema.{Accreditation, AccreditationStatus, AuditAction, Db}
use brokerplatform.Db.Policies.Lifecycle.{accreditations_conflict}
use brokerplatform.Brokers.Reconstruction.{status_by_action}
use brokerplatform.Accreditation.Guards.{awaits_decision}
use brokerplatform.Accreditation.Outcomes.{not_declined}
use brokerplatform.Accreditation.Parties.{may_be_flagged}
use brokerplatform.Accreditation.Changes.{Moved}
use brokerplatform.Accreditation.History.{recorded_status}

-- The edges of the state machine.
pub data Transition : AccreditationStatus → AccreditationStatus → Type 0 where
  asked :
      {s : AccreditationStatus}
      → not_declined s ≡ true
      → Transition s AccreditationStatus.information_required
  raised :
      {s : AccreditationStatus}
      → not_declined s ≡ true
      → Transition s AccreditationStatus.exception_escalated
  approved :
      {s : AccreditationStatus}
      → awaits_decision s ≡ true
      → Transition s AccreditationStatus.pending
  refused :
      {s : AccreditationStatus}
      → awaits_decision s ≡ true
      → Transition s AccreditationStatus.declined
  activated : Transition AccreditationStatus.pending AccreditationStatus.active
  missed : Transition AccreditationStatus.pending AccreditationStatus.lapsed
  flagged :
      {s : AccreditationStatus}
      → may_be_flagged s ≡ true
      → Transition s AccreditationStatus.party_changed_pending

abbrev pub status_or : Option AccreditationStatus → AccreditationStatus → AccreditationStatus
status_or none s = s
status_or (some mapped) s = mapped

-- What an action may do to a row: it keeps the columns that say whose it is, and its new status is
-- the one that the action stands for in the log, along an edge.
pub record Lawful (guard : AccreditationStatus → Bool) (g : Accreditation → Accreditation)
    (action : AuditAction) : Type 0 where
  pub same_id : (a : Accreditation) → (g a).id ≡ a.id
  pub same_lender :
      (a : Accreditation) → (g a).lender_client_organisation_id ≡ a.lender_client_organisation_id
  pub sets : (a : Accreditation) → (g a).status ≡ status_or (status_by_action action) a.status
  pub edge :
      (a : Accreditation)
      → guard a.status ≡ true
      → ((g a).status ≡ a.status) ⊎ Transition a.status (g a).status

-- The rows that an actor may bring about a change of: a client user only those of their own
-- organisation.
abbrev pub concerns : AuthorizationContext → Accreditation → Bool
concerns (as_client_user id org) a = org == a.lender_client_organisation_id
concerns (as_broker id) a = true
concerns (as_platform_admin id) a = true
concerns as_system a = true

abbrev pub may_request : AuthorizationContext → Bool
may_request (as_client_user id org) = false
may_request other = true

-- One step of the abstract machine, by `ctx`.
pub data Change (ctx : AuthorizationContext) (db db' : Db) : Type 0 where
  moved :
      {hit : Accreditation → Bool} {guard : AccreditationStatus → Bool}
      {g : Accreditation → Accreditation} {action : AuditAction}
      → Lawful guard g action
      → ((a : Accreditation) → hit a ≡ true → concerns ctx a ≡ true)
      → Moved hit guard g action db db'
      → Change ctx db db'
  arrived :
      (a : Accreditation)
      → a.status ≡ AccreditationStatus.requested
      → may_request ctx ≡ true
      → any (accreditations_conflict a) db.accreditations ≡ false
      → db'.accreditations ≡ a ∷ db.accreditations
      → ((id : ℕ)
          → recorded_status id db'.audit_log ≡ (
              if a.id == id
              then some AccreditationStatus.requested
              else recorded_status id db.audit_log))
      → Change ctx db db'
  idle :
      db'.accreditations ≡ db.accreditations
      → ((id : ℕ) → recorded_status id db'.audit_log ≡ recorded_status id db.audit_log)
      → Change ctx db db'
