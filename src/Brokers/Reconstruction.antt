-- ===== src/Brokers/Reconstruction.antt =====
-- `reconstructAsOf` (brokers.repository.ts): the state of a broker at a past date, with the status
-- of each accreditation replayed from the audit log.
use brokerplatform.Prelude.{
  ℕ, Bool, true, false, Option, none, some, List, [], ◌∷◌, String, ◌&&◌, ◌==◌, map, any, leb, ltb,
  if◌then◌else◌,
}
use brokerplatform.Db.Context.{AuthorizationContext}
use brokerplatform.Db.Schema.{
  Accreditation, AccreditationClassification, AccreditationStatus, AuditAction, AuditEntry,
  CheckResult, Evidence, SubjectType,
}
use brokerplatform.Db.Policies.Lifecycle.{accreditations}
use brokerplatform.Db.Policies.People.{business_affiliations, is_active_affiliation}
use brokerplatform.Db.Policies.Logs.{audit_log, check_results, evidence, is_accreditation}
use brokerplatform.Db.Transaction.{Tx, ◌>>=◌, pure, select, Call, with_authorization_context}

-- `ACCREDITATION_STATUS_BY_ACTION[action]`
unfoldable pub status_by_action : AuditAction → Option AccreditationStatus
status_by_action AuditAction.accreditation_requested = some AccreditationStatus.requested
status_by_action AuditAction.accreditation_information_requested =
    some AccreditationStatus.information_required
status_by_action AuditAction.accreditation_escalated = some AccreditationStatus.exception_escalated
status_by_action AuditAction.accreditation_approved = some AccreditationStatus.pending
status_by_action AuditAction.accreditation_declined = some AccreditationStatus.declined
status_by_action AuditAction.accreditation_activated = some AccreditationStatus.active
status_by_action AuditAction.accreditation_lapsed = some AccreditationStatus.lapsed
status_by_action AuditAction.accreditation_party_changed =
    some AccreditationStatus.party_changed_pending
status_by_action other = none

-- `if (mapped) status = mapped`
abbrev pub or_keep :
    Option AccreditationStatus → Option AccreditationStatus → Option AccreditationStatus
or_keep (some mapped) status = some mapped
or_keep none status = status

-- The loop over the history.
unfoldable pub replay : Option AccreditationStatus → List AuditEntry → Option AccreditationStatus
unfolding status_by_action
replay status [] = status
replay status (e ∷ es) = replay (or_keep (status_by_action e.action) status) es

-- `ORDER BY occurred_at ASC`. Entries of one time stay in the order in which they were written.
unfoldable pub insert_by_time : AuditEntry → List AuditEntry → List AuditEntry
insert_by_time e [] = e ∷ []
insert_by_time e (x ∷ xs) =
    let rest = insert_by_time e xs in
    if leb x.occurred_at e.occurred_at then x ∷ rest else e ∷ x ∷ xs

unfoldable pub order_by_time : List AuditEntry → List AuditEntry
unfolding insert_by_time
order_by_time [] = []
order_by_time (e ∷ es) = insert_by_time e (order_by_time es)

abbrev pub is_about : ℕ → AuditEntry → Bool
is_about id e = is_accreditation e.subject_type && e.subject_id == id

pub record AccreditationState : Type 0 where
  pub id : ℕ
  pub brand : String
  pub role : String
  pub classification : AccreditationClassification
  pub status : AccreditationStatus

pub record Reconstruction : Type 0 where
  pub as_of : ℕ
  pub accreditations : List AccreditationState
  pub check_results : List CheckResult
  pub documents : List Evidence

-- `if (status) accreditations.push(…)`
abbrev pub push_state :
    Accreditation → Option AccreditationStatus → List AccreditationState → List AccreditationState
push_state a none states = states
push_state a (some s) states =
    record {
      id = a.id;
      brand = a.brand;
      role = a.role;
      classification = a.classification;
      status = s;
    }
    ∷ states

-- The loop over the accreditations of the broker.
unfoldable pub reconstruct_each : ℕ → List Accreditation → Tx (List AccreditationState)
unfolding replay order_by_time
reconstruct_each as_of [] = pure []
reconstruct_each as_of (a ∷ rest) = do
  history ← select audit_log (λ e. is_about a.id e && leb e.occurred_at as_of)
  states ← reconstruct_each as_of rest
  pure (push_state a (replay none (order_by_time history)) states)

-- `valid_to IS NULL OR valid_to > $3`
abbrev pub is_open_at : ℕ → Option ℕ → Bool
is_open_at t none = true
is_open_at t (some end) = ltb t end

-- `document_type IS NOT NULL`
abbrev is_document : Option String → Bool
is_document none = false
is_document (some d) = true

abbrev pub is_of_subjects : ℕ → List ℕ → SubjectType → ℕ → Bool
is_of_subjects broker businesses SubjectType.broker_profile id = id == broker
is_of_subjects broker businesses SubjectType.broker_business id = any (λ b. id == b) businesses

-- `reconstructAsOf`
unfoldable pub reconstruct_as_of_work : ℕ → ℕ → Tx Reconstruction
reconstruct_as_of_work broker as_of = do
  rows ← select accreditations (λ a. a.broker_profile_id == broker)
  states ← reconstruct_each as_of rows
  affiliations ←
      select business_affiliations
        (λ a. a.broker_profile_id == broker && is_active_affiliation a.status)
  let businesses = map (λ a. a.broker_business_id) affiliations
  checks ← select check_results (λ c.
      is_of_subjects broker businesses c.subject_type c.subject_id
      && leb c.valid_from as_of
      && is_open_at as_of c.valid_to)
  documents ← select evidence (λ e.
      is_of_subjects broker businesses e.subject_type e.subject_id
      && is_document e.document_type
      && leb e.captured_at as_of
      && is_open_at as_of e.valid_to)
  pure (record {
    as_of = as_of;
    accreditations = states;
    check_results = checks;
    documents = documents;
  })

unfoldable pub reconstruct_as_of : AuthorizationContext → ℕ → ℕ → Call Reconstruction
unfolding with_authorization_context reconstruct_as_of_work
reconstruct_as_of ctx broker as_of =
    with_authorization_context ctx (reconstruct_as_of_work broker as_of)
