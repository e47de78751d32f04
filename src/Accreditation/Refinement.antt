-- ===== src/Accreditation/Refinement.antt =====
-- On the actions of the accreditation module: from what each of them does to a step of the machine
-- of `Transitions`.
use brokerplatform.Prelude.{
  ℕ, ◌≡◌, refl, Bool, true, conflict_free, arith, Option, subst, if◌then◌else◌, ◌==◌, some, sym,
  List, String, ◌∷◌, ap, ◌∙◌,
}
use brokerplatform.Db.Context.{
  AuthorizationContext, as_client_user, as_broker, as_platform_admin, as_system, session_of,
}
use brokerplatform.Db.Schema.{
  Accreditation, AccreditationStatus, AuditAction, Db, RulesetKey, RulesetVersion, TrainingKind,
}
use brokerplatform.Db.Policies.Lifecycle.{accreditations_conflict, ruleset_versions, accreditations}
use brokerplatform.Db.Transaction.{Ambient, World, begin, reached, ok}
use brokerplatform.Accreditation.Effects.{Acted, by_id, stamped}
use brokerplatform.Accreditation.Changes.{Acted-Moved}
use brokerplatform.Accreditation.Transitions.{Lawful, Change, concerns, may_request}
use brokerplatform.Rulesets.Repository.{resolve, resolve_work}
use brokerplatform.Accreditation.Requests.{requested_row, AccreditationInput}
use brokerplatform.Accreditation.History.{recorded_status, latest_status, recorded_status-row}
use brokerplatform.Db.Inversion.{settle, select_elim}
use brokerplatform.Brokers.Reconstruction.{status_by_action}
use brokerplatform.Accreditation.Arrivals.{Arrived}
use brokerplatform.Accreditation.Training.{
  check_training_deadlines_work, confirm_training_work, is_overdue, is_pending,
}
use brokerplatform.Accreditation.Parties.{end_affiliation_work, may_be_flagged}
use brokerplatform.Accreditation.Activation.{confirm_training_effect}
use brokerplatform.Accreditation.Sweeps.{
  end_affiliation_effect, Swept-Moved, ended_entry, check_training_deadlines_effect,
}
use brokerplatform.Accreditation.Laws.{lapsed-Lawful, flagged-Lawful}
use brokerplatform.Accreditation.Leavers.{leaver_may_request}

-- The rows that an action by id reaches are the actor's concern.
hit_concerns :
    (ctx : AuthorizationContext) (ambient : Ambient) (db : Db) (id : ℕ) (a : Accreditation)
    → by_id (begin ctx ambient db) id a ≡ true
    → concerns ctx a ≡ true
hit_concerns (as_client_user u org) ambient db id a h = ground arith
hit_concerns (as_broker u) ambient db id a h = refl
hit_concerns (as_platform_admin u) ambient db id a h = refl
hit_concerns as_system ambient db id a h = refl

pub Acted-Change :
    (ctx : AuthorizationContext) (ambient : Ambient) (db : Db) (id : ℕ)
    {guard : AccreditationStatus → Bool} {f : ℕ → Accreditation → Accreditation}
    {action : AuditAction} {w' : World}
    → conflict_free accreditations_conflict db.accreditations ≡ true
    → ((t : ℕ) → Lawful guard (stamped f t) action)
    → Acted id guard f ctx action (begin ctx ambient db) w'
    → Change ctx db w'.db
Acted-Change ctx ambient db id free law acted =
    Change.moved (law ambient.now) (hit_concerns ctx ambient db id)
      (Acted-Moved ctx ambient db id free acted)

abbrev to_itself : ℕ → Accreditation → Accreditation
to_itself t a = a

-- The resolution of the ruleset changes nothing.
pub resolve-keeps :
    (key : RulesetKey) (ambient : Ambient) (db : Db) → (resolve as_system key ambient db).1 ≡ db
unfolding resolve resolve_work
resolve-keeps key ambient db =
    settle (λ d. d ≡ db) as_system (resolve_work key) ambient db refl
      (λ v w h. select_elim ruleset_versions _ _ _ h λ h1. ground arith)

pub stays : (ctx : AuthorizationContext) (db : Db) → Change ctx db db
stays ctx db = Change.idle refl (λ id. refl)

pub Arrived-Change :
    (ctx : AuthorizationContext) (ambient : Ambient) (db : Db) (i : AccreditationInput)
    {resolved : Option RulesetVersion} {id : ℕ} {w' : World}
    → Arrived i resolved id (begin ctx ambient db) w'
    → Change ctx db w'.db
unfolding requested_row recorded_status latest_status status_by_action
Arrived-Change ctx ambient db i {resolved} {id} a =
    Change.arrived (requested_row i resolved a.relationship.id id ambient.now) refl
      (may_request_of ctx a.allowed) a.fresh a.rows
      (λ k.
        subst
          (λ log. recorded_status k log ≡ (
            if id == k then some AccreditationStatus.requested else recorded_status k db.audit_log))
          (sym a.log) (ground arith))
  where
    may_request_of :
        (c : AuthorizationContext)
        → (accreditations.insertable
            (session_of c)
            db
            (requested_row i resolved a.relationship.id id ambient.now))
          ≡ true
        → may_request c ≡ true
    may_request_of (as_client_user u org) h = cc
    may_request_of (as_broker u) h = refl
    may_request_of (as_platform_admin u) h = refl
    may_request_of as_system h = refl

overdue_concerns :
    (ctx : AuthorizationContext) (db : Db) (lender t : ℕ) (a : Accreditation)
    → reached accreditations (session_of ctx) db (is_overdue lender t) a ≡ true
    → concerns ctx a ≡ true
overdue_concerns (as_client_user u org) db lender t a h = ground arith
overdue_concerns (as_broker u) db lender t a h = refl
overdue_concerns (as_platform_admin u) db lender t a h = refl
overdue_concerns as_system db lender t a h = refl

concerns_all :
    (ctx : AuthorizationContext) (a : Accreditation)
    → may_request ctx ≡ true
    → concerns ctx a ≡ true
concerns_all (as_client_user u org) a h = cc
concerns_all (as_broker u) a h = refl
concerns_all (as_platform_admin u) a h = refl
concerns_all as_system a h = refl

pub deadlines-Change :
    (ctx : AuthorizationContext) (ambient : Ambient) (db : Db) (lender : ℕ) {ids : List ℕ}
    {w' : World}
    → conflict_free accreditations_conflict db.accreditations ≡ true
    → check_training_deadlines_work ctx lender (begin ctx ambient db) ≡ ok (ids, w')
    → Change ctx db w'.db
unfolding status_by_action
deadlines-Change ctx ambient db lender {w'} free h =
    Change.moved (lapsed-Lawful ambient.now) (overdue_concerns ctx db lender ambient.now) (
      Swept-Moved _ is_pending _ ctx _ _ ambient.now db w'.db (λ a. refl) (λ a e. ground arith) refl
        free (check_training_deadlines_effect ctx lender (begin ctx ambient db) h))

pub leave-Change :
    (ctx : AuthorizationContext) (ambient : Ambient) (db : Db) (broker id : ℕ)
    (reason : Option String) {ids : List ℕ} {w' : World}
    → conflict_free accreditations_conflict db.accreditations ≡ true
    → end_affiliation_work ctx broker id reason (begin ctx ambient db) ≡ ok (ids, w')
    → Change ctx db w'.db
unfolding status_by_action recorded_status latest_status
leave-Change ctx ambient db broker id reason {w'} free h =
    let (business, swept) = end_affiliation_effect ctx broker id reason (begin ctx ambient db) h in
    let told : Db = record db { audit_log = ended_entry broker id ambient.now ∷ db.audit_log } in
    let m =
      Swept-Moved _ may_be_flagged _ ctx _ _ ambient.now told w'.db (λ a. refl)
        (λ a e. ground arith) refl free swept in
    Change.moved (flagged-Lawful ambient.now)
      (λ a e. concerns_all ctx a (leaver_may_request ctx ambient db broker id reason h))
      (record { rows = m.rows; free = m.free; guarded = m.guarded; logged = m.logged })

pub confirm-Change :
    (ctx : AuthorizationContext) (ambient : Ambient) (db : Db) (id : ℕ) (kind : TrainingKind)
    (notes : Option String) {u : Unit {0}} {w' : World}
    → confirm_training_work ctx id kind notes (begin ctx ambient db) ≡ ok (u, w')
    → Change ctx db w'.db
unfolding status_by_action
confirm-Change ctx ambient db id kind notes h =
    let (lender, rows, log) = confirm_training_effect ctx id kind notes (begin ctx ambient db) h in
    Change.idle rows (λ k.
      let e =
        recorded_status-row k ctx AuditAction.accreditation_training_confirmed id (some lender)
          ambient.now db.audit_log in
      ap (recorded_status k) log ∙ ground arith)
