-- ===== src/Accreditation/Outcomes.antt =====
-- What the lender's actions on an accreditation have changed when they returned.
use brokerplatform.Prelude.{
  Bool, ℕ, ◌≡◌, ap, not, some, none, List, String, Option, arith, ◌*◌, ◌+◌, first, ◌==◌, true,
  false, inl, inr, refl,
}
use brokerplatform.Db.Context.{
  AuthorizationContext, as_client_user, as_broker, as_platform_admin, as_system,
}
use brokerplatform.Db.Policies.People.{client_users}
use brokerplatform.Db.Schema.{
  Accreditation, AccreditationStatus, DecisionStep, AuditAction, ClientUser, ClientUserRole,
}
use brokerplatform.Db.Policies.{is_declined}
use brokerplatform.Db.Transaction.{World, ok, seen, ◌>>=◌, pure}
use brokerplatform.Db.Inversion.{reader_elim, throw_if_elim, throw_if_inv, if_inv}
use brokerplatform.Notifications.Effects.{create_notification_inv}
use brokerplatform.Notifications.Repository.{Dispatch}
use brokerplatform.Accreditation.Guards.{
  awaits_decision, assert_can_decide, assert_senior, get_client_user_role, is_senior_step,
  is_senior, role_of,
}
use brokerplatform.Accreditation.Decisions.{
  request_more_information_work, escalate_work, approve_work, decline_work,
  record_interview_outcome_work, seconds_per_day, read_deadline_days,
}
use brokerplatform.Accreditation.Effects.{
  get_elim, set_elim, insert_decision_elim, audit_elim, audit_inv, Acted,
}

-- The actor is a client user whose stored role is that of a senior approver.
pub record HasSeniorRole (ctx : AuthorizationContext) (w : World) : Type 0 where
  pub user : ClientUser
  pub actor_id : ℕ
  pub organisation : ℕ
  pub is_actor : ctx ≡ as_client_user actor_id organisation
  pub stored : first (seen client_users w.session w.db (λ u. u.id == actor_id)) ≡ some user
  pub senior : user.role ≡ ClientUserRole.senior_approver

senior_of_role :
    (o : Option ClientUser)
    → not (is_senior (role_of o)) ≡ false
    → (u : ClientUser) × (o ≡ some u) × (u.role ≡ ClientUserRole.senior_approver)
senior_of_role none h = cc
senior_of_role (some u) h = (u, ground arith, ground arith)

assert_senior_inv :
    (ctx : AuthorizationContext) (w : World) {u : Unit {0}} {w' : World}
    → assert_senior ctx w ≡ ok (u, w')
    → (w' ≡ w) × HasSeniorRole ctx w
unfolding assert_senior get_client_user_role ◌>>=◌
assert_senior_inv (as_client_user id org) w h =
    let (senior, same) = throw_if_inv _ _ w h in
    let (user, stored, role) = senior_of_role _ senior in
    (
      same,
      record {
        user = user;
        actor_id = id;
        organisation = org;
        is_actor = refl;
        stored = stored;
        senior = role;
      },
    )
assert_senior_inv (as_broker id) w h = cc
assert_senior_inv (as_platform_admin id) w h = cc
assert_senior_inv as_system w h = cc

pub assert_can_decide_inv :
    (ctx : AuthorizationContext) (a : Accreditation) (w : World) {u : Unit {0}} {w' : World}
    → assert_can_decide ctx a w ≡ ok (u, w')
    → (w' ≡ w) × (is_senior_step a.current_decision_step ≡ true → HasSeniorRole ctx w)
unfolding assert_can_decide
assert_can_decide_inv ctx a w h =
    elim (if_inv (is_senior_step a.current_decision_step) (assert_senior ctx) (pure tt) w h) [
      | inl (senior, e) ↦ ((assert_senior_inv ctx w e).0, λ _. (assert_senior_inv ctx w e).1)
      | inr (first_step, e) ↦ (ground arith, λ senior. cc)
    ]

abbrev pub not_declined : AccreditationStatus → Bool
not_declined s = not (is_declined s)

abbrev pub to_information : ℕ → Accreditation → Accreditation
to_information t a = record a { status = AccreditationStatus.information_required }

pub request_more_information_effect :
    (ctx : AuthorizationContext) (id : ℕ) (reasons : List String) (w : World) {d : Dispatch}
    {w' : World}
    → request_more_information_work ctx id reasons w ≡ ok (d, w')
    → Acted id not_declined to_information ctx AuditAction.accreditation_information_requested w w'
unfolding request_more_information_work
request_more_information_effect ctx id reasons w h = throw_if_elim _ _ w h λ may h1.
    get_elim id _ w h1 λ a found h2. throw_if_elim _ _ w h2 λ live h3.
      set_elim id _ _ w h3 λ rs free h4. insert_decision_elim ctx id _ _ _ _ _ h4 λ d h5.
        audit_elim ctx _ id _ _ _ h5 λ h6.
          let e = (create_notification_inv ctx _ _ h6).0 in
          record {
            before = a;
            found = found;
            acting = ground arith;
            guarded = ground arith;
            free = free;
            rows = ap (λ x. x.db.accreditations) e;
            log = ap (λ x. x.db.audit_log) e;
          }

abbrev pub to_exception : ℕ → Accreditation → Accreditation
to_exception t a = record a {
  status = AccreditationStatus.exception_escalated;
  current_decision_step = DecisionStep.senior_approver;
}

pub escalate_effect :
    (ctx : AuthorizationContext) (id : ℕ) (rationale : Option String) (w : World) {u : Unit {0}}
    {w' : World}
    → escalate_work ctx id rationale w ≡ ok (u, w')
    → Acted id not_declined to_exception ctx AuditAction.accreditation_escalated w w'
unfolding escalate_work
escalate_effect ctx id rationale w h = throw_if_elim _ _ w h λ may h1.
    get_elim id _ w h1 λ a found h2. throw_if_elim _ _ w h2 λ live h3.
      set_elim id _ _ w h3 λ rs free h4. insert_decision_elim ctx id _ _ _ _ _ h4 λ d h5.
        let e = audit_inv ctx _ id _ _ h5 in
        record {
          before = a;
          found = found;
          acting = ground arith;
          guarded = ground arith;
          free = free;
          rows = ap (λ x. x.db.accreditations) e;
          log = ap (λ x. x.db.audit_log) e;
        }

abbrev pub to_interviewed : String → ℕ → Accreditation → Accreditation
to_interviewed recommendation t a = record a { interview_recommendation = some recommendation }

pub record_interview_outcome_effect :
    (ctx : AuthorizationContext) (id : ℕ) (recommendation : String) (notes : Option String)
    (w : World) {u : Unit {0}} {w' : World}
    → record_interview_outcome_work ctx id recommendation notes w ≡ ok (u, w')
    → Acted id not_declined
        (to_interviewed recommendation)
        ctx
        AuditAction.accreditation_interview_recorded
        w
        w'
unfolding record_interview_outcome_work
record_interview_outcome_effect ctx id recommendation notes w h = throw_if_elim _ _ w h λ may h1.
    get_elim id _ w h1 λ a found h2. throw_if_elim _ _ w h2 λ live h3.
      set_elim id _ _ w h3 λ rs free h4. insert_decision_elim ctx id _ _ _ _ _ h4 λ d h5.
        let e = audit_inv ctx _ id _ _ h5 in
        record {
          before = a;
          found = found;
          acting = ground arith;
          guarded = ground arith;
          free = free;
          rows = ap (λ x. x.db.accreditations) e;
          log = ap (λ x. x.db.audit_log) e;
        }

-- A decision that was taken: the accreditation awaited one, and at the senior step a senior
-- approver took it.
pub record Decided (id : ℕ) (f : ℕ → Accreditation → Accreditation) (ctx : AuthorizationContext)
    (action : AuditAction) (w w' : World) : Type 0 where
  pub acted : Acted id awaits_decision f ctx action w w'
  pub authorised : is_senior_step acted.before.current_decision_step ≡ true → HasSeniorRole ctx w

abbrev pub to_declined : ℕ → Accreditation → Accreditation
to_declined t a = record a { status = AccreditationStatus.declined; decided_at = some t }

pub decline_effect :
    (ctx : AuthorizationContext) (id : ℕ) (rationale : String) (w : World) {d : Dispatch}
    {w' : World}
    → decline_work ctx id rationale w ≡ ok (d, w')
    → Decided id to_declined ctx AuditAction.accreditation_declined w w'
unfolding decline_work
decline_effect ctx id rationale w h = throw_if_elim _ _ w h λ may h1.
    get_elim id _ w h1 λ a found h2. throw_if_elim _ _ w h2 λ awaiting h3.
      reader_elim _ _ w h3 (λ u w1 e. (assert_can_decide_inv ctx a w e).0)
        λ u allowed h4. set_elim id _ _ w h4 λ rs free h5.
          insert_decision_elim ctx id _ _ _ _ _ h5 λ d h6. audit_elim ctx _ id _ _ _ h6 λ h7.
            let e = (create_notification_inv ctx _ _ h7).0 in
            record {
              acted = record {
                before = a;
                found = found;
                acting = ground arith;
                guarded = ground arith;
                free = free;
                rows = ap (λ x. x.db.accreditations) e;
                log = ap (λ x. x.db.audit_log) e;
              };
              authorised = (assert_can_decide_inv ctx a w allowed).1;
            }

abbrev pub to_pending : ℕ → ℕ → Accreditation → Accreditation
to_pending days t a = record a {
  status = AccreditationStatus.pending;
  decided_at = some t;
  training_deadline_at = some (t + days * seconds_per_day);
}

read_deadline_days_inv :
    (o : Option ℕ) (w : World) {n : ℕ} {w' : World} → read_deadline_days o w ≡ ok (n, w') → w' ≡ w
unfolding read_deadline_days ◌>>=◌
read_deadline_days_inv none w h = ground arith
read_deadline_days_inv (some v) w h = ground arith

-- The number of days is the one that was read for the row that was found.
pub approve_effect :
    (ctx : AuthorizationContext) (id : ℕ) (rationale : Option String) (w : World) {d : Dispatch}
    {w' : World}
    → approve_work ctx id rationale w ≡ ok (d, w')
    → (days : ℕ) × (decided : Decided id
        (to_pending days)
        ctx
        AuditAction.accreditation_approved
        w
        w')
      × (read_deadline_days decided.acted.before.ruleset_version_id w ≡ ok (days, w))
unfolding approve_work
approve_effect ctx id rationale w h = throw_if_elim _ _ w h λ may h1.
    get_elim id _ w h1 λ a found h2. throw_if_elim _ _ w h2 λ awaiting h3.
      reader_elim _ _ w h3 (λ u w1 e. (assert_can_decide_inv ctx a w e).0)
        λ u allowed h4.
          reader_elim _ _ w h4 (λ n w1 e. read_deadline_days_inv _ w e)
            λ days read h5. set_elim id _ _ w h5 λ rs free h6.
              insert_decision_elim ctx id _ _ _ _ _ h6 λ d h7. audit_elim ctx _ id _ _ _ h7 λ h8.
                let e = (create_notification_inv ctx _ _ h8).0 in
                let acted : Acted id awaits_decision (to_pending days) ctx
                    AuditAction.accreditation_approved w _ =
                  record {
                    before = a;
                    found = found;
                    acting = ground arith;
                    guarded = ground arith;
                    free = free;
                    rows = ap (λ x. x.db.accreditations) e;
                    log = ap (λ x. x.db.audit_log) e;
                  } in
                (
                  days,
                  record { acted = acted; authorised = (assert_can_decide_inv ctx a w allowed).1 },
                  read,
                )
