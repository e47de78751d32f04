-- ===== src/Accreditation/Arrivals.antt =====
-- What a request for accreditation has changed when it returned.
use brokerplatform.Prelude.{
  ℕ, ◌≡◌, ap, true, false, Option, some, List, [], ◌∷◌, ◌∙◌, ◌&&◌, ◌==◌, any, first, is_empty,
  arith,
}
use brokerplatform.Db.Context.{AuthorizationContext, ActorType}
use brokerplatform.Db.Schema.{
  AuditAction, AuditEntry, AuditSubject, BusinessAffiliation, Relationship, RulesetVersion,
  ClientUser,
}
use brokerplatform.Db.Policies.{is_current}
use brokerplatform.Db.Policies.Lifecycle.{accreditations, accreditations_conflict, relationships}
use brokerplatform.Db.Policies.People.{
  business_affiliations, broker_profiles, client_users, is_active_affiliation,
}
use brokerplatform.Db.Policies.Logs.{audit_log}
use brokerplatform.Db.Transaction.{World, ok, seen}
use brokerplatform.Db.Inversion.{
  bind_elim, throw_if_elim, or_throw_elim, set_actor_type_elim, random_uuid_elim, now_elim,
  select_elim, insert_elim, insert_inv,
}
use brokerplatform.Audit.{record_audit_event}
use brokerplatform.Notifications.Templates.{NotificationContent}
use brokerplatform.Notifications.Repository.{Dispatch}
use brokerplatform.Notifications.Effects.{create_notification_inv}
use brokerplatform.Accreditation.Requests.{
  AccreditationInput, requested_row, request_accreditation_work, notify_each, audit_requested,
}

-- Two worlds with the same accreditations and the same audit log.
pub record Untouched (w w' : World) : Type 0 where
  pub rows : w'.db.accreditations ≡ w.db.accreditations
  pub log : w'.db.audit_log ≡ w.db.audit_log

notify_each_inv :
    (ctx : AuthorizationContext) (content : NotificationContent) (id : ℕ) (us : List ClientUser)
    (w : World) {ds : List Dispatch} {w' : World}
    → notify_each ctx content id us w ≡ ok (ds, w')
    → Untouched w w'
unfolding notify_each
notify_each_inv ctx content id [] w h = record { rows = ground arith; log = ground arith }
notify_each_inv ctx content id (u ∷ us) w h = bind_elim _ _ w h λ d w1 p h1.
    bind_elim _ _ w1 h1 λ ds w2 q h2.
      let e = (create_notification_inv ctx _ w p).0 in
      let rest = notify_each_inv ctx content id us w1 q in
      record {
        rows =
            ap (λ r. r.1.db.accreditations) (end h2) ∙ rest.rows ∙ ap (λ x. x.db.accreditations) e;
        log = ap (λ r. r.1.db.audit_log) (end h2) ∙ rest.log ∙ ap (λ x. x.db.audit_log) e;
      }
  where
    end : {A : Type 0} {x y : A × World} → ok x ≡ ok y → y ≡ x
    end h = ground arith

abbrev pub requested_entry : AccreditationInput → ℕ → ℕ → AuditEntry
requested_entry i id t = record {
  occurred_at = t;
  actor_type = ActorType.broker;
  actor_id = some i.broker_profile_id;
  action = AuditAction.accreditation_requested;
  subject_type = AuditSubject.accreditation;
  subject_id = id;
  client_organisation_id = some i.lender_client_organisation_id;
}

audit_requested_inv :
    (i : AccreditationInput) (id : ℕ) (w : World) {u : Unit {0}} {w' : World}
    → audit_requested i id w ≡ ok (u, w')
    → (w'.db.accreditations ≡ w.db.accreditations)
      × (w'.db.audit_log ≡ requested_entry i id w.ambient.now ∷ w.db.audit_log)
unfolding audit_requested record_audit_event
audit_requested_inv i id w h = now_elim _ w h λ h'.
    let e = (insert_inv audit_log _ w h').2 in
    (ap (λ x. x.db.accreditations) e, ap (λ x. x.db.audit_log) e)

abbrev pub affiliations_of : AccreditationInput → World → List BusinessAffiliation
affiliations_of i w = seen business_affiliations w.session w.db (λ a.
    a.broker_profile_id == i.broker_profile_id
    && a.broker_business_id == i.broker_business_id
    && is_active_affiliation a.status)

abbrev pub relationships_of : AccreditationInput → World → List Relationship
relationships_of i w = seen relationships w.session w.db (λ r.
    r.broker_profile_id == i.broker_profile_id
    && r.client_organisation_id == i.lender_client_organisation_id
    && is_current r)

-- A request that returned `id`: the broker works for the business and shares data with the lender,
-- the policies let the actor write the row, the row is new, and the log says that it was requested.
pub record Arrived (i : AccreditationInput) (resolved : Option RulesetVersion) (id : ℕ)
    (w w' : World) : Type 0 where
  pub relationship : Relationship
  pub affiliated : is_empty (affiliations_of i w) ≡ false
  pub related : first (relationships_of i w) ≡ some relationship
  pub allowed :
      accreditations.insertable w.session w.db
        (requested_row i resolved relationship.id id w.ambient.now)
      ≡ true
  pub fresh :
      any
        (accreditations_conflict (requested_row i resolved relationship.id id w.ambient.now))
        w.db.accreditations
      ≡ false
  pub rows :
      w'.db.accreditations
      ≡ requested_row i resolved relationship.id id w.ambient.now ∷ w.db.accreditations
  pub log : w'.db.audit_log ≡ requested_entry i id w.ambient.now ∷ w.db.audit_log

pub request_accreditation_effect :
    (ctx : AuthorizationContext) (i : AccreditationInput) (resolved : Option RulesetVersion)
    (w : World) {r : ℕ × List Dispatch} {w' : World}
    → request_accreditation_work ctx i resolved w ≡ ok (r, w')
    → Arrived i resolved r.0 w w'
unfolding request_accreditation_work
request_accreditation_effect ctx i resolved w h = select_elim business_affiliations _ _ w h λ h1.
    throw_if_elim _ _ w h1 λ some_affiliation h2. select_elim relationships _ _ w h2 λ h3.
      or_throw_elim _ _ w h3 λ relationship related h4. random_uuid_elim _ w h4 λ h5.
        now_elim _ _ h5 λ h6. insert_elim accreditations _ _ h6 λ may fresh h7.
          bind_elim _ _ _ h7 λ u w1 audited h8. select_elim broker_profiles _ _ w1 h8 λ h9.
            set_actor_type_elim _ w1 h9 λ h10. select_elim client_users _ _ _ h10 λ h11.
              set_actor_type_elim _ _ h11 λ h12. bind_elim _ _ _ h12 λ ds w2 told h13.
                let (rows, log) = audit_requested_inv i _ _ audited in
                let rest = notify_each_inv ctx _ _ _ _ told in
                record {
                  relationship = relationship;
                  affiliated = some_affiliation;
                  related = related;
                  allowed = ground arith;
                  fresh = ground arith;
                  rows = ground arith;
                  log = ground arith;
                }
