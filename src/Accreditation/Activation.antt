-- ===== src/Accreditation/Activation.antt =====
-- What the activation and the confirmation of training have changed when they returned.
use brokerplatform.Prelude.{ℕ, ◌≡◌, ap, Option, some, ◌∷◌, String, ◌∙◌, arith}
use brokerplatform.Db.Context.{AuthorizationContext}
use brokerplatform.Db.Schema.{
  Accreditation, AccreditationStatus, AuditAction, TrainingKind, TrainingConfirmation,
}
use brokerplatform.Db.Policies.Lifecycle.{training_confirmations}
use brokerplatform.Db.Policies.People.{broker_profiles, client_organisations}
use brokerplatform.Db.Transaction.{World, ok, insert, insert_or_ignore}
use brokerplatform.Db.Inversion.{
  bind_elim, throw_if_elim, set_actor_type_elim, random_uuid_elim, update_elim, select_elim,
  now_elim,
}
use brokerplatform.Notifications.Effects.{create_notification_inv}
use brokerplatform.Notifications.Repository.{Dispatch}
use brokerplatform.Accreditation.Training.{
  activate_accreditation_work, confirm_training_work, issue_platform_broker_id, is_pending,
}
use brokerplatform.Accreditation.Effects.{
  get_elim, set_elim, audit_elim, audit_inv, audit_row, Acted,
}

abbrev pub to_active : ℕ → Accreditation → Accreditation
to_active t a = record a { status = AccreditationStatus.active; activated_at = some t }

issue_platform_broker_id_inv :
    (ctx : AuthorizationContext) (broker : ℕ) (w : World) {u : Unit {0}} {w' : World}
    → issue_platform_broker_id ctx broker w ≡ ok (u, w')
    → (w'.db.accreditations ≡ w.db.accreditations) × (w'.db.audit_log ≡ w.db.audit_log)
unfolding issue_platform_broker_id
issue_platform_broker_id_inv ctx broker w h = set_actor_type_elim _ w h λ h1.
    random_uuid_elim _ _ h1
      λ h2. update_elim broker_profiles _ _ _ _ h2 λ free h3. (ground arith, ground arith)

pub activate_effect :
    (ctx : AuthorizationContext) (id : ℕ) (w : World) {d : Dispatch} {w' : World}
    → activate_accreditation_work ctx id w ≡ ok (d, w')
    → Acted id is_pending to_active ctx AuditAction.accreditation_activated w w'
unfolding activate_accreditation_work
activate_effect ctx id w h = throw_if_elim _ _ w h λ may h1. get_elim id _ w h1 λ a found h2.
    throw_if_elim _ _ w h2 λ pending h3. set_elim id _ _ w h3 λ rs free h4.
      audit_elim ctx _ id _ _ _ h4 λ h5. bind_elim _ _ _ h5 λ u w1 issued h6.
        select_elim client_organisations _ _ w1 h6 λ h7.
          let same = issue_platform_broker_id_inv ctx a.broker_profile_id _ issued in
          let e = (create_notification_inv ctx _ _ h7).0 in
          record {
            before = a;
            found = found;
            acting = ground arith;
            guarded = ground arith;
            free = free;
            rows = ap (λ x. x.db.accreditations) e ∙ same.0;
            log = ap (λ x. x.db.audit_log) e ∙ same.1;
          }

insert_or_ignore_inv :
    (c : TrainingConfirmation) (w : World) {u : Unit {0}} {w' : World}
    → insert_or_ignore training_confirmations c w ≡ ok (u, w')
    → (w'.db.accreditations ≡ w.db.accreditations)
      × (w'.db.audit_log ≡ w.db.audit_log)
      × (w'.ambient ≡ w.ambient)
unfolding insert_or_ignore insert
insert_or_ignore_inv c w h = (ground arith, ground arith, ground arith)

pub confirm_training_effect :
    (ctx : AuthorizationContext) (id : ℕ) (kind : TrainingKind) (notes : Option String) (w : World)
    {u : Unit {0}} {w' : World}
    → confirm_training_work ctx id kind notes w ≡ ok (u, w')
    → (lender : ℕ) × (w'.db.accreditations ≡ w.db.accreditations)
      × (w'.db.audit_log
          ≡ audit_row ctx AuditAction.accreditation_training_confirmed id
              (some lender)
              w.ambient.now
            ∷ w.db.audit_log)
unfolding confirm_training_work
confirm_training_effect ctx id kind notes w h = throw_if_elim _ _ w h λ may h1.
    get_elim id _ w h1 λ a found h2. now_elim _ w h2 λ h3. bind_elim _ _ _ h3 λ u w1 kept h4.
      let (rows, log, clock) = insert_or_ignore_inv _ w kept in
      let e = audit_inv ctx _ id _ w1 h4 in
      (a.lender_client_organisation_id, ap (λ x. x.db.accreditations) e ∙ rows, ground arith)
