-- ===== src/Accreditation/Sweeps.antt =====
-- The statements that change many accreditations at once: missed training deadlines, and the end
-- of an affiliation.
use brokerplatform.Prelude.{
  ℕ, ◌≡◌, refl, sym, subst, Bool, true, Option, some, none, List, [], ◌∷◌, ◌==◌, map, any, All,
  All-map, filter_by, update_where, conflict_free, if◌then◌else◌, arith, String,
}
use brokerplatform.Db.Context.{AuthorizationContext, ActorType}
use brokerplatform.Db.Schema.{
  Accreditation, AccreditationStatus, AuditAction, AuditEntry, Db, AuditSubject,
}
use brokerplatform.Db.Policies.People.{business_affiliations}
use brokerplatform.Db.Policies.Logs.{audit_log}
use brokerplatform.Db.Policies.Lifecycle.{accreditations, accreditations_conflict}
use brokerplatform.Db.Transaction.{World, ok, reached}
use brokerplatform.Db.Inversion.{
  bind_elim, throw_if_elim, set_actor_type_elim, update_elim, now_elim, or_throw_elim, insert_inv,
  move_to,
}
use brokerplatform.Brokers.Reconstruction.{status_by_action, or_keep}
use brokerplatform.Accreditation.Parties.{
  flag_party_changed, is_flagged_by, to_party_changed, end_affiliation_work,
}
use brokerplatform.Accreditation.Training.{check_training_deadlines_work, is_overdue, to_lapsed}
use brokerplatform.Accreditation.History.{
  recorded_status, logged_each, audit_each_inv, recorded_status-logged_each,
}
use brokerplatform.Accreditation.Rows.{hit_iff_id}
use brokerplatform.Accreditation.Changes.{Moved}
use brokerplatform.Audit.{record_audit_event}

-- A sweep that returned: the rows that it hit have changed, and each has an entry.
pub record Swept (hit : Accreditation → Bool) (g : Accreditation → Accreditation)
    (ctx : AuthorizationContext) (action : AuditAction) (lender : Option ℕ) (t : ℕ)
    (rows rows' : List Accreditation) (log log' : List AuditEntry) : Type 0 where
  pub changed : rows' ≡ update_where hit g rows
  pub free : conflict_free accreditations_conflict (update_where hit g rows) ≡ true
  pub entries : log' ≡ logged_each ctx action lender t (map g (filter_by hit rows)) log

any-id-map :
    (g : Accreditation → Accreditation) (k : ℕ) (xs : List Accreditation)
    → ((a : Accreditation) → (g a).id ≡ a.id)
    → any (λ b. b.id == k) (map g xs) ≡ any (λ b. b.id == k) xs
any-id-map g k [] same = refl
any-id-map g k (x ∷ xs) same = let e = same x in let rest = any-id-map g k xs same in ground arith

pub guarded_by :
    (hit : Accreditation → Bool) (guard : AccreditationStatus → Bool) (xs : List Accreditation)
    → ((a : Accreditation) → hit a ≡ true → guard a.status ≡ true)
    → All (λ a. hit a ≡ true → guard a.status ≡ true) xs
guarded_by hit guard [] h = tt
guarded_by hit guard (x ∷ xs) h = (h x, guarded_by hit guard xs h)

pub Swept-Moved :
    (hit : Accreditation → Bool) (guard : AccreditationStatus → Bool)
    (g : Accreditation → Accreditation) (ctx : AuthorizationContext) (action : AuditAction)
    (lender : Option ℕ) (t : ℕ) (db db' : Db) {s : AccreditationStatus}
    → ((a : Accreditation) → (g a).id ≡ a.id)
    → ((a : Accreditation) → hit a ≡ true → guard a.status ≡ true)
    → status_by_action action ≡ some s
    → conflict_free accreditations_conflict db.accreditations ≡ true
    → Swept hit g ctx action lender t db.accreditations db'.accreditations db.audit_log
        db'.audit_log
    → Moved hit guard g action db db'
Swept-Moved hit guard g ctx action lender t db db' same guards sets free swept = record {
  rows = swept.changed;
  free =
      subst (λ rs. conflict_free accreditations_conflict rs ≡ true) (sym swept.changed) swept.free;
  guarded = guarded_by hit guard db.accreditations guards;
  logged =
      All-map _ _ db.accreditations
        (λ a e.
          let ids = any-id-map g a.id (filter_by hit db.accreditations) same in
          let told =
            recorded_status-logged_each a.id ctx action lender t
              (map g (filter_by hit db.accreditations)) db.audit_log sets in
          subst
            (λ log. recorded_status a.id log ≡ (
              if hit a
              then or_keep (status_by_action action) (recorded_status a.id db.audit_log)
              else recorded_status a.id db.audit_log))
            (sym swept.entries) (ground arith))
        (hit_iff_id hit db.accreditations free);
}

-- The rows that a sweep hits, in the session of `w` with the actor type `type`.
abbrev pub swept_as : ActorType → World → (Accreditation → Bool) → Accreditation → Bool
swept_as type w p = reached accreditations (record w.session { actor_type = type }) w.db p

pub check_training_deadlines_effect :
    (ctx : AuthorizationContext) (lender : ℕ) (w : World) {ids : List ℕ} {w' : World}
    → check_training_deadlines_work ctx lender w ≡ ok (ids, w')
    → Swept
        (swept_as w.session.actor_type w (is_overdue lender w.ambient.now))
        (to_lapsed w.ambient.now)
        ctx
        AuditAction.accreditation_lapsed
        (some lender)
        w.ambient.now
        w.db.accreditations
        w'.db.accreditations
        w.db.audit_log
        w'.db.audit_log
unfolding check_training_deadlines_work
check_training_deadlines_effect ctx lender w h = throw_if_elim _ _ w h λ may h1.
    now_elim _ w h1 λ h2. update_elim accreditations _ _ _ w h2 λ free h3.
      bind_elim _ _ _ h3 λ u w1 p q.
        let e = audit_each_inv ctx _ _ _ _ p in
        record { changed = ground arith; free = free; entries = ground arith }

pub flag_party_changed_effect :
    (ctx : AuthorizationContext) (broker business : ℕ) (w : World) {ids : List ℕ} {w' : World}
    → flag_party_changed ctx broker business w ≡ ok (ids, w')
    → Swept
        (swept_as ActorType.system w (is_flagged_by broker business))
        (to_party_changed w.ambient.now)
        ctx
        AuditAction.accreditation_party_changed
        none
        w.ambient.now
        w.db.accreditations
        w'.db.accreditations
        w.db.audit_log
        w'.db.audit_log
unfolding flag_party_changed
flag_party_changed_effect ctx broker business w h = set_actor_type_elim _ w h λ h1.
    now_elim _ _ h1 λ h2. update_elim accreditations _ _ _ _ h2 λ free h3.
      set_actor_type_elim _ _ h3 λ h4. bind_elim _ _ _ h4 λ u w1 p q.
        let e = audit_each_inv ctx _ _ _ _ p in
        record { changed = ground arith; free = free; entries = ground arith }

-- The audit entry of the end of the affiliation is not about an accreditation.
abbrev pub ended_entry : ℕ → ℕ → ℕ → AuditEntry
ended_entry broker id t = record {
  occurred_at = t;
  actor_type = ActorType.broker;
  actor_id = some broker;
  action = AuditAction.business_affiliation_ended;
  subject_type = AuditSubject.business_affiliation;
  subject_id = id;
  client_organisation_id = none;
}

-- The end of an affiliation: the entry of that end, and the accreditations with the business.
pub end_affiliation_effect :
    (ctx : AuthorizationContext) (broker id : ℕ) (reason : Option String) (w : World) {ids : List ℕ}
    {w' : World}
    → end_affiliation_work ctx broker id reason w ≡ ok (ids, w')
    → (business : ℕ) × Swept
        (swept_as ActorType.system w (is_flagged_by broker business))
        (to_party_changed w.ambient.now)
        ctx
        AuditAction.accreditation_party_changed
        none
        w.ambient.now
        w.db.accreditations
        w'.db.accreditations
        (ended_entry broker id w.ambient.now ∷ w.db.audit_log)
        w'.db.audit_log
unfolding end_affiliation_work record_audit_event
end_affiliation_effect ctx broker id reason w h = now_elim _ w h λ h1.
    update_elim business_affiliations _ _ _ w h1 λ free h2. or_throw_elim _ _ _ h2 λ a found h3.
      bind_elim _ _ _ h3 λ u w1 p h4.
        let e = now_elim _ _ p λ p'. (insert_inv audit_log _ _ p').2 in
        let sw =
          flag_party_changed_effect ctx broker a.broker_business_id _
            (move_to (λ x. flag_party_changed ctx broker a.broker_business_id) u e h4) in
        (a.broker_business_id, sw)
