-- ===== src/Accreditation/Changes.antt =====
-- On the actions of the accreditation module: the rows that an action hits, their statuses before,
-- and the entries about them.
use brokerplatform.Prelude.{
  hit_of_found, ℕ, ◌≡◌, refl, Bool, true, some, ◌&&◌, ◌==◌, any, All, All-map, first, filter_by,
  update_where, conflict_free, if◌then◌else◌, arith, sym, subst,
}
use brokerplatform.Db.Context.{
  AuthorizationContext, as_broker, as_client_user, as_platform_admin, as_system, session_of,
}
use brokerplatform.Db.Schema.{Accreditation, AccreditationStatus, AuditAction, Db}
use brokerplatform.Db.Policies.Lifecycle.{accreditations, accreditations_conflict}
use brokerplatform.Db.Transaction.{Ambient, World, begin}
use brokerplatform.Brokers.Reconstruction.{status_by_action, or_keep}
use brokerplatform.Accreditation.Guards.{may_act}
use brokerplatform.Accreditation.Effects.{Acted, by_id, stamped}
use brokerplatform.Accreditation.History.{recorded_status, recorded_status-row}
use brokerplatform.Accreditation.Rows.{hit_iff_id, found_is_only}

pub record Moved (hit : Accreditation → Bool) (guard : AccreditationStatus → Bool)
    (g : Accreditation → Accreditation) (action : AuditAction) (db db' : Db) : Type 0 where
  pub rows : db'.accreditations ≡ update_where hit g db.accreditations
  pub free : conflict_free accreditations_conflict db'.accreditations ≡ true
  pub guarded : All (λ a. hit a ≡ true → guard a.status ≡ true) db.accreditations
  pub logged :
      All
        (λ a. recorded_status a.id db'.audit_log ≡ (
          if hit a
          then or_keep (status_by_action action) (recorded_status a.id db.audit_log)
          else recorded_status a.id db.audit_log))
        db.accreditations

-- Whoever may act on accreditations may update each one that they see.
updatable_of_visible :
    (ctx : AuthorizationContext) (db : Db) (a : Accreditation)
    → may_act ctx ≡ true
    → accreditations.visible (session_of ctx) db a ≡ true
    → accreditations.updatable (session_of ctx) db a ≡ true
updatable_of_visible (as_broker id) db a may h = cc
updatable_of_visible (as_client_user id org) db a may h = ground arith
updatable_of_visible (as_platform_admin id) db a may h = cc
updatable_of_visible as_system db a may h = refl

module _ (ctx : AuthorizationContext) (ambient : Ambient) (db : Db) (id : ℕ) where
  abbrev seen_by_id : Accreditation → Bool
  seen_by_id a = accreditations.visible (session_of ctx) db a && a.id == id

  hit_of_seen :
      may_act ctx ≡ true
      → (a : Accreditation) → seen_by_id a ≡ true
      → by_id (begin ctx ambient db) id a ≡ true
  hit_of_seen may a h = let u = updatable_of_visible ctx db a may (ground arith) in ground arith

  seen_of_hit : (a : Accreditation) → by_id (begin ctx ambient db) id a ≡ true → seen_by_id a ≡ true
  seen_of_hit a h = ground arith

  hit_when_id :
      {b : Accreditation}
      → conflict_free accreditations_conflict db.accreditations ≡ true
      → may_act ctx ≡ true
      → first (filter_by seen_by_id db.accreditations) ≡ some b
      → All (λ a. by_id (begin ctx ambient db) id a ≡ (id == a.id)) db.accreditations
  hit_when_id {b} free may found =
      All-map _ _ db.accreditations
        (λ a e.
          let selected : (a.id == id) ≡ true
              → any (λ c. c.id == a.id)
                  (filter_by (by_id (begin ctx ambient db) id) db.accreditations)
                ≡ true =
            λ same.
              hit_of_found seen_by_id (by_id (begin ctx ambient db) id) (λ c. c.id == a.id)
                db.accreditations {b = b} (λ c s. (hit_of_seen may c s, ground arith)) found in
          ground arith)
        (hit_iff_id (by_id (begin ctx ambient db) id) db.accreditations free)

  pub Acted-Moved :
      {guard : AccreditationStatus → Bool} {f : ℕ → Accreditation → Accreditation}
      {action : AuditAction} {w' : World}
      → conflict_free accreditations_conflict db.accreditations ≡ true
      → Acted id guard f ctx action (begin ctx ambient db) w'
      → Moved (by_id (begin ctx ambient db) id) guard (stamped f ambient.now) action db w'.db
  Acted-Moved {guard} {f} {action} {w'} free acted = record {
    rows = acted.rows;
    free =
        subst (λ rs. conflict_free accreditations_conflict rs ≡ true) (sym acted.rows) acted.free;
    guarded =
        All-map _ _ db.accreditations
          (λ a only hit.
            subst (λ x. guard x.status ≡ true) (sym (only (seen_of_hit a hit))) acted.guarded)
          (found_is_only seen_by_id id db.accreditations (λ a h. ground arith) free acted.found);
    logged =
        All-map _ _ db.accreditations
          (λ a e.
            let entry =
              recorded_status-row a.id ctx action id
                (some acted.before.lender_client_organisation_id) ambient.now db.audit_log in
            subst
              (λ log. recorded_status a.id log ≡ (
                if by_id (begin ctx ambient db) id a
                then or_keep (status_by_action action) (recorded_status a.id db.audit_log)
                else recorded_status a.id db.audit_log))
              (sym acted.log) (ground arith))
          (hit_when_id free acted.acting acted.found);
  }
