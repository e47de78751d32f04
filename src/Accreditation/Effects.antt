-- ===== src/Accreditation/Effects.antt =====
-- What each function of the accreditation module has changed when it returned.
use brokerplatform.Prelude.{
  ℕ, ◌≡◌, Bool, true, Option, some, List, ◌∷◌, first, update_where, conflict_free, String, ◌==◌,
}
use brokerplatform.Db.Context.{AuthorizationContext, actor_type_of, actor_id_of}
use brokerplatform.Db.Schema.{
  Accreditation, AccreditationDecision, AuditEntry, AuditSubject, AccreditationStatus, DecisionType,
  AuditAction,
}
use brokerplatform.Db.Policies.Lifecycle.{
  accreditations, accreditation_decisions, accreditations_conflict,
}
use brokerplatform.Db.Policies.Logs.{audit_log}
use brokerplatform.Audit.{record_audit_event}
use brokerplatform.Db.Transaction.{Tx, World, ok, seen, reached, ◌>>=◌}
use brokerplatform.Db.Inversion.{bind_elim, now_elim, move_to, or_throw_inv, insert_inv, update_inv}
use brokerplatform.Accreditation.Guards.{get_accreditation_or_throw, may_act}
use brokerplatform.Accreditation.Decisions.{set_accreditation, insert_decision, audit}

pub get_inv :
    (id : ℕ) (w : World) {a : Accreditation} {w' : World}
    → get_accreditation_or_throw id w ≡ ok (a, w')
    → (first (seen accreditations w.session w.db (λ r. r.id == id)) ≡ some a) × (w' ≡ w)
unfolding get_accreditation_or_throw ◌>>=◌
get_inv id w h = or_throw_inv _ _ w h

abbrev pub audit_row : AuthorizationContext → AuditAction → ℕ → Option ℕ → ℕ → AuditEntry
audit_row ctx action id lender t = record {
  occurred_at = t;
  actor_type = actor_type_of ctx;
  actor_id = actor_id_of ctx;
  action = action;
  subject_type = AuditSubject.accreditation;
  subject_id = id;
  client_organisation_id = lender;
}

-- The row of the UPDATE of `set_accreditation`.
abbrev pub stamped : (ℕ → Accreditation → Accreditation) → ℕ → Accreditation → Accreditation
stamped f t a = record (f t a) { updated_at = t }

-- The rows that an UPDATE by id reaches.
abbrev pub by_id : World → ℕ → Accreditation → Bool
by_id w id = reached accreditations w.session w.db (λ a. a.id == id)

module _ {ℓ} {B : Type 0} {G : Type ℓ} where
  pub get_elim :
      (id : ℕ) (f : Accreditation → Tx B) (w : World) {r : B × World}
      → (get_accreditation_or_throw id >>= f) w ≡ ok r
      → ((a : Accreditation)
          → first (seen accreditations w.session w.db (λ a. a.id == id)) ≡ some a
          → f a w ≡ ok r
          → G)
      → G
  get_elim id f w h k =
      bind_elim _ f w h
        λ a w' p q. let (found, same) = get_inv id w p in k a found (move_to f a same q)

  pub set_elim :
      (id : ℕ) (g : ℕ → Accreditation → Accreditation) (f : List Accreditation → Tx B) (w : World)
      {r : B × World}
      → (set_accreditation id g >>= f) w ≡ ok r
      → ((rs : List Accreditation)
          → conflict_free accreditations_conflict
              (update_where (by_id w id) (stamped g w.ambient.now) w.db.accreditations)
            ≡ true
          → f rs (record w {
            db = record w.db {
              accreditations =
                  update_where (by_id w id) (stamped g w.ambient.now) w.db.accreditations;
            };
          })
            ≡ ok r
          → G)
      → G
  unfolding set_accreditation
  set_elim id g f w h k = bind_elim _ f w h λ rs w' p q. now_elim _ w p λ p'.
      let (returned, free, same) = update_inv accreditations _ _ w p' in
      k rs free (move_to f rs same q)

  pub insert_decision_elim :
      (ctx : AuthorizationContext) (id : ℕ) (type : DecisionType) (rationale : Option String)
      (reasons : Option (List String)) (f : Unit {0} → Tx B) (w : World) {r : B × World}
      → (insert_decision ctx id type rationale reasons >>= f) w ≡ ok r
      → ((d : AccreditationDecision)
          → f tt (record w {
            db = record w.db { accreditation_decisions = d ∷ w.db.accreditation_decisions };
          })
            ≡ ok r
          → G)
      → G
  unfolding insert_decision
  insert_decision_elim ctx id type rationale reasons f w h k = bind_elim _ f w h λ u w' p q.
      now_elim _ w p λ p'. k _ (move_to f tt ((insert_inv accreditation_decisions _ w p').2) q)

pub audit_inv :
    (ctx : AuthorizationContext) (action : AuditAction) (id : ℕ) (lender : Option ℕ) (w : World)
    {u : Unit {0}} {w' : World}
    → audit ctx action id lender w ≡ ok (u, w')
    → w' ≡ record w {
      db = record w.db {
        audit_log = audit_row ctx action id lender w.ambient.now ∷ w.db.audit_log;
      };
    }
unfolding audit record_audit_event
audit_inv ctx action id lender w h = now_elim _ w h λ h'. (insert_inv audit_log _ w h').2

pub audit_elim {ℓ} :
    {B : Type 0} {G : Type ℓ} (ctx : AuthorizationContext) (action : AuditAction) (id : ℕ)
    (lender : Option ℕ) (f : Unit {0} → Tx B) (w : World) {r : B × World}
    → (audit ctx action id lender >>= f) w ≡ ok r
    → (f tt (record w {
      db = record w.db {
        audit_log = audit_row ctx action id lender w.ambient.now ∷ w.db.audit_log;
      };
    })
          ≡ ok r
        → G)
    → G
audit_elim ctx action id lender f w h k =
    bind_elim _ f w h λ u w' p q. k (move_to f tt (audit_inv ctx action id lender w p) q)

-- What a lender's action that returned has done: it found the row, its status passed the guard,
-- the rows with the id changed, and one audit entry was written.
pub record Acted (id : ℕ) (guard : AccreditationStatus → Bool)
    (f : ℕ → Accreditation → Accreditation) (ctx : AuthorizationContext) (action : AuditAction)
    (w w' : World) : Type 0 where
  pub before : Accreditation
  pub found : first (seen accreditations w.session w.db (λ a. a.id == id)) ≡ some before
  pub acting : may_act ctx ≡ true
  pub guarded : guard before.status ≡ true
  pub free :
      conflict_free accreditations_conflict
        (update_where (by_id w id) (stamped f w.ambient.now) w.db.accreditations)
      ≡ true
  pub rows :
      w'.db.accreditations ≡ update_where (by_id w id) (stamped f w.ambient.now) w.db.accreditations
  pub log :
      w'.db.audit_log
      ≡ audit_row ctx action id (some before.lender_client_organisation_id) w.ambient.now
        ∷ w.db.audit_log
