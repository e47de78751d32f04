-- ===== src/Accreditation/Authority.antt =====
-- On `approve` and `decline` (accreditation.repository.ts): who decides, and from which state.
use brokerplatform.Prelude.{ℕ, ◌≡◌, Option, String}
use brokerplatform.Db.Context.{AuthorizationContext}
use brokerplatform.Db.Schema.{AuditAction, Db}
use brokerplatform.Db.Transaction.{Ambient, World, ok, begin}
use brokerplatform.Db.Inversion.{returned_inv}
use brokerplatform.Notifications.Repository.{Dispatch}
use brokerplatform.Accreditation.Decisions.{
  approve, approve_work, decline, decline_work, read_deadline_days,
}
use brokerplatform.Accreditation.Outcomes.{
  Decided, to_declined, to_pending, approve_effect, decline_effect,
}

-- An approval that returned was by a client user or the system, of an accreditation that they see
-- and that awaited a decision; at the senior step, the actor is a stored senior approver. The rows
-- with the id are pending after the call, with the training deadline that the ruleset of the
-- accreditation gives, and one audit entry was written.
pub approve-authorised :
    (ctx : AuthorizationContext) (id : ℕ) (rationale : Option String) (ambient : Ambient) (db : Db)
    {d : Dispatch} {db' : Db}
    → approve ctx id rationale ambient db ≡ (ok d, db')
    → (w : World) × (db' ≡ w.db)
      × (days : ℕ) × (decided : Decided id
          (to_pending days)
          ctx
          AuditAction.accreditation_approved
          (begin ctx ambient db)
          w)
      × (read_deadline_days decided.acted.before.ruleset_version_id (begin ctx ambient db)
          ≡ ok (days, begin ctx ambient db))
unfolding approve
approve-authorised ctx id rationale ambient db h =
    let (w, done, same) = returned_inv ctx (approve_work ctx id rationale) ambient db h in
    let (days, decided, read) = approve_effect ctx id rationale _ done in
    (w, same, days, decided, read)

-- A refusal that returned was by a client user or the system, of an accreditation that they see
-- and that awaited a decision; at the senior step, the actor is a stored senior approver. The rows
-- with the id are declined after the call, and one audit entry was written.
pub decline-authorised :
    (ctx : AuthorizationContext) (id : ℕ) (rationale : String) (ambient : Ambient) (db : Db)
    {d : Dispatch} {db' : Db}
    → decline ctx id rationale ambient db ≡ (ok d, db')
    → (w : World) × (db' ≡ w.db)
      × Decided id to_declined ctx AuditAction.accreditation_declined (begin ctx ambient db) w
unfolding decline
decline-authorised ctx id rationale ambient db h =
    let (w, done, same) = returned_inv ctx (decline_work ctx id rationale) ambient db h in
    (w, same, decline_effect ctx id rationale _ done)
