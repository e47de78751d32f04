-- ===== src/Accreditation/Invariant.antt =====
-- On the audit log of accreditations (accreditation.repository.ts, training.repository.ts) and the
-- status column.
use brokerplatform.Prelude.{
  ◌≡◌, sym, subst, ◌∙◌, Bool, true, Option, some, none, List, [], ◌∷◌, All, All-map, All-both,
  All-update_where, conflict_free, if◌then◌else◌, arith,
}
use brokerplatform.Db.Context.{AuthorizationContext}
use brokerplatform.Db.Schema.{Accreditation, AccreditationStatus, AuditAction, Db}
use brokerplatform.Db.Policies.Lifecycle.{accreditations_conflict}
use brokerplatform.Brokers.Reconstruction.{status_by_action, or_keep}
use brokerplatform.Accreditation.Changes.{Moved}
use brokerplatform.Accreditation.History.{recorded_status}
use brokerplatform.Accreditation.Operations.{Event, run_all}
use brokerplatform.Accreditation.Rows.{ids_differ}
use brokerplatform.Accreditation.Steps.{run-Change}
use brokerplatform.Accreditation.Transitions.{Change, Lawful, status_or}

-- The newest entry that sets a status says the status of the row.
abbrev pub IsAccountedFor : Db → Accreditation → Type 0
IsAccountedFor db a = recorded_status a.id db.audit_log ≡ some a.status

pub record Consistent (db : Db) : Type 0 where
  pub free : conflict_free accreditations_conflict db.accreditations ≡ true
  pub accounted : All (IsAccountedFor db) db.accreditations

Moved-accounted :
    {hit : Accreditation → Bool} {guard : AccreditationStatus → Bool}
    {g : Accreditation → Accreditation} {action : AuditAction} (db db' : Db)
    → Lawful guard g action
    → Moved hit guard g action db db'
    → All (IsAccountedFor db) db.accreditations
    → All (IsAccountedFor db') db'.accreditations
Moved-accounted {hit} {guard} {g} {action} db db' law m before =
    subst (All (IsAccountedFor db')) (sym m.rows) (
      All-update_where _ _ hit g db.accreditations
        (λ a p. account a (status_by_action action) (law.same_id a) (law.sets a) p.0 p.1)
        (All-both _ _ db.accreditations before m.logged))
  where
    account :
        (a : Accreditation) (o : Option AccreditationStatus)
        → (g a).id ≡ a.id
        → (g a).status ≡ status_or o a.status
        → IsAccountedFor db a
        → recorded_status a.id db'.audit_log ≡ (
            if hit a
            then or_keep o (recorded_status a.id db.audit_log)
            else recorded_status a.id db.audit_log)
        → IsAccountedFor db' (if hit a then g a else a)
    account a none same sets was now = ground arith
    account a (some s) same sets was now = ground arith

pub Change-Consistent :
    (ctx : AuthorizationContext) (db db' : Db) → Consistent db → Change ctx db db' → Consistent db'
Change-Consistent ctx db db' ok (Change.moved law concern m) = record {
  free = m.free;
  accounted = Moved-accounted db db' law m ok.accounted;
}
Change-Consistent ctx db db' ok (Change.arrived a status may fresh rows told) = record {
  free = let f = ok.free in ground arith;
  accounted = subst (All (IsAccountedFor db')) (sym rows) (
    let e = told a.id in ground arith,
    All-map _ _ db.accreditations
        (λ b p. let e = told b.id in let d = p.0 in let was = p.1 in ground arith)
        (All-both _ _ db.accreditations (ids_differ a db.accreditations fresh) ok.accounted),
  );
}
Change-Consistent ctx db db' ok (Change.idle rows told) = record {
  free = let f = ok.free in ground arith;
  accounted =
      subst (All (IsAccountedFor db')) (sym rows)
        (All-map _ _ db.accreditations (λ b p. told b.id ∙ p) ok.accounted);
}

-- Whatever operations are run, by whom and when: the unique indexes hold, and the audit log tells
-- the status of each accreditation, if that was so before them.
pub run_all-Consistent : (es : List Event) (db : Db) → Consistent db → Consistent (run_all es db)
unfolding run_all
run_all-Consistent [] db ok = ok
run_all-Consistent (e ∷ es) db ok =
    run_all-Consistent es _
      (Change-Consistent e.actor db _ ok (run-Change e.operation e.actor e.ambient db ok.free))
