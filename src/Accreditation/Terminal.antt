-- ===== src/Accreditation/Terminal.antt =====
-- On the guards of accreditation.repository.ts that keep a declined accreditation as it is.
use brokerplatform.Prelude.{
  ℕ, ◌≡◌, refl, sym, subst, Bool, true, false, List, [], ◌∷◌, ◌==◌, ◌&&◌, inl, inr, All, any,
  update_where, arith, ||-mono, if◌then◌else◌,
}
use brokerplatform.Db.Context.{AuthorizationContext}
use brokerplatform.Db.Schema.{Accreditation, AccreditationStatus, AuditAction, Db}
use brokerplatform.Db.Policies.{is_declined}
use brokerplatform.Accreditation.Guards.{awaits_decision}
use brokerplatform.Accreditation.Parties.{may_be_flagged}
use brokerplatform.Accreditation.Operations.{Event, run_all}
use brokerplatform.Accreditation.Transitions.{Transition, Change, Lawful}
use brokerplatform.Accreditation.Invariant.{Consistent, Change-Consistent}
use brokerplatform.Accreditation.Steps.{run-Change}

awaits-not_declined : (s : AccreditationStatus) → awaits_decision s ≡ true → is_declined s ≡ false
awaits-not_declined s h = ground arith

flagged-not_declined : (s : AccreditationStatus) → may_be_flagged s ≡ true → is_declined s ≡ false
flagged-not_declined s h = ground arith

Transition-not_declined : {s s' : AccreditationStatus} → Transition s s' → is_declined s ≡ false
Transition-not_declined {s} (Transition.asked h) = ground arith
Transition-not_declined {s} (Transition.raised h) = ground arith
Transition-not_declined {s} (Transition.approved h) = awaits-not_declined s h
Transition-not_declined {s} (Transition.refused h) = awaits-not_declined s h
Transition-not_declined Transition.activated = refl
Transition-not_declined Transition.missed = refl
Transition-not_declined {s} (Transition.flagged h) = flagged-not_declined s h

-- There is a declined accreditation with the id.
unfoldable pub has_declined : ℕ → List Accreditation → Bool
has_declined id rows = any (λ a. a.id == id && is_declined a.status) rows

abbrev is_declined_row : ℕ → Accreditation → Bool
is_declined_row id a = a.id == id && is_declined a.status

-- A declined row stays so, hit or not.
hit_row-stays :
    {guard : AccreditationStatus → Bool} {g : Accreditation → Accreditation} {action : AuditAction}
    (hit : Bool) (id : ℕ) (a : Accreditation)
    → Lawful guard g action
    → (hit ≡ true → guard a.status ≡ true)
    → is_declined_row id a ≡ true
    → is_declined_row id (if hit then g a else a) ≡ true
hit_row-stays false id a law guarded h = h
hit_row-stays {g = g} true id a law guarded h =
    let same = law.same_id a in
    elim (law.edge a (guarded refl)) [
      | inl stays ↦ ground arith
      | inr edge ↦ let live = Transition-not_declined edge in ground arith
    ]

has_declined-update_where :
    (hit : Accreditation → Bool) (guard : AccreditationStatus → Bool)
    (g : Accreditation → Accreditation) {action : AuditAction} (id : ℕ) (rows : List Accreditation)
    → Lawful guard g action
    → All (λ a. hit a ≡ true → guard a.status ≡ true) rows
    → has_declined id rows ≡ true
    → has_declined id (update_where hit g rows) ≡ true
unfolding has_declined
has_declined-update_where hit guard g id [] law guarded h = cc
has_declined-update_where hit guard g id (a ∷ rows) law guarded h =
    ||-mono _ _ _ _ (hit_row-stays (hit a) id a law guarded.0)
      (has_declined-update_where hit guard g id rows law guarded.1) h

Change-has_declined :
    (ctx : AuthorizationContext) (id : ℕ) (db db' : Db)
    → Change ctx db db'
    → has_declined id db.accreditations ≡ true
    → has_declined id db'.accreditations ≡ true
unfolding has_declined
Change-has_declined ctx id db db' (Change.moved law concern m) h =
    subst (λ rows. has_declined id rows ≡ true) (sym m.rows)
      (has_declined-update_where _ _ _ id db.accreditations law m.guarded h)
Change-has_declined ctx id db db' (Change.arrived a status may fresh rows told) h = ground arith
Change-has_declined ctx id db db' (Change.idle rows told) h = ground arith

-- An accreditation that is declined stays declined, whatever operations follow.
pub declined-stays :
    (es : List Event) (id : ℕ) (db : Db)
    → Consistent db
    → has_declined id db.accreditations ≡ true
    → has_declined id (run_all es db).accreditations ≡ true
unfolding run_all
declined-stays [] id db ok h = h
declined-stays (e ∷ es) id db ok h =
    let step = run-Change e.operation e.actor e.ambient db ok.free in
    declined-stays es id _ (Change-Consistent e.actor db _ ok step)
      (Change-has_declined e.actor id db _ step h)
