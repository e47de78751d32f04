-- ===== src/Accreditation/Isolation.antt =====
-- On the policies on accreditations (migration 0024) and the functions that a client user calls.
use brokerplatform.Prelude.{
  ℕ, ◌≡◌, ap, ◌∙◌, true, not, List, ◌==◌, filter_by, filter_by-update_where, conflict_free, arith,
}
use brokerplatform.Db.Context.{as_client_user}
use brokerplatform.Db.Schema.{Accreditation, Db}
use brokerplatform.Db.Policies.Lifecycle.{accreditations_conflict}
use brokerplatform.Db.Transaction.{Ambient}
use brokerplatform.Accreditation.Operations.{Operation, run}
use brokerplatform.Accreditation.Steps.{run-Change}
use brokerplatform.Accreditation.Transitions.{Change}

-- The accreditations of the lenders other than `org`.
abbrev pub of_others : ℕ → List Accreditation → List Accreditation
of_others org rows = filter_by (λ a. not (org == a.lender_client_organisation_id)) rows

Change-of_others :
    (user org : ℕ) (db db' : Db)
    → Change (as_client_user user org) db db'
    → of_others org db'.accreditations ≡ of_others org db.accreditations
Change-of_others user org db db' (Change.moved law concern m) =
    ap (of_others org) m.rows
    ∙ filter_by-update_where _ _ _ db.accreditations (λ a h.
      let same = law.same_lender a in let own = concern a h in (ground arith, ground arith))
Change-of_others user org db db' (Change.arrived a status may fresh rows told) = cc
Change-of_others user org db db' (Change.idle rows told) = ap (of_others org) rows

-- No operation that a client user calls changes, adds or removes an accreditation of a lender
-- other than their own.
pub client_user-isolated :
    (op : Operation) (user org : ℕ) (ambient : Ambient) (db : Db)
    → conflict_free accreditations_conflict db.accreditations ≡ true
    → of_others org (run op (as_client_user user org) ambient db).accreditations
      ≡ of_others org db.accreditations
client_user-isolated op user org ambient db free =
    Change-of_others user org db _ (run-Change op (as_client_user user org) ambient db free)
