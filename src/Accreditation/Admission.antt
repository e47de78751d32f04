-- ===== src/Accreditation/Admission.antt =====
-- On `requestAccreditation` (accreditation.repository.ts): what a request has to meet.
use brokerplatform.Prelude.{ℕ, ◌≡◌, refl, subst, Option, List}
use brokerplatform.Db.Context.{AuthorizationContext, as_system}
use brokerplatform.Db.Schema.{Db, RulesetVersion}
use brokerplatform.Db.Transaction.{
  Ambient, World, Result, ok, err, begin, with_authorization_context,
}
use brokerplatform.Db.Inversion.{returned_inv}
use brokerplatform.Notifications.Repository.{Dispatch}
use brokerplatform.Rulesets.Repository.{resolve}
use brokerplatform.Accreditation.Requests.{
  AccreditationInput, request_accreditation, request_accreditation_work, key_of, with_resolved,
}
use brokerplatform.Accreditation.Arrivals.{Arrived, request_accreditation_effect}
use brokerplatform.Accreditation.Refinement.{resolve-keeps}

after_resolution :
    (ctx : AuthorizationContext) (i : AccreditationInput) (ambient : Ambient) (db db1 : Db)
    (o : Result (Option RulesetVersion)) {r : ℕ × List Dispatch} {db' : Db}
    → db1 ≡ db
    → with_resolved
        (o, db1)
        (λ resolved.
          with_authorization_context ctx (request_accreditation_work ctx i resolved) ambient)
      ≡ (ok r, db')
    → (resolved : Option RulesetVersion) × (w : World) × (db' ≡ w.db)
      × (o ≡ ok resolved)
      × Arrived i resolved r.0 (begin ctx ambient db) w
after_resolution ctx i ambient db db1 (ok v) {r} {db'} same h =
    let (w, done, left) = returned_inv ctx (request_accreditation_work ctx i v) ambient db (
      subst
        (λ d.
          with_authorization_context ctx (request_accreditation_work ctx i v) ambient d
          ≡ (ok r, db'))
        same h) in
    (v, w, left, refl, request_accreditation_effect ctx i v _ done)
after_resolution ctx i ambient db db1 (err e) same h = cc

-- A request that returned was for a business with which the broker has an active affiliation, and
-- a lender with which they have a current relationship, both as the actor sees them; the policies
-- let the actor write the row, no row with its scope was live, the ruleset is the one that resolves
-- at that time, and one row and one audit entry were written.
pub request_accreditation-Arrived :
    (ctx : AuthorizationContext) (i : AccreditationInput) (ambient : Ambient) (db : Db)
    {r : ℕ × List Dispatch} {db' : Db}
    → request_accreditation ctx i ambient db ≡ (ok r, db')
    → (resolved : Option RulesetVersion) × (w : World) × (db' ≡ w.db)
      × ((resolve as_system (key_of i) ambient db).0 ≡ ok resolved)
      × Arrived i resolved r.0 (begin ctx ambient db) w
unfolding request_accreditation
request_accreditation-Arrived ctx i ambient db h =
    after_resolution ctx i ambient db (resolve as_system (key_of i) ambient db).1
      (resolve as_system (key_of i) ambient db).0 (resolve-keeps (key_of i) ambient db) h
