-- ===== src/Accreditation/Leavers.antt =====
-- On `endAffiliation` (businesses.repository.ts) and the policies on business_affiliations: who
-- may end an affiliation.
use brokerplatform.Prelude.{
  ℕ, ◌≡◌, refl, Bool, true, false, Option, some, List, [], ◌∷◌, map, first, filter_by, arith,
  String,
}
use brokerplatform.Db.Context.{
  AuthorizationContext, as_client_user, as_broker, as_platform_admin, as_system, session_of,
}
use brokerplatform.Db.Schema.{BusinessAffiliation, Db}
use brokerplatform.Db.Policies.People.{business_affiliations}
use brokerplatform.Db.Transaction.{Ambient, World, ok, begin, reached}
use brokerplatform.Db.Inversion.{now_elim, update_elim, or_throw_elim}
use brokerplatform.Accreditation.Parties.{end_affiliation_work}
use brokerplatform.Accreditation.Transitions.{may_request}

no_selection :
    (p : BusinessAffiliation → Bool) (xs : List BusinessAffiliation)
    → ((a : BusinessAffiliation) → p a ≡ false)
    → filter_by p xs ≡ []
no_selection p [] h = refl
no_selection p (x ∷ xs) h = let off = h x in let rest = no_selection p xs h in ground arith

client_reaches_none :
    (u org : ℕ) (db : Db) (p : BusinessAffiliation → Bool) (a : BusinessAffiliation)
    → reached business_affiliations (session_of (as_client_user u org)) db p a ≡ false
client_reaches_none u org db p a = ground arith

nothing_found :
    (g : BusinessAffiliation → BusinessAffiliation) (xs : List BusinessAffiliation)
    {a : BusinessAffiliation}
    → first (map g xs) ≡ some a
    → xs ≡ []
    → true ≡ false
nothing_found g [] h e = cc
nothing_found g (x ∷ xs) h e = cc

pub leaver_may_request :
    (ctx : AuthorizationContext) (ambient : Ambient) (db : Db) (broker id : ℕ)
    (reason : Option String) {ids : List ℕ} {w' : World}
    → end_affiliation_work ctx broker id reason (begin ctx ambient db) ≡ ok (ids, w')
    → may_request ctx ≡ true
unfolding end_affiliation_work
leaver_may_request (as_client_user u org) ambient db broker id reason h = now_elim _ _ h λ h1.
    update_elim business_affiliations _ _ _ _ h1 λ free h2. or_throw_elim _ _ _ h2 λ a found h3.
      let none_hit =
        nothing_found _ _ found
          (no_selection _ db.business_affiliations (client_reaches_none u org db _)) in
      cc
leaver_may_request (as_broker u) ambient db broker id reason h = refl
leaver_may_request (as_platform_admin u) ambient db broker id reason h = refl
leaver_may_request as_system ambient db broker id reason h = refl
