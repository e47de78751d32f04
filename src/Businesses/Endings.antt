-- ===== src/Businesses/Endings.antt =====
-- On the affiliations of businesses.repository.ts that have ended.
use brokerplatform.Prelude.{
  ℕ, ◌≡◌, Bool, true, false, some, List, [], ◌∷◌, ◌&&◌, String, arith, conflict_free, any, ◌==◌,
  Option, first, filter_by, found_unique, All-found, subst, sym, All-intro, Bool-cases, inl, inr,
  any-update_hit, none, any-update_where, not, if◌then◌else◌,
}
use brokerplatform.Db.Transaction.{
  World, Ambient, ok, reached, begin, ◌>>=◌, Result, err, with_authorization_context,
}
use brokerplatform.Businesses.Affiliations.{
  confirm_affiliation_work, confirm_affiliation, request_affiliation, is_pending_affiliation,
  request_affiliation_work, business_status, request_next, is_open_business,
}
use brokerplatform.Db.Schema.{
  Db, BusinessAffiliation, AffiliationStatus, BrokerProfile, BusinessStatus,
}
use brokerplatform.Businesses.Repository.{
  BusinessInput, create_business, create_business_work, insert_sole_trader, find_sole_trader,
  is_sole_trader, affiliation_row,
}
use brokerplatform.Db.Context.{AuthorizationContext, as_system}
use brokerplatform.Audit.{record_audit_event}
use brokerplatform.Accreditation.Parties.{
  end_affiliation, is_ended, end_affiliation_work, flag_party_changed,
}
use brokerplatform.Db.Policies.People.{
  business_affiliations, business_principals, broker_businesses,
}
use brokerplatform.Db.Keys.{found_is_only}
use brokerplatform.Db.Inversion.{
  select_elim, throw_if_elim, or_throw_elim, update_elim, now_elim, insert_inv, random_uuid_elim,
  reader_elim, insert_elim, bind_elim, set_actor_type_elim, settle, pure_elim,
}
use brokerplatform.Db.Policies.Logs.{audit_log}
use brokerplatform.Db.Policies.Lifecycle.{accreditations}
use brokerplatform.Accreditation.History.{audit_each_inv}
use brokerplatform.Db.Errors.{of_business, not_affiliatable}
use brokerplatform.Businesses.Membership.{
  MembershipOperation, MembershipStep, run_membership, run_memberships, confirm_lem,
}

-- The affiliation with this id has ended, and the ids are unique.
abbrev pub has_ended : ℕ → List BusinessAffiliation → Bool
has_ended id rows = any (λ a. a.id == id && is_ended a.status) rows

pub record IsEnded (id : ℕ) (db : Db) : Type 0 where
  pub ended : has_ended id db.business_affiliations ≡ true
  pub unique : conflict_free business_affiliations.conflicts db.business_affiliations ≡ true

-- Of two rows with one id that are stored, both have ended or none has.
same_ended :
    (id : ℕ) (p : BusinessAffiliation → Bool) (rows : List BusinessAffiliation)
    {target : BusinessAffiliation}
    → conflict_free business_affiliations.conflicts rows ≡ true
    → has_ended id rows ≡ true
    → first (filter_by p rows) ≡ some target
    → target.id ≡ id
    → is_ended target.status ≡ true
same_ended id p rows {target} free ended found same =
    let (b, first_one, over, own) =
      found_unique business_affiliations.conflicts (λ a. a.id == id) (λ a. is_ended a.status) rows
        (λ a c e f. ground arith) free ended in
    let only =
      found_is_only (λ (a : BusinessAffiliation). a.id) business_affiliations.conflicts (λ a c e. e)
        (λ a. a.id == id) id rows (λ a e. e) free first_one in
    let it = (All-found _ p rows only found).0 (ground arith) in
    subst (λ x. is_ended x.status ≡ true) (sym it) over

confirm-IsEnded :
    (id broker business other : ℕ) (w : World) {r : Unit {0} × World}
    → confirm_affiliation_work broker business other w ≡ ok r
    → IsEnded id w.db
    → IsEnded id r.1.db
confirm-IsEnded id broker business other w {r = (u, w')} h ended =
    let (member, (target, found, apart, pending), (free, rows)) =
      confirm_lem broker business other w h in
    let met =
      (All-found (λ _. Unit {0}) _ w.db.business_affiliations
        (All-intro _ w.db.business_affiliations (λ a. tt)) found).1 in
    elim (Bool-cases (other == id)) [
      | inl same ↦
          let over =
            same_ended id _ w.db.business_affiliations ended.unique ended.ended found
              (ground arith) in
          absurd (both_cases target.status over pending)
      | inr differ ↦ record {
        ended =
            let kept =
              any-update_hit (λ a. a.id == id && is_ended a.status)
                (reached business_affiliations w.session w.db (λ a. a.id == other))
                (λ a. record a { status = AffiliationStatus.active }) w.db.business_affiliations
                (λ a hit e. ground arith) ended.ended in
            ground arith;
        unique = ground arith;
      }
    ]
  where
    both_cases : (s : AffiliationStatus) → is_ended s ≡ true → ¬ (is_pending_affiliation s ≡ true)
    both_cases AffiliationStatus.pending_confirmation e p = cc
    both_cases AffiliationStatus.active e p = cc
    both_cases AffiliationStatus.ended e p = cc

-- A new affiliation and what follows it.
ask-IsEnded :
    (id broker business : ℕ) (w : World) {r : ℕ × World}
    → request_affiliation_work broker business w ≡ ok r
    → IsEnded id w.db
    → IsEnded id r.1.db
unfolding request_affiliation_work record_audit_event
ask-IsEnded id broker business w {r} h ended = select_elim business_affiliations _ _ w h λ h1.
    throw_if_elim _ _ w h1 λ absent h2. random_uuid_elim _ w h2 λ h3. now_elim _ _ h3 λ h4.
      insert_elim business_affiliations _ _ h4 λ may fresh h5. bind_elim _ _ _ h5 λ u w1 p h6.
        let e = now_elim _ _ p λ p1. (insert_inv audit_log _ _ p1).2 in
        let over = ended.ended in
        let one = ended.unique in
        let rows : r.1.db.business_affiliations
            ≡ affiliation_row (w.ambient.uuid w.drawn) broker business
                AffiliationStatus.pending_confirmation w.ambient.now
              ∷ w.db.business_affiliations =
          ground arith in
        record { ended = ground arith; unique = ground arith }

find_sole_trader_inv :
    (sole : Bool) (broker : ℕ) (w : World) (o : Option BrokerProfile) (w' : World)
    → find_sole_trader sole broker w ≡ ok (o, w')
    → w' ≡ w
unfolding ◌>>=◌
find_sole_trader_inv true broker w o w' h = ground arith
find_sole_trader_inv false broker w o w' h = ground arith

insert_sole_trader_inv :
    (broker business : ℕ) (o : Option BrokerProfile) (w : World) {u : Unit {0}} {w' : World}
    → insert_sole_trader broker business o w ≡ ok (u, w')
    → w'.db.business_affiliations ≡ w.db.business_affiliations
insert_sole_trader_inv broker business none w h = ground arith
insert_sole_trader_inv broker business (some b) w h =
    random_uuid_elim _ w h
      λ h1. now_elim _ _ h1 λ h2. let e = (insert_inv business_principals _ _ h2).2 in ground arith

start-IsEnded :
    (id broker : ℕ) (input : BusinessInput) (w : World) {r : ℕ × World}
    → create_business_work broker input w ≡ ok r
    → IsEnded id w.db
    → IsEnded id r.1.db
unfolding create_business_work record_audit_event
start-IsEnded id broker input w {r} h ended =
    reader_elim _ _ w h (find_sole_trader_inv (is_sole_trader input.entity_type) broker w) λ o p h1.
      random_uuid_elim _ w h1 λ h2. or_throw_elim _ _ _ h2 λ name named h3. now_elim _ _ h3 λ h4.
        insert_elim broker_businesses _ _ h4 λ may1 fresh1 h5. random_uuid_elim _ _ h5 λ h6.
          insert_elim business_affiliations _ _ h6 λ may fresh h7. bind_elim _ _ _ h7 λ v w2 q h8.
            bind_elim _ _ _ h8 λ u w1 p1 h9.
              let e = now_elim _ _ p1 λ p2. (insert_inv audit_log _ _ p2).2 in
              let f = insert_sole_trader_inv broker _ o _ q in
              let over = ended.ended in
              let one = ended.unique in record { ended = ground arith; unique = ground arith }

leave-IsEnded :
    (id : ℕ) (ctx : AuthorizationContext) (broker other : ℕ) (reason : Option String) (w : World)
    {r : List ℕ × World}
    → end_affiliation_work ctx broker other reason w ≡ ok r
    → IsEnded id w.db
    → IsEnded id r.1.db
unfolding end_affiliation_work record_audit_event flag_party_changed
leave-IsEnded id ctx broker other reason w {r} h ended = now_elim _ w h λ h1.
    update_elim business_affiliations _ _ _ w h1 λ free h2. or_throw_elim _ _ _ h2 λ a left h3.
      bind_elim _ _ _ h3 λ u w1 p h4.
        let e = now_elim _ _ p λ p'. (insert_inv audit_log _ _ p').2 in
        set_actor_type_elim _ w1 h4 λ h5. now_elim _ _ h5 λ h6.
          update_elim accreditations _ _ _ _ h6 λ free1 h7. set_actor_type_elim _ _ h7 λ h8.
            bind_elim _ _ _ h8 λ v w2 q h9.
              let f = audit_each_inv ctx _ _ _ _ q in
              let kept =
                any-update_where (λ c. c.id == id && is_ended c.status)
                  (reached business_affiliations w.session w.db (λ c.
                    c.id == other && c.broker_profile_id == broker && not (is_ended c.status)))
                  (λ c. record c {
                    status = AffiliationStatus.ended;
                    ended_at = some w.ambient.now;
                    end_reason = reason;
                  })
                  w.db.business_affiliations (λ c g. ground arith) ended.ended in
              record { ended = ground arith; unique = ground arith }

status_untouched :
    (id business : ℕ) (t : Ambient) (db : Db)
    → IsEnded id db
    → IsEnded id (business_status business t db).1
unfolding business_status
status_untouched id business t db ended = settle (IsEnded id) as_system _ t db ended λ o w h.
    select_elim broker_businesses _ _ (begin as_system t db) h
      λ h1. pure_elim (λ x. IsEnded id x.1.db) h1 ended

next-IsEnded :
    (id : ℕ) (ctx : AuthorizationContext) (broker business : ℕ)
    (r : Result (Option BusinessStatus) × Db) (t : Ambient)
    → IsEnded id r.1
    → IsEnded id (request_next ctx broker business r t).1
unfolding request_affiliation_work
next-IsEnded id ctx broker business (err e, db) t ended = ended
next-IsEnded id ctx broker business (ok none, db) t ended = ended
next-IsEnded id ctx broker business (ok (some s), db) t ended = by_status (is_open_business s)
  where
    by_status :
        (open_ : Bool)
        → IsEnded id
            (if open_
              then with_authorization_context ctx (request_affiliation_work broker business) t db
              else (err (of_business (not_affiliatable s)), db)).1
    by_status true =
        settle (IsEnded id) ctx (request_affiliation_work broker business) t db ended
          λ o w h. ask-IsEnded id broker business _ h ended
    by_status false = ended

run-IsEnded :
    (id : ℕ) (operation : MembershipOperation) (ctx : AuthorizationContext) (broker : ℕ)
    (t : Ambient) (db : Db)
    → IsEnded id db
    → IsEnded id (run_membership operation ctx broker t db)
unfolding run_membership create_business request_affiliation confirm_affiliation end_affiliation
run-IsEnded id (MembershipOperation.start input) ctx broker t db ended =
    settle (IsEnded id) ctx (create_business_work broker input) t db ended
      λ o w h. start-IsEnded id broker input _ h ended
run-IsEnded id (MembershipOperation.ask business t') ctx broker t db ended =
    next-IsEnded id ctx broker business (business_status business t db) t'
      (status_untouched id business t db ended)
run-IsEnded id (MembershipOperation.confirm business other) ctx broker t db ended =
    settle (IsEnded id) ctx (confirm_affiliation_work broker business other) t db ended
      λ o w h. confirm-IsEnded id broker business other _ h ended
run-IsEnded id (MembershipOperation.leave other reason) ctx broker t db ended =
    settle (IsEnded id) ctx (end_affiliation_work ctx broker other reason) t db ended
      λ o w h. leave-IsEnded id ctx broker other reason _ h ended

-- An affiliation that has ended stays ended, whatever functions that write affiliations follow, if
-- the ids are unique; and the ids stay unique.
pub run_memberships-IsEnded :
    (id : ℕ) (steps : List MembershipStep) (db : Db)
    → IsEnded id db
    → IsEnded id (run_memberships steps db)
unfolding run_memberships
run_memberships-IsEnded id [] db ended = ended
run_memberships-IsEnded id (s ∷ steps) db ended =
    run_memberships-IsEnded id steps _ (run-IsEnded id s.operation s.ctx s.broker s.time db ended)
