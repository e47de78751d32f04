-- ===== src/Businesses/Membership.antt =====
-- On the affiliations of businesses.repository.ts: who confirms them, and what ends them.
use brokerplatform.Prelude.{
  ℕ, ◌≡◌, true, false, some, List, [], ◌∷◌, ◌&&◌, String, arith, conflict_free, is_empty, ◌==◌,
  Option, first, update_where, ap, ◌∙◌,
}
use brokerplatform.Db.Transaction.{World, Ambient, ok, seen, reached, begin}
use brokerplatform.Businesses.Affiliations.{
  confirm_affiliation_work, confirm_affiliation, request_affiliation, is_pending_affiliation,
}
use brokerplatform.Db.Schema.{Db, BusinessAffiliation, AffiliationStatus}
use brokerplatform.Businesses.Repository.{BusinessInput, create_business}
use brokerplatform.Db.Context.{AuthorizationContext, session_of}
use brokerplatform.Audit.{record_audit_event}
use brokerplatform.Accreditation.Parties.{end_affiliation}
use brokerplatform.Db.Policies.People.{business_affiliations, is_active_affiliation}
use brokerplatform.Db.Inversion.{
  select_elim, returned_inv, throw_if_elim, or_throw_elim, update_elim, now_elim, insert_inv,
}
use brokerplatform.Db.Policies.Logs.{audit_log}

-- The functions that write affiliations.
pub data MembershipOperation : Type 0 where
  start : BusinessInput → MembershipOperation
  ask : ℕ → Ambient → MembershipOperation
  confirm : ℕ → ℕ → MembershipOperation
  leave : ℕ → Option String → MembershipOperation

-- The database after an operation of a broker, whether it returned or threw.
unfoldable pub run_membership : MembershipOperation → AuthorizationContext → ℕ → Ambient → Db → Db
unfolding create_business request_affiliation confirm_affiliation end_affiliation
run_membership (MembershipOperation.start input) ctx broker t db =
    (create_business ctx broker input t db).1
run_membership (MembershipOperation.ask business t') ctx broker t db =
    (request_affiliation ctx broker business t t' db).1
run_membership (MembershipOperation.confirm business id) ctx broker t db =
    (confirm_affiliation ctx broker business id t db).1
run_membership (MembershipOperation.leave id reason) ctx broker t db =
    (end_affiliation ctx broker id reason t db).1

pub record MembershipStep : Type 0 where
  pub operation : MembershipOperation
  pub ctx : AuthorizationContext
  pub broker : ℕ
  pub time : Ambient

unfoldable pub run_memberships : List MembershipStep → Db → Db
unfolding run_membership
run_memberships [] db = db
run_memberships (s ∷ steps) db =
    run_memberships steps (run_membership s.operation s.ctx s.broker s.time db)

pub confirm_lem :
    (broker business id : ℕ) (w : World) {u : Unit {0}} {w' : World}
    → confirm_affiliation_work broker business id w ≡ ok (u, w')
    → (is_empty (
          seen business_affiliations w.session w.db (λ a.
            a.broker_business_id == business
            && a.broker_profile_id == broker
            && is_active_affiliation a.status))
        ≡ false)
      × ((target : BusinessAffiliation) × (first (
              seen business_affiliations w.session w.db
                (λ a. a.id == id && a.broker_business_id == business))
            ≡ some target)
          × ((target.broker_profile_id == broker) ≡ false)
          × (is_pending_affiliation target.status ≡ true))
      × (let rows =
            update_where
              (reached business_affiliations w.session w.db (λ a. a.id == id))
              (λ a. record a { status = AffiliationStatus.active })
              w.db.business_affiliations in
          (conflict_free business_affiliations.conflicts rows ≡ true)
          × (w'.db.business_affiliations ≡ rows))
unfolding confirm_affiliation_work record_audit_event
confirm_lem broker business id w h = select_elim business_affiliations _ _ w h λ h1.
    throw_if_elim _ _ w h1 λ member h2. select_elim business_affiliations _ _ w h2 λ h3.
      or_throw_elim _ _ w h3 λ target found h4. throw_if_elim _ _ w h4 λ other h5.
        throw_if_elim _ _ w h5 λ pending h6. update_elim business_affiliations _ _ _ w h6 λ free h7.
          now_elim _ _ h7 λ h8.
            let e = (insert_inv audit_log _ _ h8).2 in
            (ground arith, (target, found, other, ground arith), (free, ground arith))

-- A confirmation that returned was by a broker with an active affiliation with the business, as
-- they see it, and of another broker's pending affiliation with the same business. Of the
-- affiliations, the rows with that id that the actor may write are active after the call, and no
-- other has changed.
pub confirm_affiliation-authorised :
    (ctx : AuthorizationContext) (broker business id : ℕ) (t : Ambient) (db : Db) {db' : Db}
    → confirm_affiliation ctx broker business id t db ≡ (ok tt, db')
    → (is_empty (
          seen business_affiliations (session_of ctx) db (λ a.
            a.broker_business_id == business
            && a.broker_profile_id == broker
            && is_active_affiliation a.status))
        ≡ false)
      × ((target : BusinessAffiliation) × (first (
              seen business_affiliations
                (session_of ctx)
                db
                (λ a. a.id == id && a.broker_business_id == business))
            ≡ some target)
          × ((target.broker_profile_id == broker) ≡ false)
          × (is_pending_affiliation target.status ≡ true))
      × (db'.business_affiliations
          ≡ update_where
              (reached business_affiliations (session_of ctx) db (λ a. a.id == id))
              (λ a. record a { status = AffiliationStatus.active })
              db.business_affiliations)
unfolding confirm_affiliation
confirm_affiliation-authorised ctx broker business id t db {db'} h =
    let (w, runs, same) = returned_inv ctx (confirm_affiliation_work broker business id) t db h in
    let (member, target, (free, rows)) = confirm_lem broker business id (begin ctx t db) runs in
    (member, target, ap (λ (x : Db). x.business_affiliations) same ∙ rows)
