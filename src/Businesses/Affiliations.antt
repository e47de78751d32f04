-- ===== src/Businesses/Affiliations.antt =====
-- businesses.repository.ts: finding a business, and asking to join it. `role` is 'principal' for
-- every affiliation.
use brokerplatform.Db.Transaction.{
  ◌>>=◌, ◌>>◌, Tx, Call, Result, select, Ambient, with_authorization_context, err, ok, throw_if,
  pure, or_throw, random_uuid, now, insert, update,
}
use brokerplatform.Prelude.{
  ℕ, Bool, true, false, none, some, [], List, String, Option, str_eq, ◌||◌, if◌then◌else◌, first,
  filter_by, ◌==◌, ◌&&◌, map, not, is_some, is_empty,
}
use brokerplatform.Db.Schema.{
  AffiliationStatus, BusinessAffiliation, BrokerBusiness, BusinessStatus, Db, AuditAction,
  AuditSubject,
}
use brokerplatform.Db.Context.{AuthorizationContext, as_system}
use brokerplatform.Db.Ordering.{order_descending, order_ascending}
use brokerplatform.Db.Policies.People.{
  is_active_affiliation, business_affiliations, broker_businesses,
}
use brokerplatform.Businesses.Completeness.{is_missing}
use brokerplatform.Db.Errors.{
  of_business, BusinessError, not_affiliated, already_affiliated, not_affiliatable,
  affiliation_not_found, cannot_confirm_own_affiliation, affiliation_not_pending,
}
use brokerplatform.Businesses.Repository.{affiliation_row, audit_broker}

-- `status IN ('verified', 'active')`
abbrev pub is_open_business : BusinessStatus → Bool
is_open_business BusinessStatus.verified = true
is_open_business BusinessStatus.active = true
is_open_business other = false

-- `abn = $1` where a term was given: an empty text is none.
abbrev pub matches_term : Option String → Option String → Bool
matches_term none column = true
matches_term (some s) none = str_eq s ""
matches_term (some s) (some v) = str_eq s "" || str_eq v s

-- `searchVerifiedBusinesses`, by ABN and ACN.
unfoldable pub search_verified_businesses :
    Option String → Option String → Call (List BrokerBusiness)
search_verified_businesses abn acn ambient db =
    if is_missing abn && is_missing acn
    then (ok [], db)
    else with_authorization_context as_system
        (select broker_businesses
          (λ b. is_open_business b.status && matches_term abn b.abn && matches_term acn b.acn))
        ambient db

abbrev pub is_pending_affiliation : AffiliationStatus → Bool
is_pending_affiliation AffiliationStatus.pending_confirmation = true
is_pending_affiliation other = false

-- `status IN ('active', 'pending_confirmation')`
abbrev pub is_open_affiliation : AffiliationStatus → Bool
is_open_affiliation s = is_active_affiliation s || is_pending_affiliation s

-- The first transaction of `requestAffiliation`, which reads as the system.
unfoldable pub business_status : ℕ → Call (Option BusinessStatus)
business_status business = with_authorization_context as_system do
  rows ← select broker_businesses (λ b. b.id == business)
  pure (first (map (λ b. b.status) rows))

-- Its second transaction.
unfoldable pub request_affiliation_work : ℕ → ℕ → Tx ℕ
request_affiliation_work broker business = do
  existing ← select business_affiliations (λ a.
      a.broker_business_id == business
      && a.broker_profile_id == broker
      && is_open_affiliation a.status)
  throw_if (not (is_empty existing)) (of_business (already_affiliated business))
  id ← random_uuid
  t ← now
  insert business_affiliations
      (affiliation_row id broker business AffiliationStatus.pending_confirmation t)
  audit_broker broker AuditAction.business_affiliation_requested AuditSubject.business_affiliation
      id
  pure id

-- What follows from the status of the business.
abbrev pub request_next :
    AuthorizationContext → ℕ → ℕ → Result (Option BusinessStatus) × Db → Ambient → Result ℕ × Db
request_next ctx broker business (err e, db) t = (err e, db)
request_next ctx broker business (ok none, db) t =
    (err (of_business (BusinessError.not_found business)), db)
request_next ctx broker business (ok (some s), db) t =
    if is_open_business s
    then with_authorization_context ctx (request_affiliation_work broker business) t db
    else (err (of_business (not_affiliatable s)), db)

-- `requestAffiliation`: two transactions, at two times.
unfoldable pub request_affiliation :
    AuthorizationContext → ℕ → ℕ → Ambient → Ambient → Db → Result ℕ × Db
unfolding business_status request_affiliation_work
request_affiliation ctx broker business t t' db =
    request_next ctx broker business (business_status business t db) t'

-- `confirmAffiliation`
unfoldable pub confirm_affiliation_work : ℕ → ℕ → ℕ → Tx (Unit {0})
confirm_affiliation_work broker business id = do
  mine ← select business_affiliations (λ a.
      a.broker_business_id == business
      && a.broker_profile_id == broker
      && is_active_affiliation a.status)
  throw_if (is_empty mine) (of_business (not_affiliated business))
  found ← select business_affiliations (λ a. a.id == id && a.broker_business_id == business)
  target ← or_throw (first found) (of_business (affiliation_not_found id))
  throw_if (target.broker_profile_id == broker) (of_business cannot_confirm_own_affiliation)
  throw_if (not (is_pending_affiliation target.status))
      (of_business (affiliation_not_pending target.status))
  update business_affiliations (λ a. a.id == id)
      (λ a. record a { status = AffiliationStatus.active })
  audit_broker broker AuditAction.business_affiliation_confirmed AuditSubject.business_affiliation
      id

unfoldable pub confirm_affiliation : AuthorizationContext → ℕ → ℕ → ℕ → Call (Unit {0})
unfolding confirm_affiliation_work
confirm_affiliation ctx broker business id =
    with_authorization_context ctx (confirm_affiliation_work broker business id)

pub record AffiliationView : Type 0 where
  pub affiliation : BusinessAffiliation
  pub business : Option BrokerBusiness

-- `LEFT JOIN broker_businesses`, as the session sees them.
unfoldable pub join_business : List BrokerBusiness → BusinessAffiliation → AffiliationView
join_business businesses a = record {
  affiliation = a;
  business = first (filter_by (λ b. b.id == a.broker_business_id) businesses);
}

-- `listMyAffiliations`
unfoldable pub list_my_affiliations : AuthorizationContext → ℕ → Call (List AffiliationView)
unfolding order_descending join_business
list_my_affiliations ctx broker = with_authorization_context ctx do
  rows ← select business_affiliations (λ a. a.broker_profile_id == broker)
  businesses ← select broker_businesses (λ b. true)
  pure (map (join_business businesses) (order_descending (λ a. a.started_at) rows))

-- `listAffiliationsForBroker`: an inner join, so a business that is not seen hides the row.
unfoldable pub list_affiliations_for_broker : AuthorizationContext → ℕ → Call (List AffiliationView)
unfolding order_descending join_business
list_affiliations_for_broker ctx broker = with_authorization_context ctx do
  rows ←
      select business_affiliations
        (λ a. a.broker_profile_id == broker && is_active_affiliation a.status)
  businesses ← select broker_businesses (λ b. true)
  pure (
      filter_by (λ v. is_some v.business)
        (map (join_business businesses) (order_descending (λ a. a.started_at) rows)))

-- `listBusinessAffiliations`
unfoldable pub list_business_affiliations :
    AuthorizationContext → ℕ → Call (List BusinessAffiliation)
unfolding order_ascending
list_business_affiliations ctx business = with_authorization_context ctx do
  rows ← select business_affiliations (λ a. a.broker_business_id == business)
  pure (order_ascending (λ a. a.started_at) rows)
