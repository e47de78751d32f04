-- ===== src/Businesses/Repository.antt =====
-- businesses.repository.ts: creating, reading, changing and submitting a business.
use brokerplatform.Db.Transaction.{
  ◌>>=◌, ◌>>◌, Tx, select, random_uuid, Call, now, pure, update, or_throw, insert,
  with_authorization_context, throw_if, ok, refuse_null,
}
use brokerplatform.Prelude.{
  ℕ, Bool, true, false, none, some, [], ◌∷◌, List, String, Option, if◌then◌else◌, filter_by,
  is_empty, ◌<>◌, ◌==◌, not, first, ◌&&◌, is_some, length, any,
}
use brokerplatform.Db.Schema.{
  AuditAction, AffiliationStatus, BusinessEntityType, BrokerProfile, BrokerBusiness, Address,
  BusinessStatus, AuditSubject, BusinessAffiliation, RecipientType, NotificationCategory,
}
use brokerplatform.Notifications.Repository.{create_notification, Dispatch}
use brokerplatform.Db.Context.{AuthorizationContext, ActorType}
use brokerplatform.Db.Errors.{
  OutstandingItem, not_null_violation, of_business, BusinessError, incomplete,
}
use brokerplatform.Businesses.Completeness.{
  compute_business_outstanding_items, is_missing, assert_editable,
}
use brokerplatform.Notifications.Templates.{business_submitted_template}
use brokerplatform.Db.Policies.People.{
  broker_profiles, broker_businesses, business_principals, business_affiliations,
}
use brokerplatform.Audit.{record_audit_event}

-- An audit entry of the broker.
abbrev pub audit_broker : ℕ → AuditAction → AuditSubject → ℕ → Tx (Unit {0})
audit_broker broker action subject id = record_audit_event (record {
  actor_type = ActorType.broker;
  actor_id = some broker;
  action = action;
  subject_type = subject;
  subject_id = id;
  client_organisation_id = none;
})

pub record BusinessInput : Type 0 where
  pub entity_type : BusinessEntityType
  pub legal_name : Option String
  pub trading_name : Option String
  pub abn : Option String
  pub acn : Option String
  pub gst_registered : Option Bool
  pub trustee_name : Option String
  pub website : Option String
  pub business_email : Option String
  pub address : Option Address
  pub mailing_address : Option Address

abbrev pub is_sole_trader : BusinessEntityType → Bool
is_sole_trader BusinessEntityType.sole_trader = true
is_sole_trader other = false

-- `soleTraderBroker`, read for a sole trader only.
abbrev pub find_sole_trader : Bool → ℕ → Tx (Option BrokerProfile)
find_sole_trader true broker = do
  rows ← select broker_profiles (λ b. b.id == broker)
  pure (first rows)
find_sole_trader false broker = pure none

-- `legalName`: the name of the sole trader where none was given.
abbrev pub legal_name_of : Option String → Option BrokerProfile → Option String
legal_name_of given none = given
legal_name_of given (some b) =
    if is_missing given then some (b.first_name <> (" " <> b.last_name)) else given

abbrev pub business_row : ℕ → BusinessInput → String → ℕ → BrokerBusiness
business_row id input legal_name t = record {
  id = id;
  entity_type = input.entity_type;
  legal_name = legal_name;
  trading_name = input.trading_name;
  abn = input.abn;
  acn = input.acn;
  gst_registered = input.gst_registered;
  trustee_name = input.trustee_name;
  website = input.website;
  business_email = input.business_email;
  address = input.address;
  mailing_address = input.mailing_address;
  status = BusinessStatus.draft;
  created_at = t;
  updated_at = t;
}

abbrev pub affiliation_row : ℕ → ℕ → ℕ → AffiliationStatus → ℕ → BusinessAffiliation
affiliation_row id broker business status t = record {
  id = id;
  broker_profile_id = broker;
  broker_business_id = business;
  role = "principal";
  status = status;
  started_at = t;
  ended_at = none;
  end_reason = none;
}

-- The principal that a sole trader is of their own business.
abbrev pub insert_sole_trader : ℕ → ℕ → Option BrokerProfile → Tx (Unit {0})
insert_sole_trader broker business none = pure tt
insert_sole_trader broker business (some b) = do
  id ← random_uuid
  t ← now
  insert business_principals (record {
    id = id;
    broker_business_id = business;
    role = "sole_trader";
    first_name = b.first_name;
    last_name = b.last_name;
    date_of_birth = b.date_of_birth;
    broker_profile_id = some broker;
    email = some b.email;
    removed_at = none;
    created_at = t;
  })

-- `createBusiness`. The column `legal_name` takes no NULL.
unfoldable pub create_business_work : ℕ → BusinessInput → Tx ℕ
create_business_work broker input = do
  trader ← find_sole_trader (is_sole_trader input.entity_type) broker
  business ← random_uuid
  legal_name ← or_throw (legal_name_of input.legal_name trader) not_null_violation
  t ← now
  insert broker_businesses (business_row business input legal_name t)
  id ← random_uuid
  insert business_affiliations (affiliation_row id broker business AffiliationStatus.active t)
  insert_sole_trader broker business trader
  audit_broker broker AuditAction.broker_business_created AuditSubject.broker_business business
  pure business

unfoldable pub create_business : AuthorizationContext → ℕ → BusinessInput → Call ℕ
unfolding create_business_work
create_business ctx broker input =
    with_authorization_context ctx (create_business_work broker input)

-- `getBusiness`
unfoldable pub get_business : AuthorizationContext → ℕ → Call (Option BrokerBusiness)
get_business ctx business =
    with_authorization_context ctx
      do rows ← select broker_businesses (λ b. b.id == business); pure (first rows)

-- A member of the patch of `updateBusiness`, of the type that UpdateBusinessDto admits; a null
-- passes it. A key that `BUSINESS_UPDATABLE_FIELDS` lacks is `unknown`; `in` also finds the members
-- of `Object.prototype`, which no DTO has.
pub data BusinessChange : Type 0 where
  legal_name trading_name abn acn trustee_name : Option String → BusinessChange
  website business_email : Option String → BusinessChange
  gst_registered : Option Bool → BusinessChange
  address mailing_address : Option Address → BusinessChange
  unknown : String → BusinessChange

-- A null for the column that is NOT NULL.
abbrev pub is_null_business : BusinessChange → Bool
is_null_business (BusinessChange.legal_name none) = true
is_null_business other = false

-- `key in BUSINESS_UPDATABLE_FIELDS`
abbrev pub is_updatable : BusinessChange → Bool
is_updatable (BusinessChange.unknown key) = false
is_updatable other = true

-- One assignment of the SET clause. A null name does not get here.
unfoldable pub assign : BusinessChange → BrokerBusiness → BrokerBusiness
assign (BusinessChange.legal_name none) b = b
assign (BusinessChange.legal_name (some s)) b = record b { legal_name = s }
assign (BusinessChange.trading_name s) b = record b { trading_name = s }
assign (BusinessChange.abn s) b = record b { abn = s }
assign (BusinessChange.acn s) b = record b { acn = s }
assign (BusinessChange.trustee_name s) b = record b { trustee_name = s }
assign (BusinessChange.website s) b = record b { website = s }
assign (BusinessChange.business_email s) b = record b { business_email = s }
assign (BusinessChange.gst_registered g) b = record b { gst_registered = g }
assign (BusinessChange.address a) b = record b { address = a }
assign (BusinessChange.mailing_address a) b = record b { mailing_address = a }
assign (BusinessChange.unknown key) b = b

unfoldable pub assign_all : List BusinessChange → BrokerBusiness → BrokerBusiness
unfolding assign
assign_all [] b = b
assign_all (c ∷ changes) b = assign_all changes (assign c b)

-- The status of a business that may be edited, or the error that the code throws.
unfoldable pub get_editable : ℕ → Tx BusinessStatus
get_editable business = do
  rows ← select broker_businesses (λ b. b.id == business)
  b ← or_throw (first rows) (of_business (BusinessError.not_found business))
  assert_editable b.status
  pure b.status

unfoldable pub update_business_work : ℕ → ℕ → List BusinessChange → Tx (Unit {0})
unfolding get_editable assign_all
update_business_work broker business changes = do
  get_editable business
  refuse_null broker_businesses (λ b. b.id == business) (any is_null_business changes)
  t ← now
  update broker_businesses (λ b. b.id == business)
      (λ b. record (assign_all changes b) { updated_at = t })
  audit_broker broker AuditAction.broker_business_updated AuditSubject.broker_business business

-- `updateBusiness`: a patch of unknown keys only changes nothing.
unfoldable pub update_business :
    AuthorizationContext → ℕ → ℕ → List BusinessChange → Call (Unit {0})
unfolding update_business_work
update_business ctx broker business patch ambient db =
    let changes = filter_by is_updatable patch in
    if is_empty changes
    then (ok tt, db)
    else with_authorization_context ctx (update_business_work broker business changes) ambient db

pub record CompletenessInputs : Type 0 where
  pub business : BrokerBusiness
  pub principal_count : ℕ

-- `fetchBusinessCompletenessInputs`
unfoldable pub fetch_business_completeness_inputs : ℕ → Tx CompletenessInputs
fetch_business_completeness_inputs business = do
  rows ← select broker_businesses (λ b. b.id == business)
  b ← or_throw (first rows) (of_business (BusinessError.not_found business))
  principals ←
      select business_principals
        (λ p. p.broker_business_id == business && not (is_some p.removed_at))
  pure (record { business = b; principal_count = length principals })

abbrev pub items_of : CompletenessInputs → List OutstandingItem
items_of i = compute_business_outstanding_items i.business i.principal_count

-- `getOutstandingItems`
unfoldable pub get_outstanding_items : AuthorizationContext → ℕ → Call (List OutstandingItem)
unfolding fetch_business_completeness_inputs
get_outstanding_items ctx business =
    with_authorization_context ctx
      do inputs ← fetch_business_completeness_inputs business; pure (items_of inputs)

-- `submitBusiness`
unfoldable pub submit_business_work : AuthorizationContext → ℕ → ℕ → Tx Dispatch
unfolding get_editable fetch_business_completeness_inputs create_notification
    business_submitted_template
submit_business_work ctx broker business = do
  get_editable business
  inputs ← fetch_business_completeness_inputs business
  throw_if (not (is_empty (items_of inputs))) (of_business (incomplete (items_of inputs)))
  t ← now
  update broker_businesses (λ b. b.id == business)
      (λ b. record b { status = BusinessStatus.submitted; updated_at = t })
  audit_broker broker AuditAction.broker_business_submitted AuditSubject.broker_business business
  create_notification ctx (record {
    recipient_type = RecipientType.broker;
    recipient_id = broker;
    category = NotificationCategory.business_submitted;
    subject = business_submitted_template.subject;
    body = business_submitted_template.body;
    related_record_type = some "broker_business";
    related_record_id = some business;
  })

unfoldable pub submit_business : AuthorizationContext → ℕ → ℕ → Call Dispatch
unfolding submit_business_work
submit_business ctx broker business =
    with_authorization_context ctx (submit_business_work ctx broker business)
