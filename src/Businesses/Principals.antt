-- ===== src/Businesses/Principals.antt =====
-- businesses.repository.ts: the principals of a business.
use brokerplatform.Db.Transaction.{
  ◌>>=◌, ◌>>◌, Tx, Call, now, random_uuid, update, with_authorization_context, insert, select,
  throw_if, pure, ok, refuse_null,
}
use brokerplatform.Prelude.{
  ℕ, Bool, true, false, none, some, [], ◌∷◌, List, String, Option, ◌==◌, ◌&&◌, filter_by,
  if◌then◌else◌, not, is_some, is_empty, any,
}
use brokerplatform.Db.Context.{AuthorizationContext}
use brokerplatform.Db.Ordering.{order_ascending}
use brokerplatform.Db.Schema.{BusinessPrincipal, AuditAction, AuditSubject}
use brokerplatform.Businesses.Repository.{get_editable, audit_broker}
use brokerplatform.Db.Policies.People.{business_principals}
use brokerplatform.Db.Errors.{of_business, principal_not_found}

pub record PrincipalInput : Type 0 where
  pub role : String
  pub first_name : String
  pub last_name : String
  pub date_of_birth : Option String
  pub email : Option String

-- `addPrincipal`
unfoldable pub add_principal_work : ℕ → ℕ → PrincipalInput → Tx ℕ
unfolding get_editable
add_principal_work broker business input = do
  get_editable business
  id ← random_uuid
  t ← now
  insert business_principals (record {
    id = id;
    broker_business_id = business;
    role = input.role;
    first_name = input.first_name;
    last_name = input.last_name;
    date_of_birth = input.date_of_birth;
    broker_profile_id = none;
    email = input.email;
    removed_at = none;
    created_at = t;
  })
  audit_broker broker AuditAction.business_principal_added AuditSubject.business_principal id
  pure id

unfoldable pub add_principal : AuthorizationContext → ℕ → ℕ → PrincipalInput → Call ℕ
unfolding add_principal_work
add_principal ctx broker business input =
    with_authorization_context ctx (add_principal_work broker business input)

-- `listPrincipals`
unfoldable pub list_principals : AuthorizationContext → ℕ → Call (List BusinessPrincipal)
unfolding order_ascending
list_principals ctx business = with_authorization_context ctx do
  rows ←
      select business_principals
        (λ p. p.broker_business_id == business && not (is_some p.removed_at))
  pure (order_ascending (λ p. p.created_at) rows)

-- A member of the patch of `updatePrincipal`. A key that `PRINCIPAL_UPDATABLE_FIELDS` lacks is
-- `unknown`; `in` also finds the members of `Object.prototype`, which no DTO has.
pub data PrincipalChange : Type 0 where
  role first_name last_name date_of_birth email : Option String → PrincipalChange
  unknown : String → PrincipalChange

-- A null for a column that is NOT NULL.
abbrev pub is_null_principal : PrincipalChange → Bool
is_null_principal (PrincipalChange.role none) = true
is_null_principal (PrincipalChange.first_name none) = true
is_null_principal (PrincipalChange.last_name none) = true
is_null_principal other = false

-- `key in PRINCIPAL_UPDATABLE_FIELDS`
abbrev pub is_updatable_principal : PrincipalChange → Bool
is_updatable_principal (PrincipalChange.unknown key) = false
is_updatable_principal other = true

-- One assignment of the SET clause. A null role or name does not get here.
unfoldable pub assign_principal_one : PrincipalChange → BusinessPrincipal → BusinessPrincipal
assign_principal_one (PrincipalChange.role none) p = p
assign_principal_one (PrincipalChange.role (some s)) p = record p { role = s }
assign_principal_one (PrincipalChange.first_name none) p = p
assign_principal_one (PrincipalChange.first_name (some s)) p = record p { first_name = s }
assign_principal_one (PrincipalChange.last_name none) p = p
assign_principal_one (PrincipalChange.last_name (some s)) p = record p { last_name = s }
assign_principal_one (PrincipalChange.date_of_birth s) p = record p { date_of_birth = s }
assign_principal_one (PrincipalChange.email s) p = record p { email = s }
assign_principal_one (PrincipalChange.unknown s) p = p

unfoldable pub assign_principal : List PrincipalChange → BusinessPrincipal → BusinessPrincipal
unfolding assign_principal_one
assign_principal [] p = p
assign_principal (c ∷ changes) p = assign_principal changes (assign_principal_one c p)

-- The condition of the two updates: the principal is of the business and was not removed.
abbrev pub is_principal_of : ℕ → ℕ → BusinessPrincipal → Bool
is_principal_of business id p =
    p.id == id && p.broker_business_id == business && not (is_some p.removed_at)

unfoldable pub update_principal_work : ℕ → ℕ → ℕ → List PrincipalChange → Tx (Unit {0})
unfolding get_editable assign_principal
update_principal_work broker business id changes = do
  get_editable business
  refuse_null business_principals (is_principal_of business id) (any is_null_principal changes)
  rows ← update business_principals (is_principal_of business id) (assign_principal changes)
  throw_if (is_empty rows) (of_business (principal_not_found id))
  audit_broker broker AuditAction.business_principal_updated AuditSubject.business_principal id

-- `updatePrincipal`
unfoldable pub update_principal :
    AuthorizationContext → ℕ → ℕ → ℕ → List PrincipalChange → Call (Unit {0})
unfolding update_principal_work
update_principal ctx broker business id patch ambient db =
    let changes = filter_by is_updatable_principal patch in
    if is_empty changes
    then (ok tt, db)
    else with_authorization_context ctx (update_principal_work broker business id changes) ambient
        db

-- `removePrincipal`
unfoldable pub remove_principal_work : ℕ → ℕ → ℕ → Tx (Unit {0})
unfolding get_editable
remove_principal_work broker business id = do
  get_editable business
  t ← now
  rows ←
      update business_principals (is_principal_of business id)
        (λ p. record p { removed_at = some t })
  throw_if (is_empty rows) (of_business (principal_not_found id))
  audit_broker broker AuditAction.business_principal_removed AuditSubject.business_principal id

unfoldable pub remove_principal : AuthorizationContext → ℕ → ℕ → ℕ → Call (Unit {0})
unfolding remove_principal_work
remove_principal ctx broker business id =
    with_authorization_context ctx (remove_principal_work broker business id)
