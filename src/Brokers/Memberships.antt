-- ===== src/Brokers/Memberships.antt =====
-- brokers.repository.ts: the association memberships of a profile.
use brokerplatform.Db.Transaction.{
  ◌>>=◌, ◌>>◌, Tx, random_uuid, delete, Call, update, pure, now, with_authorization_context, insert,
  select, throw_if, refuse_null,
}
use brokerplatform.Prelude.{
  ℕ, Bool, true, false, none, some, List, String, Option, not, is_some, ◌&&◌, ◌==◌, is_empty, ◌||◌,
}
use brokerplatform.Brokers.Profiles.{get_editable_profile}
use brokerplatform.Db.Ordering.{order_ascending}
use brokerplatform.Db.Context.{AuthorizationContext}
use brokerplatform.Db.Policies.People.{association_memberships}
use brokerplatform.Db.Schema.{AssociationMembership, AuditAction, AuditSubject}
use brokerplatform.Businesses.Repository.{audit_broker}
use brokerplatform.Db.Errors.{of_broker, membership_not_found}

-- `createAssociationMembership`. A new membership is 'unconfirmed'.
unfoldable pub create_association_membership_work : ℕ → String → String → Tx ℕ
unfolding get_editable_profile
create_association_membership_work broker association number = do
  get_editable_profile broker
  id ← random_uuid
  t ← now
  insert association_memberships (record {
    id = id;
    broker_profile_id = broker;
    association_name = association;
    membership_number = number;
    status = "unconfirmed";
    confirmed_by_association = false;
    created_at = t;
  })
  audit_broker broker AuditAction.association_membership_added AuditSubject.association_membership
      id
  pure id

unfoldable pub create_association_membership : AuthorizationContext → ℕ → String → String → Call ℕ
unfolding create_association_membership_work
create_association_membership ctx broker association number =
    with_authorization_context ctx (create_association_membership_work broker association number)

-- `listAssociationMemberships`
unfoldable pub list_association_memberships :
    AuthorizationContext → ℕ → Call (List AssociationMembership)
unfolding order_ascending
list_association_memberships ctx broker = with_authorization_context ctx do
  rows ← select association_memberships (λ m. m.broker_profile_id == broker)
  pure (order_ascending (λ m. m.created_at) rows)

-- The patch of `updateAssociationMembership`: a key is absent (undefined), or has a value, which may
-- be null.
pub record MembershipPatch : Type 0 where
  pub association_name : Option (Option String)
  pub membership_number : Option (Option String)

-- The column after its clause. A null does not get here.
abbrev pub or_old : Option (Option String) → String → String
or_old none old = old
or_old (some none) old = old
or_old (some (some s)) old = s

-- A null for a column that is NOT NULL.
abbrev pub writes_null : Option (Option String) → Bool
writes_null none = false
writes_null (some none) = true
writes_null (some (some s)) = false

-- `setClauses.length === 0`
abbrev pub changes_nothing : MembershipPatch → Bool
changes_nothing p = not (is_some p.association_name) && not (is_some p.membership_number)

-- What follows the clauses, if there is one.
unfoldable pub write_membership : ℕ → ℕ → MembershipPatch → Tx (Unit {0})
write_membership broker id p = do
  refuse_null association_memberships (λ m. m.id == id && m.broker_profile_id == broker)
      (writes_null p.association_name || writes_null p.membership_number)
  rows ←
      update association_memberships (λ m. m.id == id && m.broker_profile_id == broker)
        (λ m. record m {
          association_name = or_old p.association_name m.association_name;
          membership_number = or_old p.membership_number m.membership_number;
        })
  throw_if (is_empty rows) (of_broker (membership_not_found id))
  audit_broker broker AuditAction.association_membership_updated AuditSubject.association_membership
      id

abbrev pub write_unless : Bool → ℕ → ℕ → MembershipPatch → Tx (Unit {0})
write_unless true broker id p = pure tt
write_unless false broker id p = write_membership broker id p

-- `updateAssociationMembership`
unfoldable pub update_association_membership_work : ℕ → ℕ → MembershipPatch → Tx (Unit {0})
unfolding get_editable_profile write_membership
update_association_membership_work broker id p = do
  get_editable_profile broker
  write_unless (changes_nothing p) broker id p

unfoldable pub update_association_membership :
    AuthorizationContext → ℕ → ℕ → MembershipPatch → Call (Unit {0})
unfolding update_association_membership_work
update_association_membership ctx broker id p =
    with_authorization_context ctx (update_association_membership_work broker id p)

-- `deleteAssociationMembership`
unfoldable pub delete_association_membership_work : ℕ → ℕ → Tx (Unit {0})
unfolding get_editable_profile
delete_association_membership_work broker id = do
  get_editable_profile broker
  rows ← delete association_memberships (λ m. m.id == id && m.broker_profile_id == broker)
  throw_if (is_empty rows) (of_broker (membership_not_found id))
  audit_broker broker AuditAction.association_membership_removed AuditSubject.association_membership
      id

unfoldable pub delete_association_membership : AuthorizationContext → ℕ → ℕ → Call (Unit {0})
unfolding delete_association_membership_work
delete_association_membership ctx broker id =
    with_authorization_context ctx (delete_association_membership_work broker id)
