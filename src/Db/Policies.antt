-- ===== src/Db/Policies.antt =====
-- The row-level security policies and the unique indexes that the migrations leave in force, one
-- `Table` for each table that the repositories use.
pub mod Lifecycle
pub mod People
pub mod Logs
pub mod Sessions
use brokerplatform.Prelude.{
  ℕ, Bool, true, false, Option, none, some, List, ◌&&◌, ◌||◌, ◌==◌, not, any, is_some, some_eq,
}
use brokerplatform.Db.Context.{Session, is_broker, is_client_user}
use brokerplatform.Db.Schema.{
  AccreditationStatus, Relationship, RelationshipType, RelationshipStatus, RulesetVersionStatus, Db,
}

-- A table: where its rows stand, who may see, insert and update a row, and which two rows break a
-- primary key or a unique index.
pub record Table (R : Type 0) : Type 0 where
  pub rows : Db → List R
  pub put : List R → Db → Db
  pub visible : Session → Db → R → Bool
  pub insertable : Session → Db → R → Bool
  pub updatable : Session → Db → R → Bool
  pub conflicts : R → R → Bool

-- The broker branch of a policy: `app.actor_type = 'broker'` and the row is the actor's own.
abbrev pub acts_as_broker : Session → ℕ → Bool
acts_as_broker s id = is_broker s.actor_type && some_eq s.actor_id id

-- The client branch of a policy: the row belongs to the actor's organisation.
abbrev pub acts_for : Session → ℕ → Bool
acts_for s org = is_client_user s.actor_type && some_eq s.client_organisation_id org

abbrev pub is_declined : AccreditationStatus → Bool
is_declined AccreditationStatus.declined = true
is_declined other = false

abbrev pub is_active : RelationshipStatus → Bool
is_active RelationshipStatus.active = true
is_active other = false

abbrev pub is_lender_panel : RelationshipType → Bool
is_lender_panel RelationshipType.lender_panel = true
is_lender_panel other = false

abbrev pub is_aggregator_membership : RelationshipType → Bool
is_aggregator_membership RelationshipType.aggregator_membership = true
is_aggregator_membership other = false

-- `type IN ('lender_panel', 'aggregator_membership')`
abbrev pub shares_profile : RelationshipType → Bool
shares_profile t = is_lender_panel t || is_aggregator_membership t

-- A relationship under which data is shared now: `status = 'active' AND effective_to IS NULL`.
abbrev pub is_current : Relationship → Bool
is_current r = is_active r.status && not (is_some r.effective_to)

-- `has_active_relationship(broker, organisation, types)`, run with the definer's rights.
unfoldable pub has_active_relationship :
    (RelationshipType → Bool) → List Relationship → ℕ → Option ℕ → Bool
has_active_relationship allowed rs b org =
    any
      (λ r.
        r.broker_profile_id == b
        && some_eq org r.client_organisation_id
        && is_current r
        && allowed r.type)
      rs

abbrev pub any_type : RelationshipType → Bool
any_type t = true

-- The client branch of the policies on broker data.
abbrev pub linked_to : Session → Db → ℕ → Bool
linked_to s db b =
    is_client_user s.actor_type
    && has_active_relationship shares_profile db.relationships b s.client_organisation_id

-- The client and the broker branch of the tables that hang from an accreditation.
abbrev pub party_to : Session → Db → ℕ → Bool
party_to s db id =
    any
      (λ a.
        a.id == id
        && (acts_for s a.lender_client_organisation_id || acts_as_broker s a.broker_profile_id))
      db.accreditations

abbrev pub lender_of : Session → Db → ℕ → Bool
lender_of s db id =
    any (λ a. a.id == id && acts_for s a.lender_client_organisation_id) db.accreditations

-- Two NULL values are not equal in a unique index.
abbrev pub both_eq : Option ℕ → Option ℕ → Bool
both_eq none o = false
both_eq (some a) o = some_eq o a
