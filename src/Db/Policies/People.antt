-- ===== src/Db/Policies/People.antt =====
-- Client users, organisations, brokers and their businesses (migrations 0007, 0013, 0019, 0021,
-- 0029, 0030).
use brokerplatform.Prelude.{
  ℕ, Bool, true, false, Option, ◌&&◌, ◌||◌, ◌==◌, any, some_eq, str_eq, is_some,
}
use brokerplatform.Db.Context.{Session, is_administrative, is_broker, is_client_user}
use brokerplatform.Db.Schema.{
  ClientUser, ClientOrganisation, BrokerProfile, BrokerBusiness, BusinessPrincipal,
  BusinessAffiliation, AffiliationStatus, AssociationMembership, Db,
}
use brokerplatform.Db.Policies.{
  Table, acts_as_broker, acts_for, is_active, is_aggregator_membership, linked_to, both_eq,
  has_active_relationship, any_type,
}

abbrev pub client_users : Table ClientUser
client_users = record {
  rows = λ db. db.client_users;
  put = λ rs db. record db { client_users = rs };
  visible = λ s db u. is_administrative s.actor_type || acts_for s u.client_organisation_id;
  insertable = λ s db u. is_administrative s.actor_type || acts_for s u.client_organisation_id;
  updatable = λ s db u. is_administrative s.actor_type || acts_for s u.client_organisation_id;
  conflicts = λ a b. a.id == b.id || str_eq a.email b.email;
}

abbrev pub broker_profiles : Table BrokerProfile
broker_profiles = record {
  rows = λ db. db.broker_profiles;
  put = λ rs db. record db { broker_profiles = rs };
  visible =
      λ s db b. is_administrative s.actor_type || acts_as_broker s b.id || linked_to s db b.id;
  insertable = λ s db b. is_administrative s.actor_type || is_broker s.actor_type;
  updatable = λ s db b. is_administrative s.actor_type || acts_as_broker s b.id;
  conflicts = λ a b.
      a.id == b.id || str_eq a.email b.email || both_eq a.platform_broker_id b.platform_broker_id;
}

abbrev pub client_organisations : Table ClientOrganisation
client_organisations = record {
  rows = λ db. db.client_organisations;
  put = λ rs db. record db { client_organisations = rs };
  visible = λ s db o.
      is_administrative s.actor_type
      || acts_for s o.id
      || any (λ r. r.client_organisation_id == o.id && acts_as_broker s r.broker_profile_id)
          db.relationships
      || is_broker s.actor_type && o.is_active && is_some o.verified_at
      || any
          (λ r.
            r.client_organisation_id == o.id
            && is_aggregator_membership r.type
            && is_active r.status
            && linked_to s db r.broker_profile_id)
          db.relationships;
  insertable = λ s db o. is_administrative s.actor_type;
  updatable = λ s db o. is_administrative s.actor_type;
  conflicts = λ a b. a.id == b.id;
}

abbrev pub is_active_affiliation : AffiliationStatus → Bool
is_active_affiliation AffiliationStatus.active = true
is_active_affiliation other = false

-- `has_active_business_affiliation(business, broker)`, run with the definer's rights.
unfoldable pub has_active_business_affiliation : Db → ℕ → Option ℕ → Bool
has_active_business_affiliation db business b =
    any
      (λ a.
        a.broker_business_id == business
        && some_eq b a.broker_profile_id
        && is_active_affiliation a.status)
      db.business_affiliations

abbrev pub colleague_of : Session → Db → ℕ → Bool
colleague_of s db business =
    is_broker s.actor_type && has_active_business_affiliation db business s.actor_id

abbrev pub business_affiliations : Table BusinessAffiliation
business_affiliations = record {
  rows = λ db. db.business_affiliations;
  put = λ rs db. record db { business_affiliations = rs };
  visible = λ s db a.
      is_administrative s.actor_type
      || acts_as_broker s a.broker_profile_id
      || colleague_of s db a.broker_business_id
      || is_active_affiliation a.status && linked_to s db a.broker_profile_id;
  insertable = λ s db a. is_administrative s.actor_type || acts_as_broker s a.broker_profile_id;
  updatable = λ s db a.
      is_administrative s.actor_type
      || acts_as_broker s a.broker_profile_id
      || colleague_of s db a.broker_business_id;
  conflicts = λ a b. a.id == b.id;
}

abbrev pub association_memberships : Table AssociationMembership
association_memberships = record {
  rows = λ db. db.association_memberships;
  put = λ rs db. record db { association_memberships = rs };
  visible = λ s db m.
      is_administrative s.actor_type
      || acts_as_broker s m.broker_profile_id
      || is_client_user s.actor_type
        && has_active_relationship any_type db.relationships m.broker_profile_id
            s.client_organisation_id;
  insertable = λ s db m. true;
  updatable = λ s db m. is_administrative s.actor_type || acts_as_broker s m.broker_profile_id;
  conflicts = λ a b. a.id == b.id;
}

-- The broker and the client branch of `broker_businesses_visibility`.
abbrev pub business_visible : Session → Db → ℕ → Bool
business_visible s db business =
    any
      (λ a.
        a.broker_business_id == business
        && is_active_affiliation a.status
        && (acts_as_broker s a.broker_profile_id || linked_to s db a.broker_profile_id))
      db.business_affiliations

-- The broker branch of the policies that write a business and its principals.
abbrev pub business_writable : Session → Db → ℕ → Bool
business_writable s db business =
    any
      (λ a.
        a.broker_business_id == business
        && is_active_affiliation a.status
        && acts_as_broker s a.broker_profile_id)
      db.business_affiliations

abbrev pub broker_businesses : Table BrokerBusiness
broker_businesses = record {
  rows = λ db. db.broker_businesses;
  put = λ rs db. record db { broker_businesses = rs };
  visible = λ s db b. is_administrative s.actor_type || business_visible s db b.id;
  insertable = λ s db b. is_administrative s.actor_type || is_broker s.actor_type;
  updatable = λ s db b. is_administrative s.actor_type || business_writable s db b.id;
  conflicts = λ a b. a.id == b.id;
}

abbrev pub business_principals : Table BusinessPrincipal
business_principals = record {
  rows = λ db. db.business_principals;
  put = λ rs db. record db { business_principals = rs };
  visible = λ s db p. is_administrative s.actor_type || business_visible s db p.broker_business_id;
  insertable =
      λ s db p. is_administrative s.actor_type || business_writable s db p.broker_business_id;
  updatable =
      λ s db p. is_administrative s.actor_type || business_writable s db p.broker_business_id;
  conflicts = λ a b. a.id == b.id;
}
