-- ===== src/Db/Context.antt =====
-- src/db/authorization-context.ts: who is acting, and the session variables that the row-level
-- security policies read.
use brokerplatform.Prelude.{ℕ, Bool, true, false, Option, none, some}

pub data ActorType : Type 0 where
  broker client_user platform_admin system : ActorType

pub data AuthorizationContext : Type 0 where
  as_broker : ℕ → AuthorizationContext
  as_client_user : ℕ → ℕ → AuthorizationContext
  as_platform_admin : ℕ → AuthorizationContext
  as_system : AuthorizationContext

-- `ctx.actorType`
abbrev pub actor_type_of : AuthorizationContext → ActorType
actor_type_of (as_broker id) = broker
actor_type_of (as_client_user id org) = client_user
actor_type_of (as_platform_admin id) = platform_admin
actor_type_of as_system = system

-- `'actorId' in ctx ? ctx.actorId : undefined`
abbrev pub actor_id_of : AuthorizationContext → Option ℕ
actor_id_of (as_broker id) = some id
actor_id_of (as_client_user id org) = some id
actor_id_of (as_platform_admin id) = some id
actor_id_of as_system = none

-- `ctx.actorType === 'client_user' ? ctx.clientOrganisationId : ''`
abbrev pub organisation_of : AuthorizationContext → Option ℕ
organisation_of (as_broker id) = none
organisation_of (as_client_user id org) = some org
organisation_of (as_platform_admin id) = none
organisation_of as_system = none

-- The variables `app.actor_type`, `app.actor_id` and `app.client_organisation_id`. An empty text
-- reads as NULL in the policies, and is `none` here.
pub record Session : Type 0 where
  pub actor_type : ActorType
  pub actor_id : Option ℕ
  pub client_organisation_id : Option ℕ

-- The three calls of `set_config` that open a transaction.
abbrev pub session_of : AuthorizationContext → Session
session_of ctx = record {
  actor_type = actor_type_of ctx;
  actor_id = actor_id_of ctx;
  client_organisation_id = organisation_of ctx;
}

abbrev pub is_system : ActorType → Bool
is_system system = true
is_system other = false

-- `IN ('system', 'platform_admin')`
abbrev pub is_administrative : ActorType → Bool
is_administrative broker = false
is_administrative client_user = false
is_administrative platform_admin = true
is_administrative system = true

abbrev pub is_broker : ActorType → Bool
is_broker broker = true
is_broker other = false

abbrev pub is_client_user : ActorType → Bool
is_client_user client_user = true
is_client_user other = false
