-- ===== src/Identity/Accounts.antt =====
-- identity.repository.ts: client organisations, client users and the registration of brokers.
-- Their ids are uuids that the database draws.
use brokerplatform.Db.Transaction.{
  ◌>>=◌, ◌>>◌, Tx, Call, with_authorization_context, select, set_actor_type, update, random_uuid,
  random_bytes, now, insert, catch_unique, pure, throw_if,
}
use brokerplatform.Prelude.{
  ℕ, none, some, List, String, Option, if◌then◌else◌, str_eq, ◌==◌, true, false, ◌&&◌, first, map,
  is_empty,
}
use brokerplatform.Audit.{record_audit_event}
use brokerplatform.Db.Schema.{
  AuditAction, ClientOrganisationType, AuditSubject, ClientOrganisation, BrokerProfile,
  ProfileStatus, ClientUserRole, ClientUser,
}
use brokerplatform.Json.{Json, member, Members, field, end}
use brokerplatform.Identity.Crypto.{Node, hash_password}
use brokerplatform.Db.Context.{
  AuthorizationContext, actor_type_of, actor_id_of, as_system, ActorType,
}
use brokerplatform.Db.Ordering.{order_ascending}
use brokerplatform.Db.Policies.People.{client_organisations, client_users, broker_profiles}
use brokerplatform.Db.Errors.{of_identity, client_user_not_found, client_user_email_taken}

-- `actorIdOf` is `actor_id_of` of the context.
abbrev pub audit_as :
    AuthorizationContext → AuditAction → AuditSubject → ℕ → Option ℕ → Tx (Unit {0})
audit_as ctx action subject id organisation = record_audit_event (record {
  actor_type = actor_type_of ctx;
  actor_id = actor_id_of ctx;
  action = action;
  subject_type = subject;
  subject_id = id;
  client_organisation_id = organisation;
})

-- `createClientOrganisation`. A new organisation is active, not verified, with no settings.
unfoldable pub create_client_organisation_work :
    AuthorizationContext → ClientOrganisationType → String → Tx ℕ
create_client_organisation_work ctx type name = do
  id ← random_uuid
  insert client_organisations (record {
    id = id;
    type = type;
    name = name;
    is_active = true;
    settings = Members.end;
    verified_at = none;
  })
  audit_as ctx AuditAction.client_organisation_created AuditSubject.client_organisation id none
  pure id

unfoldable pub create_client_organisation :
    AuthorizationContext → ClientOrganisationType → String → Call ℕ
unfolding create_client_organisation_work
create_client_organisation ctx type name =
    with_authorization_context ctx (create_client_organisation_work ctx type name)

-- `verifyClientOrganisation`
unfoldable pub verify_client_organisation_work : AuthorizationContext → ℕ → Tx (Unit {0})
verify_client_organisation_work ctx id = do
  t ← now
  update client_organisations (λ o. o.id == id) (λ o. record o { verified_at = some t })
  audit_as ctx AuditAction.client_organisation_verified AuditSubject.client_organisation id none

unfoldable pub verify_client_organisation : AuthorizationContext → ℕ → Call (Unit {0})
unfolding verify_client_organisation_work
verify_client_organisation ctx id =
    with_authorization_context ctx (verify_client_organisation_work ctx id)

pub data ClientOrganisationSettingKey : Type 0 where
  product_scopes branding : ClientOrganisationSettingKey

abbrev pub setting_text : ClientOrganisationSettingKey → String
setting_text product_scopes = "productScopes"
setting_text branding = "branding"

abbrev pub setting_updated : ClientOrganisationSettingKey → AuditAction
setting_updated product_scopes = AuditAction.client_organisation_product_scopes_updated
setting_updated branding = AuditAction.client_organisation_branding_updated

-- `jsonb_set(settings, '{key}', value, true)`
unfoldable pub set_member : String → Json → Members → Members
set_member k v Members.end = field k v end
set_member k v (Members.field j u ms) =
    let rest = set_member k v ms in if str_eq j k then field k v ms else field j u rest

-- `updateClientOrganisationSetting`: the policy lets no client user write an organisation, so the
-- statement runs as the system.
unfoldable pub update_client_organisation_setting_work :
    AuthorizationContext → ℕ → ClientOrganisationSettingKey → Json → Tx (Unit {0})
unfolding set_member
update_client_organisation_setting_work ctx id key value = do
  set_actor_type ActorType.system
  update client_organisations (λ o. o.id == id)
      (λ o. record o { settings = set_member (setting_text key) value o.settings })
  set_actor_type (actor_type_of ctx)
  audit_as ctx (setting_updated key) AuditSubject.client_organisation id none

unfoldable pub update_client_organisation_setting :
    AuthorizationContext → ℕ → ClientOrganisationSettingKey → Json → Call (Unit {0})
unfolding update_client_organisation_setting_work
update_client_organisation_setting ctx id key value =
    with_authorization_context ctx (update_client_organisation_setting_work ctx id key value)

pub record MyOrganisation : Type 0 where
  pub id : ℕ
  pub name : String
  -- `settings->'branding'`, where `none` reads as `{}`.
  pub branding : Option Json

abbrev pub my_organisation_of : ClientOrganisation → MyOrganisation
my_organisation_of o = record { id = o.id; name = o.name; branding = member "branding" o.settings }

-- `getMyOrganisation`
unfoldable pub get_my_organisation : AuthorizationContext → ℕ → Call (Option MyOrganisation)
get_my_organisation ctx id = with_authorization_context ctx do
  rows ← select client_organisations (λ o. o.id == id)
  pure (first (map my_organisation_of rows))

-- `listClientUsers`
unfoldable pub list_client_users : AuthorizationContext → ℕ → Call (List ClientUser)
unfolding order_ascending
list_client_users ctx organisation = with_authorization_context ctx do
  rows ← select client_users (λ u. u.client_organisation_id == organisation)
  pure (order_ascending (λ u. u.created_at) rows)

-- `updateClientUserRole`
unfoldable pub update_client_user_role_work :
    AuthorizationContext → ℕ → ℕ → ClientUserRole → Tx (Unit {0})
update_client_user_role_work ctx organisation user role = do
  rows ←
      update client_users (λ u. u.id == user && u.client_organisation_id == organisation)
        (λ u. record u { role = role })
  throw_if (is_empty rows) (of_identity (client_user_not_found user))
  audit_as ctx AuditAction.client_user_role_changed AuditSubject.client_user user
      (some organisation)

unfoldable pub update_client_user_role :
    AuthorizationContext → ℕ → ℕ → ClientUserRole → Call (Unit {0})
unfolding update_client_user_role_work
update_client_user_role ctx organisation user role =
    with_authorization_context ctx (update_client_user_role_work ctx organisation user role)

module _ (node : Node) where
  -- `createClientUser`
  unfoldable pub create_client_user_work :
      AuthorizationContext → ℕ → String → String → ClientUserRole → Tx ℕ
  unfolding hash_password
  create_client_user_work ctx organisation email password role = do
    salt ← random_bytes 16
    id ← random_uuid
    t ← now
    catch_unique
        (insert client_users (record {
          id = id;
          client_organisation_id = organisation;
          email = node.to_lower_case email;
          password_hash = hash_password node password salt;
          role = role;
          mfa_enrolled = false;
          is_active = true;
          created_at = t;
        }))
        (of_identity (client_user_email_taken email))
    audit_as ctx AuditAction.client_user_provisioned AuditSubject.client_user id (some organisation)
    pure id

  unfoldable pub create_client_user :
      AuthorizationContext → ℕ → String → String → ClientUserRole → Call ℕ
  unfolding create_client_user_work
  create_client_user ctx organisation email password role =
      with_authorization_context ctx (create_client_user_work ctx organisation email password role)

  abbrev pub registered_broker : ℕ → ℕ → String → String → String → String → BrokerProfile
  registered_broker t id email hash first_name last_name = record {
    id = id;
    email = email;
    password_hash = hash;
    first_name = first_name;
    last_name = last_name;
    other_names = none;
    date_of_birth = none;
    gender = none;
    phone_number = none;
    mobile_number = none;
    address = none;
    postal_address = none;
    right_to_work_status = none;
    experience_years = none;
    licence_type_held = none;
    credit_licence_number = none;
    credit_representative_number = none;
    licensing_entity_name = none;
    licensing_entity_number = none;
    photo_url = none;
    status = ProfileStatus.draft;
    attested_terms_at = none;
    platform_broker_id = none;
    updated_at = t;
  }

  -- `registerBroker`
  unfoldable pub register_broker_work : String → String → String → String → Tx ℕ
  unfolding hash_password record_audit_event
  register_broker_work email password first_name last_name = do
    salt ← random_bytes 16
    id ← random_uuid
    t ← now
    insert broker_profiles (
        registered_broker t id (node.to_lower_case email) (hash_password node password salt)
          first_name last_name)
    record_audit_event (record {
      actor_type = ActorType.broker;
      actor_id = some id;
      action = AuditAction.broker_profile_registered;
      subject_type = AuditSubject.broker_profile;
      subject_id = id;
      client_organisation_id = none;
    })
    pure id

  unfoldable pub register_broker : String → String → String → String → Call ℕ
  unfolding register_broker_work
  register_broker email password first_name last_name =
      with_authorization_context as_system
        (register_broker_work email password first_name last_name)
