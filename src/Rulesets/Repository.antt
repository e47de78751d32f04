-- ===== src/Rulesets/Repository.antt =====
-- src/modules/rulesets/rulesets.repository.ts.
use brokerplatform.Prelude.{
  ℕ, List, Bool, some, Option, if◌then◌else◌, String, true, ltb, [], ◌∷◌, false, none, ◌==◌, ◌&&◌,
  not, first, ◌+◌,
}
use brokerplatform.Db.Schema.{
  RulesetKey, RulesetVersion, RulesetVersionStatus, AuditAction, AuditSubject,
}
use brokerplatform.Db.Context.{AuthorizationContext, ActorType, actor_id_of}
use brokerplatform.Db.Transaction.{
  ◌>>=◌, ◌>>◌, random_uuid, now, insert, update, select, throw_if, or_throw,
  with_authorization_context, Tx, Call, pure, throw,
}
use brokerplatform.Audit.{record_audit_event}
use brokerplatform.Db.Policies.Lifecycle.{same_key, ruleset_versions, is_published}
use brokerplatform.Db.Errors.{DefinitionFault, RulesetError, of_ruleset, invalid_definition}
use brokerplatform.Json.{Json}
use brokerplatform.Rulesets.Validation.{validate_ruleset_definition}
use brokerplatform.Db.Ordering.{order_descending}

abbrev pub greater : ℕ → ℕ → ℕ
greater a b = if ltb a b then b else a

-- `COALESCE(MAX(version_number), 0)`
abbrev pub last_version : List RulesetVersion → ℕ
last_version [] = 0
last_version (v ∷ vs) = greater v.version_number (last_version vs)

abbrev pub has_key : RulesetKey → RulesetVersion → Bool
has_key key v = same_key v.key key

-- The audit entry of the two functions, whose actor type is written as platform_admin whoever acts.
unfoldable pub audit_ruleset : AuthorizationContext → AuditAction → ℕ → RulesetKey → Tx (Unit {0})
unfolding record_audit_event
audit_ruleset ctx action id key = record_audit_event (record {
  actor_type = ActorType.platform_admin;
  actor_id = actor_id_of ctx;
  action = action;
  subject_type = AuditSubject.ruleset_version;
  subject_id = id;
  client_organisation_id = some key.client_organisation_id;
})

-- `createDraft`. The next number is read under the policies of the actor.
unfoldable pub create_draft_work : AuthorizationContext → RulesetKey → String → Json → Tx ℕ
unfolding audit_ruleset
create_draft_work ctx key label definition = do
  versions ← select ruleset_versions (has_key key)
  id ← random_uuid
  t ← now
  insert ruleset_versions (record {
    id = id;
    key = key;
    version_number = last_version versions + 1;
    label = label;
    status = RulesetVersionStatus.draft;
    definition = definition;
    superseded_by = none;
    published_at = none;
    created_at = t;
  })
  audit_ruleset ctx AuditAction.ruleset_created id key
  pure id

unfoldable pub create_draft : AuthorizationContext → RulesetKey → String → Json → Call ℕ
unfolding with_authorization_context create_draft_work
create_draft ctx key label definition =
    with_authorization_context ctx (create_draft_work ctx key label definition)

abbrev pub is_draft : RulesetVersionStatus → Bool
is_draft RulesetVersionStatus.draft = true
is_draft other = false

abbrev pub fault_error : Option DefinitionFault → Tx (Unit {0})
fault_error none = pure tt
fault_error (some f) = throw (of_ruleset (invalid_definition f))

abbrev pub supersede : ℕ → RulesetVersion → RulesetVersion
supersede id v = record v { status = RulesetVersionStatus.superseded; superseded_by = some id }

-- `publish`: the published version of the key is superseded first, so that the unique index on
-- published versions never sees two.
unfoldable pub publish_work : AuthorizationContext → ℕ → Tx (Unit {0})
unfolding audit_ruleset
publish_work ctx id = do
  rows ← select ruleset_versions (λ v. v.id == id)
  version ← or_throw (first rows) (of_ruleset (RulesetError.not_found id))
  throw_if (not (is_draft version.status))
      (of_ruleset (RulesetError.invalid_transition version.status))
  fault_error (validate_ruleset_definition version.definition)
  update ruleset_versions (λ v. has_key version.key v && is_published v.status) (supersede id)
  t ← now
  update ruleset_versions (λ v. v.id == id)
      (λ v. record v { status = RulesetVersionStatus.published; published_at = some t })
  audit_ruleset ctx AuditAction.ruleset_published id version.key

unfoldable pub publish : AuthorizationContext → ℕ → Call (Unit {0})
unfolding with_authorization_context publish_work
publish ctx id = with_authorization_context ctx (publish_work ctx id)

-- `resolve`: an exact match, or nothing.
unfoldable pub resolve_work : RulesetKey → Tx (Option RulesetVersion)
resolve_work key = do
  rows ← select ruleset_versions (λ v. has_key key v && is_published v.status)
  pure (first rows)

unfoldable pub resolve : AuthorizationContext → RulesetKey → Call (Option RulesetVersion)
unfolding with_authorization_context resolve_work
resolve ctx key = with_authorization_context ctx (resolve_work key)

-- `listForOrganisation`
unfoldable pub list_for_organisation : AuthorizationContext → ℕ → Call (List RulesetVersion)
unfolding order_descending
list_for_organisation ctx organisation = with_authorization_context ctx do
  rows ← select ruleset_versions (λ v. v.key.client_organisation_id == organisation)
  pure (order_descending (λ v. v.created_at) rows)

-- `getById`. It throws after its transaction, which changes nothing.
unfoldable pub get_by_id : AuthorizationContext → ℕ → Call RulesetVersion
get_by_id ctx id = with_authorization_context ctx do
  rows ← select ruleset_versions (λ v. v.id == id)
  or_throw (first rows) (of_ruleset (RulesetError.not_found id))
