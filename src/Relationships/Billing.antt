-- ===== src/Relationships/Billing.antt =====
-- On the consents and the `broker_linked` events of relationships.repository.ts.
use brokerplatform.Prelude.{
  none, some, ℕ, ◌≡◌, Bool, true, false, Option, some, List, [], ◌∷◌, arith, if◌then◌else◌, String,
  refl, subst, sym,
}
use brokerplatform.Db.Context.{ActorType, AuthorizationContext, as_system}
use brokerplatform.Db.Schema.{
  AuditAction, AuditEntry, AuditSubject, MeteringEvent, MeteringEventType, Db, RelationshipType,
  RelationshipStatus, Relationship,
}
use brokerplatform.Db.Policies.Logs.{audit_log, metering_events}
use brokerplatform.Db.Transaction.{World, ok, Ambient, Result, with_authorization_context, err}
use brokerplatform.Db.Inversion.{
  bind_elim, now_elim, insert_inv, reader_elim, select_elim, random_uuid_elim, update_elim,
  insert_elim, or_throw_elim, throw_if_elim, settle,
}
use brokerplatform.Audit.{record_audit_event}
use brokerplatform.Metering.{record_metering_event}
use brokerplatform.Relationships.Repository.{
  audit_relationship, get_own_relationship, find_broker_work, invite_broker_work,
  decline_invitation_work, revoke_relationship_work, request_relationship_work,
  accept_invitation_work, end_relationship_work, request_relationship, invite_broker, invite_next,
  accept_invitation, decline_invitation, revoke_relationship, end_relationship,
}
use brokerplatform.Relationships.Operations.{run_relationship, RelationshipOperation}
use brokerplatform.Db.Policies.Lifecycle.{relationships}
use brokerplatform.Db.Policies.People.{broker_profiles}

abbrev is_consent : AuditAction → Bool
is_consent AuditAction.relationship_consented = true
is_consent other = false

abbrev is_link : MeteringEventType → Bool
is_link MeteringEventType.broker_linked = true
is_link other = false

-- The consents in the audit log: to which organisation, by which broker.
unfoldable pub consents_of : List AuditEntry → List (Option ℕ × Option ℕ)
consents_of [] = []
consents_of (e ∷ es) =
    if is_consent e.action
    then (e.client_organisation_id, e.actor_id) ∷ consents_of es
    else consents_of es

-- The links that are billed: for which organisation, of which broker.
unfoldable pub links_of : List MeteringEvent → List (Option ℕ × Option ℕ)
links_of [] = []
links_of (e ∷ es) =
    if is_link e.event_type
    then (some e.client_organisation_id, some e.broker_profile_id) ∷ links_of es
    else links_of es

abbrev pub IsBilled : Db → Type 0
IsBilled db = consents_of db.audit_log ≡ links_of db.metering_events

abbrev pub relationship_entry : ActorType → Option ℕ → AuditAction → ℕ → ℕ → ℕ → AuditEntry
relationship_entry type actor action id organisation t = record {
  occurred_at = t;
  actor_type = type;
  actor_id = actor;
  action = action;
  subject_type = AuditSubject.relationship;
  subject_id = id;
  client_organisation_id = some organisation;
}

pub audit_relationship_inv :
    (type : ActorType) (actor : Option ℕ) (action : AuditAction) (id organisation : ℕ) (w : World)
    {u : Unit {0}} {w' : World}
    → audit_relationship type actor action id organisation w ≡ ok (u, w')
    → w' ≡ record w {
      db = record w.db {
        audit_log =
            relationship_entry type actor action id organisation w.ambient.now ∷ w.db.audit_log;
      };
    }
unfolding record_audit_event
audit_relationship_inv type actor action id organisation w h =
    now_elim _ w h λ h'. (insert_inv audit_log _ w h').2

-- The audit entry of a consent and its billing event, written one after the other.
consent-IsBilled :
    (broker id organisation : ℕ) (w : World) {u v : Unit {0}} {w1 w2 : World}
    → audit_relationship ActorType.broker
        (some broker)
        AuditAction.relationship_consented
        id
        organisation
        w
      ≡ ok (u, w1)
    → record_metering_event organisation broker MeteringEventType.broker_linked w1 ≡ ok (v, w2)
    → IsBilled w.db
    → IsBilled w2.db
unfolding record_metering_event consents_of links_of
consent-IsBilled broker id organisation w {w1} p q billed =
    let e = audit_relationship_inv _ _ _ id organisation w p in
    let m = (insert_inv metering_events _ w1 q).2 in ground arith

-- An entry that is no consent leaves the consents as they are.
other-IsBilled :
    (type : ActorType) (actor : Option ℕ) (action : AuditAction) (id organisation : ℕ) (w : World)
    {u : Unit {0}} {w1 : World}
    → is_consent action ≡ false
    → audit_relationship type actor action id organisation w ≡ ok (u, w1)
    → IsBilled w.db
    → IsBilled w1.db
unfolding consents_of links_of
other-IsBilled type actor action id organisation w other p billed =
    let e = audit_relationship_inv type actor action id organisation w p in ground arith

pub get_own_relationship_inv :
    (broker id : ℕ) (allowed : RelationshipStatus → Bool) (attempted : String) (w : World)
    {r : Relationship} {w' : World}
    → get_own_relationship broker id allowed attempted w ≡ ok (r, w')
    → w' ≡ w
unfolding get_own_relationship
get_own_relationship_inv broker id allowed attempted w h =
    select_elim relationships _ _ w h
      λ h1. or_throw_elim _ _ w h1 λ r found h2. throw_if_elim _ _ w h2 λ live h3. ground arith

request-IsBilled :
    (broker organisation : ℕ) (type : RelationshipType) (version : String) (w : World) {id : ℕ}
    {w' : World}
    → request_relationship_work broker organisation type version w ≡ ok (id, w')
    → IsBilled w.db
    → IsBilled w'.db
unfolding request_relationship_work
request-IsBilled broker organisation type version w h billed = now_elim _ w h λ h1.
    random_uuid_elim _ w h1 λ h2. insert_elim relationships _ _ h2 λ may fresh h3.
      bind_elim _ _ _ h3 λ u w1 p h4.
        bind_elim _ _ w1 h4 λ v w2 q h5.
          let done = consent-IsBilled broker _ organisation _ p q billed in ground arith

accept-IsBilled :
    (broker id : ℕ) (version : String) (w : World) {u : Unit {0}} {w' : World}
    → accept_invitation_work broker id version w ≡ ok (u, w')
    → IsBilled w.db
    → IsBilled w'.db
unfolding accept_invitation_work
accept-IsBilled broker id version w h billed =
    reader_elim _ _ w h (λ r w1 e. get_own_relationship_inv _ _ _ _ w e)
      λ r got h1. now_elim _ w h1 λ h2.
        update_elim relationships _ _ _ w h2
          λ free h3. bind_elim _ _ _ h3 λ u w1 p q. consent-IsBilled broker id _ _ p q billed

invite-IsBilled :
    (ctx : AuthorizationContext) (broker organisation : ℕ) (type : RelationshipType) (w : World)
    {id : ℕ} {w' : World}
    → invite_broker_work ctx broker organisation type w ≡ ok (id, w')
    → IsBilled w.db
    → IsBilled w'.db
unfolding invite_broker_work
invite-IsBilled ctx broker organisation type w h billed = now_elim _ w h λ h1.
    random_uuid_elim _ w h1 λ h2. insert_elim relationships _ _ h2 λ may fresh h3.
      bind_elim _ _ _ h3 λ u w1 p h4.
        let done =
          other-IsBilled _ _ AuditAction.relationship_invited _ organisation _ refl p billed in
        ground arith

turn_down-IsBilled :
    (broker id : ℕ) (w : World) {u : Unit {0}} {w' : World}
    → decline_invitation_work broker id w ≡ ok (u, w')
    → IsBilled w.db
    → IsBilled w'.db
unfolding decline_invitation_work
turn_down-IsBilled broker id w h billed =
    reader_elim _ _ w h (λ r w1 e. get_own_relationship_inv _ _ _ _ w e)
      λ r got h1.
        update_elim relationships _ _ _ w h1
          λ free h2. other-IsBilled _ _ AuditAction.relationship_declined id _ _ refl h2 billed

revoke-IsBilled :
    (broker id : ℕ) (reason : Option String) (w : World) {u : Unit {0}} {w' : World}
    → revoke_relationship_work broker id reason w ≡ ok (u, w')
    → IsBilled w.db
    → IsBilled w'.db
unfolding revoke_relationship_work
revoke-IsBilled broker id reason w h billed =
    reader_elim _ _ w h (λ r w1 e. get_own_relationship_inv _ _ _ _ w e)
      λ r got h1. now_elim _ w h1 λ h2.
        update_elim relationships _ _ _ w h2
          λ free h3. other-IsBilled _ _ AuditAction.relationship_revoked id _ _ refl h3 billed

finish-IsBilled :
    (user organisation id : ℕ) (reason : String) (w : World) {u : Unit {0}} {w' : World}
    → end_relationship_work user organisation id reason w ≡ ok (u, w')
    → IsBilled w.db
    → IsBilled w'.db
unfolding end_relationship_work
finish-IsBilled user organisation id reason w h billed = select_elim relationships _ _ w h λ h1.
    or_throw_elim _ _ w h1 λ r found h2. throw_if_elim _ _ w h2 λ live h3. now_elim _ w h3 λ h4.
      update_elim relationships _ _ _ w h4 λ free h5.
        other-IsBilled _ _ AuditAction.relationship_ended id organisation _ refl h5 billed

find_broker-keeps :
    (email : String) (ambient : Ambient) (db : Db)
    → (with_authorization_context as_system (find_broker_work email) ambient db).1 ≡ db
unfolding find_broker_work
find_broker-keeps email ambient db =
    settle (λ d. d ≡ db) as_system (find_broker_work email) ambient db refl
      (λ o w h. select_elim broker_profiles _ _ _ h λ h1. ground arith)

next-IsBilled :
    (ctx : AuthorizationContext) (email : String) (organisation : ℕ) (type : RelationshipType)
    (r : Result (Option ℕ)) (w : World) {id : ℕ} {w' : World}
    → invite_next ctx email organisation type r w ≡ ok (id, w')
    → IsBilled w.db
    → IsBilled w'.db
next-IsBilled ctx email organisation type (ok (some broker)) w h billed =
    invite-IsBilled ctx broker organisation type w h billed
next-IsBilled ctx email organisation type (ok none) w h billed = cc
next-IsBilled ctx email organisation type (err e) w h billed = cc

-- Whatever function of the module runs, and whether it returns or throws: the consents in the
-- audit log are the `broker_linked` events that are billed, each once and in the same order, if
-- they were before.
pub run_relationship-IsBilled :
    (to_lower : String → String) (op : RelationshipOperation) (ctx : AuthorizationContext)
    (ambient : Ambient) (db : Db)
    → IsBilled db
    → IsBilled (run_relationship to_lower op ctx ambient db)
unfolding run_relationship request_relationship invite_broker accept_invitation decline_invitation
    revoke_relationship end_relationship
run_relationship-IsBilled to_lower (RelationshipOperation.consent broker organisation type version)
      ctx t db h =
    settle IsBilled ctx (request_relationship_work broker organisation type version) t db h
      (λ id w e. request-IsBilled broker organisation type version _ e h)
run_relationship-IsBilled to_lower (RelationshipOperation.invite organisation email type) ctx t db
      h =
    let found = with_authorization_context as_system (find_broker_work (to_lower email)) t db in
    let h1 : IsBilled found.1 = subst IsBilled (sym (find_broker-keeps (to_lower email) t db)) h in
    settle IsBilled ctx (invite_next ctx email organisation type found.0) t found.1 h1
      (λ id w e. next-IsBilled ctx email organisation type found.0 _ e h1)
run_relationship-IsBilled to_lower (RelationshipOperation.join broker id version) ctx t db h =
    settle IsBilled ctx (accept_invitation_work broker id version) t db h
      (λ u w e. accept-IsBilled broker id version _ e h)
run_relationship-IsBilled to_lower (RelationshipOperation.turn_down broker id) ctx t db h =
    settle IsBilled ctx (decline_invitation_work broker id) t db h
      (λ u w e. turn_down-IsBilled broker id _ e h)
run_relationship-IsBilled to_lower (RelationshipOperation.revoke broker id reason) ctx t db h =
    settle IsBilled ctx (revoke_relationship_work broker id reason) t db h
      (λ u w e. revoke-IsBilled broker id reason _ e h)
run_relationship-IsBilled to_lower (RelationshipOperation.finish user organisation id reason) ctx t
      db h =
    settle IsBilled ctx (end_relationship_work user organisation id reason) t db h
      (λ u w e. finish-IsBilled user organisation id reason _ e h)
