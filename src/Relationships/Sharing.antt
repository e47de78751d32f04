-- ===== src/Relationships/Sharing.antt =====
-- On `revokeRelationship` (relationships.repository.ts) and `has_active_relationship` (migration
-- 0021).
use brokerplatform.Prelude.{
  ℕ, ◌≡◌, refl, Bool, true, false, not, Option, some, List, [], ◌∷◌, String, ◌&&◌, ◌==◌, any, All,
  All-map, first, filter_by, update_where, conflict_free, hit_of_found, arith, some_eq,
  if◌then◌else◌, ap, ◌∙◌,
}
use brokerplatform.Db.Context.{AuthorizationContext, session_of, ActorType, as_broker}
use brokerplatform.Db.Schema.{Relationship, RelationshipStatus, RelationshipType, Db, AuditAction}
use brokerplatform.Db.Policies.{has_active_relationship, is_active, is_current}
use brokerplatform.Db.Policies.Lifecycle.{relationships, relationships_conflict}
use brokerplatform.Db.Transaction.{World, ok, seen, reached, Ambient, begin}
use brokerplatform.Db.Inversion.{
  or_throw_elim, throw_if_elim, select_elim, returned_inv, reader_elim, now_elim, update_elim,
}
use brokerplatform.Relationships.Repository.{
  get_own_relationship, to_stopped, revoke_relationship_work, revoke_relationship,
  audit_relationship,
}
use brokerplatform.Relationships.Billing.{audit_relationship_inv, get_own_relationship_inv}
use brokerplatform.Db.Keys

differ-id : (a b : Relationship) → relationships_conflict a b ≡ false → (a.id == b.id) ≡ false
unfolding relationships_conflict
differ-id a b h = ground arith

get_own_found :
    (broker id : ℕ) (allowed : RelationshipStatus → Bool) (attempted : String) (w : World)
    {r : Relationship} {w' : World}
    → get_own_relationship broker id allowed attempted w ≡ ok (r, w')
    → first (seen relationships w.session w.db (λ x. x.id == id && x.broker_profile_id == broker))
      ≡ some r
unfolding get_own_relationship
get_own_found broker id allowed attempted w h =
    select_elim relationships _ _ w h
      λ h1. or_throw_elim _ _ w h1 λ r found h2. throw_if_elim _ _ w h2 λ live h3. ground arith

-- The rows that an UPDATE by id reaches.
abbrev reached_by_id : AuthorizationContext → Db → ℕ → Relationship → Bool
reached_by_id ctx db id = reached relationships (session_of ctx) db (λ r. r.id == id)

abbrev own_of : ℕ → ℕ → Relationship → Bool
own_of broker id r = r.id == id && r.broker_profile_id == broker

-- Of a row that its party found, the UPDATE by id reaches all rows with the id.
reached_when_id :
    (ctx : AuthorizationContext) (db : Db) (id : ℕ) (p : Relationship → Bool) {r : Relationship}
    → ((a : Relationship) → p a ≡ true → (reached_by_id ctx db id a ≡ true) × ((a.id == id) ≡ true))
    → conflict_free relationships_conflict db.relationships ≡ true
    → first (filter_by p db.relationships) ≡ some r
    → All (λ a. reached_by_id ctx db id a ≡ (id == a.id)) db.relationships
reached_when_id ctx db id p {r} sub free found =
    All-map _ _ db.relationships
      (λ a e.
        let selected : (a.id == id) ≡ true
            → any (λ c. c.id == a.id) (filter_by (reached_by_id ctx db id) db.relationships)
              ≡ true =
          λ same.
            hit_of_found p (reached_by_id ctx db id) (λ c. c.id == a.id) db.relationships {b = r}
              (λ c s. let (hit, k) = sub c s in (hit, ground arith)) found in
        ground arith)
      (Keys.hit_iff_id (λ a. a.id) relationships_conflict differ-id (reached_by_id ctx db id)
        db.relationships free)

-- The test of `has_active_relationship` on one row.
abbrev shares : (RelationshipType → Bool) → ℕ → Option ℕ → Relationship → Bool
shares allowed broker organisation r =
    r.broker_profile_id == broker
    && some_eq organisation r.client_organisation_id
    && is_current r
    && allowed r.type

abbrev pub others_than : ℕ → List Relationship → List Relationship
others_than id rows = filter_by (λ a. not (id == a.id)) rows

-- A stopped row shares nothing, so the rest of the list decides.
stopped_row-sharing :
    (b : Bool) (id : ℕ) (s : RelationshipStatus) (t : ℕ) (reason : Option String)
    (allowed : RelationshipType → Bool) (broker : ℕ) (organisation : Option ℕ) (a : Relationship)
    (more others : List Relationship)
    → is_active s ≡ false
    → b ≡ (id == a.id)
    → any (shares allowed broker organisation) more
      ≡ any (shares allowed broker organisation) others
    → any (shares allowed broker organisation) ((if b then to_stopped s t reason a else a) ∷ more)
      ≡ any (shares allowed broker organisation) (if not (id == a.id) then a ∷ others else others)
stopped_row-sharing true id s t reason allowed broker organisation a more others off e rest =
    ground arith
stopped_row-sharing false id s t reason allowed broker organisation a more others off e rest =
    ground arith

-- To stop the rows with an id leaves the sharing that the other rows give.
stopped-sharing :
    (hit : Relationship → Bool) (id : ℕ) (s : RelationshipStatus) (t : ℕ) (reason : Option String)
    (allowed : RelationshipType → Bool) (broker : ℕ) (organisation : Option ℕ)
    (rows : List Relationship)
    → is_active s ≡ false
    → All (λ a. hit a ≡ (id == a.id)) rows
    → has_active_relationship allowed
        (update_where hit (to_stopped s t reason) rows)
        broker
        organisation
      ≡ has_active_relationship allowed (others_than id rows) broker organisation
unfolding has_active_relationship
stopped-sharing hit id s t reason allowed broker organisation [] off h = refl
stopped-sharing hit id s t reason allowed broker organisation (a ∷ rows) off h =
    stopped_row-sharing (hit a) id s t reason allowed broker organisation a _ _ off h.0
      (stopped-sharing hit id s t reason allowed broker organisation rows off h.1)

audit_keeps_relationships :
    (type : ActorType) (actor : Option ℕ) (action : AuditAction) (id organisation : ℕ) (w : World)
    {u : Unit {0}} {w' : World}
    → audit_relationship type actor action id organisation w ≡ ok (u, w')
    → w'.db.relationships ≡ w.db.relationships
audit_keeps_relationships type actor action id organisation w h =
    ap (λ x. x.db.relationships) (audit_relationship_inv type actor action id organisation w h)

revoke_effect :
    (broker id : ℕ) (reason : Option String) (ambient : Ambient) (db : Db) {u : Unit {0}}
    {w' : World}
    → revoke_relationship_work broker id reason (begin (as_broker broker) ambient db) ≡ ok (u, w')
    → (r : Relationship) × (first (
          filter_by
            (λ a. relationships.visible (session_of (as_broker broker)) db a && own_of broker id a)
            db.relationships)
        ≡ some r)
      × (w'.db.relationships
          ≡ update_where
              (reached_by_id (as_broker broker) db id)
              (to_stopped RelationshipStatus.revoked ambient.now reason)
              db.relationships)
unfolding revoke_relationship_work
revoke_effect broker id reason ambient db h =
    reader_elim _ _ _ h (λ r w1 e. get_own_relationship_inv _ _ _ _ _ e)
      λ r got h1. now_elim _ _ h1 λ h2.
        update_elim relationships _ _ _ _ h2 λ free h3.
          (r, get_own_found broker id _ _ _ got, audit_keeps_relationships _ _ _ id _ _ h3)

-- After a broker has revoked a relationship, data of theirs is shared with an organisation exactly
-- when one of their other relationships with it gives that: the revoked one gives nothing more.
pub revoke-sharing :
    (broker id : ℕ) (reason : Option String) (ambient : Ambient) (db : Db) {db' : Db}
    (allowed : RelationshipType → Bool) (organisation : Option ℕ)
    → conflict_free relationships_conflict db.relationships ≡ true
    → revoke_relationship (as_broker broker) broker id reason ambient db ≡ (ok tt, db')
    → has_active_relationship allowed db'.relationships broker organisation
      ≡ has_active_relationship allowed (others_than id db.relationships) broker organisation
unfolding revoke_relationship
revoke-sharing broker id reason ambient db allowed organisation free h =
    let (w, done, same) =
      returned_inv (as_broker broker) (revoke_relationship_work broker id reason) ambient db h in
    let (r, found, rows) = revoke_effect broker id reason ambient db done in
    ap (λ d. has_active_relationship allowed d.relationships broker organisation) same
    ∙ ap (λ rs. has_active_relationship allowed rs broker organisation) rows
    ∙ stopped-sharing _ id RelationshipStatus.revoked ambient.now reason allowed broker organisation
        db.relationships refl
        (reached_when_id (as_broker broker) db id
          (λ a. relationships.visible (session_of (as_broker broker)) db a && own_of broker id a)
          {r = r} (λ a s. (ground arith, ground arith)) free found)
