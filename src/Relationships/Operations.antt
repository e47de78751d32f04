-- ===== src/Relationships/Operations.antt =====
-- The functions of the relationships module that change the database, as one type.
use brokerplatform.Prelude.{ℕ, Option, String}
use brokerplatform.Db.Context.{AuthorizationContext}
use brokerplatform.Db.Schema.{Db, RelationshipType}
use brokerplatform.Db.Transaction.{Ambient}
use brokerplatform.Relationships.Repository.{
  request_relationship, invite_broker, accept_invitation, decline_invitation, revoke_relationship,
  end_relationship,
}

pub data RelationshipOperation : Type 0 where
  consent : ℕ → ℕ → RelationshipType → String → RelationshipOperation
  invite : ℕ → String → RelationshipType → RelationshipOperation
  join : ℕ → ℕ → String → RelationshipOperation
  turn_down : ℕ → ℕ → RelationshipOperation
  revoke : ℕ → ℕ → Option String → RelationshipOperation
  finish : ℕ → ℕ → ℕ → String → RelationshipOperation

module _ (to_lower : String → String) where
  -- The database after an operation, whether it returned or threw.
  unfoldable pub run_relationship : RelationshipOperation → AuthorizationContext → Ambient → Db → Db
  unfolding request_relationship invite_broker accept_invitation decline_invitation
      revoke_relationship end_relationship
  run_relationship (RelationshipOperation.consent broker organisation type version) ctx t db =
      (request_relationship ctx broker organisation type version t db).1
  run_relationship (RelationshipOperation.invite organisation email type) ctx t db =
      (invite_broker to_lower ctx organisation email type t db).1
  run_relationship (RelationshipOperation.join broker id version) ctx t db =
      (accept_invitation ctx broker id version t db).1
  run_relationship (RelationshipOperation.turn_down broker id) ctx t db =
      (decline_invitation ctx broker id t db).1
  run_relationship (RelationshipOperation.revoke broker id reason) ctx t db =
      (revoke_relationship ctx broker id reason t db).1
  run_relationship (RelationshipOperation.finish user organisation id reason) ctx t db =
      (end_relationship ctx user organisation id reason t db).1
