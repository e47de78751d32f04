-- ===== src/Identity/RoundTrips.antt =====
-- Accounts and secrets of identity.repository.ts, from the function that writes them to the one that
-- reads them.
use brokerplatform.Prelude.{
  ℕ, ◌≡◌, refl, some, ◌∷◌, String, arith, str_eq_iff, any-never, first, true, str_eq, ap, filter_by,
  ◌∙◌, none,
}
use brokerplatform.Identity.Crypto.{Node, Bytes, hash_password, verify_password}
use brokerplatform.Identity.Hashes.{IsNode, verify_password-same}
use brokerplatform.Identity.Accounts.{register_broker_work, register_broker, registered_broker}
use brokerplatform.Audit.{record_audit_event}
use brokerplatform.Identity.SignIn.{authenticate_broker, try_broker}
use brokerplatform.Db.Transaction.{
  with_authorization_context, World, conclude, ok, ◌>>=◌, insert, Ambient, seen, begin,
}
use brokerplatform.Db.Schema.{Db, BrokerProfile, AuditAction, PasswordActorType, AuditSubject}
use brokerplatform.Db.Inversion.{
  random_bytes_elim, random_uuid_elim, returned_inv, insert_elim, bind_elim, now_elim, insert_inv,
}
use brokerplatform.Db.Context.{as_system, session_of, ActorType}
use brokerplatform.Db.Policies.People.{broker_profiles}
use brokerplatform.Db.Policies.Logs.{audit_log}

-- What a reader returns.
module _ (node : Node) (laws : IsNode node) where
  register_lem :
      (email password first_name last_name : String) (w : World) {id : ℕ} {w' : World}
      → register_broker_work node email password first_name last_name w ≡ ok (id, w')
      → (salt : Bytes) × (w'.db.broker_profiles
          ≡ registered_broker node w.ambient.now id
              (node.to_lower_case email)
              (hash_password node password salt)
              first_name
              last_name
            ∷ w.db.broker_profiles)
  unfolding register_broker_work record_audit_event
  register_lem email password first_name last_name w h = random_bytes_elim _ w h λ h1.
      random_uuid_elim _ _ h1 λ h2. now_elim _ _ h2 λ h0.
        insert_elim broker_profiles _ _ h0 λ may fresh h3. bind_elim _ _ _ h3 λ u w1 p h4.
          let e = now_elim _ _ p λ p1. (insert_inv audit_log _ _ p1).2 in
          (w.ambient.random_bytes 16 w.drawn, ground arith)

  attempt_runs :
      (password : String) (b : BrokerProfile) (w : World)
      → verify_password node password b.password_hash ≡ some true
      → (w' : World) × (try_broker node password (some b) w ≡ ok (some b.id, w'))
  unfolding record_audit_event insert ◌>>=◌
  attempt_runs password b w right =
      let never = any-never w.db.audit_log in
      (
        record w {
          db = record w.db {
            audit_log =
                record {
                  occurred_at = w.ambient.now;
                  actor_type = ActorType.broker;
                  actor_id = some b.id;
                  action = AuditAction.login_succeeded PasswordActorType.broker;
                  subject_type = AuditSubject.broker_profile;
                  subject_id = b.id;
                  client_organisation_id = none;
                }
                ∷ w.db.audit_log;
          };
        },
        ground arith,
      )

  -- On the database after their registration, a broker signs in with the same email and password,
  -- whatever the time.
  pub register_broker-authenticate_broker :
      (email password first_name last_name : String) (t t' : Ambient) (db : Db) {id : ℕ} {db' : Db}
      → register_broker node email password first_name last_name t db ≡ (ok id, db')
      → (authenticate_broker node email password t' db').0 ≡ ok (some id)
  unfolding register_broker authenticate_broker with_authorization_context conclude ◌>>=◌
  register_broker-authenticate_broker email password first_name last_name t t' db {id} {db'} h =
      let (w, runs, same) =
        returned_inv as_system (register_broker_work node email password first_name last_name) t db
          h in
      let (salt, rows) =
        register_lem email password first_name last_name (begin as_system t db) runs in
      let own = (str_eq_iff (node.to_lower_case email) (node.to_lower_case email)).1 refl in
      let row : BrokerProfile =
        registered_broker node t.now id (node.to_lower_case email)
          (hash_password node password salt) first_name last_name in
      let found : first (
            seen broker_profiles (session_of as_system) db'
              (λ b. str_eq b.email (node.to_lower_case email)))
          ≡ some row =
        ap
          (λ l.
            first (filter_by (λ (b : BrokerProfile). str_eq b.email (node.to_lower_case email)) l))
          (ap (λ x. x.broker_profiles) same ∙ rows)
        ∙ ground arith in
      let (w', attempt) =
        attempt_runs password row (begin as_system t' db')
          (verify_password-same node laws password salt) in
      ap (λ o. (conclude db' (try_broker node password o (begin as_system t' db'))).0) found
      ∙ ap (λ r. (conclude db' r).0) attempt
