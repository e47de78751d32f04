-- ===== src/Tests/Passwords.antt =====
-- Passwords, registration and the second factor on the sample database.
use brokerplatform.Audit.{record_audit_event}
use brokerplatform.Prelude.{
  ◌≡◌, refl, true, false, none, some, [], ◌∷◌, String, str_eq, map, first, List,
}
use brokerplatform.Identity.Crypto.{
  verify_password, hash_password, hash_opaque_token, timing_safe_equal, hash_backup_code,
  split_colon,
}
use brokerplatform.Identity.Mfa.{get_mfa_credential, save_mfa_enrollment, consume_backup_code}
use brokerplatform.Identity.Revocation.{SignedOut}
use brokerplatform.Db.Schema.{Db, PasswordResetToken, PasswordActorType}
use brokerplatform.Identity.Accounts.{register_broker}
use brokerplatform.Identity.Passwords.{
  redeem_password_reset_token, change_password, select_password_hash, is_redeemable,
}
use brokerplatform.Identity.Sessions.{set_client_user_active}
use brokerplatform.Identity.SignIn.{authenticate_broker}
use brokerplatform.Tests.Accounts.{node, node-IsNode}
use brokerplatform.Db.Context.{as_client_user, as_broker, as_platform_admin}
use brokerplatform.Tests.Sample.{broker, requested_db, at_time}
use brokerplatform.Identity.SignOut.{
  change_password-administrators, set_client_user_active-SignedOut,
  redeem_password_reset_token-SignedOut, change_password-SignedOut,
}
use brokerplatform.Db.Transaction.{
  begin, ok, err, with_authorization_context, ◌>>=◌, update, insert, upsert, Ambient,
}
use brokerplatform.Identity.Hashes.{verify_password-hash_password}
use brokerplatform.Identity.Operations.{run_sessions, SessionOperation}
use brokerplatform.Identity.Recovery.{save_mfa_enrollment-get_mfa_credential}
use brokerplatform.Identity.Resets.{presented, IsRedeemed}
use brokerplatform.Identity.BackupCodes.{consume_backup_code-once, MfaOperation, run_mfa_operations}
use brokerplatform.Identity.RoundTrips.{register_broker-authenticate_broker}
use brokerplatform.Db.Errors.{of_identity, IdentityError}
use brokerplatform.Identity.SingleUse.{redeem_password_reset_token-once}

-- The sample broker has the password "pw", asked for a reset token "rt" and has a session.
abbrev account_db : Db
account_db = record requested_db {
  broker_profiles = record broker { password_hash = hash_password node "pw" (7 ∷ []) } ∷ [];
  password_reset_tokens =
      record {
        id = 60;
        actor_type = PasswordActorType.broker;
        actor_id = 1;
        token_hash = "aab";
        expires_at = 900;
        used_at = none;
      }
      ∷ [];
  refresh_tokens =
      record {
        id = 50;
        actor_type = PasswordActorType.broker;
        actor_id = 1;
        token_hash = "ab";
        issued_at = 100;
        expires_at = 900;
        revoked_at = none;
        replaced_by = none;
        user_agent = none;
        ip_address = none;
      }
      ∷ [];
}

abbrev redeemed_db : Db
redeemed_db = (redeem_password_reset_token node "rt" "new" (at_time 200) account_db).1

redeems :
    redeem_password_reset_token node "rt" "new" (at_time 200) account_db ≡ (ok tt, redeemed_db)
unfolding redeem_password_reset_token with_authorization_context ◌>>=◌ update record_audit_event
    insert
redeems = refl

redeem_password_reset_token-SignedOut_example :
    (token : PasswordResetToken) × (first (presented node "rt" 200 account_db) ≡ some token)
    × (str_eq token.token_hash (hash_opaque_token node "rt") ≡ true)
    × (is_redeemable 200 token ≡ true)
    × IsRedeemed (hash_opaque_token node "rt") redeemed_db
    × SignedOut token.actor_type token.actor_id redeemed_db
redeem_password_reset_token-SignedOut_example =
    redeem_password_reset_token-SignedOut node "rt" "new" (at_time 200) account_db redeems

redeem_password_reset_token-once_example :
    (redeem_password_reset_token node "rt" "other"
      (at_time 300)
      (run_sessions node ((SessionOperation.sign_out "t", at_time 250) ∷ []) redeemed_db)).0
    ≡ err (of_identity IdentityError.invalid_reset_token)
unfolding run_sessions with_authorization_context ◌>>=◌ update record_audit_event insert
redeem_password_reset_token-once_example =
    redeem_password_reset_token-once node "rt" "new" "other" (at_time 200) (at_time 300)
      ((SessionOperation.sign_out "t", at_time 250) ∷ []) account_db redeems refl

abbrev changed_db : Db
changed_db =
    (change_password node (as_broker 1) PasswordActorType.broker 1 "pw" "new" (at_time 200)
      account_db).1

changes :
    change_password node
      (as_broker 1)
      PasswordActorType.broker
      1
      "pw"
      "new"
      (at_time 200)
      account_db
    ≡ (ok tt, changed_db)
unfolding change_password with_authorization_context ◌>>=◌ verify_password split_colon update
    record_audit_event insert
changes = refl

change_password-SignedOut_example :
    ((stored : String) × (select_password_hash PasswordActorType.broker 1
          (begin (as_broker 1) (at_time 200) account_db)
        ≡ ok (some stored, begin (as_broker 1) (at_time 200) account_db))
      × (verify_password node "pw" stored ≡ some true))
    × SignedOut PasswordActorType.broker 1 changed_db
change_password-SignedOut_example =
    change_password-SignedOut node (as_broker 1) PasswordActorType.broker 1 "pw" "new" (at_time 200)
      account_db changes

-- A platform administrator with the password "pw".
abbrev admin_db : Db
admin_db = record account_db {
  platform_administrators =
      record {
        id = 9;
        email = "admin@example.com";
        password_hash = hash_password node "pw" (7 ∷ []);
        is_active = true;
      }
      ∷ [];
}

abbrev admin_changed_db : Db
admin_changed_db =
    (change_password node (as_platform_admin 9) PasswordActorType.platform_admin 9 "pw" "new"
      (at_time 200) admin_db).1

admin_changes :
    change_password node
      (as_platform_admin 9)
      PasswordActorType.platform_admin
      9
      "pw"
      "new"
      (at_time 200)
      admin_db
    ≡ (ok tt, admin_changed_db)
unfolding change_password with_authorization_context ◌>>=◌ verify_password split_colon update
    record_audit_event insert
admin_changes = refl

change_password-administrators_example :
    (admin_changed_db.platform_administrators ≡ admin_db.platform_administrators)
    × SignedOut PasswordActorType.platform_admin 9 admin_changed_db
change_password-administrators_example =
    change_password-administrators node 9 9 "pw" "new" (at_time 200) admin_db admin_changes

abbrev deactivated_db : Db
deactivated_db =
    (set_client_user_active (as_client_user 3 10) 10 2 false (at_time 200) account_db).1

deactivates :
    set_client_user_active (as_client_user 3 10) 10 2 false (at_time 200) account_db
    ≡ (ok tt, deactivated_db)
unfolding set_client_user_active with_authorization_context ◌>>=◌ update record_audit_event insert
deactivates = refl

set_client_user_active-SignedOut_example : SignedOut PasswordActorType.client_user 2 deactivated_db
set_client_user_active-SignedOut_example =
    set_client_user_active-SignedOut (as_client_user 3 10) 10 2 (at_time 200) account_db deactivates

abbrev registered_db : Db
registered_db =
    (register_broker node "new@b.example" "pw" "Grace" "Hopper" (at_time 200) account_db).1

registers :
    register_broker node "new@b.example" "pw" "Grace" "Hopper" (at_time 200) account_db
    ≡ (ok 1001, registered_db)
unfolding register_broker with_authorization_context ◌>>=◌ insert
registers = refl

register_broker-authenticate_broker_example :
    (authenticate_broker node "new@b.example" "pw" (at_time 300) registered_db).0 ≡ ok (some 1001)
register_broker-authenticate_broker_example =
    register_broker-authenticate_broker node node-IsNode "new@b.example" "pw" "Grace" "Hopper"
      (at_time 200) (at_time 300) account_db registers

abbrev enrolled_db : Db
enrolled_db = (save_mfa_enrollment node 2 "otp" ("c1" ∷ "c22" ∷ []) (at_time 200) account_db).1

enrols :
    save_mfa_enrollment node 2 "otp" ("c1" ∷ "c22" ∷ []) (at_time 200) account_db
    ≡ (ok tt, enrolled_db)
unfolding save_mfa_enrollment with_authorization_context ◌>>=◌ upsert
enrols = refl

save_mfa_enrollment-get_mfa_credential_example :
    (get_mfa_credential node 2 (at_time 300) enrolled_db).0
    ≡ ok (
        some (record {
          secret = "otp";
          backup_codes_hash = map (hash_backup_code node) ("c1" ∷ "c22" ∷ []);
          enrolled = false;
        }))
save_mfa_enrollment-get_mfa_credential_example =
    save_mfa_enrollment-get_mfa_credential node node-IsNode 2 "otp" ("c1" ∷ "c22" ∷ [])
      (at_time 200) (at_time 300) account_db (λ key iv. refl) enrols

abbrev consumed_db : Db
consumed_db = (consume_backup_code node 2 "c1" (at_time 300) enrolled_db).1

consumes : consume_backup_code node 2 "c1" (at_time 300) enrolled_db ≡ (ok true, consumed_db)
unfolding consume_backup_code with_authorization_context ◌>>=◌ update save_mfa_enrollment upsert
consumes = refl

-- Between the two uses of the code, another one is used and the enrolment is confirmed.
abbrev since : List (MfaOperation × Ambient)
since = (MfaOperation.consume 2 "c22", at_time 320) ∷ (MfaOperation.confirm 2, at_time 340) ∷ []

consume_backup_code-once_example :
    (consume_backup_code node 2 "c1" (at_time 400) (run_mfa_operations node since consumed_db)).0
    ≡ ok false
consume_backup_code-once_example =
    consume_backup_code-once node 2 "c1" (at_time 300) (at_time 400) since enrolled_db consumes
      (refl, (refl, tt))

verify_password-hash_password_example :
    verify_password node "pw" (hash_password node "other" (7 ∷ []))
    ≡ timing_safe_equal (node.scrypt "pw" (7 ∷ [])) (node.scrypt "other" (7 ∷ []))
verify_password-hash_password_example =
    verify_password-hash_password node node-IsNode "pw" "other" (7 ∷ [])
