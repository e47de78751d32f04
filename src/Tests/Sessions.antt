-- ===== src/Tests/Sessions.antt =====
-- Sessions, passwords and secrets on the sample database.
use brokerplatform.Prelude.{◌≡◌, refl, true, false, none, some, List, [], ◌∷◌, ◌+◌, ◌*◌, ltb}
use brokerplatform.Identity.Sessions.{
  rotate_refresh_token, RotatedRefreshToken, RefreshTokenMeta, is_live, replace_session,
}
use brokerplatform.Db.Schema.{RefreshToken, Db, PasswordActorType}
use brokerplatform.Identity.Operations.{SessionOperation, run_sessions}
use brokerplatform.Db.Transaction.{
  Ambient, ok, err, ◌>>=◌, with_authorization_context, insert, update,
}
use brokerplatform.Tests.Accounts.{node}
use brokerplatform.Identity.Rotation.{found_by, tokens_unique, rotate_refresh_token-reuse}
use brokerplatform.Tests.Sample.{requested_db, at_time}
use brokerplatform.Identity.Replacement.{IsReplaced, rotate_refresh_token-replaces}
use brokerplatform.Db.Errors.{of_identity, IdentityError}
use brokerplatform.Identity.Revocation.{SignedOut, IsSpent}
use brokerplatform.Identity.SignOut.{rotate_refresh_token-once}
use brokerplatform.Identity.Crypto.{hash_opaque_token}

-- A session of the sample broker, by the raw token "t".
abbrev session : RefreshToken
session = record {
  id = 50;
  actor_type = PasswordActorType.broker;
  actor_id = 1;
  token_hash = "ab";
  issued_at = 100;
  expires_at = 900;
  revoked_at = none;
  replaced_by = none;
  user_agent = none;
  ip_address = none;
}

abbrev browser : RefreshTokenMeta
browser = record { user_agent = some "browser"; ip_address = none }

abbrev signed_in_db : Db
signed_in_db = record requested_db { refresh_tokens = session ∷ [] }

abbrev new_token : RotatedRefreshToken
new_token = record {
  actor_type = PasswordActorType.broker;
  actor_id = 1;
  raw_token = node.to_base64url (32 ∷ 0 ∷ 200 ∷ []);
  expires_at = 200 + 30 * 24 * 60 * 60;
}

abbrev rotated_db : Db
rotated_db = (rotate_refresh_token node "t" browser (at_time 200) signed_in_db).1

rotates :
    rotate_refresh_token node "t" browser (at_time 200) signed_in_db
    ≡ (ok (some new_token), rotated_db)
unfolding rotate_refresh_token with_authorization_context ◌>>=◌ replace_session insert update
rotates = refl

rotate_refresh_token-replaces_example :
    (row : RefreshToken) × (found_by node "t" signed_in_db ≡ some row)
    × (is_live row ≡ true)
    × (ltb row.expires_at 200 ≡ false)
    × IsReplaced node row new_token rotated_db
rotate_refresh_token-replaces_example =
    rotate_refresh_token-replaces node "t" browser (at_time 200) signed_in_db rotates

rotate_refresh_token-reuse_example :
    ((rotate_refresh_token node "t" browser (at_time 300) rotated_db).0
      ≡ err (of_identity IdentityError.refresh_token_reuse_detected))
    × ((row : RefreshToken) × (found_by node "t" rotated_db ≡ some row)
        × SignedOut row.actor_type row.actor_id
            (rotate_refresh_token node "t" browser (at_time 300) rotated_db).1)
unfolding rotate_refresh_token with_authorization_context ◌>>=◌ replace_session insert update
rotate_refresh_token-reuse_example =
    rotate_refresh_token-reuse node "t" browser (at_time 300) rotated_db unique spent
  where
    unique : tokens_unique rotated_db ≡ true
    unique = refl

    spent : IsSpent (hash_opaque_token node "t") rotated_db
    spent = refl

-- The broker signs in once more before the old token comes back.
abbrev meanwhile : List (SessionOperation × Ambient)
meanwhile = (SessionOperation.issue PasswordActorType.broker 1 browser, at_time 250) ∷ []

rotate_refresh_token-once_example :
    (rotate_refresh_token node "t" browser (at_time 300) (run_sessions node meanwhile rotated_db)).0
    ≡ err (of_identity IdentityError.refresh_token_reuse_detected)
unfolding run_sessions with_authorization_context ◌>>=◌ insert replace_session update
rotate_refresh_token-once_example =
    rotate_refresh_token-once node "t" browser browser (at_time 200) (at_time 300) meanwhile
      signed_in_db rotates unique
  where
    unique : tokens_unique (run_sessions node meanwhile rotated_db) ≡ true
    unique = refl
