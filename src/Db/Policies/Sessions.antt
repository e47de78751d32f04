-- ===== src/Db/Policies/Sessions.antt =====
-- Platform administrators, refresh tokens, password reset tokens and the secrets of client users
-- (migrations 0009 to 0013). Only the first has row-level security.
use brokerplatform.Prelude.{true, ◌||◌, ◌==◌, str_eq}
use brokerplatform.Db.Context.{is_system, is_administrative}
use brokerplatform.Db.Schema.{PlatformAdministrator, RefreshToken, PasswordResetToken, MfaSecret}
use brokerplatform.Db.Policies.{Table}

abbrev pub platform_administrators : Table PlatformAdministrator
platform_administrators = record {
  rows = λ db. db.platform_administrators;
  put = λ rs db. record db { platform_administrators = rs };
  visible = λ s db a. is_administrative s.actor_type;
  insertable = λ s db a. is_system s.actor_type;
  updatable = λ s db a. is_system s.actor_type;
  conflicts = λ a b. a.id == b.id || str_eq a.email b.email;
}

abbrev pub refresh_tokens : Table RefreshToken
refresh_tokens = record {
  rows = λ db. db.refresh_tokens;
  put = λ rs db. record db { refresh_tokens = rs };
  visible = λ s db t. true;
  insertable = λ s db t. true;
  updatable = λ s db t. true;
  conflicts = λ a b. a.id == b.id || str_eq a.token_hash b.token_hash;
}

abbrev pub password_reset_tokens : Table PasswordResetToken
password_reset_tokens = record {
  rows = λ db. db.password_reset_tokens;
  put = λ rs db. record db { password_reset_tokens = rs };
  visible = λ s db t. true;
  insertable = λ s db t. true;
  updatable = λ s db t. true;
  conflicts = λ a b. a.id == b.id || str_eq a.token_hash b.token_hash;
}

abbrev pub client_user_mfa_secrets : Table MfaSecret
client_user_mfa_secrets = record {
  rows = λ db. db.client_user_mfa_secrets;
  put = λ rs db. record db { client_user_mfa_secrets = rs };
  visible = λ s db m. true;
  insertable = λ s db m. true;
  updatable = λ s db m. true;
  conflicts = λ a b. a.client_user_id == b.client_user_id;
}
