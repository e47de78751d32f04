-- ===== src/Notifications/Repository.antt =====
-- src/modules/notifications/notification.repository.ts.
use brokerplatform.Prelude.{ℕ, Bool, true, Option, none, some, List, String, ◌&&◌, ◌==◌, not, first}
use brokerplatform.Db.Context.{ActorType, AuthorizationContext, as_system, actor_type_of}
use brokerplatform.Db.Schema.{
  BrokerProfile, ClientUser, RecipientType, Notification, NotificationCategory,
  NotificationPreference,
}
use brokerplatform.Db.Errors.{of_notification, mandatory_category, recipient_not_found}
use brokerplatform.Db.Policies.People.{broker_profiles, client_users}
use brokerplatform.Db.Policies.Logs.{
  notifications, notification_preferences, same_recipient_type, same_category,
}
use brokerplatform.Db.Transaction.{
  Tx, ◌>>=◌, ◌>>◌, pure, or_throw, throw_if, now, random_uuid, set_actor_type, select, insert,
  update, upsert, Call, with_authorization_context,
}
use brokerplatform.Notifications.Templates.{is_mandatory}

-- The `params` of `createNotification`.
pub record NotificationRequest : Type 0 where
  pub recipient_type : RecipientType
  pub recipient_id : ℕ
  pub category : NotificationCategory
  pub subject : String
  pub body : String
  pub related_record_type : Option String
  pub related_record_id : Option ℕ

pub record Dispatch : Type 0 where
  pub id : ℕ
  pub recipient_email : String
  pub should_send : Bool

abbrev pub broker_email : Option BrokerProfile → Option String
broker_email none = none
broker_email (some b) = some b.email

abbrev pub client_user_email : Option ClientUser → Option String
client_user_email none = none
client_user_email (some u) = some u.email

-- `SELECT email FROM ${recipientTable} WHERE id = $1`
unfoldable pub recipient_email : RecipientType → ℕ → Tx (Option String)
recipient_email RecipientType.broker id = do
  rows ← select broker_profiles (λ b. b.id == id)
  pure (broker_email (first rows))
recipient_email RecipientType.client_user id = do
  rows ← select client_users (λ u. u.id == id)
  pure (client_user_email (first rows))

abbrev pub enabled_of : Option NotificationPreference → Bool
enabled_of none = true
enabled_of (some p) = p.enabled

-- The row that a request becomes.
abbrev pub notification_row : ℕ → NotificationRequest → Bool → ℕ → Notification
notification_row id r enabled t = record {
  id = id;
  recipient_type = r.recipient_type;
  recipient_id = r.recipient_id;
  category = r.category;
  subject = r.subject;
  body = r.body;
  related_record_type = r.related_record_type;
  related_record_id = r.related_record_id;
  suppressed = not enabled;
  sent_at = none;
  created_at = t;
}

abbrev pub is_preference_of :
    RecipientType → ℕ → NotificationCategory → NotificationPreference → Bool
is_preference_of t id c p =
    same_recipient_type p.actor_type t && p.actor_id == id && same_category p.category c

-- `createNotification`. Where the body throws, the `finally` restores the session of a
-- transaction that is rolled back.
unfoldable pub create_notification : AuthorizationContext → NotificationRequest → Tx Dispatch
unfolding recipient_email
create_notification ctx r = do
  set_actor_type ActorType.system
  found ← recipient_email r.recipient_type r.recipient_id
  email ← or_throw found (of_notification (recipient_not_found r.recipient_type r.recipient_id))
  preferences ←
      select notification_preferences (is_preference_of r.recipient_type r.recipient_id r.category)
  let enabled = enabled_of (first preferences)
  t ← now
  id ← random_uuid
  insert notifications (notification_row id r enabled t)
  set_actor_type (actor_type_of ctx)
  pure (record { id = id; recipient_email = email; should_send = enabled })

-- `markSent`, after the transaction that created the notification.
unfoldable pub mark_sent : ℕ → Call (List Notification)
mark_sent id =
    with_authorization_context as_system
      do t ← now; update notifications (λ n. n.id == id) (λ n. record n { sent_at = some t })

-- `setPreference`
unfoldable pub set_preference :
    AuthorizationContext → RecipientType → ℕ → NotificationCategory → Bool → Call (Unit {0})
set_preference ctx t id c enabled = with_authorization_context ctx do
  throw_if (not enabled && is_mandatory c) (of_notification (mandatory_category c))
  at ← now
  upsert notification_preferences
      (record { actor_type = t; actor_id = id; category = c; enabled = enabled; updated_at = at })
      (λ p. record p { enabled = enabled; updated_at = at })
