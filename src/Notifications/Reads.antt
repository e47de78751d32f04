-- ===== src/Notifications/Reads.antt =====
-- The reads of notification.repository.ts.
use brokerplatform.Prelude.{List, ℕ, ◌&&◌, ◌==◌}
use brokerplatform.Db.Context.{AuthorizationContext}
use brokerplatform.Db.Schema.{Notification, NotificationPreference, RecipientType}
use brokerplatform.Db.Policies.Logs.{notifications, notification_preferences, same_recipient_type}
use brokerplatform.Db.Transaction.{◌>>=◌, pure, select, Call, with_authorization_context}
use brokerplatform.Db.Ordering.{order_descending}

-- `listMine`
unfoldable pub list_notifications :
    AuthorizationContext → RecipientType → ℕ → Call (List Notification)
unfolding order_descending
list_notifications ctx type id = with_authorization_context ctx do
  rows ←
      select notifications (λ n. same_recipient_type n.recipient_type type && n.recipient_id == id)
  pure (order_descending (λ n. n.created_at) rows)

-- `getPreferences`
unfoldable pub get_preferences :
    AuthorizationContext → RecipientType → ℕ → Call (List NotificationPreference)
get_preferences ctx type id = with_authorization_context ctx (
    select notification_preferences
      (λ p. same_recipient_type p.actor_type type && p.actor_id == id))
