-- ===== src/Notifications/Effects.antt =====
-- What `createNotification` has changed when it returned.
use brokerplatform.Prelude.{ℕ, suc, ◌≡◌, Option, ◌∷◌, first, Bool, String, arith}
use brokerplatform.Db.Context.{ActorType, AuthorizationContext, actor_type_of}
use brokerplatform.Db.Schema.{RecipientType}
use brokerplatform.Db.Policies.People.{broker_profiles, client_users}
use brokerplatform.Db.Policies.Logs.{notifications, notification_preferences}
use brokerplatform.Db.Transaction.{World, ok, seen}
use brokerplatform.Db.Inversion.{
  reader_elim, or_throw_elim, now_elim, random_uuid_elim, set_actor_type_elim, select_elim,
  insert_elim,
}
use brokerplatform.Notifications.Repository.{
  NotificationRequest, Dispatch, recipient_email, create_notification, notification_row, enabled_of,
  is_preference_of,
}

recipient_email_inv :
    (t : RecipientType) (id : ℕ) (w : World) {o : Option String} {w' : World}
    → recipient_email t id w ≡ ok (o, w')
    → w' ≡ w
unfolding recipient_email
recipient_email_inv RecipientType.broker id w h =
    select_elim broker_profiles _ _ w h λ h'. ground arith
recipient_email_inv RecipientType.client_user id w h =
    select_elim client_users _ _ w h λ h'. ground arith

-- The preference that `createNotification` reads, as system.
abbrev pub preference_read : NotificationRequest → World → Bool
preference_read r w = enabled_of (
    first (
      seen notification_preferences (record w.session { actor_type = ActorType.system }) w.db
        (is_preference_of r.recipient_type r.recipient_id r.category)))

-- The world after a notification has been created.
abbrev pub notified : AuthorizationContext → NotificationRequest → World → World
notified ctx r w = record w {
  db = record w.db {
    notifications =
        notification_row (w.ambient.uuid w.drawn) r (preference_read r w) w.ambient.now
        ∷ w.db.notifications;
  };
  session = record w.session { actor_type = actor_type_of ctx };
  drawn = suc w.drawn;
}

-- A notification that was created is one row, suppressed as the recipient's preference says, and
-- the caller's session is back.
pub create_notification_inv :
    (ctx : AuthorizationContext) (r : NotificationRequest) (w : World) {d : Dispatch} {w' : World}
    → create_notification ctx r w ≡ ok (d, w')
    → (w' ≡ notified ctx r w) × (d.should_send ≡ preference_read r w)
unfolding create_notification
create_notification_inv ctx r w h = set_actor_type_elim _ w h λ h1.
    reader_elim _ _ _ h1 (λ o w1 e. recipient_email_inv _ _ _ e)
      λ o e h2. or_throw_elim _ _ _ h2 λ email found h3.
        select_elim notification_preferences _ _ _ h3 λ h4. now_elim _ _ h4 λ h5.
          random_uuid_elim _ _ h5 λ h6.
            insert_elim notifications _ _ h6
              λ may fresh h7. set_actor_type_elim _ _ h7 λ h8. (ground arith, ground arith)
