-- ===== src/Notifications/Mandatory.antt =====
-- On the mandatory categories of notification-templates.ts, in `setPreference` and
-- `createNotification`.
use brokerplatform.Prelude.{
  false, true, ℕ, ◌≡◌, refl, Bool, not, List, [], ◌∷◌, ◌&&◌, ◌||◌, ◌==◌, all, first, filter_by,
  update_where, arith, ◌∙◌, All-map, All, if◌then◌else◌, all-eq-true,
}
use brokerplatform.Db.Context.{AuthorizationContext, ActorType}
use brokerplatform.Db.Schema.{NotificationCategory, NotificationPreference, RecipientType, Db}
use brokerplatform.Db.Policies.Logs.{
  notification_preferences, category_index, same_category, same_recipient_type,
}
use brokerplatform.Db.Transaction.{World, Ambient, ok, insert, upsert}
use brokerplatform.Db.Inversion.{throw_if_elim, now_elim, settle}
use brokerplatform.Notifications.Templates.{is_mandatory}
use brokerplatform.Notifications.Repository.{
  NotificationRequest, Dispatch, create_notification, set_preference, enabled_of, is_preference_of,
}
use brokerplatform.Notifications.Effects.{create_notification_inv}

abbrev mandatory_index : ℕ → Bool
mandatory_index n = n == 3 || n == 4 || n == 5 || n == 8

is_mandatory_by_index :
    (c : NotificationCategory) → is_mandatory c ≡ mandatory_index (category_index c)
unfolding is_mandatory
is_mandatory_by_index c = ground arith

same_category-mandatory :
    (a b : NotificationCategory) → same_category a b ≡ true → is_mandatory a ≡ is_mandatory b
same_category-mandatory a b h =
    let left = is_mandatory_by_index a in let right = is_mandatory_by_index b in ground arith

-- The preference is no refusal of a mandatory category.
unfoldable pub keeps_mandatory : NotificationPreference → Bool
keeps_mandatory p = p.enabled || not (is_mandatory p.category)

abbrev pub AllMandatory : Db → Type 0
AllMandatory db = all keeps_mandatory db.notification_preferences ≡ true

abbrev with_choice : Bool → ℕ → NotificationPreference → NotificationPreference
with_choice enabled t p = record p { enabled = enabled; updated_at = t }

update_preferences-mandatory :
    (r : NotificationPreference) (enabled : Bool) (t : ℕ) (ps : List NotificationPreference)
    → (enabled || not (is_mandatory r.category)) ≡ true
    → all keeps_mandatory ps ≡ true
    → all keeps_mandatory
        (update_where (notification_preferences.conflicts r) (with_choice enabled t) ps)
      ≡ true
unfolding keeps_mandatory
update_preferences-mandatory r enabled t [] may h = refl
update_preferences-mandatory r enabled t (p ∷ ps) may h =
    let same = same_category-mandatory r.category p.category in
    let rest = update_preferences-mandatory r enabled t ps may (ground arith) in ground arith

upsert-mandatory :
    (r : NotificationPreference) (enabled : Bool) (t : ℕ) (w : World) {u : Unit {0}} {w' : World}
    → upsert notification_preferences r (with_choice enabled t) w ≡ ok (u, w')
    → r.enabled ≡ enabled
    → (enabled || not (is_mandatory r.category)) ≡ true
    → AllMandatory w.db
    → AllMandatory w'.db
unfolding upsert insert keeps_mandatory
upsert-mandatory r enabled t w h same may before =
    let changed =
      update_preferences-mandatory r enabled t w.db.notification_preferences may before in
    ground arith

-- `setPreference`, whoever calls it and whether it returns or throws, leaves no preference that
-- switches a mandatory category off, if there was none before.
pub set_preference-mandatory :
    (ctx : AuthorizationContext) (type : RecipientType) (id : ℕ) (c : NotificationCategory)
    (enabled : Bool) (ambient : Ambient) (db : Db)
    → AllMandatory db
    → AllMandatory (set_preference ctx type id c enabled ambient db).1
unfolding set_preference
set_preference-mandatory ctx type id c enabled ambient db before =
    settle AllMandatory ctx _ ambient db before (λ u w h. throw_if_elim _ _ _ h λ may h1.
      now_elim _ _ h1 λ h2. upsert-mandatory _ enabled ambient.now _ h2 refl (ground arith) before)

first_enabled :
    (q : NotificationPreference → Bool) (ps : List NotificationPreference)
    → All (λ p. q p ≡ true → p.enabled ≡ true) ps
    → enabled_of (first (filter_by q ps)) ≡ true
first_enabled q [] h = refl
first_enabled q (p ∷ ps) h = choose (q p) h.0 (first_enabled q ps h.1)
  where
    choose :
        (b : Bool)
        → (b ≡ true → p.enabled ≡ true)
        → enabled_of (first (filter_by q ps)) ≡ true
        → enabled_of (first (if b then p ∷ filter_by q ps else filter_by q ps)) ≡ true
    choose true on rest = on refl
    choose false on rest = rest

last_of_four : (a b c d : Bool) → (a && ((b && c) && d)) ≡ true → d ≡ true
last_of_four a b c d h = ground arith

enabled_of_mandatory :
    (enabled mandatory wanted : Bool)
    → (enabled || not mandatory) ≡ true
    → mandatory ≡ wanted
    → wanted ≡ true
    → enabled ≡ true
enabled_of_mandatory enabled mandatory wanted h same must = ground arith

first_preference :
    (type : RecipientType) (id : ℕ) (c : NotificationCategory)
    (visible : NotificationPreference → Bool) (ps : List NotificationPreference)
    → is_mandatory c ≡ true
    → all keeps_mandatory ps ≡ true
    → enabled_of (first (filter_by (λ p. visible p && is_preference_of type id c p) ps)) ≡ true
unfolding keeps_mandatory
first_preference type id c visible ps must h = first_enabled _ ps (
    All-map _ _ ps
      (λ p kept chosen.
        enabled_of_mandatory _ _ _ kept
          (same_category-mandatory p.category c (
            last_of_four (visible p) (same_recipient_type p.actor_type type) (p.actor_id == id)
              (same_category p.category c) chosen))
          must)
      (all-eq-true keeps_mandatory ps h))

-- A notification of a mandatory category that was created is to be sent, whatever the recipient
-- chose, if no preference switches a mandatory category off.
pub create_notification-mandatory :
    (ctx : AuthorizationContext) (r : NotificationRequest) (w : World) {d : Dispatch} {w' : World}
    → AllMandatory w.db
    → is_mandatory r.category ≡ true
    → create_notification ctx r w ≡ ok (d, w')
    → d.should_send ≡ true
create_notification-mandatory ctx r w before must h =
    (create_notification_inv ctx r w h).1
    ∙ first_preference r.recipient_type r.recipient_id r.category
        (λ p.
          notification_preferences.visible (record w.session { actor_type = ActorType.system }) w.db
            p)
        w.db.notification_preferences must before
