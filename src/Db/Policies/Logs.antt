-- ===== src/Db/Policies/Logs.antt =====
-- Evidence, check results, notifications, the audit log and metering (migrations 0005 to 0008,
-- 0020, 0021, 0026, 0027).
use brokerplatform.Prelude.{ℕ, Bool, true, false, ◌&&◌, ◌||◌, ◌==◌, any, some_eq}
use brokerplatform.Db.Context.{Session, is_system, is_administrative, is_broker, is_client_user}
use brokerplatform.Db.Schema.{
  SubjectType, Evidence, CheckResult, RecipientType, Notification, NotificationCategory,
  NotificationPreference, AuditEntry, AuditAction, AuditSubject, MeteringEvent, Db,
}
use brokerplatform.Db.Policies.{Table, acts_as_broker, linked_to}
use brokerplatform.Db.Policies.People.{is_active_affiliation}

-- The branches of `evidence_visibility` and `check_result_visibility` below the administrative
-- one: the broker or a linked organisation, directly or through an active affiliation.
unfoldable pub subject_visible : Session → Db → SubjectType → ℕ → Bool
subject_visible s db SubjectType.broker_profile id = acts_as_broker s id || linked_to s db id
subject_visible s db SubjectType.broker_business id =
    any
      (λ a.
        a.broker_business_id == id
        && is_active_affiliation a.status
        && (acts_as_broker s a.broker_profile_id || linked_to s db a.broker_profile_id))
      db.business_affiliations

abbrev pub evidence : Table Evidence
evidence = record {
  rows = λ db. db.evidence;
  put = λ rs db. record db { evidence = rs };
  visible =
      λ s db e. is_administrative s.actor_type || subject_visible s db e.subject_type e.subject_id;
  insertable = λ s db e. is_administrative s.actor_type;
  updatable = λ s db e. is_administrative s.actor_type;
  conflicts = λ a b. a.id == b.id;
}

abbrev pub check_results : Table CheckResult
check_results = record {
  rows = λ db. db.check_results;
  put = λ rs db. record db { check_results = rs };
  visible =
      λ s db c. is_administrative s.actor_type || subject_visible s db c.subject_type c.subject_id;
  insertable = λ s db c. is_administrative s.actor_type;
  updatable = λ s db c. is_administrative s.actor_type;
  conflicts = λ a b. a.id == b.id;
}

abbrev pub is_own_type : Session → RecipientType → Bool
is_own_type s RecipientType.broker = is_broker s.actor_type
is_own_type s RecipientType.client_user = is_client_user s.actor_type

abbrev pub notifications : Table Notification
notifications = record {
  rows = λ db. db.notifications;
  put = λ rs db. record db { notifications = rs };
  visible = λ s db n.
      is_administrative s.actor_type
      || is_own_type s n.recipient_type && some_eq s.actor_id n.recipient_id;
  insertable = λ s db n. is_system s.actor_type;
  updatable = λ s db n. is_system s.actor_type;
  conflicts = λ a b. a.id == b.id;
}

abbrev pub same_recipient_type : RecipientType → RecipientType → Bool
same_recipient_type RecipientType.broker RecipientType.broker = true
same_recipient_type RecipientType.client_user RecipientType.client_user = true
same_recipient_type other another = false

-- The categories numbered in the order of `NOTIFICATION_CATEGORIES`, to compare them.
abbrev pub category_index : NotificationCategory → ℕ
category_index NotificationCategory.profile_submitted = 0
category_index NotificationCategory.business_submitted = 1
category_index NotificationCategory.accreditation_queue_entry = 2
category_index NotificationCategory.accreditation_information_required = 3
category_index NotificationCategory.accreditation_approved = 4
category_index NotificationCategory.accreditation_declined = 5
category_index NotificationCategory.accreditation_activated = 6
category_index NotificationCategory.identity_verification_submitted = 7
category_index NotificationCategory.identity_verification_complete = 8
category_index NotificationCategory.identity_verification_queue_entry = 9

abbrev pub same_category : NotificationCategory → NotificationCategory → Bool
same_category a b = category_index a == category_index b

abbrev pub notification_preferences : Table NotificationPreference
notification_preferences = record {
  rows = λ db. db.notification_preferences;
  put = λ rs db. record db { notification_preferences = rs };
  visible = λ s db p. is_administrative s.actor_type || some_eq s.actor_id p.actor_id;
  insertable = λ s db p. is_system s.actor_type || some_eq s.actor_id p.actor_id;
  updatable = λ s db p. is_system s.actor_type || some_eq s.actor_id p.actor_id;
  conflicts = λ a b.
      same_recipient_type a.actor_type b.actor_type
      && a.actor_id == b.actor_id
      && same_category a.category b.category;
}

abbrev pub is_accreditation : AuditSubject → Bool
is_accreditation AuditSubject.accreditation = true
is_accreditation other = false

abbrev pub is_evidence : AuditSubject → Bool
is_evidence AuditSubject.evidence = true
is_evidence other = false

abbrev pub is_view : AuditAction → Bool
is_view AuditAction.evidence_viewed = true
is_view other = false

abbrev pub is_profile : SubjectType → Bool
is_profile SubjectType.broker_profile = true
is_profile other = false

abbrev pub is_evidence_view : AuditEntry → Bool
is_evidence_view e = is_evidence e.subject_type && is_view e.action

abbrev pub owns_evidence : Session → Db → ℕ → Bool
owns_evidence s db id =
    any (λ e. e.id == id && is_profile e.subject_type && some_eq s.actor_id e.subject_id)
      db.evidence

abbrev pub owns_accreditation : Session → Db → ℕ → Bool
owns_accreditation s db id =
    any (λ a. a.id == id && some_eq s.actor_id a.broker_profile_id) db.accreditations

-- Every actor type may write to the audit log, and nobody may change it. A broker reads the views
-- of their own evidence and the history of their own accreditations.
abbrev pub audit_log : Table AuditEntry
audit_log = record {
  rows = λ db. db.audit_log;
  put = λ rs db. record db { audit_log = rs };
  visible = λ s db e.
      is_administrative s.actor_type
      || is_broker s.actor_type
        && (is_evidence_view e && owns_evidence s db e.subject_id
            || is_accreditation e.subject_type && owns_accreditation s db e.subject_id);
  insertable = λ s db e. true;
  updatable = λ s db e. false;
  conflicts = λ a b. false;
}

-- `metering_event` has no row-level security.
abbrev pub metering_events : Table MeteringEvent
metering_events = record {
  rows = λ db. db.metering_events;
  put = λ rs db. record db { metering_events = rs };
  visible = λ s db e. true;
  insertable = λ s db e. true;
  updatable = λ s db e. false;
  conflicts = λ a b. false;
}
