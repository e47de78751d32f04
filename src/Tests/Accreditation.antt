-- ===== src/Tests/Accreditation.antt =====
-- The theorems on accreditations, on the sample database.
use brokerplatform.Prelude.{◌≡◌, refl, true, none, some, [], ◌∷◌, map, ℕ}
use brokerplatform.Db.Context.{as_client_user, as_broker}
use brokerplatform.Db.Schema.{AccreditationStatus, Db, AuditAction}
use brokerplatform.Accreditation.Operations.{Operation, Event, run, run_all}
use brokerplatform.Accreditation.Steps.{run-Change}
use brokerplatform.Accreditation.Invariant.{Consistent, run_all-Consistent}
use brokerplatform.Accreditation.Terminal.{has_declined, declined-stays}
use brokerplatform.Accreditation.Isolation.{of_others, client_user-isolated}
use brokerplatform.Accreditation.Transitions.{Change}
use brokerplatform.Brokers.Replay.{
  reconstruct_as_of-own, states_returned, state_of, is_chronological,
}
use brokerplatform.Brokers.Reconstruction.{reconstruct_as_of, status_by_action}
use brokerplatform.Tests.Sample.{at_time, requested_db, declined_db, application}
use brokerplatform.Db.Policies.Lifecycle.{accreditations_conflict}
use brokerplatform.Accreditation.History.{recorded_status, latest_status}
use brokerplatform.Accreditation.Decisions.{
  approve, decline, set_accreditation, read_deadline_days, insert_decision, audit,
}
use brokerplatform.Db.Transaction.{World, ◌>>=◌, update, begin, insert, ok}
use brokerplatform.Notifications.Repository.{Dispatch, create_notification}
use brokerplatform.Accreditation.Guards.{get_accreditation_or_throw, assert_can_decide}
use brokerplatform.Accreditation.Outcomes.{Decided, to_declined, to_pending}
use brokerplatform.Accreditation.Authority.{decline-authorised, approve-authorised}
use brokerplatform.Accreditation.Training.{issue_platform_broker_id}

requested_db-Consistent : Consistent requested_db
unfolding accreditations_conflict recorded_status latest_status status_by_action
requested_db-Consistent = record { free = refl; accounted = (refl, tt) }

declined_db-Consistent : Consistent declined_db
unfolding accreditations_conflict recorded_status latest_status status_by_action
declined_db-Consistent = record { free = refl; accounted = (refl, tt) }

-- An approval by the reviewer, and an activation a day later.
abbrev approval : Event
approval = record {
  operation = Operation.accept 40 none;
  actor = as_client_user 2 10;
  ambient = at_time 200;
}

abbrev activation : Event
activation = record {
  operation = Operation.activate 40;
  actor = as_client_user 2 10;
  ambient = at_time 90000;
}

run-Change_example :
    Change
      (as_client_user 2 10)
      requested_db
      (run (Operation.accept 40 none) (as_client_user 2 10) (at_time 200) requested_db)
run-Change_example =
    run-Change (Operation.accept 40 none) (as_client_user 2 10) (at_time 200) requested_db
      requested_db-Consistent.free

run_all-Consistent_example : Consistent (run_all (approval ∷ activation ∷ []) requested_db)
run_all-Consistent_example =
    run_all-Consistent (approval ∷ activation ∷ []) requested_db requested_db-Consistent

declined-stays_example :
    has_declined 40 (run_all (approval ∷ activation ∷ []) declined_db).accreditations ≡ true
unfolding has_declined
declined-stays_example =
    declined-stays (approval ∷ activation ∷ []) 40 declined_db declined_db-Consistent refl

client_user-isolated_example :
    of_others 11
      (run
        (Operation.accept 40 none)
        (as_client_user 3 11)
        (at_time 200)
        requested_db).accreditations
    ≡ of_others 11 requested_db.accreditations
client_user-isolated_example =
    client_user-isolated (Operation.accept 40 none) 3 11 (at_time 200) requested_db
      requested_db-Consistent.free

reconstruct_as_of-own_example :
    states_returned (reconstruct_as_of (as_broker 1) 1 150 (at_time 300) requested_db).0
    ≡ some (state_of (application AccreditationStatus.requested) ∷ [])
unfolding is_chronological
reconstruct_as_of-own_example =
    reconstruct_as_of-own 1 150 (at_time 300) requested_db requested_db-Consistent refl refl

-- The application is active after the approval and the activation.
activated :
    map (λ a. a.status) (run_all (approval ∷ activation ∷ []) requested_db).accreditations
    ≡ AccreditationStatus.active ∷ []
unfolding run_all run ◌>>=◌ get_accreditation_or_throw assert_can_decide read_deadline_days
    set_accreditation update insert_decision insert audit create_notification
    issue_platform_broker_id
activated = refl

-- The database after the approval, and after a refusal.
abbrev approved_db : Db
approved_db = (approve (as_client_user 2 10) 40 none (at_time 200) requested_db).1

abbrev refused_db : Db
refused_db = (decline (as_client_user 2 10) 40 "no" (at_time 200) requested_db).1

abbrev dispatch : Dispatch
dispatch = record { id = 1000; recipient_email = "broker@example.com"; should_send = true }

approves :
    approve (as_client_user 2 10) 40 none (at_time 200) requested_db ≡ (ok dispatch, approved_db)
unfolding approve ◌>>=◌ get_accreditation_or_throw assert_can_decide read_deadline_days
    set_accreditation update insert_decision insert audit create_notification
approves = refl

declines :
    decline (as_client_user 2 10) 40 "no" (at_time 200) requested_db ≡ (ok dispatch, refused_db)
unfolding decline ◌>>=◌ get_accreditation_or_throw assert_can_decide set_accreditation update
    insert_decision insert audit create_notification
declines = refl

approve-authorised_example :
    (w : World) × (approved_db ≡ w.db)
    × (days : ℕ) × (decided : Decided 40
        (to_pending days)
        (as_client_user 2 10)
        AuditAction.accreditation_approved
        (begin (as_client_user 2 10) (at_time 200) requested_db)
        w)
    × (read_deadline_days decided.acted.before.ruleset_version_id
          (begin (as_client_user 2 10) (at_time 200) requested_db)
        ≡ ok (days, begin (as_client_user 2 10) (at_time 200) requested_db))
approve-authorised_example =
    approve-authorised (as_client_user 2 10) 40 none (at_time 200) requested_db approves

decline-authorised_example :
    (w : World) × (refused_db ≡ w.db)
    × Decided 40 to_declined
        (as_client_user 2 10)
        AuditAction.accreditation_declined
        (begin (as_client_user 2 10) (at_time 200) requested_db)
        w
decline-authorised_example =
    decline-authorised (as_client_user 2 10) 40 "no" (at_time 200) requested_db declines
