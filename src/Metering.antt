-- ===== src/Metering.antt =====
-- src/modules/metering/metering.repository.ts. The billing period is the year and month of the
-- host's clock, which the transaction takes from outside. No caller gives a `detail`.
use brokerplatform.Prelude.{ℕ}
use brokerplatform.Db.Schema.{MeteringEventType, MeteringEvent}
use brokerplatform.Db.Policies.Logs.{metering_events}
use brokerplatform.Db.Transaction.{Tx, World, insert}

-- The event as a row at the time and in the period of the transaction.
abbrev pub metering_row : ℕ → ℕ → MeteringEventType → World → MeteringEvent
metering_row organisation broker_id event w = record {
  occurred_at = w.ambient.now;
  client_organisation_id = organisation;
  broker_profile_id = broker_id;
  event_type = event;
  billing_period = w.ambient.billing_period;
}

unfoldable pub record_metering_event : ℕ → ℕ → MeteringEventType → Tx (Unit {0})
record_metering_event organisation broker_id event w =
    insert metering_events (metering_row organisation broker_id event w) w
