-- ===== src/Accreditation/Reads.antt =====
-- The lists of accreditation.repository.ts.
use brokerplatform.Prelude.{List, ℕ, ◌&&◌, ◌==◌}
use brokerplatform.Db.Context.{AuthorizationContext}
use brokerplatform.Db.Schema.{Accreditation}
use brokerplatform.Db.Policies.Lifecycle.{accreditations}
use brokerplatform.Db.Transaction.{◌>>=◌, pure, select, Call, with_authorization_context}
use brokerplatform.Db.Ordering.{order_descending}

-- `listForBrokerAndLender`
unfoldable pub list_for_broker_and_lender : AuthorizationContext → ℕ → ℕ → Call (List Accreditation)
unfolding order_descending
list_for_broker_and_lender ctx lender broker = with_authorization_context ctx do
  rows ←
      select accreditations
        (λ a. a.lender_client_organisation_id == lender && a.broker_profile_id == broker)
  pure (order_descending (λ a. a.requested_at) rows)

-- `listMine`
unfoldable pub list_mine : AuthorizationContext → ℕ → Call (List Accreditation)
unfolding order_descending
list_mine ctx broker = with_authorization_context ctx do
  rows ← select accreditations (λ a. a.broker_profile_id == broker)
  pure (order_descending (λ a. a.requested_at) rows)
