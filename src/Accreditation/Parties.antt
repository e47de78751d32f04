-- ===== src/Accreditation/Parties.antt =====
-- `flagPartyChanged` (accreditation.repository.ts) and `endAffiliation`
-- (businesses.repository.ts), which calls it.
use brokerplatform.Prelude.{
  ℕ, Bool, true, false, Option, none, some, List, [], ◌∷◌, String, ◌&&◌, ◌==◌, not, first, map,
}
use brokerplatform.Db.Context.{AuthorizationContext, ActorType, actor_type_of}
use brokerplatform.Db.Schema.{
  Accreditation, AccreditationStatus, AffiliationStatus, AuditAction, AuditSubject,
}
use brokerplatform.Db.Errors.{of_business, affiliation_not_found}
use brokerplatform.Db.Policies.Lifecycle.{accreditations}
use brokerplatform.Db.Policies.People.{business_affiliations}
use brokerplatform.Db.Transaction.{
  Tx, ◌>>=◌, ◌>>◌, pure, or_throw, now, set_actor_type, update, Call, with_authorization_context,
}
use brokerplatform.Audit.{record_audit_event}
use brokerplatform.Accreditation.Decisions.{audit}

-- The loop that writes one audit entry for each row of an UPDATE.
unfoldable pub audit_each :
    AuthorizationContext → AuditAction → Option ℕ → List Accreditation → Tx (Unit {0})
audit_each ctx action lender [] = pure tt
audit_each ctx action lender (a ∷ rest) = do
  audit ctx action a.id lender
  audit_each ctx action lender rest

-- `status NOT IN ('declined', 'party_changed_pending')`
abbrev pub may_be_flagged : AccreditationStatus → Bool
may_be_flagged AccreditationStatus.declined = false
may_be_flagged AccreditationStatus.party_changed_pending = false
may_be_flagged other = true

abbrev pub is_flagged_by : ℕ → ℕ → Accreditation → Bool
is_flagged_by broker business a =
    a.broker_profile_id == broker && a.broker_business_id == business && may_be_flagged a.status

abbrev pub to_party_changed : ℕ → Accreditation → Accreditation
to_party_changed t a = record a {
  status = AccreditationStatus.party_changed_pending;
  party_changed_at = some t;
  updated_at = t;
}

-- `flagPartyChanged`
unfoldable pub flag_party_changed : AuthorizationContext → ℕ → ℕ → Tx (List ℕ)
flag_party_changed ctx broker business = do
  set_actor_type ActorType.system
  t ← now
  rows ← update accreditations (is_flagged_by broker business) (to_party_changed t)
  set_actor_type (actor_type_of ctx)
  audit_each ctx AuditAction.accreditation_party_changed none rows
  pure (map (λ a. a.id) rows)

-- `status IN ('active', 'pending_confirmation')`
abbrev pub is_ended : AffiliationStatus → Bool
is_ended AffiliationStatus.ended = true
is_ended other = false

-- `endAffiliation`
unfoldable pub end_affiliation_work : AuthorizationContext → ℕ → ℕ → Option String → Tx (List ℕ)
unfolding record_audit_event
end_affiliation_work ctx broker id reason = do
  t ← now
  rows ←
      update business_affiliations
        (λ a. a.id == id && a.broker_profile_id == broker && not (is_ended a.status))
        (λ a. record a { status = AffiliationStatus.ended; ended_at = some t; end_reason = reason })
  affiliation ← or_throw (first rows) (of_business (affiliation_not_found id))
  record_audit_event (record {
    actor_type = ActorType.broker;
    actor_id = some broker;
    action = AuditAction.business_affiliation_ended;
    subject_type = AuditSubject.business_affiliation;
    subject_id = id;
    client_organisation_id = none;
  })
  flag_party_changed ctx broker affiliation.broker_business_id

unfoldable pub end_affiliation : AuthorizationContext → ℕ → ℕ → Option String → Call (List ℕ)
unfolding with_authorization_context end_affiliation_work
end_affiliation ctx broker id reason =
    with_authorization_context ctx (end_affiliation_work ctx broker id reason)
