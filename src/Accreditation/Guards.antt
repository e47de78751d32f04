-- ===== src/Accreditation/Guards.antt =====
-- The checks that the functions of accreditation.repository.ts make before they write.
use brokerplatform.Prelude.{
  ℕ, Bool, true, false, Option, none, some, String, ◌||◌, ◌==◌, not, first, if◌then◌else◌,
}
use brokerplatform.Db.Context.{
  AuthorizationContext, as_client_user, as_broker, as_platform_admin, as_system, actor_type_of,
  is_client_user, is_system,
}
use brokerplatform.Db.Schema.{
  Accreditation, AccreditationStatus, DecisionStep, ClientUser, ClientUserRole,
}
use brokerplatform.Db.Errors.{AccreditationError, of_accreditation, insufficient_role}
use brokerplatform.Db.Policies.{is_declined}
use brokerplatform.Db.Policies.Lifecycle.{accreditations}
use brokerplatform.Db.Policies.People.{client_users}
use brokerplatform.Db.Transaction.{Tx, ◌>>=◌, pure, throw, or_throw, throw_if, select}

-- `getAccreditationOrThrow`
unfoldable pub get_accreditation_or_throw : ℕ → Tx Accreditation
get_accreditation_or_throw id = do
  rows ← select accreditations (λ a. a.id == id)
  or_throw (first rows) (of_accreditation (AccreditationError.not_found id))

-- `assertNotTerminal`
abbrev pub assert_not_terminal : Accreditation → String → Tx (Unit {0})
assert_not_terminal a attempted =
    throw_if (is_declined a.status)
      (of_accreditation (AccreditationError.invalid_transition a.status attempted))

-- `ctx.actorType === 'client_user' || ctx.actorType === 'system'`
abbrev pub may_act : AuthorizationContext → Bool
may_act ctx = is_client_user (actor_type_of ctx) || is_system (actor_type_of ctx)

-- `assertClientUserOrSystem`. It stands before the transaction: a throw there changes nothing, as
-- a throw inside.
abbrev pub assert_client_user_or_system : AuthorizationContext → Tx (Unit {0})
assert_client_user_or_system ctx = throw_if (not (may_act ctx)) (
    of_accreditation
      (insufficient_role "only a client organisation user may act on an accreditation"))

abbrev pub role_of : Option ClientUser → Option ClientUserRole
role_of none = none
role_of (some u) = some u.role

-- `getClientUserRole`
unfoldable pub get_client_user_role : ℕ → Tx (Option ClientUserRole)
get_client_user_role id = do
  rows ← select client_users (λ u. u.id == id)
  pure (role_of (first rows))

abbrev pub is_senior : Option ClientUserRole → Bool
is_senior (some ClientUserRole.senior_approver) = true
is_senior other = false

abbrev pub is_senior_step : DecisionStep → Bool
is_senior_step DecisionStep.senior_approver = true
is_senior_step DecisionStep.reviewer = false

abbrev pub senior_only : AccreditationError
senior_only = insufficient_role "only a senior_approver may act at this decision step"

-- The role check of `assertCanDecide` at the senior step, by who is acting.
unfoldable pub assert_senior : AuthorizationContext → Tx (Unit {0})
unfolding get_client_user_role
assert_senior (as_client_user id org) = do
  role ← get_client_user_role id
  throw_if (not (is_senior role)) (of_accreditation senior_only)
assert_senior (as_broker id) = throw (of_accreditation senior_only)
assert_senior (as_platform_admin id) = throw (of_accreditation senior_only)
assert_senior as_system = throw (of_accreditation senior_only)

-- `assertCanDecide`
unfoldable pub assert_can_decide : AuthorizationContext → Accreditation → Tx (Unit {0})
unfolding assert_senior
assert_can_decide ctx a =
    if is_senior_step a.current_decision_step then assert_senior ctx else pure tt

-- `status === 'requested' || status === 'exception_escalated'`
abbrev pub awaits_decision : AccreditationStatus → Bool
awaits_decision AccreditationStatus.requested = true
awaits_decision AccreditationStatus.exception_escalated = true
awaits_decision other = false
