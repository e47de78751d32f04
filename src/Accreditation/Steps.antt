-- ===== src/Accreditation/Steps.antt =====
-- On the exported functions of accreditation.repository.ts and training.repository.ts, and
-- `endAffiliation`: each of them as a step of the abstract machine.
use brokerplatform.Prelude.{◌≡◌, sym, subst, true, conflict_free, Option}
use brokerplatform.Db.Context.{AuthorizationContext, as_system}
use brokerplatform.Db.Schema.{Db, RulesetVersion}
use brokerplatform.Db.Policies.Lifecycle.{accreditations_conflict}
use brokerplatform.Db.Transaction.{
  Ambient, Result, ok, err, with_authorization_context, Tx, World, begin,
}
use brokerplatform.Db.Inversion.{settle}
use brokerplatform.Rulesets.Repository.{resolve}
use brokerplatform.Accreditation.Requests.{
  AccreditationInput, request_accreditation, request_accreditation_work, key_of, with_resolved,
}
use brokerplatform.Accreditation.Decisions.{
  request_more_information, escalate, approve, decline, record_interview_outcome,
  request_more_information_work, escalate_work, approve_work, decline_work,
  record_interview_outcome_work,
}
use brokerplatform.Accreditation.Parties.{end_affiliation, end_affiliation_work}
use brokerplatform.Accreditation.Training.{
  confirm_training, activate_accreditation, check_training_deadlines, confirm_training_work,
  activate_accreditation_work, check_training_deadlines_work,
}
use brokerplatform.Accreditation.Operations.{Operation, run}
use brokerplatform.Accreditation.Transitions.{Change}
use brokerplatform.Accreditation.Refinement.{
  stays, Acted-Change, Arrived-Change, resolve-keeps, confirm-Change, deadlines-Change,
  leave-Change,
}
use brokerplatform.Accreditation.Laws.{
  information-Lawful, exception-Lawful, pending-Lawful, declined-Lawful, interviewed-Lawful,
  active-Lawful,
}
use brokerplatform.Accreditation.Arrivals.{request_accreditation_effect}
use brokerplatform.Accreditation.Outcomes.{
  request_more_information_effect, escalate_effect, approve_effect, decline_effect,
  record_interview_outcome_effect,
}
use brokerplatform.Accreditation.Activation.{activate_effect}

transacted :
    {A : Type 0} (ctx : AuthorizationContext) (ambient : Ambient) (db : Db) (work : Tx A)
    → ((a : A) (w : World) → work (begin ctx ambient db) ≡ ok (a, w) → Change ctx db w.db)
    → Change ctx db (with_authorization_context ctx work ambient db).1
transacted ctx ambient db work done = settle (Change ctx db) ctx work ambient db (stays ctx db) done

request-Change :
    (ctx : AuthorizationContext) (ambient : Ambient) (db : Db) (i : AccreditationInput)
    → Change ctx db (request_accreditation ctx i ambient db).1
unfolding request_accreditation
request-Change ctx ambient db i =
    after (resolve as_system (key_of i) ambient db).0 (resolve as_system (key_of i) ambient db).1
      (resolve-keeps (key_of i) ambient db)
  where
    after :
        (r : Result (Option RulesetVersion)) (db1 : Db)
        → db1 ≡ db
        → Change ctx db
            (with_resolved
              (r, db1)
              (λ resolved.
                with_authorization_context ctx
                  (request_accreditation_work ctx i resolved)
                  ambient)).1
    after (ok v) db1 e =
        subst
          (λ d.
            Change ctx db
              (with_authorization_context ctx (request_accreditation_work ctx i v) ambient d).1)
          (sym e)
          (transacted ctx ambient db (request_accreditation_work ctx i v)
            (λ r w h. Arrived-Change ctx ambient db i (request_accreditation_effect ctx i v _ h)))
    after (err x) db1 e = subst (Change ctx db) (sym e) (stays ctx db)

-- Each operation, by any actor and at any time, takes a database whose accreditations meet their
-- unique indexes to one that the abstract machine allows: rows change along the edges of the state
-- machine, or one requested row is new, or nothing changes; and the audit log says which.
pub run-Change :
    (op : Operation) (ctx : AuthorizationContext) (ambient : Ambient) (db : Db)
    → conflict_free accreditations_conflict db.accreditations ≡ true
    → Change ctx db (run op ctx ambient db)
unfolding run request_more_information escalate approve decline record_interview_outcome
    end_affiliation confirm_training activate_accreditation check_training_deadlines
run-Change (Operation.request i) ctx t db free = request-Change ctx t db i
run-Change (Operation.ask_information id reasons) ctx t db free =
    transacted ctx t db (request_more_information_work ctx id reasons) (λ d w h.
      Acted-Change ctx t db id free information-Lawful
        (request_more_information_effect ctx id reasons _ h))
run-Change (Operation.raise_exception id rationale) ctx t db free =
    transacted ctx t db (escalate_work ctx id rationale) (λ d w h.
      Acted-Change ctx t db id free exception-Lawful (escalate_effect ctx id rationale _ h))
run-Change (Operation.accept id rationale) ctx t db free =
    transacted ctx t db (approve_work ctx id rationale) (λ d w h.
      let (days, decided, read) = approve_effect ctx id rationale _ h in
      Acted-Change ctx t db id free (pending-Lawful days) decided.acted)
run-Change (Operation.refuse id rationale) ctx t db free =
    transacted ctx t db (decline_work ctx id rationale) (λ d w h.
      Acted-Change ctx t db id free declined-Lawful (decline_effect ctx id rationale _ h).acted)
run-Change (Operation.interview id recommendation notes) ctx t db free =
    transacted ctx t db (record_interview_outcome_work ctx id recommendation notes) (λ d w h.
      Acted-Change ctx t db id free (interviewed-Lawful recommendation)
        (record_interview_outcome_effect ctx id recommendation notes _ h))
run-Change (Operation.confirm id kind notes) ctx t db free =
    transacted ctx t db (confirm_training_work ctx id kind notes)
      (λ d w h. confirm-Change ctx t db id kind notes h)
run-Change (Operation.activate id) ctx t db free =
    transacted ctx t db (activate_accreditation_work ctx id)
      (λ d w h. Acted-Change ctx t db id free active-Lawful (activate_effect ctx id _ h))
run-Change (Operation.check_deadlines lender) ctx t db free =
    transacted ctx t db (check_training_deadlines_work ctx lender)
      (λ d w h. deadlines-Change ctx t db lender free h)
run-Change (Operation.leave_business broker id reason) ctx t db free =
    transacted ctx t db (end_affiliation_work ctx broker id reason)
      (λ d w h. leave-Change ctx t db broker id reason free h)
