-- ===== src/Accreditation/Operations.antt =====
-- The exported functions that change accreditations, as one type of operations, and what running
-- them in sequence does to the database. One operation is one transaction (two for a request),
-- and the transactions of concurrent callers are taken in the order of their commits.
use brokerplatform.Prelude.{ℕ, Option, List, [], ◌∷◌, String}
use brokerplatform.Db.Context.{AuthorizationContext}
use brokerplatform.Db.Schema.{Db, TrainingKind}
use brokerplatform.Db.Transaction.{Ambient}
use brokerplatform.Accreditation.Requests.{AccreditationInput, request_accreditation}
use brokerplatform.Accreditation.Decisions.{
  request_more_information, escalate, approve, decline, record_interview_outcome,
}
use brokerplatform.Accreditation.Parties.{end_affiliation}
use brokerplatform.Accreditation.Training.{
  confirm_training, activate_accreditation, check_training_deadlines,
}

pub data Operation : Type 0 where
  request : AccreditationInput → Operation
  ask_information : ℕ → List String → Operation
  raise_exception : ℕ → Option String → Operation
  accept : ℕ → Option String → Operation
  refuse : ℕ → String → Operation
  interview : ℕ → String → Option String → Operation
  confirm : ℕ → TrainingKind → Option String → Operation
  activate : ℕ → Operation
  check_deadlines : ℕ → Operation
  leave_business : ℕ → ℕ → Option String → Operation

-- The database after an operation, whether it returned or threw.
unfoldable pub run : Operation → AuthorizationContext → Ambient → Db → Db
unfolding request_accreditation request_more_information escalate approve decline
    record_interview_outcome end_affiliation confirm_training activate_accreditation
    check_training_deadlines
run (Operation.request i) ctx t db = (request_accreditation ctx i t db).1
run (Operation.ask_information id reasons) ctx t db =
    (request_more_information ctx id reasons t db).1
run (Operation.raise_exception id rationale) ctx t db = (escalate ctx id rationale t db).1
run (Operation.accept id rationale) ctx t db = (approve ctx id rationale t db).1
run (Operation.refuse id rationale) ctx t db = (decline ctx id rationale t db).1
run (Operation.interview id recommendation notes) ctx t db =
    (record_interview_outcome ctx id recommendation notes t db).1
run (Operation.confirm id kind notes) ctx t db = (confirm_training ctx id kind notes t db).1
run (Operation.activate id) ctx t db = (activate_accreditation ctx id t db).1
run (Operation.check_deadlines lender) ctx t db = (check_training_deadlines ctx lender t db).1
run (Operation.leave_business broker id reason) ctx t db =
    (end_affiliation ctx broker id reason t db).1

-- One operation of a history: what was called, by whom, and at what time.
pub record Event : Type 0 where
  pub operation : Operation
  pub actor : AuthorizationContext
  pub ambient : Ambient

-- The database after a sequence of operations, the first of them first.
unfoldable pub run_all : List Event → Db → Db
unfolding run
run_all [] db = db
run_all (e ∷ es) db = run_all es (run e.operation e.actor e.ambient db)
