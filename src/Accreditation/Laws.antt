-- ===== src/Accreditation/Laws.antt =====
-- What each action may do to a row.
use brokerplatform.Accreditation.Activation.{to_active}
use brokerplatform.Prelude.{inl, inr, ◌≡◌, ℕ, refl, true, String}
use brokerplatform.Brokers.Reconstruction.{status_by_action}
use brokerplatform.Db.Schema.{AccreditationStatus, AuditAction}
use brokerplatform.Accreditation.Transitions.{Transition, Lawful}
use brokerplatform.Accreditation.Guards.{awaits_decision}
use brokerplatform.Accreditation.Parties.{may_be_flagged, to_party_changed}
use brokerplatform.Accreditation.Outcomes.{
  not_declined, to_pending, to_interviewed, to_exception, to_information, to_declined,
}
use brokerplatform.Accreditation.Effects.{stamped}
use brokerplatform.Accreditation.Training.{is_pending, to_lapsed}

pub information-Lawful :
    (t : ℕ)
    → Lawful not_declined (stamped to_information t) AuditAction.accreditation_information_requested
unfolding status_by_action
information-Lawful t = record {
  same_id = λ a. refl;
  same_lender = λ a. refl;
  sets = λ a. refl;
  edge = λ a h. inr (Transition.asked h);
}

pub exception-Lawful :
    (t : ℕ) → Lawful not_declined (stamped to_exception t) AuditAction.accreditation_escalated
unfolding status_by_action
exception-Lawful t = record {
  same_id = λ a. refl;
  same_lender = λ a. refl;
  sets = λ a. refl;
  edge = λ a h. inr (Transition.raised h);
}

pub interviewed-Lawful :
    (r : String) (t : ℕ)
    → Lawful not_declined
        (stamped (to_interviewed r) t)
        AuditAction.accreditation_interview_recorded
unfolding status_by_action
interviewed-Lawful r t = record {
  same_id = λ a. refl;
  same_lender = λ a. refl;
  sets = λ a. refl;
  edge = λ a h. inl refl;
}

pub pending-Lawful :
    (days t : ℕ)
    → Lawful awaits_decision (stamped (to_pending days) t) AuditAction.accreditation_approved
unfolding status_by_action
pending-Lawful days t = record {
  same_id = λ a. refl;
  same_lender = λ a. refl;
  sets = λ a. refl;
  edge = λ a h. inr (Transition.approved h);
}

pub declined-Lawful :
    (t : ℕ) → Lawful awaits_decision (stamped to_declined t) AuditAction.accreditation_declined
unfolding status_by_action
declined-Lawful t = record {
  same_id = λ a. refl;
  same_lender = λ a. refl;
  sets = λ a. refl;
  edge = λ a h. inr (Transition.refused h);
}

leaves_pending :
    (s s' : AccreditationStatus)
    → Transition AccreditationStatus.pending s'
    → is_pending s ≡ true
    → Transition s s'
leaves_pending AccreditationStatus.pending s' edge h = edge
leaves_pending AccreditationStatus.requested s' edge h = cc
leaves_pending AccreditationStatus.information_required s' edge h = cc
leaves_pending AccreditationStatus.exception_escalated s' edge h = cc
leaves_pending AccreditationStatus.declined s' edge h = cc
leaves_pending AccreditationStatus.party_changed_pending s' edge h = cc
leaves_pending AccreditationStatus.active s' edge h = cc
leaves_pending AccreditationStatus.lapsed s' edge h = cc

pub active-Lawful :
    (t : ℕ) → Lawful is_pending (stamped to_active t) AuditAction.accreditation_activated
unfolding status_by_action
active-Lawful t = record {
  same_id = λ a. refl;
  same_lender = λ a. refl;
  sets = λ a. refl;
  edge = λ a h. inr (leaves_pending a.status _ Transition.activated h);
}

pub lapsed-Lawful : (t : ℕ) → Lawful is_pending (to_lapsed t) AuditAction.accreditation_lapsed
unfolding status_by_action
lapsed-Lawful t = record {
  same_id = λ a. refl;
  same_lender = λ a. refl;
  sets = λ a. refl;
  edge = λ a h. inr (leaves_pending a.status _ Transition.missed h);
}

pub flagged-Lawful :
    (t : ℕ) → Lawful may_be_flagged (to_party_changed t) AuditAction.accreditation_party_changed
unfolding status_by_action
flagged-Lawful t = record {
  same_id = λ a. refl;
  same_lender = λ a. refl;
  sets = λ a. refl;
  edge = λ a h. inr (Transition.flagged h);
}
