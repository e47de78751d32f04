-- ===== src/Brokers/Replay.antt =====
-- On `reconstructAsOf` (brokers.repository.ts): the order of the audit log and its replay.
use brokerplatform.Prelude.{
  ℕ, ◌≡◌, refl, Bool, true, Option, none, List, [], ◌∷◌, ◌==◌, ◌&&◌, leb, all, All-map, filter_by,
  filter_by-cong, all-eq-true, all-filter_by, arith, All, some, All-filter_by, ap, All-intro, ◌∙◌,
  All-both, map, any_self, some_eq, subst, sym,
}
use brokerplatform.Db.Context.{as_broker, session_of}
use brokerplatform.Db.Schema.{Accreditation, AccreditationStatus, AuditEntry, Db}
use brokerplatform.Db.Policies.Logs.{audit_log, owns_accreditation}
use brokerplatform.Db.Policies.Lifecycle.{accreditations}
use brokerplatform.Db.Transaction.{
  Ambient, seen, ◌>>=◌, with_authorization_context, begin, conclude, ok, Result, err, World, Tx,
  continue,
}
use brokerplatform.Brokers.Reconstruction.{
  status_by_action, or_keep, replay, insert_by_time, order_by_time, is_about, AccreditationState,
  reconstruct_each, reconstruct_as_of, reconstruct_as_of_work, Reconstruction,
}
use brokerplatform.Accreditation.History.{latest_status, recorded_status}
use brokerplatform.Accreditation.Invariant.{IsAccountedFor, Consistent}

-- Each entry is no earlier than the ones below it.
unfoldable pub is_chronological : List AuditEntry → Bool
is_chronological [] = true
is_chronological (e ∷ es) = all (λ x. leb x.occurred_at e.occurred_at) es && is_chronological es

all-insert_by_time :
    (q : AuditEntry → Bool) (e : AuditEntry) (xs : List AuditEntry)
    → all q (insert_by_time e xs) ≡ (q e && all q xs)
unfolding insert_by_time
all-insert_by_time q e [] = refl
all-insert_by_time q e (x ∷ xs) = let rest = all-insert_by_time q e xs in ground arith

all-order_by_time :
    (q : AuditEntry → Bool) (es : List AuditEntry) → all q (order_by_time es) ≡ all q es
unfolding order_by_time
all-order_by_time q [] = refl
all-order_by_time q (e ∷ es) =
    let step = all-insert_by_time q e (order_by_time es) in
    let rest = all-order_by_time q es in ground arith

replay-insert_by_time :
    (s : Option AccreditationStatus) (e : AuditEntry) (xs : List AuditEntry)
    → all (λ x. leb x.occurred_at e.occurred_at) xs ≡ true
    → replay s (insert_by_time e xs) ≡ or_keep (status_by_action e.action) (replay s xs)
unfolding insert_by_time replay
replay-insert_by_time s e [] h = refl
replay-insert_by_time s e (x ∷ xs) h =
    let rest = replay-insert_by_time (or_keep (status_by_action x.action) s) e xs (ground arith) in
    ground arith

-- To sort a log and replay it gives what its newest entries say.
replay-order_by_time :
    (es : List AuditEntry)
    → is_chronological es ≡ true
    → replay none (order_by_time es) ≡ latest_status es
unfolding is_chronological order_by_time replay latest_status
replay-order_by_time [] h = refl
replay-order_by_time (e ∷ es) h =
    let below = all-order_by_time (λ x. leb x.occurred_at e.occurred_at) es in
    let step = replay-insert_by_time none e (order_by_time es) (ground arith) in
    let rest = replay-order_by_time es (ground arith) in ground arith

is_chronological-filter_by :
    (p : AuditEntry → Bool) (es : List AuditEntry)
    → is_chronological es ≡ true
    → is_chronological (filter_by p es) ≡ true
unfolding is_chronological
is_chronological-filter_by p [] h = refl
is_chronological-filter_by p (e ∷ es) h =
    let below = all-filter_by (λ x. leb x.occurred_at e.occurred_at) p es (ground arith) in
    let rest = is_chronological-filter_by p es (ground arith) in ground arith

-- What the reconstruction shows of an accreditation.
abbrev pub state_of : Accreditation → AccreditationState
state_of a = record {
  id = a.id;
  brand = a.brand;
  role = a.role;
  classification = a.classification;
  status = a.status;
}

-- The accreditations of a reconstruction that was returned.
abbrev pub states_returned : Result Reconstruction → Option (List AccreditationState)
states_returned (ok r) = some r.accreditations
states_returned (err e) = none

returned_states :
    (db : Db) (r : Result (List AccreditationState × World))
    (f : List AccreditationState → Tx Reconstruction) {states : List AccreditationState} {w : World}
    → r ≡ ok (states, w)
    → states_returned (conclude db (f states w)).0 ≡ some states
    → states_returned (conclude db (continue r f)).0 ≡ some states
returned_states db r f {states} {w} e h =
    subst (λ x. states_returned (conclude db (continue x f)).0 ≡ some states) (sym e) h

module _ (broker as_of : ℕ) (ambient : Ambient) (db : Db) where
  abbrev is_own : Accreditation → Bool
  is_own a = a.broker_profile_id == broker

  -- The broker reads all entries about an accreditation of theirs.
  history-seen :
      (id : ℕ)
      → owns_accreditation (session_of (as_broker broker)) db id ≡ true
      → all (λ e. leb e.occurred_at as_of) db.audit_log ≡ true
      → seen audit_log
          (session_of (as_broker broker))
          db
          (λ e. is_about id e && leb e.occurred_at as_of)
        ≡ filter_by (is_about id) db.audit_log
  history-seen id owned past = filter_by-cong _ _ db.audit_log (
      All-map _ _ db.audit_log (λ e early. ground arith)
        (all-eq-true (λ e. leb e.occurred_at as_of) db.audit_log past))

  rows-seen :
      seen accreditations (session_of (as_broker broker)) db is_own
      ≡ filter_by is_own db.accreditations
  rows-seen =
      filter_by-cong _ _ db.accreditations (All-intro _ db.accreditations (λ a. ground arith))

  -- A row of the broker that the log accounts for and that the broker owns.
  abbrev IsReplayed : Accreditation → Type 0
  IsReplayed a =
      IsAccountedFor db a × (owns_accreditation (session_of (as_broker broker)) db a.id ≡ true)

  own_rows-IsReplayed : Consistent db → All IsReplayed (filter_by is_own db.accreditations)
  own_rows-IsReplayed consistent =
      All-map _ _ (filter_by is_own db.accreditations) (λ a h. (h.0.0, h.0.1 h.1))
        (All-filter_by _ is_own db.accreditations (
          All-both _ _ db.accreditations consistent.accounted (
            any_self is_own (λ a r. r.id == a.id && some_eq (some broker) r.broker_profile_id)
              db.accreditations (λ a own. ground arith))))

  replayed-status :
      (a : Accreditation)
      → IsReplayed a
      → is_chronological db.audit_log ≡ true
      → all (λ e. leb e.occurred_at as_of) db.audit_log ≡ true
      → replay none (
          order_by_time (
            seen audit_log
              (session_of (as_broker broker))
              db
              (λ e. is_about a.id e && leb e.occurred_at as_of)))
        ≡ some a.status
  unfolding recorded_status
  replayed-status a (told, owned) ordered past =
      ap (λ es. replay none (order_by_time es)) (history-seen a.id owned past)
      ∙ replay-order_by_time _ (is_chronological-filter_by (is_about a.id) db.audit_log ordered)
      ∙ told

  reconstruct_each-replayed :
      (rows : List Accreditation)
      → All IsReplayed rows
      → is_chronological db.audit_log ≡ true
      → all (λ e. leb e.occurred_at as_of) db.audit_log ≡ true
      → reconstruct_each as_of rows (begin (as_broker broker) ambient db)
        ≡ ok (map state_of rows, begin (as_broker broker) ambient db)
  unfolding reconstruct_each ◌>>=◌
  reconstruct_each-replayed [] h ordered past = refl
  reconstruct_each-replayed (a ∷ rows) h ordered past =
      let status = replayed-status a h.0 ordered past in
      let rest = reconstruct_each-replayed rows h.1 ordered past in ground arith

  -- A broker who reconstructs their own state, at a time not before any entry of a chronological
  -- audit log, gets each of their accreditations with the status that it has now, where the log
  -- accounts for the statuses.
  pub reconstruct_as_of-own :
      Consistent db
      → is_chronological db.audit_log ≡ true
      → all (λ e. leb e.occurred_at as_of) db.audit_log ≡ true
      → states_returned (reconstruct_as_of (as_broker broker) broker as_of ambient db).0
        ≡ some (map state_of (filter_by is_own db.accreditations))
  unfolding reconstruct_as_of reconstruct_as_of_work with_authorization_context conclude ◌>>=◌
  reconstruct_as_of-own consistent ordered past =
      returned_states db _ _
        (ap (λ rows. reconstruct_each as_of rows (begin (as_broker broker) ambient db)) rows-seen
          ∙ reconstruct_each-replayed _ (own_rows-IsReplayed consistent) ordered past)
        refl
