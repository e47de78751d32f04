-- ===== src/Brokers/Submission.antt =====
-- On `assertEditable` and `submitProfile` of brokers.repository.ts.
use brokerplatform.Prelude.{
  ℕ, ◌≡◌, refl, true, false, some, List, String, arith, All, ◌==◌, All-found, first, length,
  is_empty, update_where, filter_by, subst,
}
use brokerplatform.Brokers.Profiles.{
  submit_profile, ProfileChange, fetch_completeness_inputs, get_editable_profile,
  update_broker_profile_work, update_broker_profile, ProfileInputs, submit_profile_work,
  is_updatable_profile,
}
use brokerplatform.Db.Transaction.{
  World, ok, Tx, Ambient, with_authorization_context, seen, ◌>>=◌, begin, reached,
}
use brokerplatform.Db.Schema.{Db, ProfileStatus, BrokerProfile}
use brokerplatform.Db.Context.{AuthorizationContext, session_of}
use brokerplatform.Brokers.Memberships.{
  create_association_membership, MembershipPatch, update_association_membership,
  delete_association_membership, create_association_membership_work,
  update_association_membership_work, delete_association_membership_work,
}
use brokerplatform.Audit.{record_audit_event}
use brokerplatform.Notifications.Repository.{Dispatch}
use brokerplatform.Brokers.Completeness.{is_editable_profile, compute_outstanding_items}
use brokerplatform.Db.Policies.People.{broker_profiles, association_memberships}
use brokerplatform.Db.Inversion.{
  select_elim, settle, bind_elim, or_throw_elim, throw_if_elim, returned_inv, reader_elim, now_elim,
  update_elim, insert_inv,
}
use brokerplatform.Businesses.Editing.{unless_empty}
use brokerplatform.Db.Policies.Logs.{audit_log}
use brokerplatform.Notifications.Effects.{create_notification_inv}

-- The functions that edit a profile under `assertEditable`, and the one that submits it.
pub data ProfileEdit : Type 0 where
  update : List ProfileChange → ProfileEdit
  join : String → String → ProfileEdit
  amend : ℕ → MembershipPatch → ProfileEdit
  withdraw : ℕ → ProfileEdit
  submit : ProfileEdit

-- The database after an edit of a profile, whether it returned or threw.
unfoldable pub run_profile_edit : ProfileEdit → AuthorizationContext → ℕ → Ambient → Db → Db
unfolding update_broker_profile create_association_membership update_association_membership
    delete_association_membership submit_profile
run_profile_edit (ProfileEdit.update patch) ctx broker t db =
    (update_broker_profile ctx broker patch t db).1
run_profile_edit (ProfileEdit.join association number) ctx broker t db =
    (create_association_membership ctx broker association number t db).1
run_profile_edit (ProfileEdit.amend id patch) ctx broker t db =
    (update_association_membership ctx broker id patch t db).1
run_profile_edit (ProfileEdit.withdraw id) ctx broker t db =
    (delete_association_membership ctx broker id t db).1
run_profile_edit ProfileEdit.submit ctx broker t db = (submit_profile ctx broker t db).1

-- No stored row of the profile may be edited.
abbrev pub IsClosed : ℕ → Db → Type 0
IsClosed broker db =
    All (λ b. (b.id == broker) ≡ true → is_editable_profile b.status ≡ false) db.broker_profiles

get_editable_profile_inv :
    (broker : ℕ) (w : World) (s : ProfileStatus) (w' : World)
    → get_editable_profile broker w ≡ ok (s, w')
    → (w' ≡ w)
      × ((b : BrokerProfile) × (first (seen broker_profiles w.session w.db (λ a. a.id == broker))
            ≡ some b)
          × (is_editable_profile b.status ≡ true))
unfolding get_editable_profile
get_editable_profile_inv broker w s w' h = select_elim broker_profiles _ _ w h λ h1.
    or_throw_elim _ _ w h1
      λ b found h2. throw_if_elim _ _ w h2 λ may h3. (ground arith, (b, found, ground arith))

closed_out :
    (broker : ℕ) (w : World) (s : ProfileStatus) (w' : World)
    → IsClosed broker w.db
    → ¬ (get_editable_profile broker w ≡ ok (s, w'))
closed_out broker w s w' frozen h =
    let (same, (b, found, may)) = get_editable_profile_inv broker w s w' h in
    let (closed, met) = All-found _ _ w.db.broker_profiles frozen found in
    let shut = closed (ground arith) in cc

closed_call :
    {A : Type 0} (broker : ℕ) (f : ProfileStatus → Tx A) (ctx : AuthorizationContext) (t : Ambient)
    (db : Db)
    → IsClosed broker db
    → (with_authorization_context ctx (get_editable_profile broker >>= f) t db).1 ≡ db
closed_call broker f ctx t db frozen =
    settle (λ x. x ≡ db) ctx (get_editable_profile broker >>= f) t db refl
      λ a w h.
        bind_elim (get_editable_profile broker) f (begin ctx t db) h
          λ s w' p h1. absurd (closed_out broker (begin ctx t db) s w' frozen p)

update_closed :
    (broker : ℕ) (changes : List ProfileChange) (ctx : AuthorizationContext) (t : Ambient) (db : Db)
    → IsClosed broker db
    → (with_authorization_context ctx (update_broker_profile_work broker changes) t db).1 ≡ db
unfolding update_broker_profile_work
update_closed broker changes ctx t db frozen = closed_call broker _ ctx t db frozen

-- A profile that may not be edited stays as it is, with its association memberships and all else,
-- whichever of the guarded edits anybody tries, and a second submission too.
pub run_profile_edit-frozen :
    (edit : ProfileEdit) (ctx : AuthorizationContext) (broker : ℕ) (t : Ambient) (db : Db)
    → IsClosed broker db
    → run_profile_edit edit ctx broker t db ≡ db
unfolding run_profile_edit update_broker_profile create_association_membership
    update_association_membership delete_association_membership submit_profile
    create_association_membership_work update_association_membership_work
    delete_association_membership_work submit_profile_work
run_profile_edit-frozen (ProfileEdit.update patch) ctx broker t db frozen =
    unless_empty (is_empty (filter_by is_updatable_profile patch)) _ db
      (update_closed broker (filter_by is_updatable_profile patch) ctx t db frozen)
run_profile_edit-frozen (ProfileEdit.join association number) ctx broker t db frozen =
    closed_call broker _ ctx t db frozen
run_profile_edit-frozen (ProfileEdit.amend id patch) ctx broker t db frozen =
    closed_call broker _ ctx t db frozen
run_profile_edit-frozen (ProfileEdit.withdraw id) ctx broker t db frozen =
    closed_call broker _ ctx t db frozen
run_profile_edit-frozen ProfileEdit.submit ctx broker t db frozen =
    closed_call broker _ ctx t db frozen

fetch_profile_inv :
    (broker : ℕ) (w : World) (i : ProfileInputs) (w' : World)
    → fetch_completeness_inputs broker w ≡ ok (i, w')
    → (w' ≡ w)
      × (first (seen broker_profiles w.session w.db (λ b. b.id == broker)) ≡ some i.profile)
      × (i.membership_count
          ≡ length
              (seen association_memberships w.session w.db (λ m. m.broker_profile_id == broker)))
unfolding fetch_completeness_inputs
fetch_profile_inv broker w i w' h = select_elim broker_profiles _ _ w h λ h1.
    or_throw_elim _ _ w h1 λ b found h2.
      select_elim association_memberships _ _ w h2 λ h3. (ground arith, ground arith, ground arith)

-- A submission that returned was of a profile that its broker sees, in a status in which it may be
-- edited, with nothing outstanding. In the database after it every row of it that the session may
-- write is submitted.
pub submit_profile_complete :
    (ctx : AuthorizationContext) (broker : ℕ) (t : Ambient) (db : Db) {d : Dispatch} {db' : Db}
    → submit_profile ctx broker t db ≡ (ok d, db')
    → ((b : BrokerProfile) × (first (seen broker_profiles (session_of ctx) db (λ a. a.id == broker))
          ≡ some b)
        × (is_editable_profile b.status ≡ true)
        × (is_empty (
              compute_outstanding_items b (
                length (
                  seen association_memberships
                    (session_of ctx)
                    db
                    (λ m. m.broker_profile_id == broker))))
            ≡ true))
      × (db'.broker_profiles
          ≡ update_where
              (reached broker_profiles (session_of ctx) db (λ a. a.id == broker))
              (λ a. record a { status = ProfileStatus.submitted; updated_at = t.now })
              db.broker_profiles)
unfolding submit_profile submit_profile_work record_audit_event
submit_profile_complete ctx broker t db {d} {db'} h =
    let (w, runs, same) = returned_inv ctx (submit_profile_work ctx broker) t db h in
    let w0 : World = begin ctx t db in
    reader_elim _ _ w0 runs (λ s w' e. (get_editable_profile_inv broker w0 s w' e).0)
      λ s p h1.
        reader_elim _ _ w0 h1 (λ i w' e. (fetch_profile_inv broker w0 i w' e).0)
          λ inputs q h2. throw_if_elim _ _ w0 h2 λ complete h3. now_elim _ w0 h3 λ h4.
            update_elim broker_profiles _ _ _ w0 h4 λ free h5. bind_elim _ _ _ h5 λ u w1 r h6.
              let (kept, (b, found, may)) = get_editable_profile_inv broker w0 s w0 p in
              let (still, there, count) = fetch_profile_inv broker w0 inputs w0 q in
              let e = now_elim _ _ r λ r1. (insert_inv audit_log _ _ r1).2 in
              let f = (create_notification_inv ctx _ w1 h6).0 in
              let same_row : inputs.profile ≡ b = ground arith in
              (
                (
                  b,
                  found,
                  may,
                  subst (λ n. is_empty (compute_outstanding_items b n) ≡ true) count
                      (subst
                        (λ x. is_empty (compute_outstanding_items x inputs.membership_count) ≡ true)
                        same_row (ground arith)),
                ),
                ground arith,
              )
