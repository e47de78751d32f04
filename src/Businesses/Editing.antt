-- ===== src/Businesses/Editing.antt =====
-- On `assertEditable` of businesses.repository.ts: which functions change a business or its
-- principals, and when.
use brokerplatform.Prelude.{
  ℕ, ◌≡◌, true, false, some, List, arith, All, ◌==◌, All-found, first, refl, filter_by, is_empty,
  Bool, if◌then◌else◌,
}
use brokerplatform.Db.Schema.{Db, BusinessStatus, BrokerBusiness}
use brokerplatform.Businesses.Repository.{
  get_editable, update_business, BusinessChange, submit_business, update_business_work,
  submit_business_work, is_updatable,
}
use brokerplatform.Db.Transaction.{
  World, ok, seen, Ambient, Tx, with_authorization_context, ◌>>=◌, begin, Result,
}
use brokerplatform.Businesses.Principals.{
  add_principal, PrincipalInput, update_principal, PrincipalChange, remove_principal,
  add_principal_work, update_principal_work, remove_principal_work, is_updatable_principal,
}
use brokerplatform.Businesses.Completeness.{is_editable}
use brokerplatform.Db.Context.{AuthorizationContext}
use brokerplatform.Db.Policies.People.{broker_businesses}
use brokerplatform.Db.Inversion.{select_elim, or_throw_elim, throw_if_elim, settle, bind_elim}

-- The functions that edit one business, and the one that submits it.
pub data BusinessEdit : Type 0 where
  update : List BusinessChange → BusinessEdit
  add : PrincipalInput → BusinessEdit
  change : ℕ → List PrincipalChange → BusinessEdit
  remove : ℕ → BusinessEdit
  submit : BusinessEdit

-- The database after an edit of a business by a broker, whether it returned or threw.
unfoldable pub run_edit : BusinessEdit → AuthorizationContext → ℕ → ℕ → Ambient → Db → Db
unfolding update_business add_principal update_principal remove_principal submit_business
run_edit (BusinessEdit.update patch) ctx broker business t db =
    (update_business ctx broker business patch t db).1
run_edit (BusinessEdit.add input) ctx broker business t db =
    (add_principal ctx broker business input t db).1
run_edit (BusinessEdit.change id patch) ctx broker business t db =
    (update_principal ctx broker business id patch t db).1
run_edit (BusinessEdit.remove id) ctx broker business t db =
    (remove_principal ctx broker business id t db).1
run_edit BusinessEdit.submit ctx broker business t db = (submit_business ctx broker business t db).1

-- No stored row of the business may be edited.
abbrev pub IsFrozen : ℕ → Db → Type 0
IsFrozen business db =
    All (λ b. (b.id == business) ≡ true → is_editable b.status ≡ false) db.broker_businesses

-- What `get_editable` has found: a row of the business that the session sees, in a status in which
-- it may be edited.
pub get_editable_inv :
    (business : ℕ) (w : World) (s : BusinessStatus) (w' : World)
    → get_editable business w ≡ ok (s, w')
    → (w' ≡ w)
      × ((b : BrokerBusiness) × (first
              (seen broker_businesses w.session w.db (λ b. b.id == business))
            ≡ some b)
          × (is_editable b.status ≡ true))
unfolding get_editable
get_editable_inv business w s w' h = select_elim broker_businesses _ _ w h λ h1.
    or_throw_elim _ _ w h1
      λ b found h2. throw_if_elim _ _ w h2 λ may h3. (ground arith, (b, found, ground arith))

pub get_editable_same :
    (business : ℕ) (w : World) (s : BusinessStatus) (w' : World)
    → get_editable business w ≡ ok (s, w')
    → w' ≡ w
get_editable_same business w s w' h = (get_editable_inv business w s w' h).0

frozen_out :
    (business : ℕ) (w : World) (s : BusinessStatus) (w' : World)
    → IsFrozen business w.db
    → ¬ (get_editable business w ≡ ok (s, w'))
frozen_out business w s w' frozen h =
    let (same, (b, found, may)) = get_editable_inv business w s w' h in
    let (closed, met) = All-found _ _ w.db.broker_businesses frozen found in
    let shut = closed (ground arith) in cc

frozen_call :
    {A : Type 0} (business : ℕ) (f : BusinessStatus → Tx A) (ctx : AuthorizationContext)
    (t : Ambient) (db : Db)
    → IsFrozen business db
    → (with_authorization_context ctx (get_editable business >>= f) t db).1 ≡ db
frozen_call business f ctx t db frozen =
    settle (λ x. x ≡ db) ctx (get_editable business >>= f) t db refl
      λ a w h.
        bind_elim (get_editable business) f (begin ctx t db) h
          λ s w' p h1. absurd (frozen_out business (begin ctx t db) s w' frozen p)

update_frozen :
    (broker business : ℕ) (changes : List BusinessChange) (ctx : AuthorizationContext) (t : Ambient)
    (db : Db)
    → IsFrozen business db
    → (with_authorization_context ctx (update_business_work broker business changes) t db).1 ≡ db
unfolding update_business_work
update_frozen broker business changes ctx t db frozen = frozen_call business _ ctx t db frozen

change_frozen :
    (broker business id : ℕ) (changes : List PrincipalChange) (ctx : AuthorizationContext)
    (t : Ambient) (db : Db)
    → IsFrozen business db
    → (with_authorization_context ctx (update_principal_work broker business id changes) t db).1
      ≡ db
unfolding update_principal_work
change_frozen broker business id changes ctx t db frozen = frozen_call business _ ctx t db frozen

pub unless_empty :
    (b : Bool) (r : Result (Unit {0}) × Db) (db : Db)
    → r.1 ≡ db
    → (if b then (ok tt, db) else r).1 ≡ db
unless_empty true r db h = refl
unless_empty false r db h = h

-- A business that may not be edited stays as it is, with its principals and all else, whichever
-- edit anybody tries: the status of a submitted business closes it, until something else opens it.
pub run_edit-frozen :
    (edit : BusinessEdit) (ctx : AuthorizationContext) (broker business : ℕ) (t : Ambient) (db : Db)
    → IsFrozen business db
    → run_edit edit ctx broker business t db ≡ db
unfolding run_edit update_business add_principal update_principal remove_principal submit_business
    add_principal_work remove_principal_work submit_business_work
run_edit-frozen (BusinessEdit.update patch) ctx broker business t db frozen =
    unless_empty (is_empty (filter_by is_updatable patch)) _ db
      (update_frozen broker business (filter_by is_updatable patch) ctx t db frozen)
run_edit-frozen (BusinessEdit.add input) ctx broker business t db frozen =
    frozen_call business _ ctx t db frozen
run_edit-frozen (BusinessEdit.change id patch) ctx broker business t db frozen =
    unless_empty (is_empty (filter_by is_updatable_principal patch)) _ db
      (change_frozen broker business id (filter_by is_updatable_principal patch) ctx t db frozen)
run_edit-frozen (BusinessEdit.remove id) ctx broker business t db frozen =
    frozen_call business _ ctx t db frozen
run_edit-frozen BusinessEdit.submit ctx broker business t db frozen =
    frozen_call business _ ctx t db frozen
