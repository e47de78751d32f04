-- ===== src/Businesses/Submission.antt =====
-- On `computeBusinessOutstandingItems` and `submitBusiness` of businesses.repository.ts.
use brokerplatform.Prelude.{
  ℕ, ◌≡◌, refl, Bool, true, false, none, some, List, ◌&&◌, String, arith, Option, str_eq, is_empty,
  ◌↔◌, ◌⊎◌, ◌<◌, Bool-cases, not, inl, is_some, ◌++◌, inr, first, ◌==◌, length, update_where, subst,
}
use brokerplatform.Businesses.Completeness.{
  compute_business_outstanding_items, is_missing, lacks_address, item_if, is_trust, is_editable,
}
use brokerplatform.Db.Schema.{BrokerBusiness, Address, BusinessEntityType, Db, BusinessStatus}
use brokerplatform.Db.Errors.{OutstandingItem}
use brokerplatform.Businesses.Repository.{
  submit_business, submit_business_work, fetch_business_completeness_inputs, CompletenessInputs,
}
use brokerplatform.Audit.{record_audit_event}
use brokerplatform.Db.Context.{AuthorizationContext, session_of}
use brokerplatform.Db.Transaction.{Ambient, ok, seen, reached, World, begin}
use brokerplatform.Notifications.Repository.{Dispatch}
use brokerplatform.Db.Policies.People.{broker_businesses, business_principals}
use brokerplatform.Db.Inversion.{
  returned_inv, reader_elim, select_elim, or_throw_elim, throw_if_elim, now_elim, update_elim,
  bind_elim, insert_inv,
}
use brokerplatform.Businesses.Editing.{get_editable_same, get_editable_inv}
use brokerplatform.Db.Policies.Logs.{audit_log}
use brokerplatform.Notifications.Effects.{create_notification_inv}

-- A text is there and not empty.
abbrev pub HasText : Option String → Type 0
HasText o = (s : String) × (o ≡ some s) × (str_eq s "" ≡ false)

abbrev pub HasAddress : Option Address → Type 0
HasAddress o =
    (a : Address) × (o ≡ some a)
    × HasText a.line1
    × HasText a.city
    × HasText a.postcode
    × HasText a.state

-- What a business has to have before it is submitted.
pub record IsComplete (b : BrokerBusiness) (principals : ℕ) : Type 0 where
  pub named : str_eq b.legal_name "" ≡ false
  pub registered : HasText b.abn ⊎ HasText b.acn
  pub taxed : (g : Bool) × (b.gst_registered ≡ some g)
  pub reachable : HasText b.business_email
  pub located : HasAddress b.address
  pub trusted : b.entity_type ≡ BusinessEntityType.trust → HasText b.trustee_name
  pub led : 0 < principals

pub has_text : (o : Option String) → is_missing o ≡ false → HasText o
has_text none h = cc
has_text (some s) h = (s, refl, h)

pub not_missing : (o : Option String) → HasText o → is_missing o ≡ false
not_missing o (s, e, f) = ground arith

pub has_address : (o : Option Address) → lacks_address o ≡ false → HasAddress o
has_address none h = cc
has_address (some a) h = (
  a,
  refl,
  has_text a.line1 (ground arith),
  has_text a.city (ground arith),
  has_text a.postcode (ground arith),
  has_text a.state (ground arith),
)

pub not_lacking : (o : Option Address) → HasAddress o → lacks_address o ≡ false
not_lacking o (a, e, line1, city, postcode, state) =
    let l = not_missing a.line1 line1 in
    let c = not_missing a.city city in
    let p = not_missing a.postcode postcode in let s = not_missing a.state state in ground arith

pub asked_none :
    (c : Bool) (field reason : String) (rest : List OutstandingItem)
    → is_empty (item_if c field reason ++ rest) ≡ true
    → (c ≡ false) × (is_empty rest ≡ true)
asked_none true field reason rest h = cc
asked_none false field reason rest h = (refl, h)

pub ask_none :
    (c : Bool) (field reason : String) (rest : List OutstandingItem)
    → c ≡ false
    → is_empty rest ≡ true
    → is_empty (item_if c field reason ++ rest) ≡ true
ask_none true field reason rest e h = cc
ask_none false field reason rest e h = h

has_either : (a c : Option String) → (is_missing a && is_missing c) ≡ false → HasText a ⊎ HasText c
has_either a c h = elim (Bool-cases (is_missing a)) [
  | inl gone ↦ inr (has_text c (ground arith))
  | inr there ↦ inl (has_text a there)
]

not_both : (a c : Option String) → HasText a ⊎ HasText c → (is_missing a && is_missing c) ≡ false
not_both a c (inl h) = let e = not_missing a h in ground arith
not_both a c (inr h) = let e = not_missing c h in ground arith

pub last_item :
    (c : Bool) (field reason : String) → is_empty (item_if c field reason) ≡ true → c ≡ false
last_item true field reason h = cc
last_item false field reason h = refl

pub no_last :
    (c : Bool) (field reason : String) → c ≡ false → is_empty (item_if c field reason) ≡ true
no_last true field reason h = cc
no_last false field reason h = refl

has_answer : (o : Option Bool) → not (is_some o) ≡ false → (g : Bool) × (o ≡ some g)
has_answer none h = cc
has_answer (some g) h = (g, refl)

has_trustee :
    (e : BusinessEntityType) (o : Option String)
    → (is_trust e && is_missing o) ≡ false
    → e ≡ BusinessEntityType.trust
    → HasText o
has_trustee e o h t = has_text o (ground arith)

no_trustee_asked :
    (e : BusinessEntityType) (o : Option String)
    → (e ≡ BusinessEntityType.trust → HasText o)
    → (is_trust e && is_missing o) ≡ false
no_trustee_asked BusinessEntityType.trust o h = not_missing o (h refl)
no_trustee_asked BusinessEntityType.company o h = refl
no_trustee_asked BusinessEntityType.sole_trader o h = refl
no_trustee_asked BusinessEntityType.partnership o h = refl

-- No item is asked for exactly when the business is complete.
pub compute_business_outstanding_items-IsComplete :
    (b : BrokerBusiness) (principals : ℕ)
    → (is_empty (compute_business_outstanding_items b principals) ≡ true) ↔ IsComplete b principals
unfolding compute_business_outstanding_items
compute_business_outstanding_items-IsComplete b principals = (
  λ h.
      let (name, h1) = asked_none _ _ _ _ h in
      let (number, h2) = asked_none _ _ _ _ h1 in
      let (gst, h3) = asked_none _ _ _ _ h2 in
      let (email, h4) = asked_none _ _ _ _ h3 in
      let (place, h5) = asked_none _ _ _ _ h4 in
      let (trustee, h6) = asked_none _ _ _ _ h5 in
      let people = last_item _ _ _ h6 in
      record {
        named = name;
        registered = has_either b.abn b.acn number;
        taxed = has_answer b.gst_registered gst;
        reachable = has_text b.business_email email;
        located = has_address b.address place;
        trusted = has_trustee b.entity_type b.trustee_name trustee;
        led = ground arith;
      },
  λ c.
      let gst = c.taxed in
      ask_none _ _ _ _ c.named (
        ask_none _ _ _ _ (not_both b.abn b.acn c.registered) (
          ask_none _ _ _ _ (ground arith) (
            ask_none _ _ _ _ (not_missing b.business_email c.reachable) (
              ask_none _ _ _ _ (not_lacking b.address c.located) (
                ask_none _ _ _ _ (no_trustee_asked b.entity_type b.trustee_name c.trusted)
                  (no_last _ _ _ (let led = c.led in ground arith))))))),
)

fetch_inv :
    (business : ℕ) (w : World) (i : CompletenessInputs) (w' : World)
    → fetch_business_completeness_inputs business w ≡ ok (i, w')
    → (w' ≡ w)
      × (first (seen broker_businesses w.session w.db (λ b. b.id == business)) ≡ some i.business)
      × (i.principal_count
          ≡ length (
              seen business_principals w.session w.db
                (λ p. p.broker_business_id == business && not (is_some p.removed_at))))
unfolding fetch_business_completeness_inputs
fetch_inv business w i w' h = select_elim broker_businesses _ _ w h λ h1.
    or_throw_elim _ _ w h1 λ b found h2.
      select_elim business_principals _ _ w h2 λ h3. (ground arith, ground arith, ground arith)

-- A submission that returned was of a business that its broker sees, in a status in which it may be
-- edited, and complete with the principals that were not removed. In the database after it every row
-- of it that the session may write is submitted.
pub submit_business-IsComplete :
    (ctx : AuthorizationContext) (broker business : ℕ) (t : Ambient) (db : Db) {d : Dispatch}
    {db' : Db}
    → submit_business ctx broker business t db ≡ (ok d, db')
    → ((b : BrokerBusiness) × (first
            (seen broker_businesses (session_of ctx) db (λ b. b.id == business))
          ≡ some b)
        × (is_editable b.status ≡ true)
        × IsComplete b (
            length (
              seen business_principals
                (session_of ctx)
                db
                (λ p. p.broker_business_id == business && not (is_some p.removed_at)))))
      × (db'.broker_businesses
          ≡ update_where
              (reached broker_businesses (session_of ctx) db (λ b. b.id == business))
              (λ b. record b { status = BusinessStatus.submitted; updated_at = t.now })
              db.broker_businesses)
unfolding submit_business submit_business_work fetch_business_completeness_inputs record_audit_event
submit_business-IsComplete ctx broker business t db {d} {db'} h =
    let (w, runs, same) = returned_inv ctx (submit_business_work ctx broker business) t db h in
    let w0 : World = begin ctx t db in
    reader_elim _ _ w0 runs (get_editable_same business w0) λ s p h1.
      reader_elim _ _ w0 h1 (λ i w' e. (fetch_inv business w0 i w' e).0)
        λ inputs q h2. throw_if_elim _ _ w0 h2 λ complete h3. now_elim _ w0 h3 λ h4.
          update_elim broker_businesses _ _ _ w0 h4 λ free h5. bind_elim _ _ _ h5 λ u w1 r h6.
            let (kept, (b, found, may)) = get_editable_inv business w0 s w0 p in
            let (still, there, count) = fetch_inv business w0 inputs w0 q in
            let e = now_elim _ _ r λ r1. (insert_inv audit_log _ _ r1).2 in
            let f = (create_notification_inv ctx _ w1 h6).0 in
            let same_row : inputs.business ≡ b = ground arith in
            let whole =
              (compute_business_outstanding_items-IsComplete inputs.business
                  inputs.principal_count).0
                (ground arith) in
            (
              (
                b,
                found,
                may,
                subst (IsComplete b) count
                    (subst (λ x. IsComplete x inputs.principal_count) same_row whole),
              ),
              ground arith,
            )
