-- ===== src/Brokers/Requirements.antt =====
-- On `computeOutstandingItems` of brokers.repository.ts.
use brokerplatform.Prelude.{
  ℕ, ◌≡◌, refl, Bool, true, false, none, some, List, String, Option, arith, str_eq, str_eq_iff,
  is_empty, ◌↔◌, ◌<◌, ◌==◌, not, is_some, ◌++◌, [], ◌∷◌, if◌then◌else◌,
}
use brokerplatform.Db.Schema.{BrokerProfile}
use brokerplatform.Db.Errors.{OutstandingItem}
use brokerplatform.Businesses.Submission.{
  HasText, HasAddress, has_text, not_missing, has_address, not_lacking, asked_none, ask_none,
  last_item, no_last,
}
use brokerplatform.Brokers.Completeness.{compute_outstanding_items, licence_items, holds_licence}
use brokerplatform.Businesses.Completeness.{item_if}

-- What a profile has to have before it is submitted.
pub record IsReady (p : BrokerProfile) (memberships : ℕ) : Type 0 where
  pub first_named : str_eq p.first_name "" ≡ false
  pub last_named : str_eq p.last_name "" ≡ false
  pub born : HasText p.date_of_birth
  pub phoned : HasText p.phone_number
  pub mobile : HasText p.mobile_number
  pub experienced : (n : ℕ) × (p.experience_years ≡ some n)
  pub located : HasAddress p.address
  pub licensed : HasText p.licence_type_held
  pub holder : p.licence_type_held ≡ some "own_credit_licence" → HasText p.credit_licence_number
  pub representative :
      p.licence_type_held ≡ some "credit_representative"
      → HasText p.credit_representative_number
        × HasText p.licensing_entity_name
        × HasText p.licensing_entity_number
  pub joined : 0 < memberships
  pub attested : (t : ℕ) × (p.attested_terms_at ≡ some t)

holds_sound : (o : Option String) (s : String) → holds_licence o s ≡ true → o ≡ some s
holds_sound none s h = cc
holds_sound (some r) s h = let e = (str_eq_iff r s).0 h in cc

holds_complete : (o : Option String) (s : String) → o ≡ some s → holds_licence o s ≡ true
holds_complete none s h = cc
holds_complete (some r) s h = (str_eq_iff r s).1 (ground arith)

has_number : (o : Option ℕ) → not (is_some o) ≡ false → (n : ℕ) × (o ≡ some n)
has_number none h = cc
has_number (some n) h = (n, refl)

both_empty :
    (xs ys : List OutstandingItem)
    → is_empty (xs ++ ys) ≡ true
    → (is_empty xs ≡ true) × (is_empty ys ≡ true)
both_empty [] ys h = (refl, h)
both_empty (x ∷ xs) ys h = cc

empty_both :
    (xs ys : List OutstandingItem)
    → is_empty xs ≡ true
    → is_empty ys ≡ true
    → is_empty (xs ++ ys) ≡ true
empty_both [] ys e h = h
empty_both (x ∷ xs) ys e h = cc

then_empty :
    {c : Bool} (xs ys : List OutstandingItem)
    → is_empty (if c then xs else ys) ≡ true
    → c ≡ true
    → is_empty xs ≡ true
then_empty {c = true} xs ys h e = h
then_empty {c = false} xs ys h e = cc

else_empty :
    {c : Bool} (xs ys : List OutstandingItem)
    → is_empty (if c then xs else ys) ≡ true
    → c ≡ false
    → is_empty ys ≡ true
else_empty {c = true} xs ys h e = cc
else_empty {c = false} xs ys h e = h

none_by_licence :
    (own rep : Bool) (xs ys : List OutstandingItem)
    → (own ≡ true → is_empty xs ≡ true)
    → (rep ≡ true → is_empty ys ≡ true)
    → is_empty (if own then xs else if rep then ys else []) ≡ true
none_by_licence true rep xs ys h k = h refl
none_by_licence false true xs ys h k = k refl
none_by_licence false false xs ys h k = refl

not_own :
    (o : Option String)
    → o ≡ some "credit_representative"
    → holds_licence o "own_credit_licence" ≡ false
not_own o h =
    let e : holds_licence (some "credit_representative") "own_credit_licence" ≡ false = refl in cc

own_number :
    (p : BrokerProfile)
    → is_empty (licence_items p) ≡ true
    → p.licence_type_held ≡ some "own_credit_licence"
    → HasText p.credit_licence_number
unfolding licence_items
own_number p h e =
    has_text _ (
      last_item _ _ _
        (then_empty _ _ h (holds_complete p.licence_type_held "own_credit_licence" e)))

representative_names :
    (p : BrokerProfile)
    → is_empty (licence_items p) ≡ true
    → p.licence_type_held ≡ some "credit_representative"
    → HasText p.credit_representative_number
      × HasText p.licensing_entity_name
      × HasText p.licensing_entity_number
unfolding licence_items
representative_names p h e =
    let k =
      then_empty _ _ (else_empty _ _ h (not_own p.licence_type_held e))
        (holds_complete p.licence_type_held "credit_representative" e) in
    let (number, h1) = asked_none _ _ _ _ k in
    let (name, h2) = asked_none _ _ _ _ h1 in
    (has_text _ number, has_text _ name, has_text _ (last_item _ _ _ h2))

no_licence_items :
    (p : BrokerProfile)
    → (p.licence_type_held ≡ some "own_credit_licence" → HasText p.credit_licence_number)
    → (p.licence_type_held ≡ some "credit_representative"
        → HasText p.credit_representative_number
          × HasText p.licensing_entity_name
          × HasText p.licensing_entity_number)
    → is_empty (licence_items p) ≡ true
unfolding licence_items
no_licence_items p own rep =
    none_by_licence _ _ _ _
      (λ e. no_last _ _ _ (not_missing _ (own (holds_sound p.licence_type_held _ e))))
      λ e.
        let (number, name, entity) = rep (holds_sound p.licence_type_held _ e) in
        ask_none _ _ _ _ (not_missing _ number)
          (ask_none _ _ _ _ (not_missing _ name) (no_last _ _ _ (not_missing _ entity)))

-- The items after those of the licence, by whether each is asked for.
abbrev further_items : Bool → Bool → List OutstandingItem
further_items lonely unattested =
    item_if lonely "associationMemberships" "At least one association membership is required."
    ++ item_if unattested "attestedTermsAt"
        "You must attest to the privacy policy and terms before submitting."

no_further :
    (lonely unattested : Bool)
    → is_empty (further_items lonely unattested) ≡ true
    → (lonely ≡ false) × (unattested ≡ false)
no_further true unattested h = cc
no_further false true h = cc
no_further false false h = (refl, refl)

further_none :
    (lonely unattested : Bool)
    → lonely ≡ false
    → unattested ≡ false
    → is_empty (further_items lonely unattested) ≡ true
further_none true unattested l u = cc
further_none false true l u = cc
further_none false false l u = refl

-- No item is asked for exactly when the profile has the names, the birth date, the phone numbers,
-- the experience, the address, the licence with what that licence asks for, an association
-- membership and the attestation of the terms.
pub compute_outstanding_items-IsReady :
    (p : BrokerProfile) (memberships : ℕ)
    → (is_empty (compute_outstanding_items p memberships) ≡ true) ↔ IsReady p memberships
unfolding compute_outstanding_items licence_items
compute_outstanding_items-IsReady p memberships =
    let lonely = memberships == 0 in
    let unattested = not (is_some p.attested_terms_at) in
    (
      λ h.
          let (first, h1) = asked_none _ _ _ _ h in
          let (last, h2) = asked_none _ _ _ _ h1 in
          let (birth, h3) = asked_none _ _ _ _ h2 in
          let (phone, h4) = asked_none _ _ _ _ h3 in
          let (mobile, h5) = asked_none _ _ _ _ h4 in
          let (years, h6) = asked_none _ _ _ _ h5 in
          let (place, h7) = asked_none _ _ _ _ h6 in
          let (licence, h8) = asked_none _ _ _ _ h7 in
          let (items, h9) = both_empty (licence_items p) (further_items lonely unattested) h8 in
          let (member, terms) = no_further lonely unattested h9 in
          record {
            first_named = first;
            last_named = last;
            born = has_text _ birth;
            phoned = has_text _ phone;
            mobile = has_text _ mobile;
            experienced = has_number _ years;
            located = has_address _ place;
            licensed = has_text _ licence;
            holder = own_number p items;
            representative = representative_names p items;
            joined = ground arith;
            attested = has_number _ terms;
          },
      λ c.
          let years = c.experienced in
          let terms = c.attested in
          ask_none _ _ _ _ c.first_named (
            ask_none _ _ _ _ c.last_named (
              ask_none _ _ _ _ (not_missing _ c.born) (
                ask_none _ _ _ _ (not_missing _ c.phoned) (
                  ask_none _ _ _ _ (not_missing _ c.mobile) (
                    ask_none _ _ _ _ (ground arith) (
                      ask_none _ _ _ _ (not_lacking _ c.located) (
                        ask_none _ _ _ _ (not_missing _ c.licensed) (
                          empty_both (licence_items p) (further_items lonely unattested)
                            (no_licence_items p c.holder c.representative)
                            (further_none lonely unattested
                              (let some_member = c.joined in ground arith) (ground arith)))))))))),
    )
