-- ===== src/Verification/Current.antt =====
-- On `recordCheckResult` (check-result.repository.ts): the result of a check that is in force.
use brokerplatform.Db.Context.{as_system}
use brokerplatform.Prelude.{
  ℕ, ◌≡◌, refl, true, false, List, [], ◌∷◌, ◌==◌, str_eq_iff, All, All-map, filter_by, update_where,
  arith, Bool-cases, inl, inr, ◌⊎◌, any, ap, ◌∙◌, any-eq-false, sym,
}
use brokerplatform.Db.Schema.{CheckResult, SubjectType, Db}
use brokerplatform.Verification.CheckResults.{
  CheckInput, is_current_check, recorded_row, to_superseded, close_first, record_check_result_work,
  record_check_result,
}
use brokerplatform.Rulesets.Evaluator.{same_subject_type}
use brokerplatform.Db.Transaction.{World, Ambient, reached, ok, begin}
use brokerplatform.Audit.{record_audit_event, AuditEvent}
use brokerplatform.Db.Inversion.{
  update_elim, now_elim, select_elim, random_uuid_elim, insert_inv, insert_elim, bind_elim,
  returned_inv,
}
use brokerplatform.Db.Policies.Logs.{check_results, audit_log}

-- The rows of the check that are in force.
unfoldable pub current_of : CheckInput → List CheckResult → List CheckResult
current_of i rows = filter_by (is_current_check i) rows

same_subject_type_refl : (s : SubjectType) → same_subject_type s s ≡ true
same_subject_type_refl SubjectType.broker_profile = refl
same_subject_type_refl SubjectType.broker_business = refl

recorded_row-current : (i : CheckInput) (id t : ℕ) → is_current_check i (recorded_row i id t) ≡ true
recorded_row-current i id t =
    let s = same_subject_type_refl i.subject_type in
    let c = (str_eq_iff i.check_type i.check_type).1 refl in ground arith

-- Where no row is in force but those with the id, closing that id leaves none.
close_of_found :
    (i : CheckInput) (k id t : ℕ) (rows : List CheckResult)
    → All (λ c. is_current_check i c ≡ true → (c.id == k) ≡ true) rows
    → filter_by (is_current_check i) (update_where (λ c. c.id == k) (to_superseded id t) rows) ≡ []
close_of_found i k id t [] h = refl
close_of_found i k id t (c ∷ rows) h =
    let only = h.0 in let rest = close_of_found i k id t rows h.1 in ground arith

none_current :
    (i : CheckInput) (rows : List CheckResult)
    → filter_by (is_current_check i) rows ≡ []
    → All (λ c. is_current_check i c ≡ false) rows
none_current i [] h = tt
none_current i (c ∷ rows) h = (ground arith, none_current i rows (ground arith))

only_current :
    (i : CheckInput) (k : CheckResult) (rows : List CheckResult)
    → filter_by (is_current_check i) rows ≡ k ∷ []
    → All (λ c. is_current_check i c ≡ true → (c.id == k.id) ≡ true) rows
only_current i k [] h = cc
only_current i k (c ∷ rows) h = elim (Bool-cases (is_current_check i c)) [
  | inl met ↦
      (λ _. ground arith, All-map _ _ rows (λ x off on. cc) (none_current i rows (ground arith)))
  | inr unmet ↦ (λ met. cc, only_current i k rows (ground arith))
]

found_differs :
    (i : CheckInput) (new : ℕ) (k : CheckResult) (rows : List CheckResult)
    → All (λ c. (new == c.id) ≡ false) rows
    → filter_by (is_current_check i) rows ≡ k ∷ []
    → (new == k.id) ≡ false
found_differs i new k [] d h = cc
found_differs i new k (c ∷ rows) d h = elim (Bool-cases (is_current_check i c)) [
  | inl met ↦ let e = d.0 in ground arith
  | inr unmet ↦ found_differs i new k rows d.1 (ground arith)
]

abbrev closed : World → List CheckResult → ℕ → ℕ → List CheckResult
closed w [] id t = w.db.check_results
closed w (c ∷ rest) id t =
    update_where (reached check_results w.session w.db (λ r. r.id == c.id)) (to_superseded id t)
      w.db.check_results

close_first_inv :
    (cs : List CheckResult) (id t : ℕ) (w : World) {u : Unit {0}} {w' : World}
    → close_first cs id t w ≡ ok (u, w')
    → w'.db.check_results ≡ closed w cs id t
unfolding close_first
close_first_inv [] id t w h = ground arith
close_first_inv (c ∷ rest) id t w h = update_elim check_results _ _ _ w h λ free h1. ground arith

audit_keeps :
    (e : AuditEvent) (w : World) {u : Unit {0}} {w' : World}
    → record_audit_event e w ≡ ok (u, w')
    → w'.db.check_results ≡ w.db.check_results
unfolding record_audit_event
audit_keeps e w h =
    now_elim _ w h λ h1. ap (λ x. x.db.check_results) (insert_inv audit_log _ w h1).2

module _ (i : CheckInput) (ambient : Ambient) (db : Db) where
  abbrev start : World
  start = begin as_system ambient db

  abbrev new_row : CheckResult
  new_row = recorded_row i (ambient.uuid 0) ambient.now

  abbrev inserted : World
  inserted = record start {
    db = record db { check_results = new_row ∷ db.check_results };
    drawn = 1;
  }

  record_check_result_effect :
      {id : ℕ} {w' : World}
      → record_check_result_work i start ≡ ok (id, w')
      → (id ≡ ambient.uuid 0)
        × (any (λ c. new_row.id == c.id) db.check_results ≡ false)
        × (w'.db.check_results
            ≡ closed inserted (current_of i db.check_results) (ambient.uuid 0) ambient.now)
  unfolding record_check_result_work current_of
  record_check_result_effect h = select_elim check_results _ _ start h λ h1.
      now_elim _ start h1 λ h2. random_uuid_elim _ start h2 λ h3.
        insert_elim check_results _ _ h3 λ may fresh h4. bind_elim _ _ _ h4 λ u w1 p h5.
          bind_elim _ _ w1 h5 λ v w2 q h6.
            let shut = close_first_inv (current_of i db.check_results) _ _ inserted p in
            let kept = audit_keeps _ w1 q in (ground arith, fresh, ground arith)

  current_after :
      any (λ c. new_row.id == c.id) db.check_results ≡ false
      → (current_of i db.check_results ≡ [])
        ⊎ ((k : CheckResult) × (current_of i db.check_results ≡ k ∷ []))
      → current_of i (closed inserted (current_of i db.check_results) (ambient.uuid 0) ambient.now)
        ≡ new_row ∷ []
  unfolding current_of
  current_after fresh (inl empty) =
      let on = recorded_row-current i (ambient.uuid 0) ambient.now in
      ap (λ cs. current_of i (closed inserted cs (ambient.uuid 0) ambient.now)) empty ∙ ground arith
  current_after fresh (inr (k, one)) =
      let on = recorded_row-current i (ambient.uuid 0) ambient.now in
      let apart =
        found_differs i (ambient.uuid 0) k db.check_results (any-eq-false _ db.check_results fresh)
          one in
      let rest =
        close_of_found i k.id (ambient.uuid 0) ambient.now db.check_results
          (only_current i k db.check_results one) in
      ap (λ cs. current_of i (closed inserted cs (ambient.uuid 0) ambient.now)) one ∙ ground arith

-- When `recordCheckResult` has returned, its row is the one result in force for that check on that
-- subject, if at most one was in force before.
pub record_check_result-current :
    (i : CheckInput) (ambient : Ambient) (db : Db) {id : ℕ} {db' : Db}
    → (current_of i db.check_results ≡ [])
      ⊎ ((k : CheckResult) × (current_of i db.check_results ≡ k ∷ []))
    → record_check_result i ambient db ≡ (ok id, db')
    → current_of i db'.check_results ≡ recorded_row i id ambient.now ∷ []
unfolding record_check_result
record_check_result-current i ambient db {id} {db'} before h =
    let (w, done, same) = returned_inv as_system (record_check_result_work i) ambient db h in
    let (new, fresh, rows) = record_check_result_effect i ambient db done in
    let after = current_after i ambient db fresh before in
    ap (λ d. current_of i d.check_results) same
    ∙ ap (current_of i) rows
    ∙ after
    ∙ ap (λ k. recorded_row i k ambient.now ∷ []) (sym new)
