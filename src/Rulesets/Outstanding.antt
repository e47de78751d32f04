-- ===== src/Rulesets/Outstanding.antt =====
-- On `computeOutstandingRequirements` (ruleset-evaluator.ts).
use brokerplatform.Prelude.{
  ◌≡◌, refl, ap, Bool, true, false, not, String, List, [], ◌∷◌, ◌&&◌, ◌↔◌, any, All, map, filter_by,
  arith, All-map, if◌then◌else◌, subst, ||-mono, sym, ◌∙◌, ltb, leb,
}
use brokerplatform.Db.Schema.{SubjectType}
use brokerplatform.Rulesets.Types.{Fact, Condition, Conditions, SatisfyingOption, RequirementGroup}
use brokerplatform.Rulesets.Evaluator.{
  evaluate_condition, evaluate_every, evaluate_some, is_satisfied, same_subject_type,
  compute_outstanding_requirements, outstanding_item, compare_years,
}

-- The first list is the second with elements left out.
pub data Sublist {A : Type 0} : List A → List A → Type 0 where
  done : Sublist [] []
  skip : {y : A} {xs ys : List A} → Sublist xs ys → Sublist xs (y ∷ ys)
  keep : {x : A} {xs ys : List A} → Sublist xs ys → Sublist (x ∷ xs) (x ∷ ys)

mutual
  unfolding evaluate_condition evaluate_every evaluate_some

  -- A condition asks only for the years of experience.
  evaluate_condition_years :
      (fact more : Fact)
      → more.experience_years ≡ fact.experience_years
      → (c : Condition) → evaluate_condition more c ≡ evaluate_condition fact c
  evaluate_condition_years fact more same Condition.always = refl
  evaluate_condition_years fact more same (Condition.lt v) =
      ap (compare_years (λ years. ltb years v)) same
  evaluate_condition_years fact more same (Condition.gte v) =
      ap (compare_years (λ years. leb v years)) same
  evaluate_condition_years fact more same (Condition.all_of cs) =
      evaluate_every_years fact more same cs
  evaluate_condition_years fact more same (Condition.any_of cs) =
      evaluate_some_years fact more same cs

  evaluate_every_years :
      (fact more : Fact)
      → more.experience_years ≡ fact.experience_years
      → (cs : Conditions) → evaluate_every more cs ≡ evaluate_every fact cs
  evaluate_every_years fact more same Conditions.nil = refl
  evaluate_every_years fact more same (Conditions.cons c cs) =
      let head = evaluate_condition_years fact more same c in
      let rest = evaluate_every_years fact more same cs in ground arith

  evaluate_some_years :
      (fact more : Fact)
      → more.experience_years ≡ fact.experience_years
      → (cs : Conditions) → evaluate_some more cs ≡ evaluate_some fact cs
  evaluate_some_years fact more same Conditions.nil = refl
  evaluate_some_years fact more same (Conditions.cons c cs) =
      let head = evaluate_condition_years fact more same c in
      let rest = evaluate_some_years fact more same cs in ground arith

-- The group applies to the subject, and none of its options is satisfied.
unfoldable pub is_outstanding : Fact → SubjectType → RequirementGroup → Bool
is_outstanding fact subject g =
    same_subject_type g.subject_type subject
    && evaluate_condition fact g.applies_when
    && not (any (is_satisfied fact) g.satisfied_by)

-- The three filters select by one test.
compute_by_is_outstanding :
    (fact : Fact) (subject : SubjectType) (groups : List RequirementGroup)
    → compute_outstanding_requirements groups subject fact
      ≡ map outstanding_item (filter_by (is_outstanding fact subject) groups)
unfolding compute_outstanding_requirements is_outstanding
compute_by_is_outstanding fact subject [] = refl
compute_by_is_outstanding fact subject (g ∷ groups) =
    let rest = compute_by_is_outstanding fact subject groups in ground arith

module _ (fact more : Fact) where
  any-satisfied_mono :
      ((d : String) → fact.has_document d ≡ true → more.has_document d ≡ true)
      → (fact.has_active_association_membership ≡ true
          → more.has_active_association_membership ≡ true)
      → (os : List SatisfyingOption) → any (is_satisfied fact) os ≡ true
      → any (is_satisfied more) os ≡ true
  unfolding is_satisfied
  any-satisfied_mono documents membership [] h = cc
  any-satisfied_mono documents membership (SatisfyingOption.document d ∷ os) h =
      ||-mono _ _ _ _ (documents d) (any-satisfied_mono documents membership os) h
  any-satisfied_mono documents membership (SatisfyingOption.association_membership ∷ os) h =
      ||-mono _ _ _ _ membership (any-satisfied_mono documents membership os) h

Sublist-selected :
    (p q : RequirementGroup → Bool) (groups : List RequirementGroup)
    → ((g : RequirementGroup) → p g ≡ true → q g ≡ true)
    → Sublist
        (map outstanding_item (filter_by p groups))
        (map outstanding_item (filter_by q groups))
Sublist-selected p q [] sub = Sublist.done
Sublist-selected p q (g ∷ groups) sub = choose (p g) (q g) (sub g) (Sublist-selected p q groups sub)
  where
    choose :
        (b c : Bool)
        → (b ≡ true → c ≡ true)
        → Sublist
            (map outstanding_item (filter_by p groups))
            (map outstanding_item (filter_by q groups))
        → Sublist
            (map outstanding_item (if b then g ∷ filter_by p groups else filter_by p groups))
            (map outstanding_item (if c then g ∷ filter_by q groups else filter_by q groups))
    choose true true s rest = Sublist.keep rest
    choose true false s rest = let e = s refl in cc
    choose false true s rest = Sublist.skip rest
    choose false false s rest = rest

-- A broker with the same experience, and with at least the documents and the membership of
-- another, has no requirement outstanding that the other has not, in the same order.
pub outstanding-shrinks :
    (fact more : Fact) (groups : List RequirementGroup) (subject : SubjectType)
    → more.experience_years ≡ fact.experience_years
    → ((d : String) → fact.has_document d ≡ true → more.has_document d ≡ true)
    → (fact.has_active_association_membership ≡ true
        → more.has_active_association_membership ≡ true)
    → Sublist
        (compute_outstanding_requirements groups subject more)
        (compute_outstanding_requirements groups subject fact)
unfolding is_outstanding
outstanding-shrinks fact more groups subject years documents membership =
    subst (λ xs. Sublist xs (compute_outstanding_requirements groups subject fact))
      (sym (compute_by_is_outstanding more subject groups))
      (subst (Sublist (map outstanding_item (filter_by (is_outstanding more subject) groups)))
        (sym (compute_by_is_outstanding fact subject groups))
        (Sublist-selected _ _ groups λ g h.
          let same = evaluate_condition_years fact more years g.applies_when in
          let mono = any-satisfied_mono fact more documents membership g.satisfied_by in
          ground arith))

nothing_selected :
    (p : RequirementGroup → Bool) (groups : List RequirementGroup)
    → (map outstanding_item (filter_by p groups) ≡ []) ↔ All (λ g. p g ≡ false) groups
nothing_selected p [] = (λ h. tt, λ h. refl)
nothing_selected p (g ∷ groups) =
    let (there, back) = nothing_selected p groups in
    (
      λ h. (ground arith, there (ground arith)),
      λ h. let off = h.0 in let rest = back h.1 in ground arith,
    )

-- Nothing is outstanding exactly when each group that applies to the subject has an option that is
-- satisfied.
pub none-outstanding :
    (fact : Fact) (groups : List RequirementGroup) (subject : SubjectType)
    → (compute_outstanding_requirements groups subject fact ≡ [])
      ↔ All
          (λ g.
            same_subject_type g.subject_type subject ≡ true
            → evaluate_condition fact g.applies_when ≡ true
            → any (is_satisfied fact) g.satisfied_by ≡ true)
          groups
unfolding is_outstanding
none-outstanding fact groups subject =
    let (there, back) = nothing_selected (is_outstanding fact subject) groups in
    let same = compute_by_is_outstanding fact subject groups in
    (
      λ h. All-map _ _ groups (λ g off s e. ground arith) (there (sym same ∙ h)),
      λ h. same ∙ back (All-map _ _ groups (λ g on. ground arith) h),
    )
