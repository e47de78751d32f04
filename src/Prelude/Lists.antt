-- ===== src/Prelude/Lists.antt =====
-- Rows of a table as a list: selection, update in place, and tests over all rows.
use Prim.Native.Nat.{ℕ, suc}
use mathlib.Core.Path.{◌≡◌, refl, sym, subst}
use mathlib.Core.Logic.{inl, inr}
use mathlib.Core.Bool.{Bool, true, false, not, ◌&&◌, ◌||◌}
use mathlib.Core.Option.{Option, none, some}
use mathlib.Core.List.{List, [], ◌∷◌, map}
use native.Mathlib.Omega.{arith}
use brokerplatform.Prelude.Tests.{if◌then◌else◌, Bool-cases}

module _ {ℓ} {A : Type ℓ} where
  abbrev pub length : List A → ℕ
  length [] = 0
  length (x ∷ xs) = suc (length xs)

  -- The elements that pass the test, in order.
  abbrev pub filter_by : (A → Bool) → List A → List A
  filter_by p [] = []
  filter_by p (x ∷ xs) = if p x then x ∷ filter_by p xs else filter_by p xs

  abbrev pub any : (A → Bool) → List A → Bool
  any p [] = false
  any p (x ∷ xs) = p x || any p xs

  abbrev pub all : (A → Bool) → List A → Bool
  all p [] = true
  all p (x ∷ xs) = p x && all p xs

  abbrev pub first : List A → Option A
  first [] = none
  first (x ∷ xs) = some x

  abbrev pub is_empty : List A → Bool
  is_empty [] = true
  is_empty (x ∷ xs) = false

  -- Changes the elements that pass the test.
  abbrev pub update_where : (A → Bool) → (A → A) → List A → List A
  update_where p f [] = []
  update_where p f (x ∷ xs) = (if p x then f x else x) ∷ update_where p f xs

  -- No two elements are in conflict.
  abbrev pub conflict_free : (A → A → Bool) → List A → Bool
  conflict_free c [] = true
  conflict_free c (x ∷ xs) = not (any (c x) xs) && conflict_free c xs

  abbrev pub All {κ} : (A → Type κ) → List A → Type κ
  All P [] = Unit
  All P (x ∷ xs) = P x × All P xs

  pub All-map {κ μ} :
      (P : A → Type κ) (Q : A → Type μ) (xs : List A) → ((x : A) → P x → Q x) → All P xs → All Q xs
  All-map P Q [] h a = tt
  All-map P Q (x ∷ xs) h a = (h x a.0, All-map P Q xs h a.1)

  -- What `any` found to be absent is absent from every element.
  pub any-eq-false : (p : A → Bool) (xs : List A) → any p xs ≡ false → All (λ x. p x ≡ false) xs
  any-eq-false p [] h = tt
  any-eq-false p (x ∷ xs) h = (ground arith, any-eq-false p xs (ground arith))

  pub All-both {κ μ} :
      (P : A → Type κ) (Q : A → Type μ) (xs : List A)
      → All P xs
      → All Q xs
      → All (λ x. P x × Q x) xs
  All-both P Q [] p q = tt
  All-both P Q (x ∷ xs) p q = ((p.0, q.0), All-both P Q xs p.1 q.1)

  -- What holds of every element after an update, from what held before it.
  pub All-update_where {κ μ} :
      (P : A → Type κ) (Q : A → Type μ) (hit : A → Bool) (g : A → A) (xs : List A)
      → ((x : A) → P x → Q (if hit x then g x else x))
      → All P xs
      → All Q (update_where hit g xs)
  All-update_where P Q hit g [] h a = tt
  All-update_where P Q hit g (x ∷ xs) h a = (h x a.0, All-update_where P Q hit g xs h a.1)

  -- An update whose hits fail a test, before and after it, keeps the elements that meet the test.
  pub filter_by-update_where :
      (q hit : A → Bool) (g : A → A) (xs : List A)
      → ((x : A) → hit x ≡ true → (q x ≡ false) × (q (g x) ≡ false))
      → filter_by q (update_where hit g xs) ≡ filter_by q xs
  filter_by-update_where q hit g [] h = refl
  filter_by-update_where q hit g (x ∷ xs) h =
      let outside = h x in let rest = filter_by-update_where q hit g xs h in ground arith

  -- A selection consists of elements of the list that meet the test.
  pub All-filter_by {κ} :
      (P : A → Type κ) (p : A → Bool) (xs : List A)
      → All P xs
      → All (λ x. P x × (p x ≡ true)) (filter_by p xs)
  All-filter_by P p [] h = tt
  All-filter_by P p (x ∷ xs) h = keep (p x) refl (All-filter_by P p xs h.1)
    where
      keep :
          (b : Bool)
          → p x ≡ b
          → All (λ y. P y × (p y ≡ true)) (filter_by p xs)
          → All (λ y. P y × (p y ≡ true)) (if b then x ∷ filter_by p xs else filter_by p xs)
      keep true e rest = ((h.0, e), rest)
      keep false e rest = rest

  -- Two tests that agree on the elements select the same ones.
  pub filter_by-cong :
      (p q : A → Bool) (xs : List A) → All (λ x. p x ≡ q x) xs → filter_by p xs ≡ filter_by q xs
  filter_by-cong p q [] h = refl
  filter_by-cong p q (x ∷ xs) h =
      let e = h.0 in let rest = filter_by-cong p q xs h.1 in ground arith

  -- An element that meets a test shows that some element does.
  pub any_self :
      (P : A → Bool) (Q : A → A → Bool) (xs : List A)
      → ((a : A) → P a ≡ true → Q a a ≡ true)
      → All (λ a. P a ≡ true → any (Q a) xs ≡ true) xs
  any_self P Q [] h = tt
  any_self P Q (x ∷ xs) h = (
    λ e. let s = h x e in ground arith,
    All-map _ _ xs (λ a f e. let r = f e in ground arith) (any_self P Q xs h),
  )

  pub all-eq-true : (p : A → Bool) (xs : List A) → all p xs ≡ true → All (λ x. p x ≡ true) xs
  all-eq-true p [] h = tt
  all-eq-true p (x ∷ xs) h = (ground arith, all-eq-true p xs (ground arith))

  -- A test that all elements meet is met by all of a selection.
  pub all-filter_by :
      (q p : A → Bool) (xs : List A) → all q xs ≡ true → all q (filter_by p xs) ≡ true
  all-filter_by q p [] h = refl
  all-filter_by q p (x ∷ xs) h = let rest = all-filter_by q p xs (ground arith) in ground arith

  pub All-intro {κ} : (P : A → Type κ) (xs : List A) → ((x : A) → P x) → All P xs
  All-intro P [] h = tt
  All-intro P (x ∷ xs) h = (h x, All-intro P xs h)

  -- Of an element that is found first, a test that holds more often finds one that meets a third.
  pub hit_of_found :
      (p q r : A → Bool) (xs : List A) {b : A}
      → ((a : A) → p a ≡ true → (q a ≡ true) × (r a ≡ true))
      → first (filter_by p xs) ≡ some b
      → any r (filter_by q xs) ≡ true
  hit_of_found p q r [] sub h = cc
  hit_of_found p q r (x ∷ xs) {b} sub h = elim (Bool-cases (p x)) [
    | inl met ↦ let s = sub x met in ground arith
    | inr unmet ↦ let rest = hit_of_found p q r xs {b = b} sub (ground arith) in ground arith
  ]

  -- An update that keeps a test keeps the elements that meet it.
  pub any-update_where :
      (p hit : A → Bool) (f : A → A) (xs : List A)
      → ((x : A) → p x ≡ true → p (f x) ≡ true)
      → any p xs ≡ true
      → any p (update_where hit f xs) ≡ true
  any-update_where p hit f [] keep h = h
  any-update_where p hit f (x ∷ xs) keep h =
      ground (arith, keep x, any-update_where p hit f xs keep)

  any-conflict :
      (c : A → A → Bool) (hit : A → Bool) (f : A → A) (x : A) (xs : List A)
      → ((a b : A) → c a (f b) ≡ c a b)
      → any (c x) (update_where hit f xs) ≡ any (c x) xs
  any-conflict c hit f x [] right = refl
  any-conflict c hit f x (y ∷ ys) right =
      let same = right x y in let rest = any-conflict c hit f x ys right in ground arith

  any-left :
      (c : A → A → Bool) (f : A → A) (x : A) (xs : List A)
      → ((a b : A) → c (f a) b ≡ c a b)
      → any (c (f x)) xs ≡ any (c x) xs
  any-left c f x [] left = refl
  any-left c f x (y ∷ ys) left =
      let same = left x y in let rest = any-left c f x ys left in ground arith

  -- An update that leaves the columns of the indexes alone breaks none of them.
  pub conflict_free-update_where :
      (c : A → A → Bool) (hit : A → Bool) (f : A → A) (xs : List A)
      → ((a b : A) → c (f a) b ≡ c a b)
      → ((a b : A) → c a (f b) ≡ c a b)
      → conflict_free c (update_where hit f xs) ≡ conflict_free c xs
  conflict_free-update_where c hit f [] left right = refl
  conflict_free-update_where c hit f (x ∷ xs) left right =
      let rest = conflict_free-update_where c hit f xs left right in
      let moved = any-conflict c hit f x xs right in
      let changed = any-conflict c hit f (f x) xs right in
      let same = any-left c f x xs left in ground arith

  pub any_mono :
      (p q : A → Bool) (xs : List A)
      → ((a : A) → p a ≡ true → q a ≡ true)
      → any p xs ≡ true
      → any q xs ≡ true
  any_mono p q [] sub h = h
  any_mono p q (x ∷ xs) sub h = ground (arith, sub x, any_mono p q xs sub)

  pub any-never : (xs : List A) → any (λ _. false) xs ≡ false
  any-never [] = refl
  any-never (x ∷ xs) = any-never xs

  -- What holds of all elements holds of the one that is found.
  pub All-found {κ} :
      (P : A → Type κ) (p : A → Bool) (xs : List A) {b : A}
      → All P xs
      → first (filter_by p xs) ≡ some b
      → P b × (p b ≡ true)
  All-found P p [] all h = cc
  All-found P p (x ∷ xs) {b} all h = elim (Bool-cases (p x)) [
    | inl met ↦ let same : x ≡ b = ground arith in subst (λ y. P y × (p y ≡ true)) same (all.0, met)
    | inr unmet ↦ All-found P p xs all.1 (ground arith)
  ]

  -- An update that hits the element that is found leaves its new version.
  pub any-hit :
      (p hit q : A → Bool) (f : A → A) (xs : List A) {b : A}
      → first (filter_by p xs) ≡ some b
      → hit b ≡ true
      → q (f b) ≡ true
      → any q (update_where hit f xs) ≡ true
  any-hit p hit q f [] h m k = cc
  any-hit p hit q f (x ∷ xs) {b} h m k = elim (Bool-cases (p x)) [
    | inl met ↦
        let same : x ≡ b = ground arith in
        let there =
          subst (λ y. (if hit y then q (f y) else false) ≡ true) (sym same) (ground arith) in
        ground arith
    | inr unmet ↦ let rest = any-hit p hit q f xs {b = b} (ground arith) m k in ground arith
  ]

  -- Where two elements that pass a test are in conflict, the one that is found is every such one.
  pub found_unique :
      (c : A → A → Bool) (p q : A → Bool) (xs : List A)
      → ((a b : A) → p a ≡ true → p b ≡ true → c a b ≡ true)
      → conflict_free c xs ≡ true
      → any (λ a. p a && q a) xs ≡ true
      → (b : A) × (first (filter_by p xs) ≡ some b) × (q b ≡ true) × (p b ≡ true)
  found_unique c p q [] clash free h = cc
  found_unique c p q (x ∷ xs) clash free h = elim (Bool-cases (p x)) [
    | inl met ↦
        let twice = any_mono (λ a. p a && q a) (c x) xs (λ a e. ground (arith, clash x a)) in
        (x, ground arith, ground arith, met)
    | inr unmet ↦
        let (b, found, other, same) = found_unique c p q xs clash (ground arith) (ground arith) in
        (b, ground arith, other, same)
  ]

  pub filter_by_none :
      (p : A → Bool) (xs : List A) → All (λ a. p a ≡ false) xs → filter_by p xs ≡ []
  filter_by_none p [] h = refl
  filter_by_none p (x ∷ xs) h = let e = h.0 in let rest = filter_by_none p xs h.1 in ground arith

  -- Where two elements that pass a test are in conflict and one of them fails another test, no
  -- element passes both.
  pub none_passes :
      (c : A → A → Bool) (p q r : A → Bool) (xs : List A)
      → ((a b : A) → p a ≡ true → p b ≡ true → c a b ≡ true)
      → ((a : A) → q a ≡ true → r a ≡ false)
      → conflict_free c xs ≡ true
      → any (λ a. p a && q a) xs ≡ true
      → filter_by (λ a. p a && r a) xs ≡ []
  none_passes c p q r [] clash apart free h = refl
  none_passes c p q r (x ∷ xs) clash apart free h = elim (Bool-cases (p x)) [
    | inl met ↦
        let twice = any_mono (λ a. p a && q a) (c x) xs (λ a e. ground (arith, clash x a)) in
        let alone = any-eq-false (c x) xs (ground arith) in
        let rest =
          filter_by_none (λ a. p a && r a) xs
            (All-map _ _ xs (λ a e. ground (arith, clash x a)) alone) in
        let out = apart x (ground arith) in ground arith
    | inr unmet ↦
        let rest = none_passes c p q r xs clash apart (ground arith) (ground arith) in ground arith
  ]

  -- The elements that an update hits, after it, when it keeps the test.
  pub filter_by-updated :
      (p : A → Bool) (f : A → A) (xs : List A)
      → ((a : A) → p (f a) ≡ p a)
      → filter_by p (update_where p f xs) ≡ map f (filter_by p xs)
  filter_by-updated p f [] h = refl
  filter_by-updated p f (x ∷ xs) h =
      let same = h x in let rest = filter_by-updated p f xs h in ground arith

  -- The same where the test is only kept of the elements that the update hits.
  pub any-update_hit :
      (p hit : A → Bool) (f : A → A) (xs : List A)
      → ((x : A) → hit x ≡ true → p x ≡ true → p (f x) ≡ true)
      → any p xs ≡ true
      → any p (update_where hit f xs) ≡ true
  any-update_hit p hit f [] keep h = h
  any-update_hit p hit f (x ∷ xs) keep h = ground (arith, keep x, any-update_hit p hit f xs keep)
