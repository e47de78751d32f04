-- ===== src/Db/Keys.antt =====
-- On a table with a primary key: the rows that a statement finds and hits.
use brokerplatform.Prelude.{
  ℕ, ◌≡◌, refl, Bool, true, false, some, List, [], ◌∷◌, ◌==◌, any, All, All-map, any-eq-false,
  first, filter_by, conflict_free, arith, inl, inr, Bool-cases,
}

module _ {R : Type 0} (key : R → ℕ) (conflicts : R → R → Bool)
    (differ : (a b : R) → conflicts a b ≡ false → (key a == key b) ≡ false) where
  pub ids_differ :
      (x : R) (xs : List R) → any (conflicts x) xs ≡ false → All (λ a. (key x == key a) ≡ false) xs
  ids_differ x xs h = All-map _ _ xs (λ a e. differ x a e) (any-eq-false _ xs h)

  -- No row of the selection has an id that differs from all ids.
  none_selected :
      (p : R → Bool) (id : ℕ) (xs : List R)
      → All (λ a. (id == key a) ≡ false) xs
      → any (λ b. key b == id) (filter_by p xs) ≡ false
  none_selected p id [] h = refl
  none_selected p id (x ∷ xs) h = let rest = none_selected p id xs h.1 in ground arith

  -- A row is hit exactly when its id is one of those of the rows that are hit.
  pub hit_iff_id :
      (p : R → Bool) (xs : List R)
      → conflict_free conflicts xs ≡ true
      → All (λ a. any (λ b. key b == key a) (filter_by p xs) ≡ p a) xs
  hit_iff_id p [] free = tt
  hit_iff_id p (x ∷ xs) free =
      let apart = ids_differ x xs (ground arith) in
      let rest = hit_iff_id p xs (ground arith) in
      let away = none_selected p (key x) xs apart in (ground arith, skip xs apart rest)
    where
      skip :
          (ys : List R)
          → All (λ a. (key x == key a) ≡ false) ys
          → All (λ a. any (λ b. key b == key a) (filter_by p xs) ≡ p a) ys
          → All (λ a. any (λ b. key b == key a) (filter_by p (x ∷ xs)) ≡ p a) ys
      skip [] d h = tt
      skip (y ∷ ys) d h = (ground arith, skip ys d.1 h.1)

  -- The row that is found first is the only one with its id.
  pub found_is_only :
      (p : R → Bool) (id : ℕ) (xs : List R) {b : R}
      → ((a : R) → p a ≡ true → (key a == id) ≡ true)
      → conflict_free conflicts xs ≡ true
      → first (filter_by p xs) ≡ some b
      → All (λ a. p a ≡ true → a ≡ b) xs
  found_is_only p id [] same free h = tt
  found_is_only p id (x ∷ xs) {b} same free h = elim (Bool-cases (p x)) [
    | inl met ↦ (
      λ _. ground arith,
      All-map _ _ xs (λ a d pa. let sa = same a pa in let sx = same x met in ground arith)
          (ids_differ x xs (ground arith)),
    )
    | inr unmet ↦ (λ met. cc, found_is_only p id xs same (ground arith) (ground arith))
  ]
