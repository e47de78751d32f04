-- ===== src/Db/Ordering.antt =====
-- `ORDER BY t DESC` and `ORDER BY t ASC`, for a column of times. Rows of one time stay in the order of the table.
use brokerplatform.Prelude.{ℕ, List, [], ◌∷◌, leb, if◌then◌else◌}

module _ {R : Type 0} (t : R → ℕ) where
  unfoldable pub insert_descending : R → List R → List R
  insert_descending r [] = r ∷ []
  insert_descending r (x ∷ xs) =
      let rest = insert_descending r xs in if leb (t x) (t r) then r ∷ x ∷ xs else x ∷ rest

  unfoldable pub order_descending : List R → List R
  unfolding insert_descending
  order_descending [] = []
  order_descending (r ∷ rs) = insert_descending r (order_descending rs)

  unfoldable pub insert_ascending : R → List R → List R
  insert_ascending r [] = r ∷ []
  insert_ascending r (x ∷ xs) =
      let rest = insert_ascending r xs in if leb (t r) (t x) then r ∷ x ∷ xs else x ∷ rest

  unfoldable pub order_ascending : List R → List R
  unfolding insert_ascending
  order_ascending [] = []
  order_ascending (r ∷ rs) = insert_ascending r (order_ascending rs)
