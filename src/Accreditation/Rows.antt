-- ===== src/Accreditation/Rows.antt =====
-- On the unique index and the primary key of accreditations (migration 0024).
use brokerplatform.Prelude.{
  ℕ, ◌≡◌, Bool, true, false, some, List, ◌==◌, any, All, first, filter_by, conflict_free, arith,
}
use brokerplatform.Db.Schema.{Accreditation}
use brokerplatform.Db.Policies.Lifecycle.{accreditations_conflict}
use brokerplatform.Db.Keys

differ-id : (a b : Accreditation) → accreditations_conflict a b ≡ false → (a.id == b.id) ≡ false
unfolding accreditations_conflict
differ-id a b h = ground arith

pub ids_differ :
    (x : Accreditation) (xs : List Accreditation)
    → any (accreditations_conflict x) xs ≡ false
    → All (λ a. (x.id == a.id) ≡ false) xs
ids_differ = Keys.ids_differ (λ a. a.id) accreditations_conflict differ-id

-- A row is hit exactly when its id is one of those of the rows that are hit.
pub hit_iff_id :
    (p : Accreditation → Bool) (xs : List Accreditation)
    → conflict_free accreditations_conflict xs ≡ true
    → All (λ a. any (λ b. b.id == a.id) (filter_by p xs) ≡ p a) xs
hit_iff_id = Keys.hit_iff_id (λ a. a.id) accreditations_conflict differ-id

-- The row that is found first is the only one with its id.
pub found_is_only :
    (p : Accreditation → Bool) (id : ℕ) (xs : List Accreditation) {b : Accreditation}
    → ((a : Accreditation) → p a ≡ true → (a.id == id) ≡ true)
    → conflict_free accreditations_conflict xs ≡ true
    → first (filter_by p xs) ≡ some b
    → All (λ a. p a ≡ true → a ≡ b) xs
found_is_only p id xs same free h =
    Keys.found_is_only (λ a. a.id) accreditations_conflict differ-id p id xs same free h
