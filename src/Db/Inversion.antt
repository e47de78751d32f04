-- ===== src/Db/Inversion.antt =====
-- What a statement has done when it did not fail: one lemma for each statement, and one to take a
-- `do` block apart.
use brokerplatform.Prelude.{
  ℕ, suc, ◌≡◌, refl, subst, Bool, true, false, Option, none, some, List, ◌∷◌, arith, any,
  update_where, filter_by, map, ◌⊎◌, inl, inr, if◌then◌else◌, conflict_free, is_empty, Bool-cases,
}
use brokerplatform.Db.Context.{ActorType, AuthorizationContext}
use brokerplatform.Db.Policies.{Table}
use brokerplatform.Db.Errors.{Error}
use brokerplatform.Db.Transaction.{
  Tx, World, Result, ok, err, ◌>>=◌, continue, or_throw, throw_if, reached, seen, now, pure,
  set_actor_type, random_uuid, date_now, random_bytes, select, insert, update,
  with_authorization_context, conclude, Ambient, begin, upsert,
}
use brokerplatform.Db.Schema.{Db}

continue_inv :
    {A B : Type 0} (r : Result (A × World)) (f : A → Tx B) {b : B} {w'' : World}
    → continue r f ≡ ok (b, w'')
    → (a : A) × (w' : World) × (r ≡ ok (a, w')) × (f a w' ≡ ok (b, w''))
continue_inv (ok (a, w)) f h = (a, w, refl, h)
continue_inv (err e) f h = cc

pub bind_inv :
    {A B : Type 0} (m : Tx A) (f : A → Tx B) (w : World) {b : B} {w'' : World}
    → (m >>= f) w ≡ ok (b, w'')
    → (a : A) × (w' : World) × (m w ≡ ok (a, w')) × (f a w' ≡ ok (b, w''))
unfolding ◌>>=◌
bind_inv m f w h = continue_inv (m w) f h

-- To read a `do` block that has returned: the first statement has returned, and so has the rest.
pub bind_elim {ℓ} :
    {A B : Type 0} {G : Type ℓ} (m : Tx A) (f : A → Tx B) (w : World) {r : B × World}
    → (m >>= f) w ≡ ok r
    → ((a : A) (w' : World) → m w ≡ ok (a, w') → f a w' ≡ ok r → G)
    → G
bind_elim m f w {r = (b, w'')} h k = let (a, w', e, h') = bind_inv m f w h in k a w' e h'

-- The same where the first statement is known to leave `w'` behind.
pub move_to :
    {A B : Type 0} (f : A → Tx B) (a : A) {u v : World} {r : B × World}
    → u ≡ v
    → f a u ≡ ok r
    → f a v ≡ ok r
move_to f a {v} {r} e h = subst (λ x. f a x ≡ ok r) e h

-- The rule for a statement that changes nothing.
pub reader_elim {ℓ} :
    {A B : Type 0} {G : Type ℓ} (m : Tx A) (f : A → Tx B) (w : World) {r : B × World}
    → (m >>= f) w ≡ ok r
    → ((a : A) (w' : World) → m w ≡ ok (a, w') → w' ≡ w)
    → ((a : A) → m w ≡ ok (a, w) → f a w ≡ ok r → G)
    → G
reader_elim m f w h keeps k =
    bind_elim m f w h
      λ a w' e q. k a (subst (λ x. m w ≡ ok (a, x)) (keeps a w' e) e) (move_to f a (keeps a w' e) q)

pub if_inv :
    {A : Type 0} (b : Bool) (m n : Tx A) (w : World) {r : A × World}
    → (if b then m else n) w ≡ ok r
    → ((b ≡ true) × (m w ≡ ok r)) ⊎ ((b ≡ false) × (n w ≡ ok r))
if_inv true m n w h = inl (refl, h)
if_inv false m n w h = inr (refl, h)

pub throw_if_inv :
    (b : Bool) (e : Error) (w : World) {u : Unit {0}} {w' : World}
    → throw_if b e w ≡ ok (u, w')
    → (b ≡ false) × (w' ≡ w)
throw_if_inv true e w h = cc
throw_if_inv false e w h = (refl, ground arith)

pub or_throw_inv :
    {A : Type 0} (o : Option A) (e : Error) (w : World) {a : A} {w' : World}
    → or_throw o e w ≡ ok (a, w')
    → (o ≡ some a) × (w' ≡ w)
or_throw_inv none e w h = cc
or_throw_inv (some a) e w h = (ground arith, ground arith)

module _ {R : Type 0} (T : Table R) where
  pub insert_inv :
      (r : R) (w : World) {u : Unit {0}} {w' : World}
      → insert T r w ≡ ok (u, w')
      → (T.insertable w.session w.db r ≡ true)
        × (any (T.conflicts r) (T.rows w.db) ≡ false)
        × (w' ≡ record w { db = T.put (r ∷ T.rows w.db) w.db })
  unfolding insert
  insert_inv r w h = (ground arith, ground arith, ground arith)

  pub update_inv :
      (p : R → Bool) (f : R → R) (w : World) {rs : List R} {w' : World}
      → update T p f w ≡ ok (rs, w')
      → let rows = update_where (reached T w.session w.db p) f (T.rows w.db) in
        (rs ≡ map f (filter_by (reached T w.session w.db p) (T.rows w.db)))
        × (conflict_free T.conflicts rows ≡ true)
        × (w' ≡ record w { db = T.put rows w.db })
  unfolding update
  update_inv p f w h = (ground arith, ground arith, ground arith)

-- The rules for the statements, one for each: what the rest of the block runs on.
module _ {ℓ} {B : Type 0} {G : Type ℓ} where
  pub throw_if_elim :
      {b : Bool} (e : Error) (f : Unit {0} → Tx B) (w : World) {r : B × World}
      → (throw_if b e >>= f) w ≡ ok r
      → (b ≡ false → f tt w ≡ ok r → G)
      → G
  throw_if_elim {b} e f w h k =
      bind_elim _ f w h
        λ u w' p q. let (off, same) = throw_if_inv b e w p in k off (move_to f tt same q)

  pub or_throw_elim :
      {A : Type 0} {o : Option A} (e : Error) (f : A → Tx B) (w : World) {r : B × World}
      → (or_throw o e >>= f) w ≡ ok r
      → ((a : A) → o ≡ some a → f a w ≡ ok r → G)
      → G
  or_throw_elim {o} e f w h k =
      bind_elim _ f w h
        λ a w' p q. let (found, same) = or_throw_inv o e w p in k a found (move_to f a same q)

  pub now_elim :
      (f : ℕ → Tx B) (w : World) {r : B × World}
      → (now >>= f) w ≡ ok r
      → (f w.ambient.now w ≡ ok r → G)
      → G
  unfolding ◌>>=◌
  now_elim f w h k = k h

  pub set_actor_type_elim :
      {t : ActorType} (f : Unit {0} → Tx B) (w : World) {r : B × World}
      → (set_actor_type t >>= f) w ≡ ok r
      → (f tt (record w { session = record w.session { actor_type = t } }) ≡ ok r → G)
      → G
  unfolding ◌>>=◌
  set_actor_type_elim f w h k = k h

  pub random_uuid_elim :
      (f : ℕ → Tx B) (w : World) {r : B × World}
      → (random_uuid >>= f) w ≡ ok r
      → (f (w.ambient.uuid w.drawn) (record w { drawn = suc w.drawn }) ≡ ok r → G)
      → G
  unfolding ◌>>=◌
  random_uuid_elim f w h k = k h

  pub date_now_elim :
      (f : ℕ → Tx B) (w : World) {r : B × World}
      → (date_now >>= f) w ≡ ok r
      → (f w.ambient.date_now w ≡ ok r → G)
      → G
  unfolding ◌>>=◌
  date_now_elim f w h k = k h

  pub random_bytes_elim :
      {size : ℕ} (f : List ℕ → Tx B) (w : World) {r : B × World}
      → (random_bytes size >>= f) w ≡ ok r
      → (f (w.ambient.random_bytes size w.drawn) (record w { drawn = suc w.drawn }) ≡ ok r → G)
      → G
  unfolding ◌>>=◌
  random_bytes_elim f w h k = k h

module _ {ℓ} {B R : Type 0} {G : Type ℓ} (T : Table R) where
  pub select_elim :
      (p : R → Bool) (f : List R → Tx B) (w : World) {r : B × World}
      → (select T p >>= f) w ≡ ok r
      → (f (seen T w.session w.db p) w ≡ ok r → G)
      → G
  unfolding ◌>>=◌
  select_elim p f w h k = k h

  pub insert_elim :
      {row : R} (f : Unit {0} → Tx B) (w : World) {r : B × World}
      → (insert T row >>= f) w ≡ ok r
      → (T.insertable w.session w.db row ≡ true
          → any (T.conflicts row) (T.rows w.db) ≡ false
          → f tt (record w { db = T.put (row ∷ T.rows w.db) w.db }) ≡ ok r
          → G)
      → G
  insert_elim {row} f w h k =
      bind_elim _ f w h λ u w' p q.
        let (may, fresh, same) = insert_inv T row w p in k may fresh (move_to f tt same q)

  pub update_elim :
      (p : R → Bool) (g : R → R) (f : List R → Tx B) (w : World) {r : B × World}
      → (update T p g >>= f) w ≡ ok r
      → let hit = reached T w.session w.db p in
        let rows = update_where hit g (T.rows w.db) in
        (conflict_free T.conflicts rows ≡ true
          → f (map g (filter_by hit (T.rows w.db))) (record w { db = T.put rows w.db }) ≡ ok r
          → G)
        → G
  update_elim p g f w {r} h k = bind_elim _ f w h λ rs w' e q.
      let (returned, free, same) = update_inv T p g w e in
      k free (move_to f _ same (subst (λ x. f x w' ≡ ok r) returned q))

settle_result {ℓ} :
    {A : Type 0} (P : Db → Type ℓ) (db : Db) (r : Result (A × World))
    → P db
    → ((a : A) (w : World) → r ≡ ok (a, w) → P w.db)
    → P (conclude db r).1
unfolding conclude
settle_result P db (ok (a, w)) kept done = done a w refl
settle_result P db (err e) kept done = kept

-- A property of the database after a transaction: it holds of the database before, for the case
-- that the work throws, and of the one that the work leaves when it returns.
pub settle {ℓ} :
    {A : Type 0} (P : Db → Type ℓ) (ctx : AuthorizationContext) (work : Tx A) (ambient : Ambient)
    (db : Db)
    → P db
    → ((a : A) (w : World) → work (begin ctx ambient db) ≡ ok (a, w) → P w.db)
    → P (with_authorization_context ctx work ambient db).1
unfolding with_authorization_context
settle P ctx work ambient db kept done = settle_result P db (work (begin ctx ambient db)) kept done

returned_result :
    {A : Type 0} (db : Db) (r : Result (A × World)) {a : A} {db' : Db}
    → conclude db r ≡ (ok a, db')
    → (w : World) × (r ≡ ok (a, w)) × (db' ≡ w.db)
unfolding conclude
returned_result db (ok (b, w)) h = (w, ground arith, ground arith)
returned_result db (err e) h = cc

-- A function that returned has run its work to the end.
pub returned_inv :
    {A : Type 0} (ctx : AuthorizationContext) (work : Tx A) (ambient : Ambient) (db : Db) {a : A}
    {db' : Db}
    → with_authorization_context ctx work ambient db ≡ (ok a, db')
    → (w : World) × (work (begin ctx ambient db) ≡ ok (a, w)) × (db' ≡ w.db)
unfolding with_authorization_context
returned_inv ctx work ambient db h = returned_result db (work (begin ctx ambient db)) h

-- The end of a block: what holds of the value and the world holds of what was returned.
pub pure_elim {ℓ} :
    {B : Type 0} (P : B × World → Type ℓ) {a : B} {w : World} {r : B × World}
    → pure a w ≡ ok r
    → P (a, w)
    → P r
pure_elim P {a} {w} {r} h p = let e : (a, w) ≡ r = ground arith in subst P e p

-- An upsert that returned has inserted its row, or has changed the rows in conflict with it.
pub upsert_inv :
    {R : Type 0} (T : Table R) (r : R) (f : R → R) (w : World) {u : Unit {0}} {w' : World}
    → upsert T r f w ≡ ok (u, w')
    → let clash = is_empty (filter_by (T.conflicts r) (T.rows w.db)) in
      ((clash ≡ true) × (w' ≡ record w { db = T.put (r ∷ T.rows w.db) w.db }))
      ⊎ ((clash ≡ false)
          × (w' ≡ record w { db = T.put (update_where (T.conflicts r) f (T.rows w.db)) w.db }))
unfolding upsert insert
upsert_inv T r f w h = elim (Bool-cases (is_empty (filter_by (T.conflicts r) (T.rows w.db)))) [
  | inl none_there ↦ inl (none_there, ground arith)
  | inr some_there ↦ inr (some_there, ground arith)
]
