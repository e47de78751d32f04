-- ===== src/Db/Transaction.antt =====
-- `withAuthorizationContext` (src/db/authorization-context.ts), and the statements that a repository
-- runs on its client: select, insert, update, delete and `set_config`. A statement that fails and an error
-- that is thrown end the transaction; none of its changes stays.
use brokerplatform.Prelude.{
  ℕ, suc, Bool, true, false, Option, none, some, List, ◌∷◌, ◌&&◌, String, map, any, all, is_empty,
  filter_by, update_where, conflict_free, not, if◌then◌else◌,
}
use brokerplatform.Db.Context.{ActorType, AuthorizationContext, Session, session_of}
use brokerplatform.Db.Schema.{Db}
use brokerplatform.Db.Policies.{Table}
use brokerplatform.Db.Errors.{Error, row_level_security, unique_violation, not_null_violation}

-- What the code takes from outside, for one transaction: the time that `now()` gives, which is the
-- start of the transaction, the host's clock and its year and month, and the uuids and bytes that
-- `randomUUID()`, `gen_random_uuid()` and `randomBytes(size)` return, in the order of the calls.
pub record Ambient : Type 0 where
  pub now : ℕ
  pub date_now : ℕ
  pub billing_period : String
  pub uuid : ℕ → ℕ
  pub random_bytes : ℕ → ℕ → List ℕ

-- What a running transaction sees.
pub record World : Type 0 where
  pub db : Db
  pub session : Session
  pub ambient : Ambient
  pub drawn : ℕ

pub data Result (A : Type 0) : Type 0 where
  ok : A → Result A
  err : Error → Result A

abbrev pub Tx : Type 0 → Type 0
Tx A = World → Result (A × World)

abbrev pub continue : {A B : Type 0} → Result (A × World) → (A → Tx B) → Result (B × World)
continue (ok (a, w)) f = f a w
continue (err e) f = err e

infixl 5 ◌>>=◌ ◌>>◌
unfoldable pub ◌>>=◌ : {A B : Type 0} → Tx A → (A → Tx B) → Tx B
◌>>=◌ m f w = continue (m w) f

abbrev pub ◌>>◌ : {A B : Type 0} → Tx A → Tx B → Tx B
m >> k = m >>= λ _. k

module _ {A : Type 0} where
  abbrev pub pure : A → Tx A
  pure a w = ok (a, w)

  abbrev pub throw : Error → Tx A
  throw e w = err e

  -- `rows[0]`, or the error that the code throws when there is none.
  abbrev pub or_throw : Option A → Error → Tx A
  or_throw none e = throw e
  or_throw (some a) e = pure a

abbrev pub throw_if : Bool → Error → Tx (Unit {0})
throw_if true e w = err e
throw_if false e w = ok (tt, w)

-- `now()`
abbrev pub now : Tx ℕ
now w = ok (w.ambient.now, w)

abbrev pub random_uuid : Tx ℕ
random_uuid w = ok (w.ambient.uuid w.drawn, record w { drawn = suc w.drawn })

-- `Date.now()`, in seconds
abbrev pub date_now : Tx ℕ
date_now w = ok (w.ambient.date_now, w)

-- `randomBytes(size)`
abbrev pub random_bytes : ℕ → Tx (List ℕ)
random_bytes size w = ok (w.ambient.random_bytes size w.drawn, record w { drawn = suc w.drawn })

-- A unique violation that the code catches, to throw an error of its own.
abbrev pub rethrow_unique : {A : Type 0} → Error → Result A → Result A
rethrow_unique e (ok a) = ok a
rethrow_unique e (err unique_violation) = err e
rethrow_unique e (err other) = err other

abbrev pub catch_unique : {A : Type 0} → Tx A → Error → Tx A
catch_unique m e w = rethrow_unique e (m w)

-- `set_config('app.actor_type', t, true)`
abbrev pub set_actor_type : ActorType → Tx (Unit {0})
set_actor_type t w = ok (tt, record w { session = record w.session { actor_type = t } })

module _ {R : Type 0} (T : Table R) where
  -- The rows that the session sees and that meet the condition.
  abbrev pub seen : Session → Db → (R → Bool) → List R
  seen s db p = filter_by (λ r. T.visible s db r && p r) (T.rows db)

  -- `SELECT * FROM T WHERE p`
  abbrev pub select : (R → Bool) → Tx (List R)
  select p w = ok (seen w.session w.db p, w)

  -- `INSERT INTO T VALUES (r)`
  unfoldable pub insert : R → Tx (Unit {0})
  insert r w =
      if T.insertable w.session w.db r
      then if any (T.conflicts r) (T.rows w.db)
        then err unique_violation
        else ok (tt, record w { db = T.put (r ∷ T.rows w.db) w.db })
      else err row_level_security

  -- The rows that an UPDATE reaches: a statement that reads columns needs both policies.
  abbrev pub reached : Session → Db → (R → Bool) → R → Bool
  reached s db p r = T.visible s db r && T.updatable s db r && p r

  -- `UPDATE T SET f WHERE p RETURNING *`. The check of the new rows against the policies is left
  -- out: the statements change no column that says whose a row is, and whoever may update a row may
  -- see and write its new version too.
  unfoldable pub update : (R → Bool) → (R → R) → Tx (List R)
  update p f w =
      let hit = reached w.session w.db p in
      let rows = update_where hit f (T.rows w.db) in
      if conflict_free T.conflicts rows
      then ok (map f (filter_by hit (T.rows w.db)), record w { db = T.put rows w.db })
      else err unique_violation

  -- What an UPDATE that would write a null to a NOT NULL column does first: it is refused, unless it
  -- reaches no row.
  unfoldable pub refuse_null : (R → Bool) → Bool → Tx (Unit {0})
  refuse_null p null w =
      if null && not (is_empty (filter_by (reached w.session w.db p) (T.rows w.db)))
      then err not_null_violation
      else ok (tt, w)

  -- `DELETE FROM T WHERE p RETURNING *`, on a table whose DELETE policy is its UPDATE policy.
  unfoldable pub delete : (R → Bool) → Tx (List R)
  delete p w =
      let hit = reached w.session w.db p in
      let rows = filter_by (λ r. not (hit r)) (T.rows w.db) in
      ok (filter_by hit (T.rows w.db), record w { db = T.put rows w.db })

module _ {R : Type 0} (T : Table R) where
  -- `INSERT … ON CONFLICT DO NOTHING`
  unfoldable pub insert_or_ignore : R → Tx (Unit {0})
  unfolding insert
  insert_or_ignore r w =
      if any (T.conflicts r) (T.rows w.db)
      then if T.insertable w.session w.db r then ok (tt, w) else err row_level_security
      else insert T r w

  -- `INSERT … ON CONFLICT DO UPDATE SET f`. A row in conflict that the session may not see or
  -- update is an error here, where an UPDATE would pass it over.
  unfoldable pub upsert : R → (R → R) → Tx (Unit {0})
  unfolding insert
  upsert r f w =
      let clash = filter_by (T.conflicts r) (T.rows w.db) in
      let allowed = λ (old : R). T.visible w.session w.db old && T.updatable w.session w.db old in
      let rows = update_where (T.conflicts r) f (T.rows w.db) in
      if is_empty clash
      then insert T r w
      else if T.insertable w.session w.db r && all allowed clash
      then if conflict_free T.conflicts rows
        then ok (tt, record w { db = T.put rows w.db })
        else err unique_violation
      else err row_level_security

-- How a transaction ends: COMMIT, with the database that the work has left, or ROLLBACK.
unfoldable pub conclude : {A : Type 0} → Db → Result (A × World) → Result A × Db
conclude db (ok (a, w)) = (ok a, w.db)
conclude db (err e) = (err e, db)

-- An exported function of a repository: it runs on the database as it stands, at some time.
abbrev pub Call : Type 0 → Type 0
Call A = Ambient → Db → Result A × Db

abbrev pub begin : AuthorizationContext → Ambient → Db → World
begin ctx ambient db = record { db = db; session = session_of ctx; ambient = ambient; drawn = 0 }

unfoldable pub with_authorization_context : {A : Type 0} → AuthorizationContext → Tx A → Call A
unfolding conclude
with_authorization_context ctx work ambient db = conclude db (work (begin ctx ambient db))
