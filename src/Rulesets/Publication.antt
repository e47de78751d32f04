-- ===== src/Rulesets/Publication.antt =====
-- On `publish` and `resolve` (rulesets.repository.ts).
use brokerplatform.Prelude.{
  ℕ, ◌≡◌, refl, ap, ◌∙◌, Bool, true, false, Option, some, none, List, [], ◌∷◌, ◌&&◌, ◌==◌,
  str_eq_iff, first, filter_by, update_where, arith, inl, inr, Bool-cases, if◌then◌else◌, ◌||◌,
}
use brokerplatform.Db.Context.{
  session_of, Session, as_platform_admin, AuthorizationContext, is_administrative,
}
use brokerplatform.Db.Schema.{RulesetVersion, RulesetKey, RulesetVersionStatus, Db, AuditAction}
use brokerplatform.Db.Errors.{DefinitionFault}
use brokerplatform.Db.Policies.Lifecycle.{ruleset_versions, same_key, is_published}
use brokerplatform.Db.Transaction.{
  Ambient, World, ok, begin, ◌>>=◌, with_authorization_context, conclude,
}
use brokerplatform.Db.Inversion.{
  or_throw_elim, throw_if_elim, now_elim, select_elim, update_elim, returned_inv, insert_inv,
  reader_elim,
}
use brokerplatform.Rulesets.Repository.{
  publish, publish_work, resolve, resolve_work, has_key, is_draft, supersede, fault_error,
  audit_ruleset,
}
use brokerplatform.Audit.{record_audit_event}
use brokerplatform.Rulesets.Validation.{validate_ruleset_definition}
use brokerplatform.Db.Policies.Logs.{audit_log}
use brokerplatform.Db.Policies.{acts_for}

same_key_refl : (k : RulesetKey) → same_key k k ≡ true
unfolding same_key
same_key_refl k =
    let brand = (str_eq_iff k.brand k.brand).1 refl in
    let role = (str_eq_iff k.role k.role).1 refl in
    let scope = (str_eq_iff k.product_scope k.product_scope).1 refl in
    let pathway = (str_eq_iff k.pathway k.pathway).1 refl in ground arith

abbrev pub to_published : ℕ → RulesetVersion → RulesetVersion
to_published t v = record v { status = RulesetVersionStatus.published; published_at = some t }

-- The rows after the two statements of a publication by a platform administrator.
abbrev published_rows : ℕ → RulesetKey → ℕ → List RulesetVersion → List RulesetVersion
published_rows id key t rows =
    update_where (λ v. v.id == id) (to_published t)
      (update_where (λ v. has_key key v && is_published v.status) (supersede id) rows)

abbrev in_force : RulesetKey → RulesetVersion → Bool
in_force key v = has_key key v && is_published v.status

-- A row with another id is not in force after a publication.
other_row-superseded :
    (id : ℕ) (key : RulesetKey) (x : RulesetVersion)
    → in_force key (if has_key key x && is_published x.status then supersede id x else x) ≡ false
other_row-superseded id key x = ground arith

first-in_force :
    (id : ℕ) (t : ℕ) (v : RulesetVersion) (rows : List RulesetVersion)
    → first (filter_by (λ x. x.id == id) rows) ≡ some v
    → is_draft v.status ≡ true
    → first (filter_by (in_force v.key) (published_rows id v.key t rows)) ≡ some (to_published t v)
first-in_force id t v [] found draft = cc
first-in_force id t v (x ∷ rows) found draft = elim (Bool-cases (x.id == id)) [
  | inl met ↦ let own = same_key_refl v.key in let same : x ≡ v = ground arith in ground arith
  | inr unmet ↦
      let rest = first-in_force id t v rows (ground arith) draft in
      let off = other_row-superseded id v.key x in ground arith
]

fault_error_inv :
    (f : Option DefinitionFault) (w : World) {u : Unit {0}} {w' : World}
    → fault_error f w ≡ ok (u, w')
    → (f ≡ none) × (w' ≡ w)
fault_error_inv none w h = (refl, ground arith)
fault_error_inv (some f) w h = cc

audit_ruleset_keeps :
    (ctx : AuthorizationContext) (action : AuditAction) (id : ℕ) (key : RulesetKey) (w : World)
    {u : Unit {0}} {w' : World}
    → audit_ruleset ctx action id key w ≡ ok (u, w')
    → w'.db.ruleset_versions ≡ w.db.ruleset_versions
unfolding audit_ruleset record_audit_event
audit_ruleset_keeps ctx action id key w h =
    now_elim _ w h λ h1. ap (λ x. x.db.ruleset_versions) (insert_inv audit_log _ w h1).2

publish_effect :
    (admin id : ℕ) (ambient : Ambient) (db : Db) {u : Unit {0}} {w' : World}
    → publish_work (as_platform_admin admin) id (begin (as_platform_admin admin) ambient db)
      ≡ ok (u, w')
    → (v : RulesetVersion) × (first (filter_by (λ x. x.id == id) db.ruleset_versions) ≡ some v)
      × (is_draft v.status ≡ true)
      × (validate_ruleset_definition v.definition ≡ none)
      × (w'.db.ruleset_versions ≡ published_rows id v.key ambient.now db.ruleset_versions)
unfolding publish_work
publish_effect admin id ambient db h = select_elim ruleset_versions _ _ _ h λ h1.
    or_throw_elim _ _ _ h1 λ v found h2. throw_if_elim _ _ _ h2 λ draft h3.
      reader_elim _ _ _ h3 (λ u w1 e. (fault_error_inv _ _ e).1)
        λ u checked h4. update_elim ruleset_versions _ _ _ _ h4 λ free h5. now_elim _ _ h5 λ h6.
          update_elim ruleset_versions _ _ _ _ h6 λ free2 h7. (
            v,
            found,
            ground arith,
            (fault_error_inv _ _ checked).0,
            audit_ruleset_keeps (as_platform_admin admin) _ id v.key _ h7,
          )

-- The session may read the rulesets of the organisation.
abbrev pub may_read : Session → ℕ → Bool
may_read s organisation = is_administrative s.actor_type || acts_for s organisation

head_read :
    (a b c : Bool) (v : RulesetVersion) {xs : List RulesetVersion} (ys : List RulesetVersion)
    → a ≡ b
    → xs ≡ (if b then ys else [])
    → (if a && c then v ∷ xs else xs) ≡ (if b then if c then v ∷ ys else ys else [])
head_read true true true v ys e h = ap (λ rows. v ∷ rows) h
head_read true true false v ys e h = h
head_read false false c v ys e h = h
head_read true false c v ys e h = cc
head_read false true c v ys e h = cc

head_off :
    (a b c : Bool) (v : RulesetVersion) {xs : List RulesetVersion} (ys : List RulesetVersion)
    → c ≡ false
    → xs ≡ (if b then ys else [])
    → (if a && c then v ∷ xs else xs) ≡ (if b then if c then v ∷ ys else ys else [])
head_off a b true v ys e h = cc
head_off true b false v ys e h = h
head_off false b false v ys e h = h

either_empty : (b : Bool) → ◌≡◌ {A = List RulesetVersion} [] (if b then [] else [])
either_empty true = refl
either_empty false = refl

-- What a session reads of the versions in force for a key.
readable-in_force :
    (s : Session) (key : RulesetKey) (rows : List RulesetVersion)
    → filter_by (λ v. may_read s v.key.client_organisation_id && in_force key v) rows
      ≡ (if may_read s key.client_organisation_id then filter_by (in_force key) rows else [])
unfolding same_key
readable-in_force s key [] = either_empty (may_read s key.client_organisation_id)
readable-in_force s key (v ∷ rows) =
    let rest = readable-in_force s key rows in
    elim (Bool-cases (has_key key v)) [
      | inl met ↦
          let own : v.key.client_organisation_id ≡ key.client_organisation_id = ground arith in
          let same = ap (may_read s) own in
          head_read (may_read s v.key.client_organisation_id)
            (may_read s key.client_organisation_id) (in_force key v) v
            (filter_by (in_force key) rows) same rest
      | inr unmet ↦
          head_off (may_read s v.key.client_organisation_id) (may_read s key.client_organisation_id)
            (in_force key v) v (filter_by (in_force key) rows) (ground arith) rest
    ]

first_if :
    (b : Bool) (rows : List RulesetVersion)
    → first (if b then rows else []) ≡ (if b then first rows else none)
first_if true rows = refl
first_if false rows = refl

-- A publication by a platform administrator that returned was of a draft whose definition is valid.
-- In the database after it, whoever may read the rulesets of the organisation resolves the key of
-- the version to it, published at that time, and everybody else to nothing.
pub publish-resolve :
    (admin id : ℕ) (reader : AuthorizationContext) (ambient later : Ambient) (db : Db) {db' : Db}
    → publish (as_platform_admin admin) id ambient db ≡ (ok tt, db')
    → (v : RulesetVersion) × (first (filter_by (λ x. x.id == id) db.ruleset_versions) ≡ some v)
      × (is_draft v.status ≡ true)
      × (validate_ruleset_definition v.definition ≡ none)
      × ((resolve reader v.key later db').0
          ≡ ok (
              if may_read (session_of reader) v.key.client_organisation_id
              then some (to_published ambient.now v)
              else none))
unfolding publish resolve resolve_work with_authorization_context conclude ◌>>=◌
publish-resolve admin id reader ambient later db h =
    let (w, done, same) =
      returned_inv (as_platform_admin admin) (publish_work (as_platform_admin admin) id) ambient db
        h in
    let (v, found, draft, valid, rows) = publish_effect admin id ambient db done in
    let may = may_read (session_of reader) v.key.client_organisation_id in
    (
      v,
      found,
      draft,
      valid,
      ap
            (λ rs. ok (
              first (
                filter_by
                  (λ x.
                    may_read (session_of reader) x.key.client_organisation_id && in_force v.key x)
                  rs)))
            (ap (λ d. d.ruleset_versions) same ∙ rows)
          ∙ ap (λ rs. ok (first rs))
              (readable-in_force (session_of reader) v.key
                (published_rows id v.key ambient.now db.ruleset_versions))
          ∙ ap ok (first_if may _)
          ∙ ap (λ o. ok (if may then o else none))
              (first-in_force id ambient.now v db.ruleset_versions found draft),
    )
