-- ===== src/Evidence/Coverage.antt =====
-- On `computeDocumentOutstandingItems` (evidence.repository.ts): what is asked for, and when.
use brokerplatform.Prelude.{
  ℕ, ◌≡◌, refl, ap, ◌∙◌, Bool, true, false, not, Option, none, some, List, [], ◌∷◌, ◌++◌, String,
  str_eq, Option-cases, all, arith, inl, inr, Bool-cases, All, ◌↔◌, ◌&&◌,
}
use brokerplatform.Db.Schema.{SubjectType}
use brokerplatform.Evidence.Catalogue.{
  CurrentDocument, DocumentCatalogEntry, DocumentOutstandingItem, document_of_type, is_expired,
  outstanding_of, outstanding_each, compute_document_outstanding_items, catalog_for_subject_type,
}

-- The last of the documents of a type has not expired.
abbrev pub IsCovered : ℕ → String → List CurrentDocument → Type 0
IsCovered now type docs =
    (before after : List CurrentDocument) × (d : CurrentDocument) × (docs ≡ before ++ (d ∷ after))
    × (str_eq d.document_type type ≡ true)
    × All (λ x. str_eq x.document_type type ≡ false) after
    × (is_expired now d.expiry_date ≡ false)

-- No item asks for a document of the type.
abbrev pub asks_none_of : String → List DocumentOutstandingItem → Bool
asks_none_of type items = all (λ item. not (str_eq item.field type)) items

none_of_type :
    (type : String) (docs : List CurrentDocument)
    → document_of_type type docs ≡ none
    → All (λ x. str_eq x.document_type type ≡ false) docs
unfolding document_of_type
none_of_type type [] h = tt
none_of_type type (x ∷ docs) h = elim (Option-cases (document_of_type type docs)) [
  | inl gone ↦ (ground arith, none_of_type type docs gone)
  | inr (d, found) ↦ ground arith
]

absent_type :
    (type : String) (docs : List CurrentDocument)
    → All (λ x. str_eq x.document_type type ≡ false) docs
    → document_of_type type docs ≡ none
unfolding document_of_type
absent_type type [] h = refl
absent_type type (x ∷ docs) h =
    let rest = absent_type type docs h.1 in let other = h.0 in ground arith

last_of_type :
    (type : String) (before : List CurrentDocument) (d : CurrentDocument)
    (after : List CurrentDocument)
    → str_eq d.document_type type ≡ true
    → All (λ x. str_eq x.document_type type ≡ false) after
    → document_of_type type (before ++ (d ∷ after)) ≡ some d
unfolding document_of_type
last_of_type type [] d after own others = let rest = absent_type type after others in ground arith
last_of_type type (x ∷ before) d after own others =
    let rest = last_of_type type before d after own others in ground arith

found_of_type :
    (type : String) (docs : List CurrentDocument) (d : CurrentDocument)
    → document_of_type type docs ≡ some d
    → (before after : List CurrentDocument) × (docs ≡ before ++ (d ∷ after))
      × (str_eq d.document_type type ≡ true)
      × All (λ x. str_eq x.document_type type ≡ false) after
unfolding document_of_type
found_of_type type [] d h = cc
found_of_type type (x ∷ docs) d h = elim (Option-cases (document_of_type type docs)) [
  | inl gone ↦ ([], docs, ground arith, ground arith, none_of_type type docs gone)
  | inr (y, found) ↦
      let same : y ≡ d = ground arith in
      let (before, after, split, own, others) = found_of_type type docs d (ground arith) in
      (x ∷ before, after, ap (λ l. x ∷ l) split, own, others)
]

-- The documents cover a type when the one that counts is there and valid.
IsCovered-found :
    (now : ℕ) (type : String) (docs : List CurrentDocument)
    → IsCovered now type docs
    → (d : CurrentDocument) × (document_of_type type docs ≡ some d)
      × (is_expired now d.expiry_date ≡ false)
IsCovered-found now type docs (before, after, d, split, own, others, valid) =
    (d, ap (document_of_type type) split ∙ last_of_type type before d after own others, valid)

found-IsCovered :
    (now : ℕ) (type : String) (docs : List CurrentDocument) (d : CurrentDocument)
    → document_of_type type docs ≡ some d
    → is_expired now d.expiry_date ≡ false
    → IsCovered now type docs
found-IsCovered now type docs d found valid =
    let (before, after, split, own, others) = found_of_type type docs d found in
    (before, after, d, split, own, others, valid)

-- What an entry asks for, by the document that counts.
asked_if_own :
    (now : ℕ) (type : String) (e : DocumentCatalogEntry) (o : Option CurrentDocument)
    → asks_none_of type (outstanding_of now e o) ≡ true
    → str_eq e.document_type type ≡ true
    → (d : CurrentDocument) × (o ≡ some d) × (is_expired now d.expiry_date ≡ false)
unfolding outstanding_of
asked_if_own now type e none h own = ground arith
asked_if_own now type e (some d) h own = (d, refl, ground arith)

unasked_if_valid :
    (now : ℕ) (type : String) (e : DocumentCatalogEntry) (o : Option CurrentDocument)
    → (str_eq e.document_type type ≡ true
        → (d : CurrentDocument) × (o ≡ some d) × (is_expired now d.expiry_date ≡ false))
    → asks_none_of type (outstanding_of now e o) ≡ true
unfolding outstanding_of
unasked_if_valid now type e o h = elim (Bool-cases (str_eq e.document_type type)) [
  | inl own ↦ let (d, there, valid) = h own in ground arith
  | inr other ↦ by_document o other
]
  where
    by_document :
        (o : Option CurrentDocument)
        → str_eq e.document_type type ≡ false
        → asks_none_of type (outstanding_of now e o) ≡ true
    by_document none other = ground arith
    by_document (some d) other = ground arith

asks_none_of-append :
    (type : String) (xs ys : List DocumentOutstandingItem)
    → asks_none_of type (xs ++ ys) ≡ (asks_none_of type xs && asks_none_of type ys)
asks_none_of-append type [] ys = refl
asks_none_of-append type (x ∷ xs) ys = let rest = asks_none_of-append type xs ys in ground arith

-- Every required entry of the type has its document.
abbrev EveryCovered :
    ℕ → String → List DocumentCatalogEntry → List CurrentDocument → Option ℕ → Type 0
EveryCovered now type es docs years =
    All
      (λ e.
        str_eq e.document_type type ≡ true
        → e.is_required years ≡ true
        → IsCovered now e.document_type docs)
      es

each_unasked-EveryCovered :
    (now : ℕ) (type : String) (es : List DocumentCatalogEntry) (docs : List CurrentDocument)
    (years : Option ℕ)
    → asks_none_of type (outstanding_each now es docs years) ≡ true
    → EveryCovered now type es docs years
unfolding outstanding_each
each_unasked-EveryCovered now type [] docs years h = tt
each_unasked-EveryCovered now type (e ∷ es) docs years h = (
  (λ own required.
      let joined =
        asks_none_of-append type (outstanding_of now e (document_of_type e.document_type docs))
          (outstanding_each now es docs years) in
      let (d, found, valid) =
        asked_if_own now type e (document_of_type e.document_type docs) (ground arith) own in
      found-IsCovered now e.document_type docs d found valid),
  each_unasked-EveryCovered now type es docs years (
      let joined =
        asks_none_of-append type (outstanding_of now e (document_of_type e.document_type docs))
          (outstanding_each now es docs years) in
      ground arith),
)

EveryCovered-each_unasked :
    (now : ℕ) (type : String) (es : List DocumentCatalogEntry) (docs : List CurrentDocument)
    (years : Option ℕ)
    → EveryCovered now type es docs years
    → asks_none_of type (outstanding_each now es docs years) ≡ true
unfolding outstanding_each
EveryCovered-each_unasked now type [] docs years h = refl
EveryCovered-each_unasked now type (e ∷ es) docs years h =
    let rest = EveryCovered-each_unasked now type es docs years h.1 in
    let joined =
      asks_none_of-append type (outstanding_of now e (document_of_type e.document_type docs))
        (outstanding_each now es docs years) in
    elim (Bool-cases (e.is_required years)) [
      | inl required ↦
          let unasked =
            unasked_if_valid now type e (document_of_type e.document_type docs)
              (λ own. IsCovered-found now e.document_type docs (h.0 own required)) in
          ground arith
      | inr optional ↦ ground arith
    ]

-- No item asks for a document of a type exactly when, for every catalogue entry of the subject with
-- that type that is required at the years of experience, there is a document of the type and the
-- last one has not expired.
pub compute_document_outstanding_items-IsCovered :
    (now : ℕ) (type : String) (subject : SubjectType) (docs : List CurrentDocument)
    (years : Option ℕ)
    → (asks_none_of type (compute_document_outstanding_items now subject docs years) ≡ true)
      ↔ All
          (λ e.
            str_eq e.document_type type ≡ true
            → e.is_required years ≡ true
            → IsCovered now e.document_type docs)
          (catalog_for_subject_type subject)
unfolding compute_document_outstanding_items
compute_document_outstanding_items-IsCovered now type subject docs years = (
  each_unasked-EveryCovered now type (catalog_for_subject_type subject) docs years,
  EveryCovered-each_unasked now type (catalog_for_subject_type subject) docs years,
)
