-- ===== src/Businesses/Completeness.antt =====
-- `computeBusinessOutstandingItems` and `assertEditable` of businesses.repository.ts.
use brokerplatform.Prelude.{
  ℕ, Bool, true, false, none, some, [], ◌∷◌, List, String, Option, ◌++◌, str_eq, ◌||◌, ◌&&◌, not,
  is_some, ◌==◌,
}
use brokerplatform.Db.Schema.{BusinessStatus, Address, BusinessEntityType, BrokerBusiness}
use brokerplatform.Db.Errors.{OutstandingItem, of_business, not_editable}
use brokerplatform.Db.Transaction.{Tx, throw_if}

-- `status === 'draft' || status === 'attention_required'`
abbrev pub is_editable : BusinessStatus → Bool
is_editable BusinessStatus.draft = true
is_editable BusinessStatus.attention_required = true
is_editable other = false

-- `assertEditable`
abbrev pub assert_editable : BusinessStatus → Tx (Unit {0})
assert_editable s = throw_if (not (is_editable s)) (of_business (not_editable s))

-- `value === null || value === ''`, and the same as `!value` of a text.
abbrev pub is_missing : Option String → Bool
is_missing none = true
is_missing (some s) = str_eq s ""

-- `!a || !a.line1 || !a.city || !a.postcode || !a.state`
abbrev pub lacks_address : Option Address → Bool
lacks_address none = true
lacks_address (some a) =
    is_missing a.line1 || is_missing a.city || is_missing a.postcode || is_missing a.state

abbrev pub is_trust : BusinessEntityType → Bool
is_trust BusinessEntityType.trust = true
is_trust other = false

-- An item, if the condition holds.
abbrev pub item_if : Bool → String → String → List OutstandingItem
item_if true field reason = record { field = field; reason = reason } ∷ []
item_if false field reason = []

-- `computeBusinessOutstandingItems`
unfoldable pub compute_business_outstanding_items : BrokerBusiness → ℕ → List OutstandingItem
compute_business_outstanding_items b principals =
    item_if (is_missing (some b.legal_name)) "legalName" "Legal entity name is required."
    ++ (item_if (is_missing b.abn && is_missing b.acn) "registrationNumber"
          "An ABN or ACN is required."
        ++ (item_if (not (is_some b.gst_registered)) "gstRegistered"
              "GST registration status is required."
            ++ (item_if (is_missing b.business_email) "businessEmail" "Business email is required."
                ++ (item_if (lacks_address b.address) "address"
                      "Business address (line 1, city, postcode, state) is required."
                    ++ (item_if (is_trust b.entity_type && is_missing b.trustee_name) "trusteeName"
                          "Trustee name is required for a trust."
                        ++ item_if (principals == 0) "principals"
                            "At least one principal is required.")))))
