-- ===== src/Brokers/Completeness.antt =====
-- `computeOutstandingItems` and `assertEditable` of brokers.repository.ts.
use brokerplatform.Prelude.{
  ℕ, Bool, true, false, none, some, [], List, String, Option, ◌++◌, str_eq, if◌then◌else◌, not,
  is_some, ◌==◌,
}
use brokerplatform.Db.Schema.{BrokerProfile, ProfileStatus}
use brokerplatform.Db.Transaction.{Tx, throw_if}
use brokerplatform.Db.Errors.{OutstandingItem, of_broker, not_editable}
use brokerplatform.Businesses.Completeness.{item_if, is_missing, lacks_address}

-- `status === 'draft' || status === 'attention_required'`
abbrev pub is_editable_profile : ProfileStatus → Bool
is_editable_profile ProfileStatus.draft = true
is_editable_profile ProfileStatus.attention_required = true
is_editable_profile other = false

-- `assertEditable`
abbrev pub assert_editable_profile : ProfileStatus → Tx (Unit {0})
assert_editable_profile s = throw_if (not (is_editable_profile s)) (of_broker (not_editable s))

-- `licence_type_held === text`
abbrev pub holds_licence : Option String → String → Bool
holds_licence none text = false
holds_licence (some s) text = str_eq s text

-- What the licence that the broker holds asks for.
unfoldable pub licence_items : BrokerProfile → List OutstandingItem
licence_items p =
    if holds_licence p.licence_type_held "own_credit_licence"
    then item_if (is_missing p.credit_licence_number) "creditLicenceNumber"
        "Credit licence number is required when you hold your own credit licence."
    else if holds_licence p.licence_type_held "credit_representative"
    then item_if (is_missing p.credit_representative_number) "creditRepresentativeNumber"
        "Credit representative number is required."
      ++ (item_if (is_missing p.licensing_entity_name) "licensingEntityName"
            "The name of the entity holding your licence is required."
          ++ item_if (is_missing p.licensing_entity_number) "licensingEntityNumber"
              "The licence number of the entity holding your licence is required.")
    else []

-- `computeOutstandingItems`
unfoldable pub compute_outstanding_items : BrokerProfile → ℕ → List OutstandingItem
unfolding licence_items
compute_outstanding_items p memberships =
    item_if (is_missing (some p.first_name)) "firstName" "First name is required."
    ++ (item_if (is_missing (some p.last_name)) "lastName" "Last name is required."
        ++ (item_if (is_missing p.date_of_birth) "dateOfBirth" "Date of birth is required."
            ++ (item_if (is_missing p.phone_number) "phoneNumber" "Phone number is required."
                ++ (item_if (is_missing p.mobile_number) "mobileNumber" "Mobile number is required."
                    ++ (item_if (not (is_some p.experience_years)) "experienceYears"
                          "Years of experience is required."
                        ++ (item_if (lacks_address p.address) "address"
                              "Residential address (line 1, city, postcode, state) is required."
                            ++ (item_if (is_missing p.licence_type_held) "licenceTypeHeld"
                                  "Licence type held is required."
                                ++ (licence_items p
                                    ++ (item_if (memberships == 0) "associationMemberships"
                                          "At least one association membership is required."
                                        ++ item_if (not (is_some p.attested_terms_at))
                                            "attestedTermsAt"
                                            "You must attest to the privacy policy and terms before submitting.")))))))))
