-- ===== src/Identity/Recovery.antt =====
-- The secrets and the backup codes of client users, from one function of identity.repository.ts to
-- the next.
use brokerplatform.Prelude.{
  ℕ, ◌≡◌, refl, false, none, some, List, [], ◌∷◌, String, arith, map, first, filter_by, ◌==◌,
  update_where, inl, inr, is_empty, Bool-cases, ap, ◌∙◌,
}
use brokerplatform.Identity.Crypto.{Node, Bytes, encrypt_secret, hash_backup_code, decrypt_secret}
use brokerplatform.Identity.Mfa.{
  save_mfa_enrollment_work, enrollment_row, save_mfa_enrollment, get_mfa_credential,
  get_mfa_credential_work, credential_of,
}
use brokerplatform.Db.Schema.{MfaSecret, Db}
use brokerplatform.Db.Transaction.{
  World, ok, ◌>>=◌, with_authorization_context, conclude, Ambient, begin, seen,
}
use brokerplatform.Db.Inversion.{random_bytes_elim, upsert_inv, returned_inv}
use brokerplatform.Db.Policies.Sessions.{client_user_mfa_secrets}
use brokerplatform.Identity.Hashes.{IsNode, decrypt_secret-encrypt_secret, Decrypts}
use brokerplatform.Db.Context.{as_system, session_of}

module _ (node : Node) where
  -- A row that holds an enrolment which is not confirmed.
  abbrev IsPending : ℕ → String → List String → Bytes → MfaSecret → Type 0
  IsPending user secret codes iv m =
      (m.secret_encrypted ≡ encrypt_secret node secret iv)
      × (m.backup_codes_hash ≡ map (hash_backup_code node) codes)
      × (m.enrolled_at ≡ none)

  saved_row :
      (user : ℕ) (secret : String) (codes : List String) (iv : Bytes) (rows : List MfaSecret)
      → is_empty (filter_by (λ a. user == a.client_user_id) rows) ≡ false
      → (m : MfaSecret) × (first (
            filter_by
              (λ a. a.client_user_id == user)
              (update_where
                (λ a. user == a.client_user_id)
                (λ old. record old {
                  secret_encrypted = encrypt_secret node secret iv;
                  backup_codes_hash = map (hash_backup_code node) codes;
                  enrolled_at = none;
                })
                rows))
          ≡ some m)
        × IsPending user secret codes iv m
  saved_row user secret codes iv [] there = cc
  saved_row user secret codes iv (a ∷ rows) there = elim (Bool-cases (user == a.client_user_id)) [
    | inl met ↦ (
      record a {
        secret_encrypted = encrypt_secret node secret iv;
        backup_codes_hash = map (hash_backup_code node) codes;
        enrolled_at = none;
      },
      ground arith,
      (refl, refl, refl),
    )
    | inr unmet ↦
        let (m, found, pending) = saved_row user secret codes iv rows (ground arith) in
        (m, ground arith, pending)
  ]

  save_lem :
      (user : ℕ) (secret : String) (codes : List String) (w : World) {u : Unit {0}} {w' : World}
      → save_mfa_enrollment_work node user secret codes w ≡ ok (u, w')
      → (iv : Bytes) × (m : MfaSecret) × (first
            (filter_by (λ a. a.client_user_id == user) w'.db.client_user_mfa_secrets)
          ≡ some m)
        × IsPending user secret codes iv m
  unfolding save_mfa_enrollment_work
  save_lem user secret codes w h = random_bytes_elim _ w h λ h1.
      let iv = w.ambient.random_bytes 12 w.drawn in
      elim (upsert_inv client_user_mfa_secrets _ _ _ h1) [
        | inl (blank, same) ↦
            (iv, enrollment_row node user secret codes iv, ground arith, (refl, refl, refl))
        | inr (there, same) ↦
            let (m, found, pending) =
              saved_row user secret codes iv w.db.client_user_mfa_secrets there in
            (iv, m, ground arith, pending)
      ]

  credential_runs :
      (user : ℕ) (secret : String) (codes : List String) (iv : Bytes) (m : MfaSecret) (w : World)
      → IsNode node
      → Decrypts node secret
      → IsPending user secret codes iv m
      → credential_of node (some m) w
        ≡ ok (
          some (record {
            secret = secret;
            backup_codes_hash = map (hash_backup_code node) codes;
            enrolled = false;
          }),
          w,
        )
  unfolding ◌>>=◌
  credential_runs user secret codes iv m w laws decrypts (text, hashes, open_) =
      let back =
        ap (decrypt_secret node) text
        ∙ decrypt_secret-encrypt_secret node laws secret iv decrypts in
      ground arith

  -- After an enrolment was saved, whether it is the first one or not, the credential of the client
  -- user holds the secret and the hashes of the codes, and is not confirmed.
  pub save_mfa_enrollment-get_mfa_credential :
      (laws : IsNode node) (user : ℕ) (secret : String) (codes : List String) (t t' : Ambient)
      (db : Db) {db' : Db}
      → Decrypts node secret
      → save_mfa_enrollment node user secret codes t db ≡ (ok tt, db')
      → (get_mfa_credential node user t' db').0
        ≡ ok (
            some (record {
              secret = secret;
              backup_codes_hash = map (hash_backup_code node) codes;
              enrolled = false;
            }))
  unfolding save_mfa_enrollment get_mfa_credential get_mfa_credential_work
      with_authorization_context conclude ◌>>=◌
  save_mfa_enrollment-get_mfa_credential laws user secret codes t t' db {db'} decrypts h =
      let (w, runs, same) =
        returned_inv as_system (save_mfa_enrollment_work node user secret codes) t db h in
      let (iv, m, found, pending) = save_lem user secret codes (begin as_system t db) runs in
      let read : first (
            seen client_user_mfa_secrets (session_of as_system) db' (λ a. a.client_user_id == user))
          ≡ some m =
        ap (λ (x : Db). first (filter_by (λ a. a.client_user_id == user) x.client_user_mfa_secrets))
          same
        ∙ found in
      ap (λ o. (conclude db' (credential_of node o (begin as_system t' db'))).0) read
      ∙ ap (λ r. (conclude db' r).0)
          (credential_runs user secret codes iv m (begin as_system t' db') laws decrypts pending)
