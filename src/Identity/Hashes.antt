-- ===== src/Identity/Hashes.antt =====
-- Passwords and secrets of identity.repository.ts, from the hash or the ciphertext back.
use Prim.Native.Char.{Char, code}
use brokerplatform.Prelude.{
  ◌≡◌, refl, Bool, true, false, some, List, [], ◌∷◌, String, arith, ◌<>◌, ap, ◌∙◌, ◌==◌,
  if◌then◌else◌,
}
use brokerplatform.Identity.Crypto.{
  prepend, Node, split_colon, Bytes, verify_password, bytes_eq, decrypt_secret, timing_safe_equal,
  hash_password, verify_parts, encrypt_secret, mfa_encryption_key, decrypt_parts,
}
use Prim.Native.String.append

-- What is documented of node's encodings: hex has no colon and is read back.
pub record IsNode (node : Node) : Type 0 where
  pub hex_whole : (b : Bytes) → split_colon (node.to_hex b) ≡ node.to_hex b ∷ []
  pub hex_back : (b : Bytes) → node.from_hex (node.to_hex b) ≡ b

-- What is documented of AES, at one text: it decrypts with the key and the iv of the encryption.
abbrev pub Decrypts : Node → String → Type 0
Decrypts node plain =
    (key iv : Bytes)
    → node.decrypt key iv (node.encrypt key iv plain).0 (node.encrypt key iv plain).1 ≡ some plain

tail_of : String → String
tail_of String.[] = String.[]
tail_of (String.◌∷◌ c s) = s

head_of : List String → String
head_of [] = ""
head_of (s ∷ parts) = s

prepend_inv :
    (c : Char) (s : String) (parts : List String)
    → prepend c parts ≡ String.◌∷◌ c s ∷ []
    → parts ≡ s ∷ []
unfolding prepend tail_of head_of
prepend_inv c s [] h = ground arith
prepend_inv c s (p ∷ []) h = ap (λ l. tail_of (head_of l) ∷ []) h
prepend_inv c s (p ∷ q ∷ parts) h = ground arith

colon_join : (t : String) → split_colon (":" <> t) ≡ "" ∷ split_colon t
unfolding split_colon
colon_join t =
    ap split_colon (append.cons _ String.[] t) ∙ ap (λ s. "" ∷ split_colon s) (append.nil t)

is_blank : String → Bool
is_blank String.[] = true
is_blank (String.◌∷◌ c s) = false

join_step :
    (colon : Bool) (c : Char) (s t : String) (parts rest : List String)
    → (if colon then "" ∷ parts else prepend c parts) ≡ String.◌∷◌ c s ∷ []
    → (parts ≡ s ∷ [] → rest ≡ s ∷ split_colon t)
    → (if colon then "" ∷ rest else prepend c rest) ≡ String.◌∷◌ c s ∷ split_colon t
unfolding prepend is_blank head_of
join_step true c s t parts rest h f = absurd (ground (arith, ap (λ l. is_blank (head_of l)) h))
join_step false c s t parts rest h f = ap (prepend c) (f (prepend_inv c s parts h))

split_colon-join :
    (s t : String) → split_colon s ≡ s ∷ [] → split_colon (s <> (":" <> t)) ≡ s ∷ split_colon t
unfolding split_colon
split_colon-join String.[] t h = ap split_colon (append.nil (":" <> t)) ∙ colon_join t
split_colon-join (String.◌∷◌ c s) t h =
    ap split_colon (append.cons c s (":" <> t))
    ∙ join_step (code c == b':') c s t (split_colon s) (split_colon (s <> (":" <> t))) h
        (λ whole. split_colon-join s t whole)

bytes_eq_refl : (b : Bytes) → bytes_eq b b ≡ true
bytes_eq_refl [] = refl
bytes_eq_refl (a ∷ b) = let rest = bytes_eq_refl b in ground arith

timing_safe_equal_refl : (b : Bytes) → timing_safe_equal b b ≡ some true
timing_safe_equal_refl b = let same = bytes_eq_refl b in ground arith

module _ (node : Node) (laws : IsNode node) where
  split-hash :
      (plain : String) (salt : Bytes)
      → split_colon (hash_password node plain salt)
        ≡ node.to_hex salt ∷ node.to_hex (node.scrypt plain salt) ∷ []
  unfolding hash_password
  split-hash plain salt =
      split_colon-join (node.to_hex salt) (node.to_hex (node.scrypt plain salt))
        (laws.hex_whole salt)
      ∙ ap (λ l. node.to_hex salt ∷ l) (laws.hex_whole (node.scrypt plain salt))

  -- `verifyPassword` on what `hashPassword` stored compares the derived keys, with the salt that
  -- was drawn.
  pub verify_password-hash_password :
      (tried plain : String) (salt : Bytes)
      → verify_password node tried (hash_password node plain salt)
        ≡ timing_safe_equal (node.scrypt tried salt) (node.scrypt plain salt)
  unfolding verify_password
  verify_password-hash_password tried plain salt =
      ap (verify_parts node tried) (split-hash plain salt)
      ∙ ap
          (λ b.
            timing_safe_equal (node.scrypt tried b)
              (node.from_hex (node.to_hex (node.scrypt plain salt))))
          (laws.hex_back salt)
      ∙ ap (timing_safe_equal (node.scrypt tried salt)) (laws.hex_back (node.scrypt plain salt))

  pub verify_password-same :
      (plain : String) (salt : Bytes)
      → verify_password node plain (hash_password node plain salt) ≡ some true
  verify_password-same plain salt =
      verify_password-hash_password plain plain salt
      ∙ timing_safe_equal_refl (node.scrypt plain salt)

  -- `decryptSecret` gives back what `encryptSecret` encrypted.
  pub decrypt_secret-encrypt_secret :
      (plain : String) (iv : Bytes)
      → Decrypts node plain
      → decrypt_secret node (encrypt_secret node plain iv) ≡ some plain
  unfolding decrypt_secret encrypt_secret
  decrypt_secret-encrypt_secret plain iv decrypts =
      let key = mfa_encryption_key node in
      let text = (node.encrypt key iv plain).0 in
      let tag = (node.encrypt key iv plain).1 in
      ap (decrypt_parts node) (
        split_colon-join (node.to_hex iv) (node.to_hex text <> (":" <> node.to_hex tag))
          (laws.hex_whole iv)
        ∙ ap (λ l. node.to_hex iv ∷ l)
            (split_colon-join (node.to_hex text) (node.to_hex tag) (laws.hex_whole text)
              ∙ ap (λ l. node.to_hex text ∷ l) (laws.hex_whole tag)))
      ∙ ap
          (λ b.
            node.decrypt key b (node.from_hex (node.to_hex text)) (node.from_hex (node.to_hex tag)))
          (laws.hex_back iv)
      ∙ ap (λ b. node.decrypt key iv b (node.from_hex (node.to_hex tag))) (laws.hex_back text)
      ∙ ap (node.decrypt key iv text) (laws.hex_back tag)
      ∙ decrypts key iv
