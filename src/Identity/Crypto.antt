-- ===== src/Identity/Crypto.antt =====
-- The hashes and the encryption of identity.repository.ts. Node's crypto and its encodings are
-- parameters.
use Prim.Native.Char.{Char, code}
use brokerplatform.Prelude.{
  ℕ, Bool, true, false, ◌&&◌, ◌==◌, Option, none, some, List, [], ◌∷◌, String, ◌<>◌, length,
  if◌then◌else◌,
}

abbrev pub Bytes : Type 0
Bytes = List ℕ

-- What the module uses of node's crypto, of Buffer, of String and of the environment. Bytes
-- are numbers here, and no function of it looks at their size.
pub record Node : Type 0 where
  -- `scryptSync(plain, salt, 64)`
  pub scrypt : String → Bytes → Bytes
  -- `toString('hex')` and `Buffer.from(_, 'hex')`
  pub to_hex : Bytes → String
  pub from_hex : String → Bytes
  pub to_base64url : Bytes → String
  -- `createHash('sha256').update(_).digest()`
  pub sha256 : String → Bytes
  -- 'aes-256-gcm' by key, iv and text: the ciphertext and the tag. The key that the environment
  -- gives is taken to be of the right length, since `createCipheriv` throws on another.
  pub encrypt : Bytes → Bytes → String → Bytes × Bytes
  -- By key, iv, ciphertext and tag; `none` where `final()` throws.
  pub decrypt : Bytes → Bytes → Bytes → Bytes → Option String
  pub to_lower_case : String → String
  -- `env.auth`
  pub mfa_encryption_key : String
  pub refresh_ttl_days : ℕ

-- The parts that `split(':')` gives, with a character before the first.
unfoldable pub prepend : Char → List String → List String
prepend c [] = []
prepend c (s ∷ parts) = String.◌∷◌ c s ∷ parts

-- `split(':')`
unfoldable pub split_colon : String → List String
unfolding prepend
split_colon String.[] = "" ∷ []
split_colon (String.◌∷◌ c s) =
    let parts = split_colon s in if code c == b':' then "" ∷ parts else prepend c parts

abbrev pub bytes_eq : Bytes → Bytes → Bool
bytes_eq [] [] = true
bytes_eq (a ∷ bs) (b ∷ cs) = a == b && bytes_eq bs cs
bytes_eq bs cs = false

-- `timingSafeEqual`, which throws on buffers of different lengths.
abbrev pub timing_safe_equal : Bytes → Bytes → Option Bool
timing_safe_equal a b = if length a == length b then some (bytes_eq a b) else none

module _ (node : Node) where
  -- `hashPassword`, with the salt that it draws.
  unfoldable pub hash_password : String → Bytes → String
  hash_password plain salt = node.to_hex salt <> (":" <> node.to_hex (node.scrypt plain salt))

  -- `Buffer.from(undefined, 'hex')` throws.
  abbrev pub verify_parts : String → List String → Option Bool
  verify_parts plain (salt ∷ hash ∷ rest) =
      timing_safe_equal (node.scrypt plain (node.from_hex salt)) (node.from_hex hash)
  verify_parts plain parts = none

  -- `verifyPassword`; `none` where it throws.
  unfoldable pub verify_password : String → String → Option Bool
  verify_password plain stored = verify_parts plain (split_colon stored)

  -- `hashOpaqueToken`
  unfoldable pub hash_opaque_token : String → String
  hash_opaque_token token = node.to_hex (node.sha256 token)

  -- `hashBackupCode`
  unfoldable pub hash_backup_code : String → String
  hash_backup_code code = node.to_hex (node.sha256 code)

  -- `mfaEncryptionKey`
  abbrev pub mfa_encryption_key : Bytes
  mfa_encryption_key = node.from_hex node.mfa_encryption_key

  -- `encryptSecret`, with the iv that it draws.
  unfoldable pub encrypt_secret : String → Bytes → String
  encrypt_secret plain iv =
      let (ciphertext, tag) = node.encrypt mfa_encryption_key iv plain in
      node.to_hex iv <> (":" <> (node.to_hex ciphertext <> (":" <> node.to_hex tag)))

  abbrev pub decrypt_parts : List String → Option String
  decrypt_parts (iv ∷ ciphertext ∷ tag ∷ rest) =
      node.decrypt mfa_encryption_key (node.from_hex iv) (node.from_hex ciphertext)
        (node.from_hex tag)
  decrypt_parts parts = none

  -- `decryptSecret`; `none` where it throws.
  unfoldable pub decrypt_secret : String → Option String
  decrypt_secret encrypted = decrypt_parts (split_colon encrypted)
