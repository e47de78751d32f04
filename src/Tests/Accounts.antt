-- ===== src/Tests/Accounts.antt =====
-- The identity module on a small database, with encodings that stand for node's.
use Prim.Native.Char.{code}
use Prim.Native.String.{String, len}
use brokerplatform.Prelude.{
  zero, suc, ◌++◌, ℕ, ◌≡◌, refl, true, false, none, some, List, [], ◌∷◌, arith, ◌+◌, ◌==◌, ap,
  if◌then◌else◌, str_eq, any,
}
use brokerplatform.Identity.Hashes.{IsNode}
use brokerplatform.Identity.Crypto.{Node, split_colon, prepend}

-- A byte as so many letters `a` and one `b`.
abbrev letters : ℕ → String → String
letters zero s = String.◌∷◌ "b" s
letters (suc n) s = String.◌∷◌ "a" (letters n s)

abbrev hex : List ℕ → String
hex [] = ""
hex (n ∷ bytes) = letters n (hex bytes)

abbrev unhex : ℕ → String → List ℕ
unhex n String.[] = []
unhex n (String.◌∷◌ c s) = elim (code c == b'a') [ true ↦ unhex (suc n) s | false ↦ n ∷ unhex 0 s ]

abbrev codes : String → List ℕ
codes String.[] = []
codes (String.◌∷◌ c s) = code c ∷ codes s

abbrev pub node : Node
node = record {
  scrypt = λ plain salt. codes plain ++ salt;
  to_hex = hex;
  from_hex = unhex 0;
  to_base64url = hex;
  sha256 = λ s. len s ∷ [];
  encrypt = λ key iv plain. (if str_eq plain "otp" then 1 ∷ [] else 2 ∷ [], iv);
  decrypt = λ key iv text tag. if any (λ b. b == 1) text then some "otp" else none;
  to_lower_case = λ s. s;
  mfa_encryption_key = "ab";
  refresh_ttl_days = 30;
}

unhex-letters : (k n : ℕ) (s : String) → unhex k (letters n s) ≡ (k + n) ∷ unhex 0 s
unhex-letters k zero s = ground arith
unhex-letters k (suc n) s = let rest = unhex-letters (suc k) n s in ground arith

unhex-hex : (b : List ℕ) → unhex 0 (hex b) ≡ b
unhex-hex [] = refl
unhex-hex (n ∷ b) = let first = unhex-letters 0 n (hex b) in let rest = unhex-hex b in ground arith

split-letters :
    (n : ℕ) (s : String) → split_colon s ≡ s ∷ [] → split_colon (letters n s) ≡ letters n s ∷ []
unfolding split_colon prepend
split-letters zero s h = ap (prepend "b") h
split-letters (suc n) s h = ap (prepend "a") (split-letters n s h)

split-hex : (b : List ℕ) → split_colon (hex b) ≡ hex b ∷ []
unfolding split_colon
split-hex [] = refl
split-hex (n ∷ b) = split-letters n (hex b) (split-hex b)

pub node-IsNode : IsNode node
node-IsNode = record { hex_whole = split-hex; hex_back = unhex-hex }
