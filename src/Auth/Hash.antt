-- ===== src/Auth/Hash.antt =====
-- astroplant-auth/src/hash.rs: the texts in which password hashes are stored. The key derivation,
-- Base64 and the printing of a number are parameters, and the random salt of a user's hash is an
-- argument. A byte array is the list of its bytes.
use astroplant_api.Prelude.{
  ℕ, ◌≡◌, Text, codes, Bool, true, false, ◌&&◌, Option, none, some, List, [], ◌∷◌, ◌++◌, ◌==◌,
  if◌then◌else◌, length, Result, ok, err, ◌>>=◌, ◌>>◌, ok_or, guard,
}
use astroplant_api.Prelude.Equality.{◌≟◌, nat_eq, list_eq}
use astroplant_api.Prelude.Split.{split, join, Lacks}
use astroplant_api.Auth.RandomString.{Panic, string}
pub mod Checks
pub mod Sample
mod Examples

-- The code of '$'.
abbrev pub dollar : ℕ
dollar = 36

pub data HashVersion : Type 0 where
  v1 : HashVersion

abbrev pub take_to_dollar : Text → Text
take_to_dollar [] = []
take_to_dollar (c ∷ cs) = let rest = take_to_dollar cs in if c == dollar then [] else c ∷ rest

-- HashVersion::from_hash
unfoldable pub from_hash : Text → Option HashVersion
from_hash hash = if take_to_dollar hash ≟ codes "1" then some v1 else none

pub record V1Hash : Type 0 where
  pub salt : List ℕ
  pub hash : List ℕ

pub record Crypto : Type 0 where
  pub pbkdf2 : (password : Text) → (salt : List ℕ) → (iterations : ℕ) → List ℕ
  pub encode : List ℕ → Text
  pub decode : Text → Option (List ℕ)

-- The derived key has 256 bits, and Base64 decodes what it encodes and has no '$'.
pub record IsCrypto (k : Crypto) : Type 0 where
  pub key_length :
      (password : Text) (salt : List ℕ) (iterations : ℕ)
      → length (k.pbkdf2 password salt iterations) ≡ 32
  pub decodes : (bytes : List ℕ) → k.decode (k.encode bytes) ≡ some bytes
  pub no_dollar : (bytes : List ℕ) → Lacks dollar (k.encode bytes)

-- PBKDF2_ITERATIONS
abbrev pub iterations : ℕ
iterations = 15000

module _ (k : Crypto) where
  -- V1Hash::hash_password
  abbrev pub hash_password : (salt : List ℕ) → Text → V1Hash
  hash_password salt password = record { salt = salt; hash = k.pbkdf2 password salt iterations }

  -- V1Hash::check
  abbrev pub check : V1Hash → Text → Bool
  check h password = k.pbkdf2 password h.salt iterations ≟ h.hash

  abbrev pub of_hash_parts : List Text → Result (Unit {0}) V1Hash
  of_hash_parts (version ∷ salt ∷ hash ∷ []) = do
    guard (version ≟ codes "1") tt
    vec_salt ← ok_or (k.decode salt) tt
    vec_hash ← ok_or (k.decode hash) tt
    guard (length vec_salt == 16) tt
    guard (length vec_hash == 32) tt
    ok (record { salt = vec_salt; hash = vec_hash })
  of_hash_parts _ = err tt

  -- V1Hash::from_str
  unfoldable pub from_str : Text → Result (Unit {0}) V1Hash
  from_str s = of_hash_parts (split dollar s)

  -- V1Hash::to_string
  unfoldable pub to_string : V1Hash → Text
  to_string h = join dollar (codes "1" ∷ k.encode h.salt ∷ k.encode h.hash ∷ [])

  -- hash_user_password
  unfoldable pub hash_user_password : (salt : List ℕ) → Text → Text
  unfolding to_string
  hash_user_password salt password = to_string (hash_password salt password)

  abbrev pub checked : Result (Unit {0}) V1Hash → Text → Bool
  checked (ok h) password = check h password
  checked (err _) password = false

  -- check_user_password
  unfoldable pub check_user_password : (password hash : Text) → Bool
  unfolding from_hash from_str
  check_user_password password hash = elim (from_hash hash) [
    | none ↦ false
    | some v1 ↦ checked (from_str hash) password
  ]

  module _ (print : ℕ → Text) where
    -- kit_hash_format
    unfoldable pub kit_hash_format : (iterations : ℕ) → (salt : Text) → (hash : List ℕ) → Text
    kit_hash_format rounds salt hash =
        join dollar (codes "PBKDF2" ∷ codes "sha256" ∷ print rounds ∷ salt ∷ k.encode hash ∷ [])

    -- hash_kit_password
    unfoldable pub hash_kit_password : (sample : ℕ → ℕ) → Text → Result Panic Text
    unfolding kit_hash_format
    hash_kit_password sample password = do
      salt ← string sample 20
      ok (kit_hash_format iterations salt (k.pbkdf2 password salt iterations))
