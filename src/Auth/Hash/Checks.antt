-- ===== src/Auth/Hash/Checks.antt =====
-- Which passwords a stored hash accepts, and the fields of a kit's hash.
use astroplant_api.Prelude.{ℕ, ◌<◌, Text, codes, ◌≡◌, ◌≢◌, refl, List, [], ◌∷◌, length, ok, arith}
use astroplant_api.Prelude.Equality.{◌≟◌, nat_eq, list_eq}
use astroplant_api.Prelude.Split.{split, Lacks, split-join}
use astroplant_api.Auth.RandomString.{random_characters}
use astroplant_api.Auth.RandomString.Drawn.{random_string_with_characters-All}
use astroplant_api.Auth.Hash.{
  dollar, from_hash, V1Hash, Crypto, IsCrypto, iterations, hash_password, from_str, to_string,
  hash_user_password, check_user_password, kit_hash_format, hash_kit_password,
}

module _ (k : Crypto) (law : IsCrypto k) where
  from_str-to_string :
      (h : V1Hash) → length h.salt ≡ 16 → length h.hash ≡ 32 → from_str k (to_string k h) ≡ ok h
  unfolding from_str to_string
  from_str-to_string h s l =
      rw
        (split-join dollar (codes "1") (k.encode h.salt ∷ k.encode h.hash ∷ [])
          (omega arith, (law.no_dollar h.salt, (law.no_dollar h.hash, tt))))
        (rw (law.decodes h.salt, law.decodes h.hash) (ground (arith, s, l)))

  -- The stored hash of the password of a user accepts a password exactly if the same key is derived
  -- from both with the salt of the hash, which has 16 bytes: so it accepts the password itself.
  pub check_user_password-hash_user_password :
      (salt : List ℕ) (password other : Text)
      → length salt ≡ 16
      → check_user_password k other (hash_user_password k salt password)
        ≡ (k.pbkdf2 other salt iterations ≟ k.pbkdf2 password salt iterations)
  unfolding check_user_password hash_user_password from_hash
  check_user_password-hash_user_password salt password other s =
      rw
        (from_str-to_string (hash_password k salt password) s
          (law.key_length password salt iterations))
        refl

  module _ (print : ℕ → Text) (digits : (n : ℕ) → Lacks dollar (print n)) where
    -- The hash of the password of a kit has the five fields that the authentication plugin of the
    -- broker reads: the scheme, the digest, the rounds, a salt of twenty characters, and the key
    -- that is derived from the password with that salt and those rounds. The samples of the random
    -- generator are in range, and neither Base64 nor the print of a number has a dollar sign.
    pub hash_kit_password-split :
        (sample : ℕ → ℕ) (password : Text)
        → ((j : ℕ) → sample j < length random_characters)
        → (salt : Text) × (hash : Text) × (hash_kit_password k print sample password ≡ ok hash)
          × (split dollar hash
              ≡ codes "PBKDF2"
                ∷ codes "sha256"
                ∷ print 15000
                ∷ salt
                ∷ k.encode (k.pbkdf2 password salt 15000)
                ∷ [])
          × (length salt ≡ 20)
    unfolding hash_kit_password kit_hash_format
    hash_kit_password-split sample password h =
        let (salt, drawn, long, lacks) =
          random_string_with_characters-All sample (λ c. c ≢ dollar) 20 random_characters h
            (omega arith) in
        (
          salt,
          kit_hash_format k print iterations salt (k.pbkdf2 password salt iterations),
          rw drawn refl,
          split-join dollar (codes "PBKDF2")
              (codes "sha256" ∷ print 15000 ∷ salt ∷ k.encode (k.pbkdf2 password salt 15000) ∷ [])
              (omega arith, (omega arith, (digits 15000, (lacks, (law.no_dollar _, tt))))),
          long,
        )
