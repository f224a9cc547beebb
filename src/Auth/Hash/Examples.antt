-- ===== src/Auth/Hash/Examples.antt =====
-- The sample's hash of "secret".
use astroplant_api.Prelude.{Text, codes, ◌≡◌, [], ◌∷◌, length, ok, arith}
use astroplant_api.Prelude.Equality.{◌≟◌, nat_eq, list_eq}
use astroplant_api.Prelude.Split.{split}
use astroplant_api.Auth.Hash.{dollar, hash_user_password, check_user_password, hash_kit_password}
use astroplant_api.Auth.Hash.Sample.{
  replicate, length-replicate, lifted, crypto, crypto-IsCrypto, salt,
}
use astroplant_api.Auth.Hash.Checks.{
  check_user_password-hash_user_password, hash_kit_password-split,
}

check_user_password-hash_user_password_example :
    check_user_password crypto (codes "guess") (hash_user_password crypto salt (codes "secret"))
    ≡ (replicate 32 103 ≟ replicate 32 115)
check_user_password-hash_user_password_example =
    check_user_password-hash_user_password crypto crypto-IsCrypto salt (codes "secret")
      (codes "guess") (length-replicate 16 7)

hash_kit_password-split_example :
    (s : Text) × (hash : Text) × (hash_kit_password crypto
        (λ n. codes "15000")
        (λ i. 7)
        (codes "secret")
      ≡ ok hash)
    × (split dollar hash
        ≡ codes "PBKDF2" ∷ codes "sha256" ∷ codes "15000" ∷ s ∷ lifted (replicate 32 115) ∷ [])
    × (length s ≡ 20)
hash_kit_password-split_example =
    hash_kit_password-split crypto crypto-IsCrypto (λ n. codes "15000") (λ n. omega arith) (λ i. 7)
      (codes "secret") (λ j. omega arith)
