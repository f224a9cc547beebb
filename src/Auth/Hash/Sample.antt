-- ===== src/Auth/Hash/Sample.antt =====
-- Keys that are the password's first code 32 times, printed with every byte above '$'.
use astroplant_api.Prelude.{
  ℕ, zero, suc, ◌+◌, ◌-◌, Text, ◌≡◌, refl, ap, some, List, [], ◌∷◌, length, arith,
}
use astroplant_api.Prelude.Split.{Lacks}
use astroplant_api.Auth.Hash.{dollar, Crypto, IsCrypto}

abbrev pub replicate : ℕ → ℕ → List ℕ
replicate zero c = []
replicate (suc n) c = c ∷ replicate n c

pub length-replicate : (n c : ℕ) → length (replicate n c) ≡ n
length-replicate zero c = refl
length-replicate (suc n) c = ap suc (length-replicate n c)

abbrev pub first_code : Text → ℕ
first_code [] = 0
first_code (c ∷ cs) = c

abbrev pub lifted : List ℕ → Text
lifted [] = []
lifted (b ∷ bs) = (b + 37) ∷ lifted bs

abbrev lowered : Text → List ℕ
lowered [] = []
lowered (b ∷ bs) = (b - 37) ∷ lowered bs

lowered-lifted : (bytes : List ℕ) → lowered (lifted bytes) ≡ bytes
lowered-lifted [] = refl
lowered-lifted (b ∷ bs) = rw (lowered-lifted bs) (ap (λ c. c ∷ bs) (omega arith))

lifted-Lacks : (bytes : List ℕ) → Lacks dollar (lifted bytes)
lifted-Lacks [] = tt
lifted-Lacks (b ∷ bs) = (omega arith, lifted-Lacks bs)

abbrev pub crypto : Crypto
crypto = record {
  pbkdf2 = λ password salt iterations. replicate 32 (first_code password);
  encode = lifted;
  decode = λ text. some (lowered text);
}

pub crypto-IsCrypto : IsCrypto crypto
crypto-IsCrypto = record {
  key_length = λ password salt iterations. length-replicate 32 (first_code password);
  decodes = λ bytes. ap some (lowered-lifted bytes);
  no_dollar = lifted-Lacks;
}

abbrev pub salt : List ℕ
salt = replicate 16 7
