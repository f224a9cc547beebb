-- ===== src/Prelude/Keyed.antt =====
-- Tables whose rows have an id: what an update, a deletion or an insertion by id does to them.
use Prim.Native.Nat.{ℕ, ◌+◌, ◌≤◌, ◌<◌}
use mathlib.Core.Path.{◌≡◌, refl}
use mathlib.Core.Logic.{◌≢◌}
use mathlib.Core.Bool.{Bool, true, false, not}
use mathlib.Core.Option
use mathlib.Core.Option.{Option, none, some}
use mathlib.Core.List.{List, [], ◌∷◌, ◌++◌, map}
use native.Mathlib.Omega.{arith}
use mathlib.Core.Logic.{inl, inr}
use astroplant_api.Prelude.Tests.{◌==◌, if◌then◌else◌, Bool-cases}
use astroplant_api.Prelude.Lists.{first, keep, count, All, All-append, All-keep, All-mono}

module _ {ℓ} {A : Type ℓ} where
  abbrev pub weight : (A → Bool) → A → ℕ
  weight p a = if p a then 1 else 0

module _ {ℓ} {A : Type ℓ} (id : A → ℕ) where
  abbrev pub NoId : ℕ → List A → Type 0
  NoId k = All (λ a. id a ≢ k)

  -- The primary key.
  abbrev pub Unique : List A → Type 0
  Unique [] = Unit
  Unique (a ∷ xs) = NoId (id a) xs × Unique xs

  -- Ids below the next value of their sequence.
  abbrev pub Below : ℕ → List A → Type 0
  Below n = All (λ a. id a < n)

  abbrev pub update_at : ℕ → (A → A) → List A → List A
  update_at k f = map (λ a. if id a == k then f a else a)

  abbrev pub delete_at : ℕ → List A → List A
  delete_at k = keep (λ a. not (id a == k))

  pub NoId-of_Below : (n : ℕ) (xs : List A) → Below n xs → NoId n xs
  NoId-of_Below n [] h = tt
  NoId-of_Below n (a ∷ xs) h = (omega arith, NoId-of_Below n xs h.1)

  pub Unique-append : (xs : List A) (a : A) → Unique xs → Below (id a) xs → Unique (xs ++ a ∷ [])
  Unique-append [] a u h = (tt, tt)
  Unique-append (b ∷ xs) a u h =
      (All-append (λ c. id c ≢ id b) xs (a ∷ []) u.0 (omega arith, tt), Unique-append xs a u.1 h.1)

  pub Below-mono : (m n : ℕ) (xs : List A) → m ≤ n → Below m xs → Below n xs
  Below-mono m n xs e h = All-mono (λ a. id a < m) (λ a. id a < n) xs (λ a k. omega arith) h

  pub Unique-keep : (p : A → Bool) (xs : List A) → Unique xs → Unique (keep p xs)
  Unique-keep p [] u = tt
  Unique-keep p (a ∷ xs) u =
      ground (arith, All-keep (λ b. id b ≢ id a) p xs u.0, Unique-keep p xs u.1)

  update_at_none : (k : ℕ) (f : A → A) (xs : List A) → NoId k xs → update_at k f xs ≡ xs
  update_at_none k f [] h = refl
  update_at_none k f (a ∷ xs) h = ground (arith, update_at_none k f xs h.1)

  delete_at_none : (k : ℕ) (xs : List A) → NoId k xs → delete_at k xs ≡ xs
  delete_at_none k [] h = refl
  delete_at_none k (a ∷ xs) h = ground (arith, delete_at_none k xs h.1)

  -- Updating one row trades its weight for that of the new row.
  pub count-update_at :
      (p : A → Bool) (k : ℕ) (f : A → A) (xs : List A) (a : A)
      → Unique xs
      → first (λ b. id b == k) xs ≡ some a
      → count p (update_at k f xs) + weight p a ≡ count p xs + weight p (f a)
  count-update_at p k f [] a u h = ground arith
  count-update_at p k f (b ∷ xs) a u h =
      ground (arith, count-update_at p k f xs a u.1, update_at_none (id b) f xs u.0)

  module _ (f : A → A) (same : (a : A) → id (f a) ≡ id a) where
    NoId-update_at : (j k : ℕ) (xs : List A) → NoId j xs → NoId j (update_at k f xs)
    NoId-update_at j k [] h = tt
    NoId-update_at j k (a ∷ xs) h = ground (arith, same a, NoId-update_at j k xs h.1)

    pub Unique-update_at : (k : ℕ) (xs : List A) → Unique xs → Unique (update_at k f xs)
    Unique-update_at k [] u = tt
    Unique-update_at k (a ∷ xs) u =
        ground (arith, same a, NoId-update_at (id a) k xs u.0, Unique-update_at k xs u.1)

    pub Below-update_at : (n k : ℕ) (xs : List A) → Below n xs → Below n (update_at k f xs)
    Below-update_at n k [] h = tt
    Below-update_at n k (a ∷ xs) h = ground (arith, same a, Below-update_at n k xs h.1)

    -- The first row with the id is the updated one.
    pub first-update_at :
        (k : ℕ) (xs : List A) (a : A)
        → first (λ b. id b == k) xs ≡ some a
        → first (λ b. id b == k) (update_at k f xs) ≡ some (f a)
    first-update_at k [] a h = ground arith
    first-update_at k (b ∷ xs) a h = ground (arith, same b, first-update_at k xs a)

    -- Other rows stay.
    pub first-update_at_ne :
        (j k : ℕ) (xs : List A)
        → j ≢ k
        → first (λ b. id b == j) (update_at k f xs) ≡ first (λ b. id b == j) xs
    first-update_at_ne j k [] h = refl
    first-update_at_ne j k (b ∷ xs) h = ground (arith, same b, first-update_at_ne j k xs h)

  pub All-update_at {κ} :
      (P : A → Type κ) (k : ℕ) (f : A → A) (xs : List A)
      → ((a : A) → P a → P (f a))
      → All P xs
      → All P (update_at k f xs)
  All-update_at P k f [] g h = tt
  All-update_at P k f (a ∷ xs) g h = ground (arith, g a h.0, All-update_at P k f xs g h.1)

-- An updated row comes from the row that had the id.
pub first-update_at-inv {ℓ} :
    {A : Type ℓ} (id : A → ℕ) (f : A → A) (same : (a : A) → id (f a) ≡ id a) (k : ℕ) (xs : List A)
    (c : A)
    → first (λ b. id b == k) (update_at id k f xs) ≡ some c
    → (a : A) × (first (λ b. id b == k) xs ≡ some a) × (c ≡ f a)
first-update_at-inv id f same k [] c h = cc
first-update_at-inv id f same k (b ∷ xs) c h = elim (Bool-cases (id b == k)) [
  | inl hit ↦ (b, ground arith, ground (arith, same b))
  | inr miss ↦
      let (a, found, e) = first-update_at-inv id f same k xs c (ground (arith, same b)) in
      (a, ground arith, e)
]

module _ {ℓ} {A : Type ℓ} (id : A → ℕ) (p : A → Bool) where
  -- A query that the row with the id does not meet, before and after, does not see its update.
  pub keep-update_at :
      (k : ℕ) (f : A → A) (xs : List A) (a : A)
      → Unique id xs
      → first (λ b. id b == k) xs ≡ some a
      → p a ≡ false
      → p (f a) ≡ false
      → keep p (update_at id k f xs) ≡ keep p xs
  keep-update_at k f [] a u h e g = refl
  keep-update_at k f (b ∷ xs) a u h e g =
      ground (arith, keep-update_at k f xs a u.1, update_at_none id (id b) f xs u.0)

  -- Nor its deletion.
  pub keep-delete_at :
      (k : ℕ) (xs : List A) (a : A)
      → Unique id xs
      → first (λ b. id b == k) xs ≡ some a
      → p a ≡ false
      → keep p (delete_at id k xs) ≡ keep p xs
  keep-delete_at k [] a u h e = refl
  keep-delete_at k (b ∷ xs) a u h e =
      ground (arith, keep-delete_at k xs a u.1, delete_at_none id (id b) xs u.0)

-- A map that keeps the ids commutes with the query for an id.
pub first-map {ℓ} :
    {A : Type ℓ} (id : A → ℕ) (f : A → A) (same : (a : A) → id (f a) ≡ id a) (k : ℕ) (xs : List A)
    → first (λ b. id b == k) (map f xs) ≡ Option.map f (first (λ b. id b == k) xs)
first-map id f same k [] = refl
first-map id f same k (b ∷ xs) = ground (arith, same b, first-map id f same k xs)

-- A query for an id below that of the appended rows does not see them.
pub first-append {ℓ} :
    {A : Type ℓ} (id : A → ℕ) (k : ℕ) (xs ys : List A)
    → NoId id k ys
    → first (λ b. id b == k) (xs ++ ys) ≡ first (λ b. id b == k) xs
first-append id k [] [] h = refl
first-append id k [] (y ∷ ys) h = ground (arith, first-append id k [] ys h.1)
first-append id k (x ∷ xs) ys h = ground (arith, first-append id k xs ys h)

-- Deleting other rows keeps the row of an id.
pub first-keep_of {ℓ} :
    {A : Type ℓ} (id : A → ℕ) (q : A → Bool) (k : ℕ) (xs : List A)
    → ((a : A) → id a ≡ k → q a ≡ true)
    → first (λ b. id b == k) (keep q xs) ≡ first (λ b. id b == k) xs
first-keep_of id q k [] h = refl
first-keep_of id q k (x ∷ xs) h = ground (arith, h x, first-keep_of id q k xs h)

-- Deleting the rows of an id leaves none.
pub first-delete_at {ℓ} :
    {A : Type ℓ} (id : A → ℕ) (k : ℕ) (xs : List A)
    → first (λ b. id b == k) (delete_at id k xs) ≡ none
first-delete_at id k [] = refl
first-delete_at id k (x ∷ xs) = ground (arith, first-delete_at id k xs)
