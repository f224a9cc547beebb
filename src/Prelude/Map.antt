-- ===== src/Prelude/Map.antt =====
-- Rust's `HashMap` as a sealed component: clients have the operations and their laws, not the
-- representation.
use mathlib.Core.Path.{◌≡◌, refl, ap}
use mathlib.Core.Bool.{Bool}
use mathlib.Core.Logic.{inl, inr}
use mathlib.Core.Option.{Option, none, some}
use mathlib.Core.List.{List, [], ◌∷◌}
use native.Mathlib.Omega.{arith}
use Prim.Native.Nat.{ℕ}
use astroplant_api.Prelude.Lists.{length}
use astroplant_api.Prelude.Tests.{if◌then◌else◌, Bool-cases}
use astroplant_api.Prelude.Equality.{Eq, ◌≟◌, ≟_iff}

pub record Map {ℓ κ} (K : Type ℓ) (V : Type κ) : Type (ℓ ⊔ κ) where
  entries : List (K × V)

abbrev pub keep_if {ℓ} : {V : Type ℓ} → (V → Bool) → Option V → Option V
keep_if p none = none
keep_if p (some v) = if p v then some v else none

abbrev pub and_then {ℓ κ} : {V : Type ℓ} {W : Type κ} → (V → Option W) → Option V → Option W
and_then f none = none
and_then f (some v) = f v

module _ {ℓ κ} {K : Type ℓ} {V : Type κ} where
  pub empty : Map K V
  empty = record { entries = [] }

  -- HashMap::len
  pub len : Map K V → ℕ
  len m = length m.entries

module _ {ℓ κ} {K : Type ℓ} {V : Type κ} ⦃e : Eq K⦄ where
  find : K → List (K × V) → Option V
  find k [] = none
  find k ((j, v) ∷ m) = if j ≟ k then some v else find k m

  without : K → List (K × V) → List (K × V)
  without k [] = []
  without k ((j, v) ∷ m) = let rest = without k m in if j ≟ k then rest else (j, v) ∷ rest

  retained : (K → V → Bool) → List (K × V) → List (K × V)
  retained p [] = []
  retained p ((k, v) ∷ m) =
      let rest = without k (retained p m) in if p k v then (k, v) ∷ rest else rest

  -- HashMap::get
  pub get : Map K V → K → Option V
  get m k = find k m.entries

  -- HashMap::insert
  pub insert : Map K V → K → V → Map K V
  insert m k v = record { entries = (k, v) ∷ without k m.entries }

  -- HashMap::remove
  pub remove : Map K V → K → Map K V
  remove m k = record { entries = without k m.entries }

  -- HashMap::retain
  pub retain : (K → V → Bool) → Map K V → Map K V
  retain p m = record { entries = retained p m.entries }

  put : Option V → K → List (K × V) → List (K × V)
  put none k m = m
  put (some v) k m = (k, v) ∷ m

  remaining : (K → V → Option V) → List (K × V) → List (K × V)
  remaining f [] = []
  remaining f ((k, v) ∷ m) = let rest = without k (remaining f m) in put (f k v) k rest

  -- HashMap::retain with a function that also changes the values that it keeps
  pub retain_mut : (K → V → Option V) → Map K V → Map K V
  retain_mut f m = record { entries = remaining f m.entries }

  find-without :
      (k j : K) (m : List (K × V)) → find j (without k m) ≡ (if k ≟ j then none else find j m)
  unfolding find without
  find-without k j [] = ground arith
  find-without k j ((i, v) ∷ m) =
      ground (arith, ≟_iff i k, ≟_iff i j, ≟_iff k j, find-without k j m)

  find-retained :
      (p : K → V → Bool) (j : K) (m : List (K × V))
      → find j (retained p m) ≡ keep_if (p j) (find j m)
  unfolding find retained
  find-retained p j [] = refl
  find-retained p j ((i, v) ∷ m) =
      ground (arith, ≟_iff i j, find-without i j (retained p m), find-retained p j m)

  find-put :
      (o : Option V) (k j : K) (m : List (K × V))
      → find j (put o k (without k m)) ≡ (if k ≟ j then o else find j m)
  unfolding find put
  find-put none k j m = find-without k j m
  find-put (some v) k j m = ground (arith, find-without k j m)

  find-remaining :
      (f : K → V → Option V) (j : K) (m : List (K × V))
      → find j (remaining f m) ≡ and_then (f j) (find j m)
  unfolding find remaining
  find-remaining f j [] = refl
  find-remaining f j ((i, v) ∷ m) =
      rw (find-put (f i v) i j (remaining f m), find-remaining f j m)
        (elim (Bool-cases (i ≟ j)) [
          | inl here ↦ rw here (ap (λ k. f k v) ((≟_iff i j).0 here))
          | inr there ↦ rw there refl
        ])

  pub get-retain_mut :
      (f : K → V → Option V) (m : Map K V) (j : K)
      → get (retain_mut f m) j ≡ and_then (f j) (get m j)
  unfolding get retain_mut
  get-retain_mut f m j = find-remaining f j m.entries

  find-length_zero : (k : K) (m : List (K × V)) → length m ≡ 0 → find k m ≡ none
  unfolding find
  find-length_zero k [] h = refl
  find-length_zero k (x ∷ m) h = absurd (omega (arith, h))

  -- A map of no entries has no value at any key.
  pub get-len_zero : (m : Map K V) (k : K) → len m ≡ 0 → get m k ≡ none
  unfolding get len find
  get-len_zero m k h = find-length_zero k m.entries h

  pub get-empty : (k : K) → get empty k ≡ none
  unfolding get empty find
  get-empty k = refl

  pub get-insert :
      (m : Map K V) (k j : K) (v : V) → get (insert m k v) j ≡ (if k ≟ j then some v else get m j)
  unfolding get insert find
  get-insert m k j v = ground (arith, find-without k j m.entries)

  pub get-remove : (m : Map K V) (k j : K) → get (remove m k) j ≡ (if k ≟ j then none else get m j)
  unfolding get remove
  get-remove m k j = find-without k j m.entries

  pub get-retain :
      (p : K → V → Bool) (m : Map K V) (j : K) → get (retain p m) j ≡ keep_if (p j) (get m j)
  unfolding get retain
  get-retain p m j = find-retained p j m.entries

pub ruleset map_laws = (get-empty, get-insert, get-remove, get-retain, get-retain_mut)
