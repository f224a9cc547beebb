-- ===== src/Prelude/Equality.antt =====
-- Equality tests as an interface, with instances for numbers, texts and pairs.
use mathlib.Core.Path.{◌≡◌, refl}
use mathlib.Core.Bool.{Bool, true, false, ◌&&◌}
use mathlib.Core.Logic.{◌↔◌}
use mathlib.Core.List.{List, [], ◌∷◌}
use Prim.Native.Nat.{ℕ}
use native.Mathlib.Omega.{arith}
use astroplant_api.Prelude.Tests.{◌==◌, ==_iff}

pub record Eq {ℓ} (A : Type ℓ) : Type ℓ where
  pub eqb : A → A → Bool
  pub eqb_iff : (a b : A) → (eqb a b ≡ true) ↔ (a ≡ b)

infix 50 ◌≟◌
abbrev pub ◌≟◌ {ℓ} : {A : Type ℓ} ⦃e : Eq A⦄ → A → A → Bool
◌≟◌ ⦃e⦄ = e.eqb

pub ≟_iff {ℓ} : {A : Type ℓ} ⦃e : Eq A⦄ (a b : A) → ((a ≟ b) ≡ true) ↔ (a ≡ b)
≟_iff ⦃e⦄ a b = e.eqb_iff a b

pub ≟_refl {ℓ} : {A : Type ℓ} ⦃e : Eq A⦄ (a : A) → (a ≟ a) ≡ true
≟_refl ⦃e⦄ a = (e.eqb_iff a a).1 refl

instance abbrev pub nat_eq : Eq ℕ
nat_eq = record { eqb = ◌==◌; eqb_iff = ==_iff }

abbrev pub list_eqb {ℓ} : {A : Type ℓ} → (A → A → Bool) → List A → List A → Bool
list_eqb f [] [] = true
list_eqb f [] (y ∷ ys) = false
list_eqb f (x ∷ xs) [] = false
list_eqb f (x ∷ xs) (y ∷ ys) = f x y && list_eqb f xs ys

pub list_eqb_iff {ℓ} :
    {A : Type ℓ} (f : A → A → Bool) (law : (a b : A) → (f a b ≡ true) ↔ (a ≡ b)) (xs ys : List A)
    → (list_eqb f xs ys ≡ true) ↔ (xs ≡ ys)
list_eqb_iff f law [] [] = ground arith
list_eqb_iff f law [] (y ∷ ys) = ground arith
list_eqb_iff f law (x ∷ xs) [] = ground arith
list_eqb_iff f law (x ∷ xs) (y ∷ ys) = ground (arith, law x y, list_eqb_iff f law xs ys)

instance abbrev pub list_eq {ℓ} : {A : Type ℓ} ⦃e : Eq A⦄ → Eq (List A)
list_eq ⦃e⦄ = record { eqb = list_eqb e.eqb; eqb_iff = list_eqb_iff e.eqb e.eqb_iff }

abbrev pub pair_eqb {ℓ κ} :
    {A : Type ℓ} {B : Type κ} → (A → A → Bool) → (B → B → Bool) → A × B → A × B → Bool
pair_eqb f g (a, b) (c, d) = f a c && g b d

pub pair_eqb_iff {ℓ κ} :
    {A : Type ℓ} {B : Type κ} ⦃e : Eq A⦄ ⦃f : Eq B⦄ (p q : A × B)
    → (pair_eqb e.eqb f.eqb p q ≡ true) ↔ (p ≡ q)
pair_eqb_iff ⦃e⦄ ⦃f⦄ (a, b) (c, d) = ground (arith, e.eqb_iff a c, f.eqb_iff b d)

instance abbrev pub pair_eq {ℓ κ} : {A : Type ℓ} {B : Type κ} ⦃e : Eq A⦄ ⦃f : Eq B⦄ → Eq (A × B)
pair_eq ⦃e⦄ ⦃f⦄ = record { eqb = pair_eqb e.eqb f.eqb; eqb_iff = pair_eqb_iff ⦃e = e⦄ ⦃f = f⦄ }
