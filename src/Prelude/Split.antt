-- ===== src/Prelude/Split.antt =====
-- `str::split` at a character: splitting a text and joining the parts are inverse.
use Prim.Native.Nat.{ℕ}
use mathlib.Core.Path.{◌≡◌, refl, ap, ◌∙◌}
use mathlib.Core.Logic.{◌≢◌, inl, inr}
use mathlib.Core.List.{List, [], ◌∷◌, ◌++◌}
use native.Mathlib.Omega.{arith}
use astroplant_api.Prelude.Tests.{◌==◌, if◌then◌else◌, Bool-cases}
use astroplant_api.Prelude.Lists.{All}
use astroplant_api.Prelude.Texts.{Text}

abbrev pub cons_first : ℕ → List Text → List Text
cons_first x [] = (x ∷ []) ∷ []
cons_first x (p ∷ ps) = (x ∷ p) ∷ ps

module _ (c : ℕ) where
  unfoldable pub split : Text → List Text
  split [] = [] ∷ []
  split (x ∷ xs) = let rest = split xs in if x == c then [] ∷ rest else cons_first x rest

  abbrev pub Lacks : Text → Type 0
  Lacks = All (λ x. x ≢ c)

  abbrev pub join : List Text → Text
  join [] = []
  join (p ∷ []) = p
  join (p ∷ q ∷ ps) = p ++ c ∷ join (q ∷ ps)

  join-cons_first : (x : ℕ) (ps : List Text) → join (cons_first x ps) ≡ x ∷ join ps
  join-cons_first x [] = refl
  join-cons_first x (p ∷ []) = refl
  join-cons_first x (p ∷ q ∷ ps) = refl

  -- A text that was split has a first part.
  join-after : (ps : List Text) → ps ≢ [] → join ([] ∷ ps) ≡ c ∷ join ps
  join-after [] h = absurd (h refl)
  join-after (p ∷ ps) h = refl

  cons_first-ne : (x : ℕ) (ps : List Text) → cons_first x ps ≢ []
  cons_first-ne x [] h = cc
  cons_first-ne x (p ∷ ps) h = cc

  cons_first-Lacks : (x : ℕ) (ps : List Text) → x ≢ c → All Lacks ps → All Lacks (cons_first x ps)
  cons_first-Lacks x [] h a = ((h, tt), tt)
  cons_first-Lacks x (p ∷ ps) h a = ((h, a.0), a.1)

  split-ne : (t : Text) → split t ≢ []
  unfolding split
  split-ne [] h = cc
  split-ne (x ∷ xs) h = elim (Bool-cases (x == c)) [
    | inl hit ↦ cc (rw hit at h)
    | inr miss ↦ cons_first-ne x (split xs) (rw miss at h)
  ]

  pub join-split : (t : Text) → join (split t) ≡ t
  unfolding split
  join-split [] = refl
  join-split (x ∷ xs) =
      ground
        (arith, join-split xs, join-cons_first x (split xs), join-after (split xs) (split-ne xs))

  pub split-Lacks : (t : Text) → All Lacks (split t)
  unfolding split
  split-Lacks [] = (tt, tt)
  split-Lacks (x ∷ xs) = elim (Bool-cases (x == c)) [
    | inl hit ↦ rw hit (tt, split-Lacks xs)
    | inr miss ↦ rw miss (cons_first-Lacks x (split xs) (ground (arith, miss)) (split-Lacks xs))
  ]

  split_append : (p t : Text) → Lacks p → split (p ++ c ∷ t) ≡ p ∷ split t
  unfolding split
  split_append [] t h = ground arith
  split_append (x ∷ p) t h = ground (arith, split_append p t h.1, h.0)

  split_whole : (p : Text) → Lacks p → split p ≡ p ∷ []
  unfolding split
  split_whole [] h = refl
  split_whole (x ∷ p) h = ground (arith, split_whole p h.1, h.0)

  pub split-join : (p : Text) (ps : List Text) → All Lacks (p ∷ ps) → split (join (p ∷ ps)) ≡ p ∷ ps
  split-join p [] h = split_whole p h.0
  split-join p (q ∷ ps) h =
      split_append p (join (q ∷ ps)) h.0 ∙ ap (λ r. p ∷ r) (split-join q ps h.1)
