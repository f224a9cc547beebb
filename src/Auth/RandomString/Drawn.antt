-- ===== src/Auth/RandomString/Drawn.antt =====
-- What strings are drawn.
use astroplant_api.Prelude.{
  ℕ, zero, suc, ◌+◌, ◌≤◌, ◌<◌, Text, ◌≡◌, ◌≢◌, refl, sym, ◌∙◌, ap, Bool, true, not, ◌&&◌, List, [],
  ◌∷◌, some, get_elem?, length, all, All, ◌==◌, ok, ok_or-bind-eq-ok, >>=-eq-ok, arith, Bool-cases,
  inl, inr, ==_iff, subst,
}
use astroplant_api.Auth.RandomString.{
  draw, random_string_with_characters, random_characters, random_unambiguous_characters,
  random_unambiguous_lowercase_characters,
}

get_elem?-some :
    {P : ℕ → Type 0} (cs : List ℕ) (i : ℕ)
    → i < length cs
    → All P cs
    → (c : ℕ) × (get_elem? cs i ≡ some c) × P c
get_elem?-some [] i h a = absurd (omega (arith, h))
get_elem?-some (c ∷ cs) zero h a = (c, refl, a.0)
get_elem?-some (c ∷ cs) (suc i) h a = get_elem?-some cs i (omega (arith, h)) a.1

module _ (sample : ℕ → ℕ) (P : ℕ → Type 0) where
  draw-All :
      (n i : ℕ) (cs : List ℕ)
      → ((j : ℕ) → sample j < length cs)
      → All P cs
      → (s : Text) × (draw sample n i cs ≡ ok s) × (length s ≡ n) × All P s
  unfolding draw
  draw-All zero i cs h a = ([], refl, refl, tt)
  draw-All (suc n) i cs h a =
      let (c, found, p) = get_elem?-some {P = P} cs (sample i) (h i) a in
      let (rest, drawn, long, q) = draw-All n (i + 1) cs h a in
      (c ∷ rest, rw found (rw drawn refl), omega (arith, long), (p, q))

  -- From an alphabet and samples below its length, a string of the wanted length is drawn, without
  -- a panic, and whatever holds of the characters of the alphabet holds of those of the string.
  pub random_string_with_characters-All :
      (n : ℕ) (cs : List ℕ)
      → ((j : ℕ) → sample j < length cs)
      → All P cs
      → (s : Text) × (random_string_with_characters sample n cs ≡ ok s) × (length s ≡ n) × All P s
  unfolding random_string_with_characters
  random_string_with_characters-All n [] h a = absurd (omega (arith, h 0))
  random_string_with_characters-All n (c ∷ cs) h a = draw-All n 0 (c ∷ cs) h a

-- No character stands twice.
abbrev pub all_distinct : List ℕ → Bool
all_distinct [] = true
all_distinct (c ∷ cs) = all (λ d. not (d == c)) cs && all_distinct cs

absent : (c : ℕ) (cs : List ℕ) (i : ℕ) → all (λ d. not (d == c)) cs ≡ true → get_elem? cs i ≢ some c
absent c [] i h e = cc
absent c (d ∷ cs) zero h e = let same : d ≡ c = cc e in ground (arith, same)
absent c (d ∷ cs) (suc i) h e = absent c cs i (ground arith) e

get_elem?-inj :
    (cs : List ℕ) (i j c : ℕ)
    → all_distinct cs ≡ true
    → get_elem? cs i ≡ some c
    → get_elem? cs j ≡ some c
    → i ≡ j
get_elem?-inj [] i j c d h k = cc
get_elem?-inj (x ∷ cs) zero zero c d h k = refl
get_elem?-inj (x ∷ cs) zero (suc j) c d h k =
    let same : x ≡ c = cc h in absurd (absent x cs j (ground arith) (k ∙ ap some (sym same)))
get_elem?-inj (x ∷ cs) (suc i) zero c d h k =
    let same : x ≡ c = cc k in absurd (absent x cs i (ground arith) (h ∙ ap some (sym same)))
get_elem?-inj (x ∷ cs) (suc i) (suc j) c d h k = ap suc (get_elem?-inj cs i j c (ground arith) h k)

-- The three alphabets.
pub alphabets-distinct :
    (all_distinct random_characters ≡ true)
    × (all_distinct random_unambiguous_characters ≡ true)
    × (all_distinct random_unambiguous_lowercase_characters ≡ true)
alphabets-distinct = (refl, refl, refl)

module _ (sample other : ℕ → ℕ) where
  draw-inj :
      (n i : ℕ) (cs : List ℕ) (s : Text)
      → all_distinct cs ≡ true
      → draw sample n i cs ≡ ok s
      → draw other n i cs ≡ ok s
      → (j : ℕ) → i ≤ j
      → j < i + n
      → sample j ≡ other j
  unfolding draw
  draw-inj zero i cs s d h k j le lt = absurd (omega (arith, le, lt))
  draw-inj (suc n) i cs s d h k j le lt =
      let (c, found, h1) = ok_or-bind-eq-ok (get_elem? cs (sample i)) _ _ h in
      let (rest, drawn, h2) = >>=-eq-ok (draw sample n (i + 1) cs) _ h1 in
      let (c', found', k1) = ok_or-bind-eq-ok (get_elem? cs (other i)) _ _ k in
      let (rest', drawn', k2) = >>=-eq-ok (draw other n (i + 1) cs) _ k1 in
      let same : c' ≡ c = cc (h2, k2) in
      let same_rest : rest' ≡ rest = cc (h2, k2) in
      elim (Bool-cases (i == j)) [
        | inl here ↦
            let e : i ≡ j = (==_iff i j).0 here in
            subst (λ k. sample k ≡ other k) e
              (get_elem?-inj cs (sample i) (other i) c d found (found' ∙ ap some same))
        | inr later ↦
            draw-inj n (i + 1) cs rest d drawn (drawn' ∙ ap ok same_rest) j
              (ground (arith, later, le)) (omega (arith, lt))
      ]

  -- No string is likelier than another: if no character stands twice in the alphabet, two sequences
  -- of samples that draw the same string agree at every character.
  pub random_string_with_characters-inj :
      (n : ℕ) (cs : List ℕ) (s : Text)
      → all_distinct cs ≡ true
      → random_string_with_characters sample n cs ≡ ok s
      → random_string_with_characters other n cs ≡ ok s
      → (j : ℕ) → j < n
      → sample j ≡ other j
  unfolding random_string_with_characters
  random_string_with_characters-inj n [] s d h k j lt = cc
  random_string_with_characters-inj n (c ∷ cs) s d h k j lt =
      draw-inj n 0 (c ∷ cs) s d h k j (omega arith) (omega (arith, lt))
