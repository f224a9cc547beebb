-- ===== src/Api/Pages/Visits.antt =====
-- Following the links to the next page visits every row once, in order.
use astroplant_api.Prelude.{
  ℕ, zero, suc, ◌+◌, ◌≤◌, ◌<◌, ◌≡◌, refl, sym, ◌∙◌, ap, Bool, true, false, none, some, List, [],
  ◌∷◌, ◌++◌, leb, keep, take, length, length-append, All, arith, Bool-cases, inl, inr, subst,
}
use mathlib.Core.List.{append_assoc}
use astroplant_api.Api.Pages.{
  AggregateMeasurement, Cursor, cursor_of, is_below, insert_desc, order_desc, Filters, selected,
  per_page, page, last, next_from_page, follow, if_more,
}
use astroplant_api.Api.Pages.Order.{Descends, HasKey, below_asym, order-Descends, keep-order}

abbrev Rows : Type 0
Rows = List AggregateMeasurement

abbrev drop : ℕ → Rows → Rows
drop zero ms = ms
drop (suc n) [] = []
drop (suc n) (m ∷ ms) = drop n ms

take-drop : (n : ℕ) (ms : Rows) → take n ms ++ drop n ms ≡ ms
take-drop zero ms = refl
take-drop (suc n) [] = refl
take-drop (suc n) (m ∷ ms) = ap (λ r. m ∷ r) (take-drop n ms)

length-take-le : (n : ℕ) (ms : Rows) → length (take n ms) ≤ n
length-take-le zero ms = omega arith
length-take-le (suc n) [] = omega arith
length-take-le (suc n) (m ∷ ms) = omega (arith, length-take-le n ms)

-- A page that is not full is the last.
drop_short : (n : ℕ) (ms : Rows) → length (take n ms) < n → drop n ms ≡ []
drop_short zero ms h = absurd (omega (arith, h))
drop_short (suc n) [] h = refl
drop_short (suc n) (m ∷ ms) h = drop_short n ms (omega (arith, h))

last-some :
    (m : AggregateMeasurement) (ms : Rows) → (l : AggregateMeasurement) × (last (m ∷ ms) ≡ some l)
last-some m [] = (m, refl)
last-some m (n ∷ ms) = last-some n ms

last-append :
    (ps : Rows) (m : AggregateMeasurement) (ms : Rows) → last (ps ++ m ∷ ms) ≡ last (m ∷ ms)
last-append [] m ms = refl
last-append (p ∷ []) m ms = refl
last-append (p ∷ q ∷ ps) m ms = last-append (q ∷ ps) m ms

-- All rows below: they stay.
keep-All : (c : Cursor) (ms : Rows) → All (λ n. is_below c n ≡ true) ms → keep (is_below c) ms ≡ ms
keep-All c [] h = refl
keep-All c (m ∷ ms) h = rw h.0 (ap (λ r. m ∷ r) (keep-All c ms h.1))

last-All :
    (P : AggregateMeasurement → Type 0) (ms : Rows) (l : AggregateMeasurement)
    → last ms ≡ some l
    → All P ms
    → P l
last-All P [] l h a = cc
last-All P (m ∷ []) l h a = let e : m ≡ l = cc h in subst P e a.0
last-All P (m ∷ n ∷ ms) l h a = last-All P (n ∷ ms) l h a.1

All-left : (P : AggregateMeasurement → Type 0) (xs ys : Rows) → All P (xs ++ ys) → All P xs
All-left P [] ys h = tt
All-left P (x ∷ xs) ys h = (h.0, All-left P xs ys h.1)

below_self : (m : AggregateMeasurement) → is_below (cursor_of m) m ≡ false
below_self m = ground arith

-- The cursor of the last row of a prefix cuts off the prefix.
cut_prefix :
    (ps rs : Rows) (l : AggregateMeasurement)
    → last ps ≡ some l
    → Descends (ps ++ rs)
    → keep (is_below (cursor_of l)) (ps ++ rs) ≡ rs
cut_prefix [] rs l h d = cc
cut_prefix (p ∷ []) rs l h d =
    let e : p ≡ l = cc h in
    subst (λ x. keep (is_below (cursor_of x)) (p ∷ rs) ≡ rs) e
      (rw (below_self p) (keep-All (cursor_of p) rs d.0))
cut_prefix (p ∷ q ∷ ps) rs l h d =
    let under =
      last-All (λ n. is_below (cursor_of p) n ≡ true) (q ∷ ps) l h (All-left _ (q ∷ ps) rs d.0) in
    rw (below_asym p l under) (cut_prefix (q ∷ ps) rs l h d.1)

last_of_full :
    (ms : Rows) → leb per_page (length ms) ≡ true → (l : AggregateMeasurement) × (last ms ≡ some l)
last_of_full [] h = cc
last_of_full (m ∷ ms) h = last-some m ms

last_of_append :
    (ps ms : Rows) (l : AggregateMeasurement) → last ms ≡ some l → last (ps ++ ms) ≡ some l
last_of_append ps [] l h = cc
last_of_append ps (m ∷ ms) l h = last-append ps m ms ∙ h

next_from_page-full :
    (p : Rows) (l : AggregateMeasurement)
    → leb per_page (length p) ≡ true
    → last p ≡ some l
    → next_from_page p ≡ some (cursor_of l)
unfolding next_from_page
next_from_page-full p l full h = rw (full, h) refl

next_from_page-short : (p : Rows) → leb per_page (length p) ≡ false → next_from_page p ≡ none
unfolding next_from_page
next_from_page-short p short = rw short refl

length-insert : (m : AggregateMeasurement) (ms : Rows) → length (insert_desc m ms) ≡ length ms + 1
length-insert m [] = omega arith
length-insert m (n ∷ ns) = ground (arith, length-insert m ns)

length-order : (ms : Rows) → length (order_desc ms) ≡ length ms
length-order [] = refl
length-order (m ∷ ms) = omega (arith, length-insert m (order_desc ms), length-order ms)

length-keep-le : (p : AggregateMeasurement → Bool) (ms : Rows) → length (keep p ms) ≤ length ms
length-keep-le p [] = omega arith
length-keep-le p (m ∷ ms) = ground (arith, length-keep-le p ms)

module _ (table : Rows) (kit_id : ℕ) (f : Filters)
    (key : HasKey (keep (selected kit_id f) table)) where
  -- All that the client is to see.
  abbrev wanted : Rows
  wanted = order_desc (keep (selected kit_id f) table)

  -- The page after a prefix, and the pages from there on.
  page_after :
      (ps rs : Rows) (l : AggregateMeasurement)
      → last ps ≡ some l
      → wanted ≡ ps ++ rs
      → page table kit_id f (some (cursor_of l)) ≡ take per_page rs
  unfolding page
  page_after ps rs l h e =
      let d : Descends (ps ++ rs) =
        subst Descends e (order-Descends (keep (selected kit_id f) table) key) in
      ap (take per_page) (
        keep-order (cursor_of l) (keep (selected kit_id f) table) key
        ∙ ap (keep (is_below (cursor_of l))) e
        ∙ cut_prefix ps rs l h d)

  -- What follows a page that starts the rows that are left.
  rest_after :
      (n : ℕ) (ps rs : Rows)
      → wanted ≡ ps ++ rs
      → length rs < n
      → take per_page rs
          ++ if_more (λ c. follow n table kit_id f (some c)) (next_from_page (take per_page rs))
        ≡ rs
  unfolding follow
  rest_after zero ps rs e h = absurd (omega (arith, h))
  rest_after (suc n) ps rs e h =
      let T = take per_page rs in
      let R = drop per_page rs in
      let whole : T ++ R ≡ rs = take-drop per_page rs in
      elim (Bool-cases (leb per_page (length T))) [
        | inl full ↦
            let (l, at_end) = last_of_full T full in
            let prefix : wanted ≡ (ps ++ T) ++ R =
              e ∙ ap (λ r. ps ++ r) (sym whole) ∙ sym (append_assoc ps T R) in
            let lengths : length T + length R ≡ length rs =
              sym (length-append T R) ∙ ap length whole in
            let ih = rest_after n (ps ++ T) R prefix (ground (arith, lengths, full, h)) in
            let next_page : page table kit_id f (some (cursor_of l)) ≡ take per_page R =
              page_after (ps ++ T) R l (last_of_append ps T l at_end) prefix in
            rw (next_from_page-full T l full at_end) (
              ap (λ r. T ++ r)
                (ap (λ p. p ++ if_more (λ c. follow n table kit_id f (some c)) (next_from_page p))
                    next_page
                  ∙ ih)
              ∙ whole)
        | inr short ↦
            let empty : R ≡ [] = drop_short per_page rs (ground (arith, short)) in
            rw (next_from_page-short T short) (ap (λ r. T ++ r) (sym empty) ∙ whole)
      ]

  -- A client that asks for the aggregate measurements of a kit, with or without filters, and
  -- follows the links to the next page until there is none, sees every row that meets the filters
  -- exactly once, from the latest to the earliest. As many pages as the table has rows, and two
  -- more, are enough. The ids of the rows must be different.
  pub follow-visits :
      (n : ℕ)
      → length table < n
      → (follow (suc n) table kit_id f none ≡ order_desc (keep (selected kit_id f) table))
        × Descends (follow (suc n) table kit_id f none)
  unfolding follow page
  follow-visits n h =
      let few : length wanted < n = omega (
        arith,
        h,
        length-order (keep (selected kit_id f) table),
        length-keep-le (selected kit_id f) table,
      ) in
      let all_seen : follow (suc n) table kit_id f none ≡ wanted =
        rest_after n [] wanted refl few in
      (
        all_seen,
        subst Descends (sym all_seen) (order-Descends (keep (selected kit_id f) table) key),
      )
