-- ===== src/Api/Pages/Order.antt =====
-- The order of the rows, and what a cursor cuts off.
use astroplant_api.Prelude.{
  ◌≡◌, ◌≢◌, refl, sym, ◌∙◌, ap, true, false, List, [], ◌∷◌, if◌then◌else◌, keep, All, All-mono,
  All-keep, arith, Bool-cases, inl, inr,
}
use astroplant_api.Api.Pages.{
  AggregateMeasurement, Cursor, cursor_of, is_below, insert_desc, order_desc,
}

-- Each row is below those before it.
abbrev pub Descends : List AggregateMeasurement → Type 0
Descends [] = Unit
Descends (m ∷ ms) = All (λ n. is_below (cursor_of m) n ≡ true) ms × Descends ms

-- The ids of the rows are different: the primary key.
abbrev pub HasKey : List AggregateMeasurement → Type 0
HasKey [] = Unit
HasKey (m ∷ ms) = All (λ n. n.id ≢ m.id) ms × HasKey ms

pub below_trans :
    (a b c : AggregateMeasurement)
    → is_below (cursor_of a) b ≡ true
    → is_below (cursor_of b) c ≡ true
    → is_below (cursor_of a) c ≡ true
below_trans a b c h k = ground arith

pub below_asym :
    (a b : AggregateMeasurement)
    → is_below (cursor_of a) b ≡ true
    → is_below (cursor_of b) a ≡ false
below_asym a b h = ground arith

below_total :
    (a b : AggregateMeasurement)
    → b.id ≢ a.id
    → is_below (cursor_of a) b ≡ false
    → is_below (cursor_of b) a ≡ true
below_total a b h k = ground arith

All-insert {κ} :
    (P : AggregateMeasurement → Type κ) (m : AggregateMeasurement) (ns : List AggregateMeasurement)
    → P m
    → All P ns
    → All P (insert_desc m ns)
All-insert P m [] h k = (h, tt)
All-insert P m (n ∷ ns) h k = ground (arith, All-insert P m ns h k.1)

pub All-order {κ} :
    (P : AggregateMeasurement → Type κ) (ms : List AggregateMeasurement)
    → All P ms
    → All P (order_desc ms)
All-order P [] h = tt
All-order P (m ∷ ms) h = All-insert P m (order_desc ms) h.0 (All-order P ms h.1)

insert-Descends :
    (m : AggregateMeasurement) (ns : List AggregateMeasurement)
    → All (λ n. n.id ≢ m.id) ns
    → Descends ns
    → Descends (insert_desc m ns)
insert-Descends m [] h d = (tt, tt)
insert-Descends m (n ∷ ns) h d = elim (Bool-cases (is_below (cursor_of m) n)) [
  | inl first_of ↦ rw first_of (
    (
      first_of,
      All-mono (λ k. is_below (cursor_of n) k ≡ true) (λ k. is_below (cursor_of m) k ≡ true) ns
          (λ k e. below_trans m n k first_of e) d.0,
    ),
    d,
  )
  | inr later ↦ rw later (
    All-insert (λ k. is_below (cursor_of n) k ≡ true) m ns (below_total m n h.0 later) d.0,
    insert-Descends m ns h.1 d.1,
  )
]

pub order-Descends : (ms : List AggregateMeasurement) → HasKey ms → Descends (order_desc ms)
order-Descends [] h = tt
order-Descends (m ∷ ms) h =
    insert-Descends m (order_desc ms) (All-order (λ n. n.id ≢ m.id) ms h.0) (order-Descends ms h.1)

-- The filter of a cursor commutes with the order.
module _ (c : Cursor) where
  -- A row that every row that stays is below goes first.
  insert-first :
      (m : AggregateMeasurement) (ns : List AggregateMeasurement)
      → All (λ n. is_below (cursor_of m) n ≡ true) ns
      → insert_desc m ns ≡ m ∷ ns
  insert-first m [] h = refl
  insert-first m (n ∷ ns) h = rw h.0 refl

  keep-insert :
      (m : AggregateMeasurement) (ns : List AggregateMeasurement)
      → Descends ns
      → keep (is_below c) (insert_desc m ns)
        ≡ (if is_below c m then insert_desc m (keep (is_below c) ns) else keep (is_below c) ns)
  keep-insert m [] d = refl
  keep-insert m (n ∷ ns) d = elim (Bool-cases (is_below (cursor_of m) n)) [
    | inl first_of ↦
        let K = keep (is_below c) (n ∷ ns) in
        let same : insert_desc m K ≡ m ∷ K = insert-first m K (
          All-keep (λ k. is_below (cursor_of m) k ≡ true) (is_below c) (n ∷ ns)
            (
              first_of,
              All-mono (λ k. is_below (cursor_of n) k ≡ true) (λ k. is_below (cursor_of m) k ≡ true)
                  ns (λ k e. below_trans m n k first_of e) d.0,
            )) in
        rw first_of (ap (λ r. if is_below c m then r else K) (sym same))
    | inr later ↦ rw later (ground (arith, later, keep-insert m ns d.1))
  ]

  pub keep-order :
      (ms : List AggregateMeasurement)
      → HasKey ms
      → order_desc (keep (is_below c) ms) ≡ keep (is_below c) (order_desc ms)
  keep-order [] h = refl
  keep-order (m ∷ ms) h =
      let law = keep-insert m (order_desc ms) (order-Descends ms h.1) in
      let ih = keep-order ms h.1 in
      elim (Bool-cases (is_below c m)) [
        | inl stays ↦ rw stays (ap (insert_desc m) ih ∙ sym (law ∙ rw stays refl))
        | inr goes ↦ rw goes (ih ∙ sym (law ∙ rw goes refl))
      ]
