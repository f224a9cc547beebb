-- ===== src/Api/Members/Rows.antt =====
-- What an update or a deletion by id does to the rows of `kit_memberships`, and to their counts.
use astroplant_api.Prelude.{
  All-append, All-keep, ℕ, ◌+◌, ◌≤◌, ◌<◌, ◌≡◌, ◌≢◌, refl, Bool, not, ◌&&◌, some, List, [], ◌∷◌,
  ◌++◌, map, ◌==◌, if◌then◌else◌, first, keep, count, All, arith,
}
use astroplant_api.Api.Models.{KitMembership}
use astroplant_api.Api.Members.{KitMembershipPatch, patched}

abbrev pub NoId : ℕ → List KitMembership → Type 0
NoId id = All (λ n. n.id ≢ id)

-- The primary key of the table.
abbrev pub UniqueIds : List KitMembership → Type 0
UniqueIds [] = Unit
UniqueIds (m ∷ ms) = NoId m.id ms × UniqueIds ms

abbrev pub BelowId : ℕ → List KitMembership → Type 0
BelowId n = All (λ m. m.id < n)

abbrev pub update_rows : ℕ → KitMembershipPatch → List KitMembership → List KitMembership
update_rows id patch = map (λ m. if m.id == id then patched patch m else m)

abbrev pub delete_rows : ℕ → List KitMembership → List KitMembership
delete_rows id = keep (λ m. not (m.id == id))

abbrev pub weight : (KitMembership → Bool) → KitMembership → ℕ
weight p m = if p m then 1 else 0

pub update_rows_none :
    (id : ℕ) (patch : KitMembershipPatch) (ms : List KitMembership)
    → NoId id ms
    → update_rows id patch ms ≡ ms
update_rows_none id patch [] h = refl
update_rows_none id patch (m ∷ ms) h = ground (arith, update_rows_none id patch ms h.1)

pub delete_rows_none : (id : ℕ) (ms : List KitMembership) → NoId id ms → delete_rows id ms ≡ ms
delete_rows_none id [] h = refl
delete_rows_none id (m ∷ ms) h = ground (arith, delete_rows_none id ms h.1)

module _ (p : KitMembership → Bool) (id : ℕ) where
  -- Updating one row trades its weight for that of the new row.
  pub count-update_rows :
      (patch : KitMembershipPatch) (ms : List KitMembership) (m : KitMembership)
      → UniqueIds ms
      → first (λ n. n.id == id) ms ≡ some m
      → count p (update_rows id patch ms) + weight p m ≡ count p ms + weight p (patched patch m)
  count-update_rows patch [] m u h = ground arith
  count-update_rows patch (n ∷ ms) m u h =
      ground (arith, count-update_rows patch ms m u.1, update_rows_none n.id patch ms u.0)

  -- Deleting one row takes its weight away.
  pub count-delete_rows :
      (ms : List KitMembership) (m : KitMembership)
      → UniqueIds ms
      → first (λ n. n.id == id) ms ≡ some m
      → count p (delete_rows id ms) + weight p m ≡ count p ms
  count-delete_rows [] m u h = ground arith
  count-delete_rows (n ∷ ms) m u h =
      ground (arith, count-delete_rows ms m u.1, delete_rows_none n.id ms u.0)

pub NoId-append :
    (id : ℕ) (ms : List KitMembership) (m : KitMembership)
    → BelowId id ms
    → id ≤ m.id
    → NoId m.id ms
NoId-append id [] m h e = tt
NoId-append id (n ∷ ms) m h e = (omega arith, NoId-append id ms m h.1 e)

pub UniqueIds-append :
    (ms : List KitMembership) (m : KitMembership)
    → UniqueIds ms
    → BelowId m.id ms
    → UniqueIds (ms ++ m ∷ [])
UniqueIds-append [] m u b = (tt, tt)
UniqueIds-append (n ∷ ms) m u b =
    (All-append (λ k. k.id ≢ n.id) ms (m ∷ []) u.0 (omega arith, tt), UniqueIds-append ms m u.1 b.1)

pub BelowId-weaken : (i j : ℕ) (ms : List KitMembership) → i ≤ j → BelowId i ms → BelowId j ms
BelowId-weaken i j [] e h = tt
BelowId-weaken i j (m ∷ ms) e h = (omega arith, BelowId-weaken i j ms e h.1)

module _ (id : ℕ) where
  pub NoId-update_rows :
      (j : ℕ) (patch : KitMembershipPatch) (ms : List KitMembership)
      → NoId j ms
      → NoId j (update_rows id patch ms)
  NoId-update_rows j patch [] h = tt
  NoId-update_rows j patch (m ∷ ms) h = ground (arith, NoId-update_rows j patch ms h.1)

  pub UniqueIds-update_rows :
      (patch : KitMembershipPatch) (ms : List KitMembership)
      → UniqueIds ms
      → UniqueIds (update_rows id patch ms)
  UniqueIds-update_rows patch [] h = tt
  UniqueIds-update_rows patch (m ∷ ms) h =
      ground (arith, NoId-update_rows m.id patch ms h.0, UniqueIds-update_rows patch ms h.1)

  pub BelowId-update_rows :
      (j : ℕ) (patch : KitMembershipPatch) (ms : List KitMembership)
      → BelowId j ms
      → BelowId j (update_rows id patch ms)
  BelowId-update_rows j patch [] h = tt
  BelowId-update_rows j patch (m ∷ ms) h = ground (arith, BelowId-update_rows j patch ms h.1)

  pub UniqueIds-delete_rows :
      (ms : List KitMembership) → UniqueIds ms → UniqueIds (delete_rows id ms)
  UniqueIds-delete_rows [] h = tt
  UniqueIds-delete_rows (m ∷ ms) h = ground (
    arith,
    All-keep (λ n. n.id ≢ m.id) (λ n. not (n.id == id)) ms h.0,
    UniqueIds-delete_rows ms h.1,
  )

-- A test that an update does not change counts as before.
pub count-update_rows_same :
    (p : KitMembership → Bool) (id : ℕ) (patch : KitMembershipPatch) (ms : List KitMembership)
    → ((m : KitMembership) → p (patched patch m) ≡ p m)
    → count p (update_rows id patch ms) ≡ count p ms
count-update_rows_same p id patch [] h = refl
count-update_rows_same p id patch (m ∷ ms) h =
    ground (arith, h m, count-update_rows_same p id patch ms h)

abbrev pub Linked : ℕ → List KitMembership → Type 0
Linked n = All (λ m. m.kit_id < n)

pub Linked-update_rows :
    (n id : ℕ) (patch : KitMembershipPatch) (ms : List KitMembership)
    → Linked n ms
    → Linked n (update_rows id patch ms)
Linked-update_rows n id patch [] h = tt
Linked-update_rows n id patch (m ∷ ms) h = ground (arith, Linked-update_rows n id patch ms h.1)

abbrev pub is_of : ℕ → ℕ → KitMembership → Bool
is_of kit_id user_id m = m.kit_id == kit_id && m.user_id == user_id

pub count-Linked :
    (n kit_id user_id : ℕ) (ms : List KitMembership)
    → Linked n ms
    → n ≤ kit_id
    → count (is_of kit_id user_id) ms ≡ 0
count-Linked n kit_id user_id [] h e = refl
count-Linked n kit_id user_id (m ∷ ms) h e = ground (arith, count-Linked n kit_id user_id ms h.1)
