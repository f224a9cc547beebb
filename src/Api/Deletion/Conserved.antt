-- ===== src/Api/Deletion/Conserved.antt =====
-- No deletion loses a medium: it is stored, or its object waits to be deleted.
use astroplant_api.Prelude.{
  ℕ, ◌+◌, Text, ◌≡◌, refl, sym, ◌∙◌, ap, Bool, not, ◌||◌, Option, none, some, List, [], ◌∷◌, map,
  ◌==◌, keep, count, count-append, ok, arith, subst,
}
use astroplant_api.Prelude.Keyed.{first-delete_at}
use astroplant_api.Api.Models.{Uuid, Media, QueueMediaPendingDeletion, Kit}
use astroplant_api.Api.Database.{Db, after, after_ok}
use astroplant_api.Api.Helpers.{kit_by_serial, kit_by_id}
use astroplant_api.Api.Helpers.Granted.{IsMemberWith}
use astroplant_api.Api.Deletion.{pending, delete_configuration, delete_kit, delete_media}
use astroplant_api.Api.Deletion.Done.{
  media_queued, of_configuration, of_kit, delete_configuration-done, delete_kit-done,
  delete_media-done,
}

pub data Request : Type 0 where
  deletes_configuration : Option ℕ → (id : ℕ) → Request
  deletes_kit : Option ℕ → (kit_serial : Text) → Request
  deletes_media : Option ℕ → (media_id : Uuid) → Request

unfoldable pub step : Db → Request → Db
step db (deletes_configuration user_id id) = after db (delete_configuration db user_id id)
step db (deletes_kit user_id serial) = after db (delete_kit db user_id serial)
step db (deletes_media user_id id) = after db (delete_media db user_id id)

unfoldable pub run : Db → List Request → Db
unfolding step
run db [] = db
run db (r ∷ rs) = run (step db r) rs

-- How many media with a property there are, stored or waiting to be deleted.
abbrev pub known : (QueueMediaPendingDeletion → Bool) → Db → ℕ
known p db = count p (map pending db.media) + count p db.queue_media_pending_deletion

count-split :
    (p : QueueMediaPendingDeletion → Bool) (selected : Media → Bool) (ms : List Media)
    → count p (map pending (keep (λ m. not (selected m)) ms))
        + count p (map pending (keep selected ms))
      ≡ count p (map pending ms)
count-split p selected [] = refl
count-split p selected (m ∷ ms) = ground (arith, count-split p selected ms)

media_queued-known :
    (p : QueueMediaPendingDeletion → Bool) (selected : Media → Bool) (db : Db)
    → known p (media_queued selected db) ≡ known p db
media_queued-known p selected db = omega (
  arith,
  count-split p selected db.media,
  count-append p db.queue_media_pending_deletion (map pending (keep selected db.media)),
)

step-known :
    (p : QueueMediaPendingDeletion → Bool) (db : Db) (r : Request)
    → known p (step db r) ≡ known p db
unfolding step
step-known p db (deletes_configuration user_id id) =
    after_ok (λ d. known p d ≡ known p db) db (delete_configuration db user_id id) refl
      (λ u db' h.
        ap (known p) (delete_configuration-done db user_id id u db' h)
        ∙ media_queued-known p (of_configuration id) db)
step-known p db (deletes_kit user_id serial) =
    after_ok (λ d. known p d ≡ known p db) db (delete_kit db user_id serial) refl
      (λ u db' h.
        let (kit, _, _, e) = delete_kit-done db user_id serial u db' h in
        ap (known p) e ∙ media_queued-known p (of_kit kit.id) db)
step-known p db (deletes_media user_id id) =
    after_ok (λ d. known p d ≡ known p db) db (delete_media db user_id id) refl
      (λ u db' h.
        ap (known p) (delete_media-done db user_id id u db' h) ∙ media_queued-known p _ db)

-- Any sequence of deletions of kits, configurations and media, each of which may fail, conserves
-- the media: for every property of an id, a time and a size, as many media as before are stored or
-- wait for the deletion of their object.
pub run-known :
    (p : QueueMediaPendingDeletion → Bool) (db : Db) (rs : List Request)
    → known p (run db rs) ≡ known p db
unfolding run
run-known p db [] = refl
run-known p db (r ∷ rs) = run-known p (step db r) rs ∙ step-known p db r

-- Filtering out what a query meets leaves it nothing.
count-keep-not {ℓ} :
    {A : Type ℓ} (p : A → Bool) (xs : List A) → count p (keep (λ x. not (p x)) xs) ≡ 0
count-keep-not p [] = refl
count-keep-not p (x ∷ xs) = ground (arith, count-keep-not p xs)

count-keep-neither {ℓ} :
    {A : Type ℓ} (p q : A → Bool) (xs : List A) → count p (keep (λ x. not (p x || q x)) xs) ≡ 0
count-keep-neither p q [] = refl
count-keep-neither p q (x ∷ xs) = ground (arith, count-keep-neither p q xs)

-- Nothing in the tables refers to a kit.
pub record IsForgotten (id : ℕ) (db : Db) : Type 0 where
  pub kit : kit_by_id db id ≡ none
  pub memberships : count (λ m. m.kit_id == id) db.kit_memberships ≡ 0
  pub configurations : count (λ c. c.kit_id == id) db.kit_configurations ≡ 0
  pub peripherals : count (λ p. p.kit_id == id) db.peripherals ≡ 0
  pub media : count (of_kit id) db.media ≡ 0

-- When the deletion of a kit succeeds, it was requested by a member with super access to the kit
-- with the serial, and afterwards the kit is not found and no membership, configuration,
-- peripheral or medium of it is stored.
pub delete_kit-IsForgotten :
    (db : Db) (user_id : Option ℕ) (serial : Text) (u : Unit {0}) (db' : Db)
    → delete_kit db user_id serial ≡ ok (u, db')
    → (kit : Kit) × (kit_by_serial db serial ≡ some kit)
      × IsMemberWith (λ m. m.access_super) db user_id kit.id
      × IsForgotten kit.id db'
delete_kit-IsForgotten db user_id serial u db' h =
    let (kit, found, requester, e) = delete_kit-done db user_id serial u db' h in
    (
      kit,
      found,
      requester,
      subst (IsForgotten kit.id) (sym e) (record {
        kit = first-delete_at (λ k. k.id) kit.id db.kits;
        memberships = count-keep-not (λ m. m.kit_id == kit.id) db.kit_memberships;
        configurations = count-keep-not (λ c. c.kit_id == kit.id) db.kit_configurations;
        peripherals = count-keep-neither (λ p. p.kit_id == kit.id) _ db.peripherals;
        media = count-keep-not (of_kit kit.id) db.media;
      }),
    )
