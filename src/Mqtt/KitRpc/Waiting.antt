-- ===== src/Mqtt/KitRpc/Waiting.antt =====
-- What the events of the driver do to the waiter of one request.
use astroplant_api.Prelude.{
  ℕ, ◌+◌, ◌-◌, ◌<◌, Text, ◌≡◌, refl, ◌∙◌, Bool, false, Option, none, some, List, [], ◌∷◌, ltb,
  if◌then◌else◌, arith, ◌⊎◌, inl, inr, Bool-cases,
}
use astroplant_api.Prelude.Equality.{◌≟◌, nat_eq, list_eq, pair_eq}
use astroplant_api.Prelude.Machine.{u64_mod}
use astroplant_api.Prelude.Map.{get, keep_if, get-insert, get-remove, get-retain}
use astroplant_api.Mqtt.KitRpc.{
  Request, Response, Waiter, Driver, handle_request, timeout, cleanup, handle_response, Event,
  requested, responded, ticked, closed,
}

-- How many requests arrive.
abbrev pub requests : List Event → ℕ
requests [] = 0
requests (requested now r ∷ es) = requests es + 1
requests (responded r ∷ es) = requests es
requests (ticked now ∷ es) = requests es
requests (closed ∷ es) = requests es

-- The driver after an event that does not stop it.
abbrev pub next : Driver → Event → Driver
next d (requested now r) = (handle_request d now r).1
next d (responded r) = (handle_response d r).1
next d (ticked now) = cleanup d now
next d closed = d

-- The id was given out, and the ids of `left` further requests do not run over.
pub record HasRoom (n left : ℕ) (d : Driver) : Type 0 where
  pub given : n < d.next_id
  pub room : d.next_id + left < u64_mod

pub next-HasRoom :
    (n : ℕ) (d : Driver) (e : Event) (es : List Event)
    → HasRoom n (requests (e ∷ es)) d
    → HasRoom n (requests es) (next d e)
unfolding handle_request handle_response cleanup
next-HasRoom n d (requested now r) es h = record {
  given = omega (arith, h.given, h.room);
  room = omega (arith, h.room);
}
next-HasRoom n d (responded r) es h = record { given = h.given; room = h.room }
next-HasRoom n d (ticked now) es h = record { given = h.given; room = h.room }
next-HasRoom n d closed es h = h

abbrev pub same_key : Text → ℕ → Text → ℕ → Bool
same_key t id s n = ◌≟◌ {A = Text × ℕ} (t, id) (s, n)

module _ (s : Text) (n : ℕ) where
  abbrev pub waiter : Driver → Option Waiter
  waiter d = get d.waiters (s, n)

  other_key : (t : Text) (id : ℕ) → n < id → same_key t id s n ≡ false
  other_key t id h = ground arith

  -- A later request has another id.
  pub requested-waiter :
      (d : Driver) (now : ℕ) (r : Request)
      → n < d.next_id
      → waiter (next d (requested now r)) ≡ waiter d
  unfolding handle_request
  requested-waiter d now r h =
      get-insert d.waiters (r.kit_serial, d.next_id) (s, n)
        (record { created = now; channel = r.response_channel })
      ∙ rw (other_key r.kit_serial d.next_id h) refl

  pub responded-waiter :
      (d : Driver) (r : Response)
      → waiter (next d (responded r))
        ≡ (if same_key r.kit_serial r.request_id s n then none else waiter d)
  unfolding handle_response
  responded-waiter d r = get-remove d.waiters (r.kit_serial, r.request_id) (s, n)

  pub ticked-waiter :
      (d : Driver) (now : ℕ)
      → waiter (next d (ticked now)) ≡ keep_if (λ w. ltb (now - w.created) timeout) (waiter d)
  unfolding cleanup
  ticked-waiter d now = get-retain (λ _ w. ltb (now - w.created) timeout) d.waiters (s, n)

  -- Once gone, the waiter does not come back.
  pub next-gone :
      (d : Driver) (e : Event) → n < d.next_id → waiter d ≡ none → waiter (next d e) ≡ none
  next-gone d (requested now r) h gone = requested-waiter d now r h ∙ gone
  next-gone d (responded r) h gone = responded-waiter d r ∙ rw gone (ground arith)
  next-gone d (ticked now) h gone = ticked-waiter d now ∙ rw gone refl
  next-gone d closed h gone = gone

  -- The waiter is gone, or it is the one of the request at a time.
  abbrev pub IsOf : ℕ → Driver → Type 0
  IsOf time d = (waiter d ≡ none) ⊎ ((w : Waiter) × (waiter d ≡ some w) × (w.created ≡ time))

  pub next-IsOf :
      (time : ℕ) (d : Driver) (e : Event) → n < d.next_id → IsOf time d → IsOf time (next d e)
  next-IsOf time d e h (inl gone) = inl (next-gone d e h gone)
  next-IsOf time d (requested now r) h (inr (w, found, of_time)) =
      inr (w, requested-waiter d now r h ∙ found, of_time)
  next-IsOf time d (responded r) h (inr (w, found, of_time)) =
      elim (Bool-cases (same_key r.kit_serial r.request_id s n)) [
        | inl hit ↦ inl (responded-waiter d r ∙ rw hit refl)
        | inr miss ↦ inr (w, responded-waiter d r ∙ rw miss found, of_time)
      ]
  next-IsOf time d (ticked now) h (inr (w, found, of_time)) =
      elim (Bool-cases (ltb (now - w.created) timeout)) [
        | inl young ↦ inr (w, ticked-waiter d now ∙ rw found (rw young refl), of_time)
        | inr old ↦ inl (ticked-waiter d now ∙ rw found (rw old refl))
      ]
  next-IsOf time d closed h (inr x) = inr x
