-- ===== src/Mqtt/KitRpc/Answers.antt =====
-- Which request an answer reaches: that of its kit and its id, once, and in time.
use astroplant_api.Prelude.{
  ℕ, ◌+◌, ◌-◌, ◌<◌, Text, ◌≡◌, refl, sym, ◌∙◌, ap, Bool, true, false, not, ◌&&◌, none, some, List,
  [], ◌∷◌, ◌++◌, ltb, leb, arith, inl, inr,
}
use mathlib.Core.List.{append_assoc}
use astroplant_api.Prelude.Equality.{≟_refl, nat_eq, list_eq, pair_eq}
use astroplant_api.Prelude.Machine.{u64_mod}
use astroplant_api.Prelude.Map.{get-insert}
use astroplant_api.Mqtt.KitRpc.{
  Request, Answer, Waiter, Driver, handle_request, timeout, handle_response, Event, requested,
  responded, ticked, closed, drive,
}
use astroplant_api.Mqtt.KitRpc.Waiting.{
  requests, next, HasRoom, next-HasRoom, same_key, waiter, requested-waiter, responded-waiter,
  ticked-waiter, next-gone, IsOf, next-IsOf,
}

-- Events that leave the waiter of a request alone: further requests, other responses, and ticks
-- before its time is over.
abbrev pub is_quiet : Text → ℕ → ℕ → Event → Bool
is_quiet s n time (requested now r) = true
is_quiet s n time (responded r) = not (same_key r.kit_serial r.request_id s n)
is_quiet s n time (ticked now) = ltb now (time + timeout)
is_quiet s n time closed = false

abbrev pub all_quiet : Text → ℕ → ℕ → List Event → Bool
all_quiet s n time [] = true
all_quiet s n time (e ∷ es) = is_quiet s n time e && all_quiet s n time es

module _ (s : Text) (n : ℕ) (answer : Answer) where
  abbrev pub response : Event
  response = responded (record { kit_serial = s; request_id = n; body = answer })

  -- A waiter that is there is told.
  told :
      (d : Driver) (w : Waiter)
      → waiter s n d ≡ some w
      → (drive d (response ∷ [])).0 ≡ record { channel = w.channel; answer = answer } ∷ []
  unfolding drive handle_response
  told d w found = rw found refl

  waits :
      (d : Driver) (w : Waiter) (es : List Event)
      → HasRoom n (requests es) d
      → waiter s n d ≡ some w
      → all_quiet s n w.created es ≡ true
      → (drive d (es ++ response ∷ [])).0
        ≡ (drive d es).0 ++ record { channel = w.channel; answer = answer } ∷ []
  unfolding drive handle_response
  waits d w [] h found quiet = told d w found
  waits d w (requested now r ∷ es) h found quiet =
      waits (next d (requested now r)) w es (next-HasRoom n d (requested now r) es h)
        (requested-waiter s n d now r h.given ∙ found) quiet
  waits d w (responded r ∷ es) h found quiet =
      let other : same_key r.kit_serial r.request_id s n ≡ false = ground arith in
      let rest : all_quiet s n w.created es ≡ true = ground arith in
      let ih =
        waits (next d (responded r)) w es (next-HasRoom n d (responded r) es h)
          (responded-waiter s n d r ∙ rw other found) rest in
      ap (λ l. (handle_response d r).0 ++ l) ih
      ∙ sym (append_assoc (handle_response d r).0 (drive (next d (responded r)) es).0 _)
  waits d w (ticked now ∷ es) h found quiet =
      let young : ltb (now - w.created) timeout ≡ true = ground arith in
      let rest : all_quiet s n w.created es ≡ true = ground arith in
      waits (next d (ticked now)) w es (next-HasRoom n d (ticked now) es h)
        (ticked-waiter s n d now ∙ rw found (rw young refl)) rest
  waits d w (closed ∷ es) h found quiet = cc

  -- A waiter that is gone is told nothing more.
  forgotten :
      (d : Driver) (es : List Event)
      → HasRoom n (requests es) d
      → waiter s n d ≡ none
      → (drive d (es ++ response ∷ [])).0 ≡ (drive d es).0
  unfolding drive handle_response
  forgotten d [] h gone = rw gone refl
  forgotten d (requested now r ∷ es) h gone =
      forgotten (next d (requested now r)) es (next-HasRoom n d (requested now r) es h)
        (next-gone s n d (requested now r) h.given gone)
  forgotten d (responded r ∷ es) h gone =
      ap (λ l. (handle_response d r).0 ++ l)
        (forgotten (next d (responded r)) es (next-HasRoom n d (responded r) es h)
          (next-gone s n d (responded r) h.given gone))
  forgotten d (ticked now ∷ es) h gone =
      forgotten (next d (ticked now)) es (next-HasRoom n d (ticked now) es h)
        (next-gone s n d (ticked now) h.given gone)
  forgotten d (closed ∷ es) h gone = refl

-- Events after which the waiter is gone for certain: a response to it, or a tick when its time is over.
abbrev pub settles : Text → ℕ → ℕ → Event → Bool
settles s n time (requested now r) = false
settles s n time (responded r) = same_key r.kit_serial r.request_id s n
settles s n time (ticked now) = leb (time + timeout) now
settles s n time closed = false

module _ (s : Text) (n : ℕ) (time : ℕ) (answer : Answer) where
  settled :
      (d : Driver) (e : Event)
      → IsOf s n time d
      → settles s n time e ≡ true
      → n < d.next_id
      → waiter s n (next d e) ≡ none
  settled d e (inl gone) h k = next-gone s n d e k gone
  settled d (requested now r) (inr x) h k = cc
  settled d (responded r) (inr x) h k = responded-waiter s n d r ∙ rw h refl
  settled d (ticked now) (inr (w, found, of_time)) h k =
      let old : ltb (now - w.created) timeout ≡ false = ground (arith, of_time) in
      ticked-waiter s n d now ∙ rw found (rw old refl)
  settled d closed (inr x) h k = cc

  after_settled :
      (d : Driver) (es fs : List Event) (e : Event)
      → HasRoom n (requests (es ++ e ∷ fs)) d
      → IsOf s n time d
      → settles s n time e ≡ true
      → (drive d (es ++ e ∷ (fs ++ response s n answer ∷ []))).0 ≡ (drive d (es ++ e ∷ fs)).0
  unfolding drive handle_response
  after_settled d [] fs (requested now r) h x settling = cc
  after_settled d [] fs (responded r) h x settling =
      ap (λ l. (handle_response d r).0 ++ l)
        (forgotten s n answer (next d (responded r)) fs (next-HasRoom n d (responded r) fs h)
          (settled d (responded r) x settling h.given))
  after_settled d [] fs (ticked now) h x settling =
      forgotten s n answer (next d (ticked now)) fs (next-HasRoom n d (ticked now) fs h)
        (settled d (ticked now) x settling h.given)
  after_settled d [] fs closed h x settling = cc
  after_settled d (requested now r ∷ es) fs e h x settling =
      after_settled (next d (requested now r)) es fs e
        (next-HasRoom n d (requested now r) (es ++ e ∷ fs) h)
        (next-IsOf s n time d (requested now r) h.given x) settling
  after_settled d (responded r ∷ es) fs e h x settling =
      ap (λ l. (handle_response d r).0 ++ l)
        (after_settled (next d (responded r)) es fs e
          (next-HasRoom n d (responded r) (es ++ e ∷ fs) h)
          (next-IsOf s n time d (responded r) h.given x) settling)
  after_settled d (ticked now ∷ es) fs e h x settling =
      after_settled (next d (ticked now)) es fs e (next-HasRoom n d (ticked now) (es ++ e ∷ fs) h)
        (next-IsOf s n time d (ticked now) h.given x) settling
  after_settled d (closed ∷ es) fs e h x settling = refl

-- The driver after a request: it waits under the id that it has published.
module _ (d : Driver) (now : ℕ) (r : Request) where
  published-waiter :
      waiter r.kit_serial d.next_id (next d (requested now r))
      ≡ some (record { created = now; channel = r.response_channel })
  unfolding handle_request
  published-waiter =
      get-insert d.waiters (r.kit_serial, d.next_id) (r.kit_serial, d.next_id)
        (record { created = now; channel = r.response_channel })
      ∙ rw (≟_refl {A = Text × ℕ} (r.kit_serial, d.next_id)) refl

  published-HasRoom :
      (m : ℕ) → d.next_id + m + 1 < u64_mod → HasRoom d.next_id m (next d (requested now r))
  unfolding handle_request
  published-HasRoom m h = record { given = omega (arith, h); room = omega (arith, h) }

-- A request is answered: whatever the driver waits for already, if between a request and the
-- response of its kit with its id there are only further requests (fewer than the ids that are
-- left below 2^64), other responses, and ticks less than 30 seconds after the request, then the
-- response is sent into the channel of the request, after all that is sent without it.
pub drive-answered :
    (d : Driver) (now : ℕ) (r : Request) (es : List Event) (answer : Answer)
    → d.next_id + requests es + 1 < u64_mod
    → all_quiet r.kit_serial d.next_id now es ≡ true
    → (drive d (requested now r ∷ (es ++ response r.kit_serial d.next_id answer ∷ []))).0
      ≡ (drive d (requested now r ∷ es)).0
        ++ record { channel = r.response_channel; answer = answer } ∷ []
unfolding drive
drive-answered d now r es answer h quiet =
    waits r.kit_serial d.next_id answer (next d (requested now r)) _ es
      (published-HasRoom d now r (requests es) h) (published-waiter d now r) quiet

-- A request is answered once, and in time: after a response to it, or a tick at least 30 seconds
-- after it, a response of its kit with its id is sent to nobody, whatever happened before, between
-- and after, as long as the ids do not run over 2^64.
pub drive-settled :
    (d : Driver) (now : ℕ) (r : Request) (es fs : List Event) (e : Event) (answer : Answer)
    → d.next_id + requests (es ++ e ∷ fs) + 1 < u64_mod
    → settles r.kit_serial d.next_id now e ≡ true
    → (drive d
        (requested now r ∷ (es ++ e ∷ (fs ++ response r.kit_serial d.next_id answer ∷ [])))).0
      ≡ (drive d (requested now r ∷ (es ++ e ∷ fs))).0
unfolding drive
drive-settled d now r es fs e answer h settling =
    after_settled r.kit_serial d.next_id now answer (next d (requested now r)) es fs e
      (published-HasRoom d now r (requests (es ++ e ∷ fs)) h)
      (inr (_, published-waiter d now r, refl)) settling
