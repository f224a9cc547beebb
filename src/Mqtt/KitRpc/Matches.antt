-- ===== src/Mqtt/KitRpc/Matches.antt =====
-- Whose answers reach a caller: those of the kit that it asked.
use astroplant_api.Prelude.{
  ℕ, Text, ◌≡◌, refl, sym, ◌∙◌, ap, Bool, Option, none, some, List, [], ◌∷◌, ltb, ◌-◌, All,
  All-append, arith, Bool-cases, inl, inr, subst,
}
use astroplant_api.Prelude.Equality.{≟_iff, nat_eq, list_eq, pair_eq}
use astroplant_api.Prelude.Map.{get, keep_if, get-empty, get-insert}
use astroplant_api.Mqtt.KitRpc.{
  Request, Response, Answer, Waiter, Driver, new_driver, Delivery, delivered, handle_request,
  timeout, handle_response, Event, requested, responded, ticked, closed, drive,
}
use astroplant_api.Mqtt.KitRpc.Waiting.{next, waiter, same_key, responded-waiter, ticked-waiter}

module _ (asked : Text → ℕ → Type 0) (said : Text → Answer → Type 0) where
  -- The channel of a request is one that asked the kit, and a response is what the kit said.
  abbrev pub Records : Event → Type 0
  Records (requested now r) = asked r.kit_serial r.response_channel
  Records (responded r) = said r.kit_serial r.body
  Records (ticked now) = Unit
  Records closed = Unit

  abbrev pub Fits : Delivery → Type 0
  Fits m = (s : Text) × asked s m.channel × said s m.answer

  abbrev Waits : Driver → Type 0
  Waits d = (s : Text) (n : ℕ) (w : Waiter) → waiter s n d ≡ some w → asked s w.channel

  new-Waits : Waits new_driver
  new-Waits s n w h = cc (get-empty {K = Text × ℕ} {V = Waiter} (s, n), h)

  requested-Waits :
      (d : Driver) (now : ℕ) (r : Request)
      → asked r.kit_serial r.response_channel
      → Waits d
      → Waits (next d (requested now r))
  unfolding handle_request
  requested-Waits d now r a v s n w h =
      let law =
        get-insert d.waiters (r.kit_serial, d.next_id) (s, n)
          (record { created = now; channel = r.response_channel }) in
      elim (Bool-cases (same_key r.kit_serial d.next_id s n)) [
        | inl hit ↦
            let key = (≟_iff {A = Text × ℕ} (r.kit_serial, d.next_id) (s, n)).0 hit in
            let row : some (record { created = now; channel = r.response_channel }) ≡ some w =
              sym (law ∙ rw hit refl) ∙ h in
            let channel : r.response_channel ≡ w.channel = cc row in
            subst (λ t. asked t w.channel) (ap (λ k. k.0) key)
              (subst (asked r.kit_serial) channel a)
        | inr miss ↦ v s n w (sym (law ∙ rw miss refl) ∙ h)
      ]

  responded-Waits : (d : Driver) (r : Response) → Waits d → Waits (next d (responded r))
  responded-Waits d r v s n w h = elim (Bool-cases (same_key r.kit_serial r.request_id s n)) [
    | inl hit ↦ let gone : none ≡ some w = sym (responded-waiter s n d r ∙ rw hit refl) ∙ h in cc
    | inr miss ↦ v s n w (sym (responded-waiter s n d r ∙ rw miss refl) ∙ h)
  ]

  keep_if-some :
      (p : Waiter → Bool) (o : Option Waiter) (w : Waiter) → keep_if p o ≡ some w → o ≡ some w
  keep_if-some p none w h = cc
  keep_if-some p (some x) w h = ground arith

  ticked-Waits : (d : Driver) (now : ℕ) → Waits d → Waits (next d (ticked now))
  ticked-Waits d now v s n w h = v s n w (
      keep_if-some (λ x. ltb (now - x.created) timeout) (waiter s n d) w
        (sym (ticked-waiter s n d now) ∙ h))

  delivered-Fits :
      (s : Text) (o : Option Waiter) (answer : Answer)
      → ((w : Waiter) → o ≡ some w → asked s w.channel)
      → said s answer
      → All Fits (delivered o answer)
  delivered-Fits s none answer v q = tt
  delivered-Fits s (some w) answer v q = ((s, v w refl, q), tt)

  matches_from : (d : Driver) (es : List Event) → Waits d → All Records es → All Fits (drive d es).0
  unfolding drive handle_response
  matches_from d [] v h = tt
  matches_from d (requested now r ∷ es) v h =
      matches_from (next d (requested now r)) es (requested-Waits d now r h.0 v) h.1
  matches_from d (responded r ∷ es) v h =
      All-append Fits (delivered (get d.waiters (r.kit_serial, r.request_id)) r.body) _
        (delivered-Fits r.kit_serial (get d.waiters (r.kit_serial, r.request_id)) r.body
          (λ w e. v r.kit_serial r.request_id w e) h.0)
        (matches_from (next d (responded r)) es (responded-Waits d r v) h.1)
  matches_from d (ticked now ∷ es) v h =
      matches_from (next d (ticked now)) es (ticked-Waits d now v) h.1
  matches_from d (closed ∷ es) v h = tt

  -- Callers get answers of the kit that they asked, and of no other: whatever is true of the kit
  -- and the channel of each request, and of the kit and the answer of each response, every answer
  -- that a driver sends from its start on comes with a kit for which both are true, of the channel
  -- that it is sent into and of the answer. This holds even after the ids have run over.
  pub drive-Fits : (es : List Event) → All Records es → All Fits (drive new_driver es).0
  drive-Fits es h = matches_from new_driver es new-Waits h
