-- ===== src/WebSocket/Subscribers.antt =====
-- Who is sent the measurements of a kit.
use astroplant_api.Prelude.{
  ℕ, ◌+◌, ◌≡◌, ◌<◌, refl, sym, ◌∙◌, ap, subst, Text, Bool, true, false, Bool-cases, inl, inr,
  Option, none, some, List, [], ◌∷◌, ◌==◌, ==_iff, ==_refl, if◌then◌else◌, arith,
}
use astroplant_api.Prelude.Equality.{◌≟◌, ≟_iff, nat_eq, list_eq}
use astroplant_api.Prelude.Map.{Map, get, insert, remove, get-empty, get-insert, get-remove}
use astroplant_api.Mqtt.Publications.{RawMeasurement}
use astroplant_api.WebSocket.{
  Phase, accepted, no_sender, dropped, was_last, finished, panicked, receiving, Registry, Action,
  subscribes, proceeds, closes, no_listeners, moved, looked_up, counted, task_step, close_step, sub,
  registry_step, registry_run, receives_from, is_sent,
}

abbrev pub serial_of_phase : Phase → Text
serial_of_phase (accepted s) = s
serial_of_phase (no_sender s) = s
serial_of_phase (dropped s) = s
serial_of_phase (was_last s) = s
serial_of_phase (finished s) = s
serial_of_phase (panicked s) = s
serial_of_phase (receiving s channel) = s

-- The kit for which a channel was created.
abbrev Owner : Type 0
Owner = ℕ → Text

module _ (auth_check : (id : ℕ) → (kit_serial : Text) → Bool)
    (receiver_count : Registry → ℕ → ℕ) where
  abbrev IsOwned : Owner → ℕ → Phase → Type 0
  IsOwned owner next (receiving serial channel) = (owner channel ≡ serial) × (channel < next)
  IsOwned owner next _ = Unit

  -- What holds of a task: it is authorized, and the channel that it receives from is its kit's.
  record IsFine (owner : Owner) (next id : ℕ) (phase : Phase) : Type 0 where
    owned : IsOwned owner next phase
    authorized : auth_check id (serial_of_phase phase) ≡ true

  -- Each channel belongs to one kit, whose sender it is and whose subscribers receive from it.
  record IsOrderly (owner : Owner) (r : Registry) : Type 0 where
    senders :
        (serial : Text) (channel : ℕ)
        → get r.listeners serial ≡ some channel
        → (owner channel ≡ serial) × (channel < r.next_channel)
    receivers :
        (id : ℕ) (phase : Phase)
        → get r.tasks id ≡ some phase
        → IsFine owner r.next_channel id phase

  insert-IsFine :
      (owner : Owner) (next : ℕ) (tasks : Map ℕ Phase) (id : ℕ) (phase : Phase)
      → ((j : ℕ) (p : Phase) → get tasks j ≡ some p → IsFine owner next j p)
      → IsFine owner next id phase
      → (j : ℕ) (p : Phase) → get (insert tasks id phase) j ≡ some p
      → IsFine owner next j p
  insert-IsFine owner next tasks id phase old new j p h = elim (Bool-cases (id == j)) [
    | inr other ↦ old j p (rw other at (rw (get-insert tasks id j phase) at h))
    | inl here ↦
        let is_new : phase ≡ p = cc (rw here at (rw (get-insert tasks id j phase) at h)) in
        subst (λ i. IsFine owner next i p) ((==_iff id j).0 here)
          (subst (IsFine owner next id) is_new new)
  ]

  moved-IsOrderly :
      (owner : Owner) (r : Registry) (id : ℕ) (phase : Phase)
      → IsOrderly owner r
      → IsFine owner r.next_channel id phase
      → IsOrderly owner (moved r id phase)
  moved-IsOrderly owner r id phase o new = record {
    senders = o.senders;
    receivers = insert-IsFine owner r.next_channel r.tasks id phase o.receivers new;
  }

  abbrev owner_of_next : Owner → ℕ → Text → Owner
  owner_of_next owner next serial channel = if channel == next then serial else owner channel

  still-IsOwned :
      (owner : Owner) (next : ℕ) (serial : Text) (phase : Phase)
      → IsOwned owner next phase
      → IsOwned (owner_of_next owner next serial) (next + 1) phase
  still-IsOwned owner next serial (receiving s channel) (own, below) =
      let older : (channel == next) ≡ false = ground (arith, below) in
      (rw older own, omega (arith, below))
  still-IsOwned owner next serial (accepted s) o = tt
  still-IsOwned owner next serial (no_sender s) o = tt
  still-IsOwned owner next serial (dropped s) o = tt
  still-IsOwned owner next serial (was_last s) o = tt
  still-IsOwned owner next serial (finished s) o = tt
  still-IsOwned owner next serial (panicked s) o = tt

  -- A sender that is registered, whatever stood in its place.
  registered-IsOrderly :
      (owner : Owner) (r : Registry) (serial : Text)
      → IsOrderly owner r
      → IsOrderly (owner_of_next owner r.next_channel serial) (record r {
        listeners = insert r.listeners serial r.next_channel;
        next_channel = r.next_channel + 1;
      })
  registered-IsOrderly owner r serial o = record {
    senders = λ s channel h. elim (Bool-cases (serial ≟ s)) [
      | inl here ↦
          let is_next : r.next_channel ≡ channel =
            cc (rw here at (rw (get-insert r.listeners serial s r.next_channel) at h)) in
          subst (λ c. (owner_of_next owner r.next_channel serial c ≡ s) × (c < r.next_channel + 1))
            is_next (rw (==_refl r.next_channel) ((≟_iff serial s).0 here), omega arith)
      | inr other ↦
          let (own, below) =
            o.senders s channel
              (rw other at (rw (get-insert r.listeners serial s r.next_channel) at h)) in
          let older : (channel == r.next_channel) ≡ false = ground (arith, below) in
          (rw older own, omega (arith, below))
    ];
    receivers = λ j p h.
        let fine = o.receivers j p h in
        record {
          owned = still-IsOwned owner r.next_channel serial p fine.owned;
          authorized = fine.authorized;
        };
  }

  removed-IsOrderly :
      (owner : Owner) (r : Registry) (serial : Text)
      → IsOrderly owner r
      → IsOrderly owner (record r { listeners = remove r.listeners serial })
  removed-IsOrderly owner r serial o = record {
    senders = λ s channel h. elim (Bool-cases (serial ≟ s)) [
      | inl here ↦ absurd (cc (rw here at (rw (get-remove r.listeners serial s) at h)))
      | inr other ↦ o.senders s channel (rw other at (rw (get-remove r.listeners serial s) at h))
    ];
    receivers = o.receivers;
  }

  abbrev Orderly : Registry → Type 0
  Orderly r = (owner : Owner) × IsOrderly owner r

  counted-IsOwned :
      (owner : Owner) (next : ℕ) (count : ℕ → ℕ) (serial : Text) (found : Option ℕ)
      → IsOwned owner next (counted count serial found)
        × (serial_of_phase (counted count serial found) ≡ serial)
  counted-IsOwned owner next count serial none = (tt, refl)
  counted-IsOwned owner next count serial (some channel) = elim (Bool-cases (count channel == 0)) [
    | inl last ↦ rw last (tt, refl)
    | inr others ↦ rw others (tt, refl)
  ]

  looked_up-IsFine :
      (owner : Owner) (r : Registry) (id : ℕ) (serial : Text) (found : Option ℕ)
      → IsOrderly owner r
      → get r.listeners serial ≡ found
      → auth_check id serial ≡ true
      → IsFine owner r.next_channel id (looked_up serial found)
  looked_up-IsFine owner r id serial none o h auth = record { owned = tt; authorized = auth }
  looked_up-IsFine owner r id serial (some channel) o h auth = record {
    owned = o.senders serial channel h;
    authorized = auth;
  }

  task_step-Orderly :
      (owner : Owner) (r : Registry) (id : ℕ) (o : Option Phase)
      → IsOrderly owner r
      → ((phase : Phase) → o ≡ some phase → IsFine owner r.next_channel id phase)
      → Orderly (task_step auth_check receiver_count r id o)
  unfolding task_step
  task_step-Orderly owner r id none o f = (owner, o)
  task_step-Orderly owner r id (some (accepted serial)) o f = (
    owner,
    moved-IsOrderly owner r id _ o (
        looked_up-IsFine owner r id serial (get r.listeners serial) o refl
          (f (accepted serial) refl).authorized),
  )
  task_step-Orderly owner r id (some (no_sender serial)) o f =
      let registered = record r {
        listeners = insert r.listeners serial r.next_channel;
        next_channel = r.next_channel + 1;
      } in
      (
        owner_of_next owner r.next_channel serial,
        moved-IsOrderly (owner_of_next owner r.next_channel serial) registered id
            (receiving serial r.next_channel) (registered-IsOrderly owner r serial o)
            (record {
              owned = (rw (==_refl r.next_channel) refl, omega arith);
              authorized = (f (no_sender serial) refl).authorized;
            }),
      )
  task_step-Orderly owner r id (some (receiving serial channel)) o f = (owner, o)
  task_step-Orderly owner r id (some (dropped serial)) o f =
      let (owned, same) =
        counted-IsOwned owner r.next_channel (receiver_count r) serial (get r.listeners serial) in
      (
        owner,
        moved-IsOrderly owner r id _ o (record {
          owned = owned;
          authorized = ap (auth_check id) same ∙ (f (dropped serial) refl).authorized;
        }),
      )
  task_step-Orderly owner r id (some (was_last serial)) o f = (
    owner,
    moved-IsOrderly owner (record r { listeners = remove r.listeners serial }) id (finished serial)
        (removed-IsOrderly owner r serial o)
        (record { owned = tt; authorized = (f (was_last serial) refl).authorized }),
  )
  task_step-Orderly owner r id (some (finished serial)) o f = (owner, o)
  task_step-Orderly owner r id (some (panicked serial)) o f = (owner, o)

  close_step-Orderly :
      (owner : Owner) (r : Registry) (id : ℕ) (o : Option Phase)
      → IsOrderly owner r
      → ((phase : Phase) → o ≡ some phase → IsFine owner r.next_channel id phase)
      → IsOrderly owner (close_step auth_check receiver_count r id o)
  close_step-Orderly owner r id none o f = o
  close_step-Orderly owner r id (some (receiving serial channel)) o f =
      moved-IsOrderly owner r id (dropped serial) o
        (record { owned = tt; authorized = (f (receiving serial channel) refl).authorized })
  close_step-Orderly owner r id (some (accepted serial)) o f = o
  close_step-Orderly owner r id (some (no_sender serial)) o f = o
  close_step-Orderly owner r id (some (dropped serial)) o f = o
  close_step-Orderly owner r id (some (was_last serial)) o f = o
  close_step-Orderly owner r id (some (finished serial)) o f = o
  close_step-Orderly owner r id (some (panicked serial)) o f = o

  sub-Orderly :
      (owner : Owner) (r : Registry) (id : ℕ) (serial : Text) (o : Option Phase)
      → IsOrderly owner r
      → IsOrderly owner (sub auth_check receiver_count r id serial o)
  unfolding sub
  sub-Orderly owner r id serial (some phase) o = o
  sub-Orderly owner r id serial none o = elim (Bool-cases (auth_check id serial)) [
    | inl allowed ↦ rw allowed (
        moved-IsOrderly owner r id (accepted serial) o
          (record { owned = tt; authorized = allowed }))
    | inr refused ↦ rw refused o
  ]

  registry_run-Orderly :
      (r : Registry) (actions : List Action)
      → Orderly r
      → Orderly (registry_run auth_check receiver_count r actions)
  unfolding registry_run registry_step
  registry_run-Orderly r [] o = o
  registry_run-Orderly r (subscribes id serial ∷ actions) (owner, o) =
      registry_run-Orderly (registry_step auth_check receiver_count r (subscribes id serial))
        actions (owner, sub-Orderly owner r id serial (get r.tasks id) o)
  registry_run-Orderly r (proceeds id ∷ actions) (owner, o) =
      registry_run-Orderly (registry_step auth_check receiver_count r (proceeds id)) actions
        (task_step-Orderly owner r id (get r.tasks id) o (o.receivers id))
  registry_run-Orderly r (closes id ∷ actions) (owner, o) =
      registry_run-Orderly (registry_step auth_check receiver_count r (closes id)) actions
        (owner, close_step-Orderly owner r id (get r.tasks id) o (o.receivers id))

  no_listeners-Orderly : Orderly no_listeners
  no_listeners-Orderly = (
    (λ channel. []),
    record {
      senders = λ serial channel h. absurd (cc (h, get-empty {V = ℕ} serial));
      receivers = λ id phase h. absurd (cc (h, get-empty {V = Phase} id));
    },
  )

  receives_from-receiving :
      (sender : Option ℕ) (o : Option Phase)
      → receives_from sender o ≡ true
      → (serial : Text) × (channel : ℕ) × (sender ≡ some channel)
        × (o ≡ some (receiving serial channel))
  receives_from-receiving none o h = cc h
  receives_from-receiving (some c) none h = absurd (cc h)
  receives_from-receiving (some c) (some (receiving serial channel)) h =
      (serial, channel, ap some (sym ((==_iff channel c).0 h)), refl)
  receives_from-receiving (some c) (some (accepted s)) h = absurd (cc h)
  receives_from-receiving (some c) (some (no_sender s)) h = absurd (cc h)
  receives_from-receiving (some c) (some (dropped s)) h = absurd (cc h)
  receives_from-receiving (some c) (some (was_last s)) h = absurd (cc h)
  receives_from-receiving (some c) (some (finished s)) h = absurd (cc h)
  receives_from-receiving (some c) (some (panicked s)) h = absurd (cc h)

  -- However the tasks of the subscriptions interleave, a measurement is only sent to a subscription
  -- to the kit that made it, and only if that was authorized for that kit.
  pub is_sent-registry_run :
      {Date : Type 0} (actions : List Action) (m : RawMeasurement Date) (id : ℕ)
      → is_sent (registry_run auth_check receiver_count no_listeners actions) m id ≡ true
      → (channel : ℕ) × (get (registry_run auth_check receiver_count no_listeners actions).tasks id
          ≡ some (receiving m.kit_serial channel))
        × (auth_check id m.kit_serial ≡ true)
  unfolding is_sent
  is_sent-registry_run actions m id h =
      let r = registry_run auth_check receiver_count no_listeners actions in
      let (owner, o) = registry_run-Orderly no_listeners actions no_listeners-Orderly in
      let (serial, channel, sender, task) =
        receives_from-receiving (get r.listeners m.kit_serial) (get r.tasks id) h in
      let fine = o.receivers id (receiving serial channel) task in
      let same : serial ≡ m.kit_serial =
        sym fine.owned.0 ∙ (o.senders m.kit_serial channel sender).0 in
      (
        channel,
        task ∙ ap (λ s. some (receiving s channel)) same,
        subst (λ s. auth_check id s ≡ true) same fine.authorized,
      )
