-- ===== src/Mqtt/Publications/Sender.antt =====
-- Whom a packet speaks for, and which packets end in an error.
use astroplant_api.Prelude.{
  map_err-eq-ok, Result-cases, ℕ, ◌≡◌, ◌≢◌, ◌⊎◌, ◌↔◌, refl, sym, ◌∙◌, ap, subst, inl, inr, Text,
  Option, Option-cases, none, some, List, Result, ok, err, map_err, >>=-eq-ok,
}
use astroplant_api.Prelude.Map.{empty}
use astroplant_api.Mqtt.Topic.{
  TopicKind, Topic, raw_measurement, aggregate_measurement, media, server_rpc_request,
  server_rpc_response, kit_rpc_request, kit_rpc_response, try_from,
}
use astroplant_api.Mqtt.Timestamp.{timestamp_to_datetime}
use astroplant_api.Mqtt.KitRpc.{Response, ResponseBody}
use astroplant_api.Mqtt.KitRpc.Decoding.{
  CapnpError, from_capnp, without_request_id, DecodeError, send, to_response, decode_rpc_response,
}
use astroplant_api.Mqtt.KitRpc.Reaches.{send-refused}
use astroplant_api.Mqtt.Topic.RoundTrip.{try_from-err}
use astroplant_api.Mqtt.ServerRpc.{
  ServerRpcHandler, ServerRpcRequest, ServerDecodeError, with_id, without_id, ServerRpcResponse,
  respond, publish, response_topic, handle_server_rpc_request,
}
use astroplant_api.Mqtt.Publications.{
  MqttError, invalid_topic, kit_rpc_response_error, Failure, refused, panic, RawMeasurement,
  KitAggregate, KitMedia, Message, of_raw, of_aggregate, of_media, Libraries, or_issue,
  or_malformed, time_or_malformed, collect, Handled, parse_raw_measurement,
  parse_aggregate_measurement, parse_media, only_message, if_ok, request_of_kit,
  handle_kit_rpc_response, dispatch, handle_publish,
}

abbrev pub serial_of : {Date : Type 0} → Message Date → Text
serial_of (of_raw m) = m.kit_serial
serial_of (of_aggregate m) = m.kit_serial
serial_of (of_media m) = m.kit_serial

-- Everything that a packet leads to is about one kit.
pub record IsAbout {Date L : Type 0} (serial : Text) (h : Handled Date L) : Type 0 where
  pub message : (m : Message Date) → h.message ≡ some m → serial_of m ≡ serial
  pub published :
      (topic : Text) (r : ServerRpcResponse)
      → h.published ≡ some (topic, r)
      → (topic ≡ response_topic serial) × (r.kit_serial ≡ serial)
  pub to_driver : (r : Response) → h.to_driver ≡ some r → r.kit_serial ≡ serial

field_of_some : {A : Type 0} (f : A → Text) (a r : A) → some a ≡ some r → f r ≡ f a
field_of_some f a r h = let same : a ≡ r = cc h in ap f (sym same)

respond-serial :
    (handler : ServerRpcHandler) (serial : Text)
    (request : Result ServerDecodeError ServerRpcRequest) (wait : Option ℕ) (r : ServerRpcResponse)
    → respond handler serial request wait ≡ some r
    → r.kit_serial ≡ serial
unfolding respond
respond-serial handler serial (err (with_id id e)) wait r h =
    field_of_some (λ a. a.kit_serial) _ r h
respond-serial handler serial (err (without_id e)) wait r h = cc
respond-serial handler serial (ok request) (some wait) r h = field_of_some (λ a. a.kit_serial) _ r h
respond-serial handler serial (ok request) none r h = field_of_some (λ a. a.kit_serial) _ r h

publish-serial :
    (serial : Text) (o : Option ServerRpcResponse) (topic : Text) (r : ServerRpcResponse)
    → ((a : ServerRpcResponse) → o ≡ some a → a.kit_serial ≡ serial)
    → publish o ≡ some (topic, r)
    → (topic ≡ response_topic serial) × (r.kit_serial ≡ serial)
publish-serial serial none topic r f h = cc
publish-serial serial (some a) topic r f h =
    let same : a ≡ r = cc h in
    let addressed : topic ≡ response_topic a.kit_serial = cc h in
    (addressed ∙ ap response_topic (f a refl), ap (λ b. b.kit_serial) (sym same) ∙ f a refl)

field_of_ok :
    {E A : Type 0} (f : A → Text) (a r : A) → ◌≡◌ {A = Result E A} (ok a) (ok r) → f r ≡ f a
field_of_ok f a r h = let same : a ≡ r = cc h in ap f (sym same)

to_response-serial :
    (parse : Text → Option Text) (serial : Text) (decoded : Result DecodeError (ℕ × ResponseBody))
    (r : Response)
    → to_response parse serial decoded ≡ ok r
    → r.kit_serial ≡ serial
unfolding to_response
to_response-serial parse serial (ok (id, body)) r h = field_of_ok (λ a. a.kit_serial) _ r h
to_response-serial parse serial (err e) r h = elim (Option-cases e.request_id) [
  | inl unknown ↦ absurd (cc (rw unknown at h))
  | inr (id, known) ↦ field_of_ok (λ a. a.kit_serial) _ r (rw known at h)
]

module _ {Date : Type 0} (lib : Libraries Date) where
  parse_raw_measurement-serial :
      (serial : Text) (payload : List ℕ) (m : RawMeasurement Date)
      → parse_raw_measurement lib serial payload ≡ ok m
      → m.kit_serial ≡ serial
  unfolding parse_raw_measurement
  parse_raw_measurement-serial serial payload m h =
      let (reader, _, h1) = >>=-eq-ok (or_issue serial (lib.read_raw payload)) _ h in
      let (slice, _, h2) = >>=-eq-ok (or_issue serial reader.id) _ h1 in
      let (id, _, h3) = >>=-eq-ok (or_malformed serial (lib.uuid_from_slice slice)) _ h2 in
      let (datetime, _, h4) =
        >>=-eq-ok
          (time_or_malformed serial (timestamp_to_datetime lib.from_timestamp reader.datetime)) _
          h3 in
      field_of_ok (λ a. a.kit_serial) _ m h4

  parse_aggregate_measurement-serial :
      (serial : Text) (payload : List ℕ) (m : KitAggregate Date)
      → parse_aggregate_measurement lib serial payload ≡ ok m
      → m.kit_serial ≡ serial
  unfolding parse_aggregate_measurement
  parse_aggregate_measurement-serial serial payload m h =
      let (reader, _, h1) = >>=-eq-ok (or_issue serial (lib.read_aggregate payload)) _ h in
      let (slice, _, h2) = >>=-eq-ok (or_issue serial reader.id) _ h1 in
      let (id, _, h3) = >>=-eq-ok (or_malformed serial (lib.uuid_from_slice slice)) _ h2 in
      let (start, _, h4) =
        >>=-eq-ok
          (time_or_malformed serial
            (timestamp_to_datetime lib.from_timestamp reader.datetime_start))
          _ h3 in
      let (end, _, h5) =
        >>=-eq-ok
          (time_or_malformed serial (timestamp_to_datetime lib.from_timestamp reader.datetime_end))
          _ h4 in
      let (read_values, _, h6) = >>=-eq-ok (or_issue serial reader.values) _ h5 in
      let (values, _, h7) = >>=-eq-ok (collect serial read_values empty) _ h6 in
      field_of_ok (λ a. a.kit_serial) _ m h7

  parse_media-serial :
      (serial : Text) (payload : List ℕ) (m : KitMedia Date)
      → parse_media lib serial payload ≡ ok m
      → m.kit_serial ≡ serial
  unfolding parse_media
  parse_media-serial serial payload m h =
      let (reader, _, h1) = >>=-eq-ok (or_issue serial (lib.read_media payload)) _ h in
      let (slice, _, h2) = >>=-eq-ok (or_issue serial reader.id) _ h1 in
      let (text, _, h3) = >>=-eq-ok (or_issue serial reader.metadata) _ h2 in
      let (id, _, h4) = >>=-eq-ok (or_malformed serial (lib.uuid_from_slice slice)) _ h3 in
      let (metadata, _, h5) = >>=-eq-ok (or_malformed serial (lib.parse_json text)) _ h4 in
      let (datetime, _, h6) =
        >>=-eq-ok
          (time_or_malformed serial (timestamp_to_datetime lib.from_timestamp reader.datetime)) _
          h5 in
      let (name, _, h7) = >>=-eq-ok (or_issue serial reader.name) _ h6 in
      let (media_type, _, h8) = >>=-eq-ok (or_issue serial reader.media_type) _ h7 in
      let (contents, _, h9) = >>=-eq-ok (or_issue serial reader.contents) _ h8 in
      field_of_ok (λ a. a.kit_serial) _ m h9

  module _ {L : Type 0} (check : L → Text → Option ℕ × L) where
    only_message-IsAbout :
        (serial : Text) (limiter : L) (o : Option (Message Date))
        → ((m : Message Date) → o ≡ some m → serial_of m ≡ serial)
        → IsAbout serial (only_message lib check limiter o)
    only_message-IsAbout serial limiter o f = record {
      message = f;
      published = λ topic r h. cc h;
      to_driver = λ r h. cc h;
    }

    if_ok-IsAbout :
        {A : Type 0} (f : A → Message Date) (serial : Text) (limiter : L)
        (parsed : Result Failure A) (h : Handled Date L)
        → ((a : A) → parsed ≡ ok a → serial_of (f a) ≡ serial)
        → if_ok lib check f limiter parsed ≡ ok h
        → IsAbout serial h
    if_ok-IsAbout f serial limiter (ok a) h g e =
        let same : only_message lib check limiter (some (f a)) ≡ h = cc e in
        subst (IsAbout serial) same (
          only_message-IsAbout serial limiter (some (f a))
            (λ m k. field_of_some serial_of (f a) m k ∙ g a refl))
    if_ok-IsAbout f serial limiter (err (refused p)) h g e =
        let same : only_message lib check limiter none ≡ h = cc e in
        subst (IsAbout serial) same (only_message-IsAbout serial limiter none (λ m k. cc k))
    if_ok-IsAbout f serial limiter (err panic) h g e = cc e

    request_of_kit-IsAbout :
        (handler : Option ServerRpcHandler) (limiter : L) (serial : Text) (payload : List ℕ)
        → IsAbout serial (request_of_kit lib check handler limiter serial payload)
    unfolding handle_server_rpc_request
    request_of_kit-IsAbout none limiter serial payload =
        only_message-IsAbout serial limiter none (λ m k. cc k)
    request_of_kit-IsAbout (some handler) limiter serial payload = record {
      message = λ m k. cc k;
      published =
          λ topic r k. publish-serial serial _ topic r (λ a. respond-serial handler serial _ _ a) k;
      to_driver = λ r k. cc k;
    }

    dispatch-IsAbout :
        (handler : Option ServerRpcHandler) (limiter : L) (payload : List ℕ) (serial : Text)
        (kind : TopicKind) (h : Handled Date L)
        → dispatch lib check handler limiter payload (record { kit_serial = serial; kind = kind })
          ≡ ok h
        → IsAbout serial h
    unfolding dispatch send
    dispatch-IsAbout handler limiter payload serial raw_measurement h e =
        if_ok-IsAbout of_raw serial limiter _ h (parse_raw_measurement-serial serial payload) e
    dispatch-IsAbout handler limiter payload serial aggregate_measurement h e =
        if_ok-IsAbout of_aggregate serial limiter _ h
          (parse_aggregate_measurement-serial serial payload) e
    dispatch-IsAbout handler limiter payload serial media h e =
        if_ok-IsAbout of_media serial limiter _ h (parse_media-serial serial payload) e
    dispatch-IsAbout handler limiter payload serial server_rpc_request h e =
        let same : request_of_kit lib check handler limiter serial payload ≡ h = cc e in
        subst (IsAbout serial) same (request_of_kit-IsAbout handler limiter serial payload)
    dispatch-IsAbout handler limiter payload serial server_rpc_response h e =
        let same : only_message lib check limiter none ≡ h = cc e in
        subst (IsAbout serial) same (only_message-IsAbout serial limiter none (λ m k. cc k))
    dispatch-IsAbout handler limiter payload serial kit_rpc_request h e =
        let same : only_message lib check limiter none ≡ h = cc e in
        subst (IsAbout serial) same (only_message-IsAbout serial limiter none (λ m k. cc k))
    dispatch-IsAbout handler limiter payload serial kit_rpc_response h e =
        let (r, got, e1) = >>=-eq-ok (handle_kit_rpc_response lib check serial payload) _ e in
        let sent = map_err-eq-ok _ (send lib.parse_json serial (lib.read_response payload)) got in
        let same : record {
          message = none;
          published = none;
          to_driver = some r;
          limiter = limiter;
        }
            ≡ h =
          cc e1 in
        subst (IsAbout serial) same (record {
          message = λ m k. cc k;
          published = λ topic a k. cc k;
          to_driver = λ a k.
              field_of_some (λ b. b.kit_serial) r a k
              ∙ to_response-serial lib.parse_json serial
                  (decode_rpc_response lib.parse_json (lib.read_response payload)) r sent;
        })

    -- A kit speaks for itself only: all that comes of a packet, the message that is passed on, the answer to
    -- a request, with the topic on which it is published, and the response to a request of the server, has the
    -- serial of the topic on which the packet arrived.
    pub handle_publish-IsAbout :
        (handler : Option ServerRpcHandler) (limiter : L) (topic : Text) (payload : List ℕ)
        (h : Handled Date L)
        → handle_publish lib check handler limiter topic payload ≡ ok h
        → (t : Topic) × (try_from topic ≡ ok t) × IsAbout t.kit_serial h
    unfolding handle_publish
    handle_publish-IsAbout handler limiter topic payload h e =
        let (t, got, e1) =
          >>=-eq-ok (map_err (λ f. refused (invalid_topic f)) (try_from topic)) _ e in
        (
          t,
          map_err-eq-ok _ (try_from topic) got,
          dispatch-IsAbout handler limiter payload t.kit_serial t.kind h e1,
        )

    if_ok-refused :
        {A : Type 0} (f : A → Message Date) (limiter : L) (parsed : Result Failure A)
        (p : MqttError)
        → if_ok lib check f limiter parsed ≢ err (refused p)
    if_ok-refused f limiter (ok a) p e = cc e
    if_ok-refused f limiter (err (refused q)) p e = cc e
    if_ok-refused f limiter (err panic) p e = cc e

    dispatch-refused :
        (handler : Option ServerRpcHandler) (limiter : L) (payload : List ℕ) (serial : Text)
        (kind : TopicKind) (p : MqttError)
        → dispatch lib check handler limiter payload (record { kit_serial = serial; kind = kind })
          ≡ err (refused p)
        → (c : CapnpError) × (kind ≡ kit_rpc_response)
          × (lib.read_response payload ≡ err c)
          × (p ≡ kit_rpc_response_error serial (without_request_id (from_capnp c)))
    unfolding dispatch
    dispatch-refused handler limiter payload serial raw_measurement p e =
        absurd (if_ok-refused of_raw limiter _ p e)
    dispatch-refused handler limiter payload serial aggregate_measurement p e =
        absurd (if_ok-refused of_aggregate limiter _ p e)
    dispatch-refused handler limiter payload serial media p e =
        absurd (if_ok-refused of_media limiter _ p e)
    dispatch-refused handler limiter payload serial server_rpc_request p e = absurd (cc e)
    dispatch-refused handler limiter payload serial server_rpc_response p e = absurd (cc e)
    dispatch-refused handler limiter payload serial kit_rpc_request p e = absurd (cc e)
    dispatch-refused handler limiter payload serial kit_rpc_response p e =
        elim (Result-cases (send lib.parse_json serial (lib.read_response payload))) [
          | inl (r, sent) ↦ absurd (cc (rw sent at e))
          | inr (d, unsent) ↦
              let (c, unread, is_d) =
                send-refused lib.parse_json serial (lib.read_response payload) d unsent in
              let same : kit_rpc_response_error serial d ≡ p = cc (rw unsent at e) in
              (c, refl, unread, sym same ∙ ap (kit_rpc_response_error serial) is_d)
        ]

    -- A packet ends in an error, which a panic of the calendar library is not, exactly in two cases: its
    -- topic is not accepted, and the error names it, or it is a response to a request of the server
    -- that cannot be read as a message, and the error has the serial of the topic, no id, and the kind
    -- of the problem.
    pub handle_publish-refused :
        (handler : Option ServerRpcHandler) (limiter : L) (topic : Text) (payload : List ℕ)
        (p : MqttError)
        → (handle_publish lib check handler limiter topic payload ≡ err (refused p)) ↔ (
            ((try_from topic ≡ err topic) × (p ≡ invalid_topic topic))
            ⊎ ((serial : Text) × (c : CapnpError) × (try_from topic
                  ≡ ok (record { kit_serial = serial; kind = kit_rpc_response }))
                × (lib.read_response payload ≡ err c)
                × (p ≡ kit_rpc_response_error serial (without_request_id (from_capnp c)))))
    unfolding handle_publish dispatch send to_response decode_rpc_response
    handle_publish-refused handler limiter topic payload p = (
      λ e. elim (Result-cases (try_from topic)) [
        | inr (carried, bad) ↦
            let named = try_from-err topic carried bad in
            inl (bad ∙ ap err named, cc (rw bad at e, named))
        | inl (t, good) ↦
            let (c, is_response, unread, here) =
              dispatch-refused handler limiter payload t.kit_serial t.kind p (rw good at e) in
            inr (
              t.kit_serial,
              c,
              good ∙ ap (λ k. ok (record { kit_serial = t.kit_serial; kind = k })) is_response,
              unread,
              here,
            )
      ],
      λ c. elim c [
        | inl (bad, named) ↦ rw (bad, named) refl
        | inr (serial, c, good, unread, named) ↦ rw (good, unread, named) refl
      ],
    )
