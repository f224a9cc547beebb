-- ===== src/Mqtt/Publications/Answered.antt =====
-- astroplant-mqtt/src/lib.rs and server_rpc.rs: what is published for a request of a kit, from the packet to the topic
-- of the response.
use astroplant_api.Prelude.{
  ℕ, Text, ◌≡◌, ◌⊎◌, refl, inl, inr, Option, none, some, List, Result-cases, ok, err,
}
use astroplant_api.Mqtt.Topic.{HasNoSlash, server_rpc_request, server_rpc_response, try_from}
use astroplant_api.Mqtt.Topic.RoundTrip.{format, try_from_iff}
use astroplant_api.Mqtt.KitRpc.{RpcError, method_not_found, rate_limit}
use astroplant_api.Mqtt.KitRpc.Decoding.{CapnpError, Read}
use astroplant_api.Mqtt.ServerRpc.{
  ServerRpcRequestBody, get_version, get_active_configuration, get_quantity_types, RequestReader,
  decode_rpc_request, ResponseContent, version_set, active_configuration_set, quantity_types_set,
  error_set, ServerRpcHandler, ServerRpcResponse, call_server_rpc_handler, respond, response_topic,
  publish, handle_server_rpc_request,
}
use astroplant_api.Mqtt.Publications.{Libraries, Handled, request_of_kit, dispatch, handle_publish}

-- The handler fails at a request.
abbrev pub Fails : ServerRpcHandler → Text → ServerRpcRequestBody → RpcError → Type 0
Fails handler serial get_version e = handler.version ≡ err e
Fails handler serial get_active_configuration e = handler.active_configuration serial ≡ err e
Fails handler serial get_quantity_types e = handler.quantity_types ≡ err e

-- What a kit can conclude from an answer: on what request, with what wait asked for by the limiter, and with what
-- result of the handler it is given.
abbrev pub Explains :
    ServerRpcHandler → Text → Option ℕ → Read ServerRpcRequestBody → ResponseContent → Type 0
Explains handler serial wait which (version_set v) =
    (which ≡ ok get_version) × (wait ≡ none) × (handler.version ≡ ok v)
Explains handler serial wait which (active_configuration_set c) =
    (which ≡ ok get_active_configuration)
    × (wait ≡ none)
    × (handler.active_configuration serial ≡ ok c)
Explains handler serial wait which (quantity_types_set ts) =
    (which ≡ ok get_quantity_types) × (wait ≡ none) × (handler.quantity_types ≡ ok ts)
Explains handler serial wait which (error_set e) =
    ((c : CapnpError) × (which ≡ err c) × (e ≡ method_not_found))
    ⊎ (((body : ServerRpcRequestBody) × (millis : ℕ) × (which ≡ ok body)
          × (wait ≡ some millis)
          × (e ≡ rate_limit millis))
        ⊎ ((body : ServerRpcRequestBody) × (which ≡ ok body)
            × (wait ≡ none)
            × Fails handler serial body e))

-- What is published for a request that was read or not.
abbrev pub IsAnswer :
    ServerRpcHandler
    → Text
    → Option ℕ
    → Read RequestReader
    → Option (Text × ServerRpcResponse)
    → Type 0
IsAnswer handler serial wait (err c) published = published ≡ none
IsAnswer handler serial wait (ok m) published =
    (topic : Text) × (content : ResponseContent) × (published
      ≡ some (topic, record { kit_serial = serial; id = m.id; content = content }))
    × (try_from topic ≡ ok (record { kit_serial = serial; kind = server_rpc_response }))
    × Explains handler serial wait m.which content

response_topic-format :
    (serial : Text)
    → response_topic serial ≡ format (record { kit_serial = serial; kind = server_rpc_response })
response_topic-format serial = refl

called :
    (handler : ServerRpcHandler) (serial : Text) (id : ℕ) (body : ServerRpcRequestBody)
    → Explains handler serial none
        (ok body)
        (call_server_rpc_handler handler serial (record { id = id; body = body })).content
unfolding call_server_rpc_handler
called handler serial id get_version = elim (Result-cases handler.version) [
  | inl (v, good) ↦ simp good (refl, refl, refl)
  | inr (e, bad) ↦ simp bad (inr (inr (get_version, refl, refl, bad)))
]
called handler serial id get_active_configuration =
    elim (Result-cases (handler.active_configuration serial)) [
      | inl (c, good) ↦ simp good (refl, refl, refl)
      | inr (e, bad) ↦ simp bad (inr (inr (get_active_configuration, refl, refl, bad)))
    ]
called handler serial id get_quantity_types = elim (Result-cases handler.quantity_types) [
  | inl (ts, good) ↦ simp good (refl, refl, refl)
  | inr (e, bad) ↦ simp bad (inr (inr (get_quantity_types, refl, refl, bad)))
]

content_of_response :
    (handler : ServerRpcHandler) (serial : Text) (wait : Option ℕ) (id : ℕ)
    (which : Read ServerRpcRequestBody)
    → (content : ResponseContent) × (publish (
          respond handler serial (decode_rpc_request (ok (record { id = id; which = which }))) wait)
        ≡ some (response_topic serial, record { kit_serial = serial; id = id; content = content }))
      × Explains handler serial wait which content
unfolding respond decode_rpc_request call_server_rpc_handler
content_of_response handler serial wait id (err c) =
    (error_set method_not_found, refl, inl (c, refl, refl))
content_of_response handler serial (some millis) id (ok body) =
    (error_set (rate_limit millis), refl, inr (inl (body, millis, refl, refl, refl)))
content_of_response handler serial none id (ok body) = (
  (call_server_rpc_handler handler serial (record { id = id; body = body })).content,
  refl,
  called handler serial id body,
)

answered :
    (handler : ServerRpcHandler) (serial : Text) (wait : Option ℕ) (payload : Read RequestReader)
    → HasNoSlash serial
    → IsAnswer handler serial wait payload
        (publish (respond handler serial (decode_rpc_request payload) wait))
unfolding decode_rpc_request respond
answered handler serial wait (err c) plain = refl
answered handler serial wait (ok m) plain =
    let accepted =
      (try_from_iff (response_topic serial)
          (record { kit_serial = serial; kind = server_rpc_response })).1
        (response_topic-format serial, plain) in
    let (content, published, explained) = content_of_response handler serial wait m.id m.which in
    (response_topic serial, content, published, accepted, explained)

module _ {Date L : Type 0} (lib : Libraries Date) (check : L → Text → Option ℕ × L) where
  -- Whatever a kit sends on a topic that is accepted as that of its requests, if the server has a
  -- handler, the packet is handled without an error, leads to no message for the stream and to none for the
  -- driver of kit RPC, and is counted by the limiter. Nothing is published if it cannot be read as a
  -- request. Else one response is published, with the serial of the kit and the id of the request, on a topic that is
  -- accepted as that of the responses to the same kit. Its content explains itself: a version, an
  -- active configuration or quantity types are given only for a request for them that the limiter
  -- lets pass, and are what the handler gives, the configuration for this kit. An error is that the
  -- method is unknown, for a request that the schema does not know, or how long to wait, as the limiter asks for
  -- a request that is known, or the error of the handler for what was requested.
  pub handle_publish-IsAnswer :
      (handler : ServerRpcHandler) (limiter : L) (topic : Text) (payload : List ℕ) (serial : Text)
      → try_from topic ≡ ok (record { kit_serial = serial; kind = server_rpc_request })
      → (h : Handled Date L) × (handle_publish lib check (some handler) limiter topic payload
          ≡ ok h)
        × (h.message ≡ none)
        × (h.to_driver ≡ none)
        × (h.limiter ≡ (check limiter serial).1)
        × IsAnswer handler serial (check limiter serial).0 (lib.read_request payload) h.published
  unfolding handle_publish dispatch handle_server_rpc_request
  handle_publish-IsAnswer handler limiter topic payload serial accepted = (
    request_of_kit lib check (some handler) limiter serial payload,
    rw accepted refl,
    refl,
    refl,
    refl,
    answered handler serial (check limiter serial).0 (lib.read_request payload)
        ((try_from_iff topic (record { kit_serial = serial; kind = server_rpc_request })).0
          accepted).1,
  )
