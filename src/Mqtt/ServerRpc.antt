-- ===== src/Mqtt/ServerRpc.antt =====
-- astroplant-mqtt/src/server_rpc.rs and lib.rs: requests of the kits to the server. The handler of
-- the requests and the rate limiter are parameters: the limiter gives the milliseconds to wait, or
-- none if the request may pass, and its new state.
use astroplant_api.Prelude.{
  ℕ, Text, codes, Option, none, some, List, ◌++◌, Result, ok, err, map_err, ◌>>=◌,
}
use astroplant_api.Api.Models.{Json}
use astroplant_api.Mqtt.KitRpc.{RpcError, method_not_found, rate_limit}
use astroplant_api.Mqtt.KitRpc.Decoding.{CapnpError, Read}

pub data ServerRpcRequestBody : Type 0 where
  get_version get_active_configuration get_quantity_types : ServerRpcRequestBody

pub record ServerRpcRequest : Type 0 where
  pub id : ℕ
  pub body : ServerRpcRequestBody

pub data ServerDecodeError : Type 0 where
  with_id : ℕ → CapnpError → ServerDecodeError
  without_id : CapnpError → ServerDecodeError

-- A message that was read: its id, and which request it is, if the schema knows it.
pub record RequestReader : Type 0 where
  pub id : ℕ
  pub which : Read ServerRpcRequestBody

-- decode_rpc_request
unfoldable pub decode_rpc_request : Read RequestReader → Result ServerDecodeError ServerRpcRequest
decode_rpc_request message = do
  request ← map_err without_id message
  body ← map_err (with_id request.id) request.which
  ok (record { id = request.id; body = body })

pub data ResponseContent : Type 0 where
  version_set : Text → ResponseContent
  active_configuration_set : Option Json → ResponseContent
  quantity_types_set : List Json → ResponseContent
  error_set : RpcError → ResponseContent

-- A response before its serialisation (ServerRpcResponseBuilder).
pub record ServerRpcResponse : Type 0 where
  pub kit_serial : Text
  pub id : ℕ
  pub content : ResponseContent

-- ServerRpcHandler, and what its methods give.
pub record ServerRpcHandler : Type 0 where
  pub version : Result RpcError Text
  pub active_configuration : Text → Result RpcError (Option Json)
  pub quantity_types : Result RpcError (List Json)

abbrev pub content_of {ℓ} :
    {A : Type ℓ} → (A → ResponseContent) → Result RpcError A → ResponseContent
content_of f (ok a) = f a
content_of f (err e) = error_set e

-- call_server_rpc_handler
unfoldable pub call_server_rpc_handler :
    ServerRpcHandler → Text → ServerRpcRequest → ServerRpcResponse
call_server_rpc_handler handler serial request = record {
  kit_serial = serial;
  id = request.id;
  content = elim request.body [
    | get_version ↦ content_of version_set handler.version
    | get_active_configuration ↦
        content_of active_configuration_set (handler.active_configuration serial)
    | get_quantity_types ↦ content_of quantity_types_set handler.quantity_types
  ];
}

-- The response to a request that was decoded or not, and the time that the limiter asks to wait.
unfoldable pub respond :
    ServerRpcHandler
    → Text
    → Result ServerDecodeError ServerRpcRequest
    → Option ℕ
    → Option ServerRpcResponse
unfolding call_server_rpc_handler
respond handler serial (err (with_id id _)) wait =
    some (record { kit_serial = serial; id = id; content = error_set method_not_found })
respond handler serial (err (without_id _)) wait = none
respond handler serial (ok request) (some wait) =
    some (record { kit_serial = serial; id = request.id; content = error_set (rate_limit wait) })
respond handler serial (ok request) none = some (call_server_rpc_handler handler serial request)

abbrev pub response_topic : Text → Text
response_topic serial = codes "kit/" ++ (serial ++ codes "/server-rpc/response")

abbrev pub publish : Option ServerRpcResponse → Option (Text × ServerRpcResponse)
publish none = none
publish (some r) = some (response_topic r.kit_serial, r)

module _ {L : Type 0} (check : L → Text → Option ℕ × L) where
  -- handle_server_rpc_request: what is published, and the limiter's new state.
  unfoldable pub handle_server_rpc_request :
      ServerRpcHandler → L → Text → Read RequestReader → Option (Text × ServerRpcResponse) × L
  unfolding decode_rpc_request respond
  handle_server_rpc_request handler limiter serial payload =
      let (wait, limiter') = check limiter serial in
      (publish (respond handler serial (decode_rpc_request payload) wait), limiter')
