-- ===== src/Mqtt/KitRpc/Decoding.antt =====
-- astroplant-mqtt/src/kit_rpc.rs: decoding the response of a kit. The message is read by Cap'n
-- Proto, whose readers are records here: each part is a value or an error. `parse` is the JSON parser.
use astroplant_api.Prelude.{
  ℕ, Text, Bool, Option, none, some, List, Result, ok, err, map_err, ◌>>=◌, ok_or,
}
use astroplant_api.Api.Models.{Json}
use astroplant_api.Mqtt.KitRpc.{
  RpcError, other, method_not_found, rate_limit, PeripheralCommandResponse, ResponseBody,
  version_is, uptime_is, command_gave, lock_is, failed_with, DecodeErrorKind, internal, malformed,
  Response,
}

-- The kind of a Cap'n Proto error.
pub data CapnpError : Type 0 where
  failed otherwise : CapnpError

-- DecodeErrorKind::from
unfoldable pub from_capnp : CapnpError → DecodeErrorKind
from_capnp failed = malformed
from_capnp otherwise = internal

pub record DecodeError : Type 0 where
  pub request_id : Option ℕ
  pub kind : DecodeErrorKind

-- DecodeError::with_request_id and without_request_id
abbrev pub with_request_id : ℕ → DecodeErrorKind → DecodeError
with_request_id id kind = record { request_id = some id; kind = kind }

abbrev pub without_request_id : DecodeErrorKind → DecodeError
without_request_id kind = record { request_id = none; kind = kind }

abbrev pub Read : Type 0 → Type 0
Read A = Result CapnpError A

pub record CommandReader : Type 0 where
  pub media_type : Read Text
  pub data_bytes : Read (List ℕ)
  pub metadata : Read Text

pub data WhichError : Type 0 where
  other_error method_not_found_error : WhichError
  rate_limit_error : (millis : ℕ) → WhichError

pub data Which : Type 0 where
  version_read : Read Text → Which
  uptime_read : ℕ → Which
  command_read : Read CommandReader → Which
  lock_read : Bool → Which
  error_read : Read (Read WhichError) → Which

pub record Reader : Type 0 where
  pub id : ℕ
  pub which : Read Which

-- decode_rpc_error
unfoldable pub decode_rpc_error : Read WhichError → Result DecodeErrorKind RpcError
unfolding from_capnp
decode_rpc_error (err e) = err (from_capnp e)
decode_rpc_error (ok other_error) = ok other
decode_rpc_error (ok method_not_found_error) = ok method_not_found
decode_rpc_error (ok (rate_limit_error millis)) = ok (rate_limit millis)

abbrev pub at_id {ℓ} : {A : Type ℓ} → ℕ → Result CapnpError A → Result DecodeError A
at_id id r = map_err (λ e. with_request_id id (from_capnp e)) r

module _ (parse : Text → Option Json) where
  unfoldable pub decode_command : ℕ → CommandReader → Result DecodeError PeripheralCommandResponse
  unfolding from_capnp
  decode_command id v = do
    media_type ← at_id id v.media_type
    data_bytes ← at_id id v.data_bytes
    metadata ← at_id id v.metadata
    document ← ok_or (parse metadata) (with_request_id id malformed)
    ok (record { media_type = media_type; data_bytes = data_bytes; metadata = document })

  unfoldable pub decode_body : ℕ → Which → Result DecodeError ResponseBody
  unfolding from_capnp
  decode_body id (version_read v) = do text ← at_id id v; ok (version_is text)
  decode_body id (uptime_read v) = ok (uptime_is v)
  decode_body id (command_read v) = do
    reader ← at_id id v
    response ← decode_command id reader
    ok (command_gave response)
  decode_body id (lock_read v) = ok (lock_is v)
  decode_body id (error_read v) = do
    reader ← at_id id v
    problem ← map_err (with_request_id id) (decode_rpc_error reader)
    ok (failed_with problem)

  -- decode_rpc_response, on a message that was read or not
  unfoldable pub decode_rpc_response : Read Reader → Result DecodeError (ℕ × ResponseBody)
  unfolding from_capnp
  decode_rpc_response message = do
    response ← map_err (λ e. without_request_id (from_capnp e)) message
    which ← at_id response.id response.which
    body ← decode_body response.id which
    ok (response.id, body)

  unfoldable pub to_response :
      Text → Result DecodeError (ℕ × ResponseBody) → Result DecodeError Response
  to_response serial (ok (id, body)) =
      ok (record { kit_serial = serial; request_id = id; body = ok body })
  to_response serial (err e) = elim e.request_id [
    | none ↦ err e
    | some id ↦ ok (record { kit_serial = serial; request_id = id; body = err e.kind })
  ]

  -- ResponseTx::send: the response that reaches the driver.
  unfoldable pub send : Text → Read Reader → Result DecodeError Response
  unfolding to_response
  send serial payload = to_response serial (decode_rpc_response payload)
