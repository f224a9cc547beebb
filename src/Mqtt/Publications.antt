-- ===== src/Mqtt/Publications.antt =====
-- astroplant-mqtt/src/lib.rs: what is made of a packet that arrives on a topic. The bytes of a packet
-- are read by Cap'n Proto, whose readers are records, as in Mqtt.KitRpc.Decoding. The calendar, UUIDs,
-- JSON and the rate limiter are parameters too. An `f64`, and an `i32` that a kit sends, stand as
-- their bits.
use astroplant_api.Prelude.{
  ℕ, Text, Option, none, some, List, [], ◌∷◌, Result, ok, err, map_err, ok_or, ◌>>=◌, ◌>>◌,
}
use astroplant_api.Prelude.Equality.{nat_eq, list_eq}
use astroplant_api.Prelude.Map.{Map, empty, insert}
use astroplant_api.Api.Models.{Json, Uuid}
use astroplant_api.Mqtt.Topic.{
  TopicKind, Topic, raw_measurement, aggregate_measurement, media, server_rpc_request,
  server_rpc_response, kit_rpc_request, kit_rpc_response, try_from,
}
use astroplant_api.Mqtt.Timestamp.{Outcome, returned, panicked, timestamp_to_datetime}
use astroplant_api.Mqtt.KitRpc.{Response}
use astroplant_api.Mqtt.KitRpc.Decoding.{CapnpError, Read, Reader, DecodeError, send}
use astroplant_api.Mqtt.ServerRpc.{
  RequestReader, ServerRpcHandler, ServerRpcResponse, handle_server_rpc_request,
}
pub mod Sender
pub mod Answered
mod Examples

-- The errors that a packet can cause.
pub data MqttError : Type 0 where
  invalid_topic malformed_message : Text → MqttError
  kit_rpc_response_error : (kit_serial : Text) → DecodeError → MqttError
  decoding_issue : (kit_serial : Text) → CapnpError → MqttError

-- A call that does not return a value returns an error or panics.
pub data Failure : Type 0 where
  refused : MqttError → Failure
  panic : Failure

pub record RawReader : Type 0 where
  pub id : Read (List ℕ)
  pub datetime : ℕ
  pub peripheral : ℕ
  pub quantity_type : ℕ
  pub value : ℕ

pub record AggregateReader : Type 0 where
  pub id : Read (List ℕ)
  pub datetime_start : ℕ
  pub datetime_end : ℕ
  pub peripheral : ℕ
  pub quantity_type : ℕ
  pub values : Read (List (Read Text × ℕ))

pub record MediaReader : Type 0 where
  pub id : Read (List ℕ)
  pub metadata : Read Text
  pub datetime : ℕ
  pub peripheral : ℕ
  pub name : Read Text
  pub media_type : Read Text
  pub contents : Read (List ℕ)

pub record RawMeasurement (Date : Type 0) : Type 0 where
  pub id : Uuid
  pub kit_serial : Text
  pub datetime : Date
  pub peripheral : ℕ
  pub quantity_type : ℕ
  pub value : ℕ

pub record KitAggregate (Date : Type 0) : Type 0 where
  pub id : Uuid
  pub kit_serial : Text
  pub datetime_start : Date
  pub datetime_end : Date
  pub peripheral : ℕ
  pub quantity_type : ℕ
  pub values : Map Text ℕ

pub record KitMedia (Date : Type 0) : Type 0 where
  pub id : Uuid
  pub kit_serial : Text
  pub datetime : Date
  pub peripheral : ℕ
  pub name : Text
  pub media_type : Text
  pub contents : List ℕ
  pub metadata : Json

pub data Message (Date : Type 0) : Type 0 where
  of_raw : RawMeasurement Date → Message Date
  of_aggregate : KitAggregate Date → Message Date
  of_media : KitMedia Date → Message Date

-- The libraries: a reading of the bytes for each type of message, and the others.
pub record Libraries (Date : Type 0) : Type 0 where
  pub read_raw : List ℕ → Read RawReader
  pub read_aggregate : List ℕ → Read AggregateReader
  pub read_media : List ℕ → Read MediaReader
  pub read_request : List ℕ → Read RequestReader
  pub read_response : List ℕ → Read Reader
  pub uuid_from_slice : List ℕ → Option Uuid
  pub parse_json : Text → Option Json
  pub from_timestamp : ℕ → ℕ → Option Date

abbrev pub or_issue {ℓ} : {A : Type ℓ} → Text → Result CapnpError A → Result Failure A
or_issue serial r = map_err (λ e. refused (decoding_issue serial e)) r

abbrev pub or_malformed {ℓ} : {A : Type ℓ} → Text → Option A → Result Failure A
or_malformed serial o = ok_or o (refused (malformed_message serial))

abbrev pub time_or_malformed {ℓ} : {A : Type ℓ} → Text → Outcome (Option A) → Result Failure A
time_or_malformed serial (returned o) = or_malformed serial o
time_or_malformed serial panicked = err panic

abbrev pub collect : Text → List (Read Text × ℕ) → Map Text ℕ → Result Failure (Map Text ℕ)
collect serial [] values = ok values
collect serial ((aggregate_type, value) ∷ rest) values = do
  name ← or_issue serial aggregate_type
  collect serial rest (insert values name value)

-- What a packet leads to: a message for the stream, a response that is published, a response for the
-- driver of kit RPC, and the state of the rate limiter.
pub record Handled (Date L : Type 0) : Type 0 where
  pub message : Option (Message Date)
  pub published : Option (Text × ServerRpcResponse)
  pub to_driver : Option Response
  pub limiter : L

module _ {Date : Type 0} (lib : Libraries Date) where
  -- parse_raw_measurement
  unfoldable pub parse_raw_measurement :
      (kit_serial : Text) → List ℕ → Result Failure (RawMeasurement Date)
  parse_raw_measurement serial payload = do
    reader ← or_issue serial (lib.read_raw payload)
    slice ← or_issue serial reader.id
    id ← or_malformed serial (lib.uuid_from_slice slice)
    datetime ← time_or_malformed serial (timestamp_to_datetime lib.from_timestamp reader.datetime)
    ok (record {
      id = id;
      kit_serial = serial;
      datetime = datetime;
      peripheral = reader.peripheral;
      quantity_type = reader.quantity_type;
      value = reader.value;
    })

  -- parse_aggregate_measurement
  unfoldable pub parse_aggregate_measurement :
      (kit_serial : Text) → List ℕ → Result Failure (KitAggregate Date)
  parse_aggregate_measurement serial payload = do
    reader ← or_issue serial (lib.read_aggregate payload)
    slice ← or_issue serial reader.id
    id ← or_malformed serial (lib.uuid_from_slice slice)
    datetime_start ←
        time_or_malformed serial (timestamp_to_datetime lib.from_timestamp reader.datetime_start)
    datetime_end ←
        time_or_malformed serial (timestamp_to_datetime lib.from_timestamp reader.datetime_end)
    read_values ← or_issue serial reader.values
    values ← collect serial read_values empty
    ok (record {
      id = id;
      kit_serial = serial;
      datetime_start = datetime_start;
      datetime_end = datetime_end;
      peripheral = reader.peripheral;
      quantity_type = reader.quantity_type;
      values = values;
    })

  -- parse_media
  unfoldable pub parse_media : (kit_serial : Text) → List ℕ → Result Failure (KitMedia Date)
  parse_media serial payload = do
    reader ← or_issue serial (lib.read_media payload)
    slice ← or_issue serial reader.id
    text ← or_issue serial reader.metadata
    id ← or_malformed serial (lib.uuid_from_slice slice)
    metadata ← or_malformed serial (lib.parse_json text)
    datetime ← time_or_malformed serial (timestamp_to_datetime lib.from_timestamp reader.datetime)
    name ← or_issue serial reader.name
    media_type ← or_issue serial reader.media_type
    contents ← or_issue serial reader.contents
    ok (record {
      id = id;
      kit_serial = serial;
      datetime = datetime;
      peripheral = reader.peripheral;
      name = name;
      media_type = media_type;
      contents = contents;
      metadata = metadata;
    })

  module _ {L : Type 0} (check : L → Text → Option ℕ × L) where
    abbrev pub only_message : L → Option (Message Date) → Handled Date L
    only_message limiter m = record {
      message = m;
      published = none;
      to_driver = none;
      limiter = limiter;
    }

    -- A message that is parsed is passed on, and one that is not is ignored; a panic is not caught.
    abbrev pub if_ok :
        {A : Type 0} → (A → Message Date) → L → Result Failure A → Result Failure (Handled Date L)
    if_ok f limiter (ok a) = ok (only_message limiter (some (f a)))
    if_ok f limiter (err (refused e)) = ok (only_message limiter none)
    if_ok f limiter (err panic) = err panic

    abbrev pub request_of_kit : Option ServerRpcHandler → L → Text → List ℕ → Handled Date L
    request_of_kit none limiter serial payload = only_message limiter none
    request_of_kit (some handler) limiter serial payload =
        let (published, limiter') =
          handle_server_rpc_request check handler limiter serial (lib.read_request payload) in
        record { message = none; published = published; to_driver = none; limiter = limiter' }

    -- handle_kit_rpc_response
    abbrev pub handle_kit_rpc_response : (kit_serial : Text) → List ℕ → Result Failure Response
    handle_kit_rpc_response serial payload =
        map_err (λ e. refused (kit_rpc_response_error serial e))
          (send lib.parse_json serial (lib.read_response payload))

    unfoldable pub dispatch :
        Option ServerRpcHandler → L → List ℕ → Topic → Result Failure (Handled Date L)
    unfolding parse_raw_measurement parse_aggregate_measurement parse_media
    dispatch handler limiter payload topic = elim topic.kind [
      | raw_measurement ↦ if_ok of_raw limiter (parse_raw_measurement topic.kit_serial payload)
      | aggregate_measurement ↦
          if_ok of_aggregate limiter (parse_aggregate_measurement topic.kit_serial payload)
      | media ↦ if_ok of_media limiter (parse_media topic.kit_serial payload)
      | server_rpc_request ↦ ok (request_of_kit handler limiter topic.kit_serial payload)
      | server_rpc_response ↦ ok (only_message limiter none)
      | kit_rpc_request ↦ ok (only_message limiter none)
      | kit_rpc_response ↦ do
        response ← handle_kit_rpc_response topic.kit_serial payload
        ok (record {
          message = none;
          published = none;
          to_driver = some response;
          limiter = limiter;
        })
    ]

    -- handle_publish
    unfoldable pub handle_publish :
        Option ServerRpcHandler → L → Text → List ℕ → Result Failure (Handled Date L)
    unfolding dispatch
    handle_publish handler limiter topic payload = do
      t ← map_err (λ e. refused (invalid_topic e)) (try_from topic)
      dispatch handler limiter payload t
