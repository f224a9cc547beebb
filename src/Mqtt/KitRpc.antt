-- ===== src/Mqtt/KitRpc.antt =====
-- astroplant-mqtt/src/kit_rpc.rs: requests of the server to the kits. A request is published with
-- a fresh id, and its sender waits on a channel; the kit's response, with the same id, is sent into
-- the channel. An `Instant` is a number of milliseconds, and a channel (`oneshot`) is known by the
-- number of its creation. A receiver whose sender is dropped has no answer.
use astroplant_api.Prelude.{
  ℕ, ◌+◌, ◌-◌, ◌%◌, Text, codes, Bool, true, false, Option, none, some, List, [], ◌∷◌, ◌++◌, ltb,
  if◌then◌else◌, Result, ok, err,
}
use astroplant_api.Prelude.Equality.{nat_eq, list_eq, pair_eq}
use astroplant_api.Prelude.Machine.{u64_mod}
use astroplant_api.Prelude.Map.{Map, empty, get, insert, remove, retain}
use astroplant_api.Api.Models.{Json}
pub mod Decoding
pub mod Client
pub mod Waiting
pub mod Answers
pub mod Matches
pub mod Says
pub mod Reaches
mod Served
pub mod Examples

pub data PeripheralCommandLockRequest : Type 0 where
  status acquire release : PeripheralCommandLockRequest

pub data RequestBody : Type 0 where
  version uptime : RequestBody
  peripheral_command : (peripheral : Text) → (command : Json) → RequestBody
  peripheral_command_lock : (peripheral : Text) → PeripheralCommandLockRequest → RequestBody

-- A rate limit carries its duration, in milliseconds.
pub data RpcError : Type 0 where
  other method_not_found : RpcError
  rate_limit : ℕ → RpcError

pub record PeripheralCommandResponse : Type 0 where
  pub media_type : Text
  pub data_bytes : List ℕ
  pub metadata : Json

-- An uptime is in seconds.
pub data ResponseBody : Type 0 where
  version_is : Text → ResponseBody
  uptime_is : ℕ → ResponseBody
  command_gave : PeripheralCommandResponse → ResponseBody
  lock_is : Bool → ResponseBody
  failed_with : RpcError → ResponseBody

pub data DecodeErrorKind : Type 0 where
  internal malformed : DecodeErrorKind

abbrev pub Answer : Type 0
Answer = Result DecodeErrorKind ResponseBody

pub record Request : Type 0 where
  pub kit_serial : Text
  pub body : RequestBody
  pub response_channel : ℕ

pub record Response : Type 0 where
  pub kit_serial : Text
  pub request_id : ℕ
  pub body : Answer

pub record Waiter : Type 0 where
  pub created : ℕ
  pub channel : ℕ

pub record Driver : Type 0 where
  pub next_id : ℕ
  pub waiters : Map (Text × ℕ) Waiter

-- Driver::new
abbrev pub new_driver : Driver
new_driver = record { next_id = 0; waiters = empty }

-- What is published: the topic, and the message before its serialisation (RequestBody::build).
pub record Publication : Type 0 where
  pub topic : Text
  pub id : ℕ
  pub body : RequestBody

abbrev pub request_topic : Text → Text
request_topic serial = codes "kit/" ++ (serial ++ codes "/kit-rpc/request")

-- Driver::handle_request; the addition is that of a `u64`.
unfoldable pub handle_request : Driver → (now : ℕ) → Request → Publication × Driver
handle_request d now r =
    let id = d.next_id in
    (
      record { topic = request_topic r.kit_serial; id = id; body = r.body },
      record {
        next_id = (id + 1) % u64_mod;
        waiters =
            insert d.waiters (r.kit_serial, id)
              (record { created = now; channel = r.response_channel });
      },
    )

abbrev pub timeout : ℕ
timeout = 30000

-- Driver::cleanup; `duration_since` stops at zero.
unfoldable pub cleanup : Driver → (now : ℕ) → Driver
cleanup d now = record d { waiters = retain (λ _ w. ltb (now - w.created) timeout) d.waiters }

pub record Delivery : Type 0 where
  pub channel : ℕ
  pub answer : Answer

abbrev pub delivered : Option Waiter → Answer → List Delivery
delivered none answer = []
delivered (some w) answer = record { channel = w.channel; answer = answer } ∷ []

-- What Driver::drive does with a response: the waiter is removed, and told.
unfoldable pub handle_response : Driver → Response → List Delivery × Driver
handle_response d r =
    let key : Text × ℕ = (r.kit_serial, r.request_id) in
    (delivered (get d.waiters key) r.body, record d { waiters = remove d.waiters key })

-- What Driver::drive selects from; `closed` stands for either channel.
pub data Event : Type 0 where
  requested : (now : ℕ) → Request → Event
  responded : Response → Event
  ticked : (now : ℕ) → Event
  closed : Event

-- Driver::drive: what is sent into the channels, and the driver at the end. When it stops, the
-- waiters are dropped with it.
unfoldable pub drive : Driver → List Event → List Delivery × Driver
unfolding handle_request handle_response cleanup
drive d [] = ([], d)
drive d (requested now r ∷ es) = drive (handle_request d now r).1 es
drive d (responded r ∷ es) =
    let (sent, d') = handle_response d r in let (later, last) = drive d' es in (sent ++ later, last)
drive d (ticked now ∷ es) = drive (cleanup d now) es
drive d (closed ∷ es) = ([], d)
