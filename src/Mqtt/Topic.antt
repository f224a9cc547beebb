-- ===== src/Mqtt/Topic.antt =====
-- astroplant-mqtt/src/lib.rs: the topics of publications, `Topic::try_from`.
use astroplant_api.Prelude.{
  ℕ, Text, codes, Bool, true, false, ◌&&◌, Option, none, some, List, [], ◌∷◌, ◌++◌, ◌==◌,
  if◌then◌else◌, ok, err, ok_or, ◌>>=◌, ◌>>◌, guard, Result,
}
use astroplant_api.Prelude.Split.{split, Lacks}
use astroplant_api.Prelude.Equality.{◌≟◌, nat_eq, list_eq}
pub mod RoundTrip
pub mod Examples

pub data TopicKind : Type 0 where
  raw_measurement aggregate_measurement media server_rpc_request server_rpc_response kit_rpc_request
        kit_rpc_response :
      TopicKind

pub record Topic : Type 0 where
  pub kit_serial : Text
  pub kind : TopicKind

-- The code of '/'.
abbrev pub slash : ℕ
slash = 47

-- A serial that fits in a topic.
abbrev pub HasNoSlash : Text → Type 0
HasNoSlash = Lacks slash

-- The kind of a topic, from the parts after the serial.
unfoldable pub kind_of : List Text → Option TopicKind
kind_of (a ∷ b ∷ []) =
    if a ≟ codes "measurement" && b ≟ codes "raw"
    then some raw_measurement
    else if a ≟ codes "measurement" && b ≟ codes "aggregate"
    then some aggregate_measurement
    else if a ≟ codes "server-rpc" && b ≟ codes "request"
    then some server_rpc_request
    else if a ≟ codes "server-rpc" && b ≟ codes "response"
    then some server_rpc_response
    else if a ≟ codes "kit-rpc" && b ≟ codes "request"
    then some kit_rpc_request
    else if a ≟ codes "kit-rpc" && b ≟ codes "response"
    then some kit_rpc_response
    else none
kind_of (a ∷ []) = if a ≟ codes "media" then some media else none
kind_of _ = none

-- The parts of a topic, in order; an error carries the topic.
unfoldable pub of_parts : Text → List Text → Result Text Topic
unfolding kind_of
of_parts value (kit ∷ serial ∷ rest) = do
  guard (kit ≟ codes "kit") value
  kind ← ok_or (kind_of rest) value
  ok (record { kit_serial = serial; kind = kind })
of_parts value _ = err value

-- Topic::try_from
unfoldable pub try_from : Text → Result Text Topic
unfolding split of_parts
try_from value = of_parts value (split slash value)
