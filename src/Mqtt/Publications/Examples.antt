-- ===== src/Mqtt/Publications/Examples.antt =====
-- Libraries for which the bytes of a packet are an id, and a packet without bytes cannot be read.
use astroplant_api.Prelude.{
  ltb, ◌+◌, if◌then◌else◌, ℕ, ◌≡◌, ◌⊎◌, ◌↔◌, refl, Text, codes, Option, none, some, List, [], ◌∷◌,
  ok, err,
}
use astroplant_api.Mqtt.Topic.{Topic, kit_rpc_response, server_rpc_request, try_from}
use astroplant_api.Mqtt.ServerRpc.{ServerRpcHandler, get_version}
use astroplant_api.Mqtt.Publications.Answered.{IsAnswer, handle_publish-IsAnswer}
use astroplant_api.Mqtt.Timestamp.{timestamp_to_datetime}
use astroplant_api.Mqtt.KitRpc.{malformed}
use astroplant_api.Mqtt.KitRpc.Decoding.{
  CapnpError, without_request_id, failed, Read, DecodeError, from_capnp, decode_rpc_response, send,
}
use astroplant_api.Mqtt.Publications.{
  invalid_topic, kit_rpc_response_error, refused, of_raw, Libraries, Handled, handle_publish,
}
use astroplant_api.Mqtt.Publications.Sender.{
  IsAbout, handle_publish-IsAbout, handle_publish-refused,
}

abbrev read_some : {A : Type 0} → (List ℕ → A) → List ℕ → Read A
read_some f [] = err failed
read_some f (b ∷ bs) = ok (f (b ∷ bs))

abbrev libraries : Libraries (ℕ × ℕ)
libraries = record {
  read_raw = read_some (λ bytes. record {
    id = ok bytes;
    datetime = 1500;
    peripheral = 3;
    quantity_type = 4;
    value = 5;
  });
  read_aggregate = λ bytes. err failed;
  read_media = λ bytes. err failed;
  read_request = λ bytes. err failed;
  read_response = λ bytes. err failed;
  uuid_from_slice = some;
  parse_json = some;
  from_timestamp = λ seconds nanoseconds. some (seconds, nanoseconds);
}

abbrev unlimited : ℕ → Text → Option ℕ × ℕ
unlimited n serial = (none, n)

abbrev measured : Handled (ℕ × ℕ) ℕ
measured = record {
  message = some (
      of_raw (record {
        id = 7 ∷ [];
        kit_serial = codes "k-1";
        datetime = (1, 500000000);
        peripheral = 3;
        quantity_type = 4;
        value = 5;
      }));
  published = none;
  to_driver = none;
  limiter = 0;
}

measured_lem :
    handle_publish libraries unlimited none 0 (codes "kit/k-1/measurement/raw") (7 ∷ [])
    ≡ ok measured
unfolding handle_publish try_from timestamp_to_datetime
measured_lem = refl

handle_publish-IsAbout_example :
    (t : Topic) × (try_from (codes "kit/k-1/measurement/raw") ≡ ok t)
    × IsAbout t.kit_serial measured
handle_publish-IsAbout_example =
    handle_publish-IsAbout libraries unlimited none 0 (codes "kit/k-1/measurement/raw") (7 ∷ [])
      measured measured_lem

abbrev lost : DecodeError
lost = record { request_id = none; kind = malformed }

lost_lem :
    handle_publish libraries unlimited none 0 (codes "kit/k-1/kit-rpc/response") []
    ≡ err (refused (kit_rpc_response_error (codes "k-1") lost))
unfolding handle_publish try_from send from_capnp decode_rpc_response
lost_lem = refl

handle_publish-refused_example :
    (handle_publish libraries unlimited none 0 (codes "kit/k-1/kit-rpc/response") []
      ≡ err (refused (kit_rpc_response_error (codes "k-1") lost)))
    ↔ (((try_from (codes "kit/k-1/kit-rpc/response") ≡ err (codes "kit/k-1/kit-rpc/response"))
          × (kit_rpc_response_error (codes "k-1") lost
              ≡ invalid_topic (codes "kit/k-1/kit-rpc/response")))
        ⊎ ((serial : Text) × (c : CapnpError) × (try_from (codes "kit/k-1/kit-rpc/response")
              ≡ ok (record { kit_serial = serial; kind = kit_rpc_response }))
            × (libraries.read_response [] ≡ err c)
            × (kit_rpc_response_error (codes "k-1") lost
                ≡ kit_rpc_response_error serial (without_request_id (from_capnp c)))))
handle_publish-refused_example =
    handle_publish-refused libraries unlimited none 0 (codes "kit/k-1/kit-rpc/response") []
      (kit_rpc_response_error (codes "k-1") lost)

-- The thirty-first request has to wait.
abbrev thirty : ℕ → Text → Option ℕ × ℕ
thirty n serial = (if ltb n 30 then none else some 2000, n + 1)

abbrev server : ServerRpcHandler
server = record {
  version = ok (codes "1.0");
  active_configuration = λ serial. ok none;
  quantity_types = ok [];
}

-- Every packet asks for the version.
abbrev asking : Libraries (ℕ × ℕ)
asking = record libraries { read_request = λ bytes. ok (record { id = 9; which = ok get_version }) }

is_request :
    try_from (codes "kit/k-1/server-rpc/request")
    ≡ ok (record { kit_serial = codes "k-1"; kind = server_rpc_request })
unfolding try_from
is_request = refl

handle_publish-IsAnswer_example :
    (h : Handled (ℕ × ℕ) ℕ) × (handle_publish asking thirty
        (some server)
        29
        (codes "kit/k-1/server-rpc/request")
        []
      ≡ ok h)
    × (h.message ≡ none)
    × (h.to_driver ≡ none)
    × (h.limiter ≡ 30)
    × IsAnswer server
        (codes "k-1")
        none
        (ok (record { id = 9; which = ok get_version }))
        h.published
handle_publish-IsAnswer_example =
    handle_publish-IsAnswer asking thirty server 29 (codes "kit/k-1/server-rpc/request") []
      (codes "k-1") is_request
