-- ===== src/Mqtt/KitRpc/Served.antt =====
-- astroplant-mqtt/src/kit_rpc.rs: the way of a response from the message of a kit to the channel of the request.
use astroplant_api.Prelude.{ℕ, Text, ◌≡◌, ◌+◌, ◌<◌, Option, List, [], ◌∷◌, ◌++◌, ok, true}
use astroplant_api.Api.Models.{Json}
use astroplant_api.Mqtt.KitRpc.{u64_mod, Request, Answer, Driver, Event, requested, drive}
use astroplant_api.Mqtt.KitRpc.Decoding.{Read, Which, send}
use astroplant_api.Mqtt.KitRpc.Waiting.{requests}
use astroplant_api.Mqtt.KitRpc.Answers.{all_quiet, response, drive-answered}
use astroplant_api.Mqtt.KitRpc.Reaches.{AnswersTo, send-reaches}

-- A request is served by any message of its kit that can be read as a response and has its id: if
-- between them there are only further requests (fewer than the ids that are left below 2^64), other
-- responses, and ticks less than 30 seconds after the request, then the message is sent to the
-- driver, and that sends one answer into the channel of the request, after all that it sends without
-- it. The answer is a body exactly if all parts of the body in the message can be read, its JSON
-- included, and then it is what they say. Otherwise it is an error.
pub drive-send :
    (parse : Text → Option Json) (d : Driver) (now : ℕ) (r : Request) (es : List Event)
    (which : Read Which)
    → d.next_id + requests es + 1 < u64_mod
    → all_quiet r.kit_serial d.next_id now es ≡ true
    → (a : Answer) × (send parse r.kit_serial (ok (record { id = d.next_id; which = which }))
        ≡ ok (record { kit_serial = r.kit_serial; request_id = d.next_id; body = a }))
      × ((drive d (requested now r ∷ (es ++ response r.kit_serial d.next_id a ∷ []))).0
          ≡ (drive d (requested now r ∷ es)).0
            ++ record { channel = r.response_channel; answer = a } ∷ [])
      × AnswersTo parse which a
drive-send parse d now r es which room quiet =
    let (a, sent, answers) =
      send-reaches parse r.kit_serial (record { id = d.next_id; which = which }) in
    (a, sent, drive-answered d now r es a room quiet, answers)
