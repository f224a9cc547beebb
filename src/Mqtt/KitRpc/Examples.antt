-- ===== src/Mqtt/KitRpc/Examples.antt =====
-- Two kits, and a request to each.
use astroplant_api.Prelude.{
  ℕ, Text, codes, ◌≡◌, refl, true, some, List, [], ◌∷◌, ◌++◌, ok, err, arith, All,
}
use astroplant_api.Prelude.Equality.{◌≟◌, nat_eq, list_eq, pair_eq}
use astroplant_api.Mqtt.KitRpc.{
  version, version_is, uptime, Request, Answer, new_driver, Event, requested, responded, ticked,
  drive,
}
use astroplant_api.Mqtt.KitRpc.Answers.{response, drive-answered, drive-settled}
use astroplant_api.Mqtt.KitRpc.Decoding.{version_read, failed, send}
use astroplant_api.Mqtt.KitRpc.Reaches.{AnswersTo}
use astroplant_api.Mqtt.KitRpc.Served.{drive-send}
use astroplant_api.Mqtt.KitRpc.Matches.{Fits, drive-Fits}

abbrev ask_garden : Request
ask_garden = record { kit_serial = codes "garden"; body = version; response_channel = 5 }

abbrev ask_farm : Request
ask_farm = record { kit_serial = codes "farm"; body = uptime; response_channel = 6 }

abbrev garden_says : Answer
garden_says = ok (version_is (codes "1.0"))

-- The farm answers with the id of the garden's request, which reaches nobody.
abbrev between : List Event
between =
    requested 110 ask_farm
    ∷ responded (record { kit_serial = codes "farm"; request_id = 0; body = garden_says })
    ∷ ticked 1000
    ∷ []

drive-answered_example :
    (drive new_driver
      (requested 100 ask_garden ∷ (between ++ response (codes "garden") 0 garden_says ∷ []))).0
    ≡ (drive new_driver (requested 100 ask_garden ∷ between)).0
      ++ record { channel = 5; answer = garden_says } ∷ []
drive-answered_example =
    drive-answered new_driver 100 ask_garden between garden_says (omega arith) refl

drive-settled_example :
    (drive new_driver (
      requested 100 ask_garden
      ∷ (between ++ ticked 30100 ∷ (between ++ response (codes "garden") 0 garden_says ∷ [])))).0
    ≡ (drive new_driver (requested 100 ask_garden ∷ (between ++ ticked 30100 ∷ between))).0
drive-settled_example =
    drive-settled new_driver 100 ask_garden between between (ticked 30100) garden_says (omega arith)
      refl

-- The channel 5 asked the garden, and 6 the farm.
abbrev Asked : Text → ℕ → Type 0
Asked s c = ((s ≟ codes "garden") ≡ true) × (c ≡ 5)

abbrev Said : Text → Answer → Type 0
Said s a = a ≡ garden_says

abbrev exchange : List Event
exchange = requested 100 ask_garden ∷ response (codes "garden") 0 garden_says ∷ []

drive-Fits_example : All (Fits Asked Said) (drive new_driver exchange).0
drive-Fits_example = drive-Fits Asked Said exchange ((refl, refl), (refl, tt))

-- The garden's version is no text.
drive-send_example :
    (a : Answer) × (send
        (λ text. some text)
        (codes "garden")
        (ok (record { id = 0; which = ok (version_read (err failed)) }))
      ≡ ok (record { kit_serial = codes "garden"; request_id = 0; body = a }))
    × ((drive new_driver
          (requested 100 ask_garden ∷ (between ++ response (codes "garden") 0 a ∷ []))).0
        ≡ (drive new_driver (requested 100 ask_garden ∷ between)).0
          ++ record { channel = 5; answer = a } ∷ [])
    × AnswersTo (λ text. some text) (ok (version_read (err failed))) a
drive-send_example =
    drive-send (λ text. some text) new_driver 100 ask_garden between
      (ok (version_read (err failed))) (omega arith) refl
