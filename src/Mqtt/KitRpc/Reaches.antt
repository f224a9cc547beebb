-- ===== src/Mqtt/KitRpc/Reaches.antt =====
-- astroplant-mqtt/src/kit_rpc.rs, ResponseTx::send: which responses reach the driver.
use astroplant_api.Prelude.{
  ℕ, Text, ◌≡◌, ◌↔◌, refl, subst, Option, none, some, Result, ok, err, map_err, ◌>>=◌, ok_or,
}
use astroplant_api.Api.Models.{Json}
use astroplant_api.Mqtt.KitRpc.{ResponseBody, DecodeErrorKind, malformed, Answer}
use astroplant_api.Mqtt.KitRpc.Decoding.{
  CapnpError, from_capnp, DecodeError, without_request_id, with_request_id, Read, at_id,
  CommandReader, Which, version_read, uptime_read, command_read, lock_read, error_read, Reader,
  decode_rpc_error, decode_command, decode_body, decode_rpc_response, to_response, send,
}
use astroplant_api.Mqtt.KitRpc.Says.{Says, SaysIn, decode_body-Says}

-- A result whose error, if it is one, carries an id.
abbrev NamesId {ℓ} : {A : Type ℓ} → ℕ → Result DecodeError A → Type 0
NamesId id (ok a) = Unit
NamesId id (err e) = e.request_id ≡ some id

at_id-NamesId : {A : Type 0} (id : ℕ) (r : Read A) → NamesId id (at_id id r)
at_id-NamesId id (ok a) = tt
at_id-NamesId id (err e) = refl

>>=-NamesId :
    {A B : Type 0} (id : ℕ) (r : Result DecodeError A) (f : A → Result DecodeError B)
    → NamesId id r
    → ((a : A) → NamesId id (f a))
    → NamesId id (r >>= f)
>>=-NamesId id (ok a) f h g = g a
>>=-NamesId id (err e) f h g = h

map_err-NamesId :
    {A : Type 0} (id : ℕ) (r : Result DecodeErrorKind A)
    → NamesId id (map_err (with_request_id id) r)
map_err-NamesId id (ok a) = tt
map_err-NamesId id (err e) = refl

ok_or-NamesId :
    {A : Type 0} (id : ℕ) (o : Option A) (kind : DecodeErrorKind)
    → NamesId id (ok_or o (with_request_id id kind))
ok_or-NamesId id none kind = refl
ok_or-NamesId id (some a) kind = tt

module _ (parse : Text → Option Json) where
  command-NamesId : (id : ℕ) (v : CommandReader) → NamesId id (decode_command parse id v)
  unfolding decode_command
  command-NamesId id v =
      >>=-NamesId id (at_id id v.media_type) _ (at_id-NamesId id v.media_type) (λ _.
        >>=-NamesId id (at_id id v.data_bytes) _ (at_id-NamesId id v.data_bytes) (λ _.
          >>=-NamesId id (at_id id v.metadata) _ (at_id-NamesId id v.metadata) (λ text.
            >>=-NamesId id (ok_or (parse text) (with_request_id id malformed)) _
              (ok_or-NamesId id (parse text) malformed) (λ _. tt))))

  body-NamesId : (id : ℕ) (w : Which) → NamesId id (decode_body parse id w)
  unfolding decode_body
  body-NamesId id (version_read v) = >>=-NamesId id (at_id id v) _ (at_id-NamesId id v) (λ _. tt)
  body-NamesId id (uptime_read v) = tt
  body-NamesId id (command_read v) = >>=-NamesId id (at_id id v) _ (at_id-NamesId id v) (λ reader.
      >>=-NamesId id (decode_command parse id reader) _ (command-NamesId id reader) (λ _. tt))
  body-NamesId id (lock_read v) = tt
  body-NamesId id (error_read v) = >>=-NamesId id (at_id id v) _ (at_id-NamesId id v) (λ reader.
      >>=-NamesId id (map_err (with_request_id id) (decode_rpc_error reader)) _
        (map_err-NamesId id (decode_rpc_error reader)) (λ _. tt))

  -- An answer that is a body exactly if the message says it.
  abbrev pub AnswersTo : Read Which → Answer → Type 0
  AnswersTo which a = (b : ResponseBody) → (a ≡ ok b) ↔ SaysIn parse which b

  -- A response with an id names it whatever becomes of its body.
  to_response-reaches :
      (serial : Text) (id : ℕ) (r : Result DecodeError ResponseBody)
      → NamesId id r
      → (a : Answer) × (to_response parse serial (r >>= λ body. ok (id, body))
          ≡ ok (record { kit_serial = serial; request_id = id; body = a }))
        × ((b : ResponseBody) → (a ≡ ok b) ↔ (r ≡ ok b))
  unfolding to_response
  to_response-reaches serial id (ok body) h = (ok body, refl, λ b. (λ e. cc e, λ e. cc e))
  to_response-reaches serial id (err e) h = (err e.kind, rw h refl, λ b. (λ k. cc k, λ k. cc k))

  which-reaches :
      (serial : Text) (id : ℕ) (which : Read Which)
      → (a : Answer) × (to_response parse serial
            (at_id id which >>= λ w. decode_body parse id w >>= λ body. ok (id, body))
          ≡ ok (record { kit_serial = serial; request_id = id; body = a }))
        × AnswersTo which a
  unfolding to_response
  which-reaches serial id (ok w) =
      let (a, sent, same) =
        to_response-reaches serial id (decode_body parse id w) (body-NamesId id w) in
      (
        a,
        sent,
        λ b. (
          λ h. (w, refl, (decode_body-Says parse id w b).0 ((same b).0 h)),
          λ (v, is_v, said).
              (same b).1
                ((decode_body-Says parse id w b).1 (subst (λ u. Says parse u b) (cc is_v) said)),
        ),
      )
  which-reaches serial id (err e) =
      (err (from_capnp e), refl, λ b. (λ h. absurd (cc h), λ (v, is_v, said). absurd (cc is_v)))

  -- Every message of a kit that can be read as a response is sent to the driver, under the serial of
  -- the kit and the id of the message, with an answer that is a body exactly if the message says it.
  pub send-reaches :
      (serial : Text) (m : Reader)
      → (a : Answer) × (send parse serial (ok m)
          ≡ ok (record { kit_serial = serial; request_id = m.id; body = a }))
        × AnswersTo m.which a
  unfolding send decode_rpc_response
  send-reaches serial m = which-reaches serial m.id m.which

  -- Only a message that cannot be read is not sent, and then no id is known.
  pub send-refused :
      (serial : Text) (payload : Read Reader) (d : DecodeError)
      → send parse serial payload ≡ err d
      → (c : CapnpError) × (payload ≡ err c) × (d ≡ without_request_id (from_capnp c))
  unfolding send decode_rpc_response to_response
  send-refused serial (err c) d h = (c, refl, cc h)
  send-refused serial (ok m) d h =
      let (a, sent, answers) = send-reaches serial m in absurd (cc (h, sent))
