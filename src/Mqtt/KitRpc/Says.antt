-- ===== src/Mqtt/KitRpc/Says.antt =====
-- astroplant-mqtt/src/kit_rpc.rs: what the body of a response says, told apart from how it is decoded.
use astroplant_api.Prelude.{
  ℕ, Text, ◌≡◌, ◌↔◌, refl, sym, ◌∙◌, ap, Option, some, ok_or-eq-ok, subst, ok, err, map_err-eq-ok,
  >>=-eq-ok, ok_or,
}
use astroplant_api.Api.Models.{Json}
use astroplant_api.Mqtt.KitRpc.{
  RpcError, other, method_not_found, rate_limit, ResponseBody, version_is, uptime_is, command_gave,
  lock_is, failed_with, malformed, PeripheralCommandResponse,
}
use astroplant_api.Mqtt.KitRpc.Decoding.{
  CapnpError, from_capnp, with_request_id, Read, at_id, CommandReader, WhichError, other_error,
  method_not_found_error, rate_limit_error, Which, version_read, uptime_read, command_read,
  lock_read, error_read, decode_rpc_error, decode_command, decode_body,
}

-- The error that a kit reports.
abbrev pub reported : WhichError → RpcError
reported other_error = other
reported method_not_found_error = method_not_found
reported (rate_limit_error millis) = rate_limit millis

module _ (parse : Text → Option Json) where
  -- All the parts of the result of a command can be read, and its metadata is JSON.
  abbrev pub Gives : CommandReader → PeripheralCommandResponse → Type 0
  Gives v c =
      (v.media_type ≡ ok c.media_type)
      × (v.data_bytes ≡ ok c.data_bytes)
      × ((text : Text) × (v.metadata ≡ ok text) × (parse text ≡ some c.metadata))

  -- All the parts of a body can be read, and this is what they say.
  abbrev pub Says : Which → ResponseBody → Type 0
  Says (version_read v) b = (text : Text) × (v ≡ ok text) × (b ≡ version_is text)
  Says (uptime_read v) b = b ≡ uptime_is v
  Says (command_read v) b =
      (reader : CommandReader) × (v ≡ ok reader)
      × ((c : PeripheralCommandResponse) × Gives reader c × (b ≡ command_gave c))
  Says (lock_read v) b = b ≡ lock_is v
  Says (error_read v) b = (e : WhichError) × (v ≡ ok (ok e)) × (b ≡ failed_with (reported e))

  -- The body can be read, and says this.
  abbrev pub SaysIn : Read Which → ResponseBody → Type 0
  SaysIn which b = (w : Which) × (which ≡ ok w) × Says w b

  decode_command-Gives :
      (id : ℕ) (v : CommandReader) (c : PeripheralCommandResponse)
      → (decode_command parse id v ≡ ok c) ↔ Gives v c
  unfolding decode_command
  decode_command-Gives id v c = (
    λ h.
        let (media_type, h1, k1) = >>=-eq-ok (at_id id v.media_type) _ h in
        let (data_bytes, h2, k2) = >>=-eq-ok (at_id id v.data_bytes) _ k1 in
        let (text, h3, k3) = >>=-eq-ok (at_id id v.metadata) _ k2 in
        let (document, h4, k4) =
          >>=-eq-ok (ok_or (parse text) (with_request_id id malformed)) _ k3 in
        let same : record { media_type = media_type; data_bytes = data_bytes; metadata = document }
            ≡ c =
          cc k4 in
        (
          map_err-eq-ok _ v.media_type h1 ∙ ap (λ a. ok a.media_type) same,
          map_err-eq-ok _ v.data_bytes h2 ∙ ap (λ a. ok a.data_bytes) same,
          (
            text,
            map_err-eq-ok _ v.metadata h3,
            ok_or-eq-ok (parse text) _ h4 ∙ ap (λ a. some a.metadata) same,
          ),
        ),
    λ (media, bytes, (text, metadata, document)). rw (media, bytes, metadata, document) refl,
  )

  reported-eq : (e : WhichError) → decode_rpc_error (ok e) ≡ ok (reported e)
  unfolding decode_rpc_error
  reported-eq other_error = refl
  reported-eq method_not_found_error = refl
  reported-eq (rate_limit_error millis) = refl

  unreported : (e : CapnpError) → decode_rpc_error (err e) ≡ err (from_capnp e)
  unfolding decode_rpc_error
  unreported e = refl

  -- A body is decoded exactly if all its parts can be read, and as what they say.
  pub decode_body-Says :
      (id : ℕ) (w : Which) (b : ResponseBody) → (decode_body parse id w ≡ ok b) ↔ Says w b
  unfolding decode_body
  decode_body-Says id (version_read (ok text)) b =
      (λ h. (text, refl, cc h), λ (t, is_t, same). cc (is_t, same))
  decode_body-Says id (version_read (err e)) b = (λ h. cc h, λ (t, is_t, same). absurd (cc is_t))
  decode_body-Says id (uptime_read n) b = (λ h. cc h, λ h. cc h)
  decode_body-Says id (command_read (err e)) b = (λ h. cc h, λ (r, is_r, given). absurd (cc is_r))
  decode_body-Says id (command_read (ok v)) b = (
    λ h.
        let (c, decoded, same) = >>=-eq-ok (decode_command parse id v) _ h in
        (v, refl, (c, (decode_command-Gives id v c).0 decoded, cc same)),
    λ (r, is_r, (c, given, same)).
        let here : v ≡ r = cc is_r in
        rw ((decode_command-Gives id v c).1 (subst (λ x. Gives x c) (sym here) given)) (cc same),
  )
  decode_body-Says id (lock_read l) b = (λ h. cc h, λ h. cc h)
  decode_body-Says id (error_read (err e)) b = (λ h. cc h, λ (r, is_r, same). absurd (cc is_r))
  decode_body-Says id (error_read (ok (err e))) b =
      (λ h. absurd (cc (rw (unreported e) at h)), λ (r, is_r, same). absurd (cc is_r))
  decode_body-Says id (error_read (ok (ok e))) b = (
    λ h. (e, refl, cc (rw (reported-eq e) at h)),
    λ (r, is_r, same). rw (reported-eq e) (cc (is_r, same)),
  )
