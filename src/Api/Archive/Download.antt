-- ===== src/Api/Archive/Download.antt =====
-- Who downloads which archive.
use astroplant_api.Prelude.{
  map_err-eq-ok, ℕ, ◌+◌, ◌≤◌, ◌≡◌, ◌⊎◌, refl, sym, ◌∙◌, ap, subst, Text, true, not, ◌||◌,
  Bool-cases, inl, inr, Option, Option-cases, none, some, if◌then◌else◌, ltb, ok, err, map_err,
  ok_or, ok_or-eq-ok, >>=-eq-ok, guard-bind-eq-ok, ok_or-bind-eq-ok, first-eq-some, arith,
}
use astroplant_api.Prelude.Equality.{◌≟◌, ≟_iff, nat_eq, list_eq}
use astroplant_api.Auth.Token.{Jwt, IsJwt, of_data, create_arbitrary_token, decode_arbitrary_token}
use astroplant_api.Auth.Token.Kinds.{
  decode_arbitrary_token_iff, decode_arbitrary_token-create_arbitrary_token,
}
use astroplant_api.Api.Problem.{generic, not_found, forbidden}
use astroplant_api.Api.Models.{User, Kit, KitMembership}
use astroplant_api.Api.Database.{Db}
use astroplant_api.Api.Authorization.{view, kit_permitted}
use astroplant_api.Api.Helpers.{
  actor, kit_by_serial, membership_of, membership_by_user_id_and_kit_id, pack,
  fut_kit_permission_or_forbidden,
}
use astroplant_api.Api.Helpers.Granted.{IsMemberWith}
use astroplant_api.Api.Archive.{DownloadToken, download_action, archive_authorize, archive}

-- The kit shows its data to everyone, or the user of the request is a member of it.
abbrev pub MayView : Db → Option ℕ → Kit → Type 0
MayView db user_id kit =
    (kit.privacy_public_dashboard ≡ true) ⊎ IsMemberWith (λ m. true) db user_id kit.id

view-MayView :
    (db : Db) (user_id : Option ℕ) (kit : Kit) (u : Option User)
    → kit_permitted view (pack u (membership_of db user_id kit)) kit ≡ true
    → MayView db user_id kit
unfolding kit_permitted pack membership_of
view-MayView db user_id kit none h = inl h
view-MayView db none kit (some u) h = inl h
view-MayView db (some id) kit (some u) h =
    elim (Option-cases (membership_by_user_id_and_kit_id db id kit.id)) [
      | inl stranger ↦ inl (rw stranger at h)
      | inr (m, listed) ↦
          inr
            (record { id = id; membership = m; of_request = refl; listed = listed; passes = refl })
    ]

granted-MayView :
    (db : Db) (user_id : Option ℕ) (serial : Text) (u : Option User) (m : Option KitMembership)
    (kit : Kit)
    → fut_kit_permission_or_forbidden db user_id serial view ≡ ok (u, m, kit)
    → MayView db user_id kit × (kit_by_serial db serial ≡ some kit)
unfolding fut_kit_permission_or_forbidden
granted-MayView db user_id serial u m kit h =
    let (v, _, h1) = >>=-eq-ok (actor db user_id) _ h in
    let (k, found, h2) = ok_or-bind-eq-ok (kit_by_serial db serial) _ _ h1 in
    let (granted, h3) = guard-bind-eq-ok _ _ _ h2 in
    let same : k ≡ kit = cc h3 in
    (subst (MayView db user_id) same (view-MayView db user_id k v granted), found ∙ ap some same)

module _ {Token : Type 0} (jwt : Jwt Token DownloadToken) (law : IsJwt jwt) where
  abbrev download_token : (now : ℕ) → (serial : Text) → Token
  download_token now serial =
      create_arbitrary_token jwt now (record { action = download_action; kit_serial = serial }) 30

  archive-download_token :
      (db : Db) (now later : ℕ) (serial requested : Text)
      → archive jwt db later requested (download_token now serial) ≡ (
          if ltb (now + 30 + 60) later
          then err (generic forbidden)
          else if serial ≟ requested
          then ok_or (kit_by_serial db serial) (generic not_found)
          else err (generic forbidden))
  unfolding archive
  archive-download_token db now later serial requested =
      rw
        (decode_arbitrary_token-create_arbitrary_token jwt law later now 30
          (record { action = download_action; kit_serial = serial }))
        (elim (Bool-cases (ltb (now + 30 + 60) later)) [
          | inl late ↦ rw late refl
          | inr soon ↦ rw soon (elim (Bool-cases (serial ≟ requested)) [
            | inl same ↦ rw same refl
            | inr differ ↦ rw differ refl
          ])
        ])

  -- A token for the archive of a kit is given only to those who may view the kit: the kit shows its
  -- data to everyone, or the user is a member. It opens, in the next half minute and a minute for
  -- clocks that differ, the archive of the kit that has the serial at the time of the download, and
  -- is forbidden at every other serial and after that time.
  pub archive-archive_authorize :
      (db : Db) (now : ℕ) (user_id : Option ℕ) (serial : Text) (token : Token)
      → archive_authorize jwt db now user_id serial ≡ ok token
      → ((kit : Kit) × (kit_by_serial db serial ≡ some kit) × MayView db user_id kit)
        × ((db' : Db) (later : ℕ) (requested : Text)
            → archive jwt db' later requested token ≡ (
                if ltb (now + 30 + 60) later
                then err (generic forbidden)
                else if serial ≟ requested
                then ok_or (kit_by_serial db' serial) (generic not_found)
                else err (generic forbidden)))
  unfolding archive_authorize
  archive-archive_authorize db now user_id serial token h =
      let ((u, m, kit), granted, issued) =
        >>=-eq-ok (fut_kit_permission_or_forbidden db user_id serial view) _ h in
      let (may, found) = granted-MayView db user_id serial u m kit granted in
      let is_serial : kit.serial ≡ serial =
        (≟_iff kit.serial serial).0 (first-eq-some (λ k. k.serial ≟ serial) db.kits kit found) in
      let same : download_token now serial ≡ token =
        ap (download_token now) (sym is_serial) ∙ cc issued in
      (
        (kit, found, may),
        subst
            (λ given.
              (db' : Db) (later : ℕ) (requested : Text)
              → archive jwt db' later requested given ≡ (
                  if ltb (now + 30 + 60) later
                  then err (generic forbidden)
                  else if serial ≟ requested
                  then ok_or (kit_by_serial db' serial) (generic not_found)
                  else err (generic forbidden)))
            same (λ db' later requested. archive-download_token db' now later serial requested),
      )

  -- The archive of a kit is only sent for a token that was signed for a download and for the serial
  -- of the request, which is the serial of the kit, and not later than a minute after the token
  -- expired.
  pub archive-signed :
      (db : Db) (now : ℕ) (serial : Text) (token : Token) (kit : Kit)
      → archive jwt db now serial token ≡ ok kit
      → (kit.serial ≡ serial)
        × ((exp : ℕ) × (token
              ≡ jwt.encode (
                  of_data (record {
                    exp = exp;
                    contents = record { action = download_action; kit_serial = serial };
                  })))
            × (now ≤ exp + 60))
  unfolding archive
  archive-signed db now serial token kit h =
      let (content, decoded, h1) =
        >>=-eq-ok (map_err (λ e. generic forbidden) (decode_arbitrary_token jwt now token)) _ h in
      let (fits, h2) =
        guard-bind-eq-ok
          (not (not (content.action ≟ download_action) || not (content.kit_serial ≟ serial))) _ _
          h1 in
      let found = ok_or-eq-ok (kit_by_serial db content.kit_serial) _ h2 in
      let action = (≟_iff content.action download_action).0 (ground (arith, fits)) in
      let same = (≟_iff content.kit_serial serial).0 (ground (arith, fits)) in
      let (exp, signed, soon) =
        (decode_arbitrary_token_iff jwt law now token content).0 (map_err-eq-ok _ _ decoded) in
      (
        (≟_iff kit.serial content.kit_serial).0
              (first-eq-some (λ k. k.serial ≟ content.kit_serial) db.kits kit found)
            ∙ same,
        (
          exp,
          signed
              ∙ ap (λ c. jwt.encode (of_data (record { exp = exp; contents = c })))
                  (cc (action, same)),
          soon,
        ),
      )
