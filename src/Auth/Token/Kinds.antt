-- ===== src/Auth/Token/Kinds.antt =====
-- How long tokens are accepted, and that their kinds cannot be confused.
use astroplant_api.Prelude.{
  map_err-eq-ok, ℕ, ◌+◌, ◌≤◌, ◌≡◌, refl, sym, ◌∙◌, ap, ◌↔◌, Bool, true, false, Bool-cases, inl, inr,
  Option, Option-cases, some, if◌then◌else◌, ltb, Result, ok, err, map_err, ◌>>=◌, arith, is_ok,
  ◌&&◌, subst, >>=-eq-ok, guard-bind-eq-ok,
}
use astroplant_api.Auth.Token.{
  TokenType, refresh, access, Error, expired, other, AuthenticationState, Claims,
  ArbitraryTokenClaims, Payload, of_session, of_data, expiry, as_claims, as_arbitrary,
  expired_signature, Jwt, IsJwt, error_of, is_refresh, is_access, create_token, decode_token,
  create_refresh_token, access_token_from_refresh_token, decode_access_token,
  create_arbitrary_token, decode_arbitrary_token,
}

pub map_err-if_err :
    {A : Type 0} (late : Bool) (a : A)
    → map_err error_of (if late then err expired_signature else ok a)
      ≡ (if late then err expired else ok a)
map_err-if_err true a = refl
map_err-if_err false a = refl

is_access-eq-true : (t : TokenType) → is_access t ≡ true → t ≡ access
is_access-eq-true refresh h = cc
is_access-eq-true access h = refl

is_refresh-eq-true : (t : TokenType) → is_refresh t ≡ true → t ≡ refresh
is_refresh-eq-true refresh h = refl
is_refresh-eq-true access h = cc

not_both :
    {A B : Type 0} (r : Result Error A) (q : Result Error B)
    → ((a : A) (b : B) → r ≡ ok a → q ≡ ok b → ⊥)
    → (is_ok r && is_ok q) ≡ false
not_both (ok a) (ok b) h = absurd (h a b refl refl)
not_both (ok a) (err e) h = refl
not_both (err e) q h = refl

module _ {Token Data : Type 0} (jwt : Jwt Token Data) (law : IsJwt jwt) where
  -- What is read back of a token is what was signed, while it is valid.
  decoded :
      {T : Type 0} (read : Payload Data → Option T) (now : ℕ) (token : Token) (t : T)
      → jwt.decode read now token ≡ ok t
      → (p : Payload Data) × (token ≡ jwt.encode p) × (read p ≡ some t) × (now ≤ expiry p + 60)
  decoded read now token t h =
      let (p, e) = law.signed read now token t h in
      elim (Option-cases (read p)) [
        | inl wrong ↦
            let (kind, refused) = law.refuses read now p wrong in absurd (cc (e, h, refused))
        | inr (u, right) ↦
            let there = law.decodes read now p u right in
            elim (Bool-cases (ltb (expiry p + 60) now)) [
              | inl late ↦ absurd (cc (e, h, there, late))
              | inr soon ↦ (p, e, cc (e, h, there, soon, right), ground (arith, soon))
            ]
      ]

  as_claims-eq-some : (p : Payload Data) (c : Claims) → as_claims p ≡ some c → p ≡ of_session c
  as_claims-eq-some (of_session d) c h = cc
  as_claims-eq-some (of_data a) c h = cc

  pub decode_token-create_token :
      (now issued validity : ℕ) (kind : TokenType) (state : AuthenticationState)
      → decode_token jwt now (create_token jwt issued validity kind state) ≡ (
          if ltb (issued + validity + 60) now
          then err expired
          else ok (record { exp = issued + validity; token_type = kind; state = state }))
  decode_token-create_token now issued validity kind state =
      rw
        (law.decodes as_claims now
          (of_session (record { exp = issued + validity; token_type = kind; state = state })) _
          refl)
        (map_err-if_err (ltb (issued + validity + 60) now) _)

  -- A refresh token is accepted for a year, and the access token that it is exchanged for is
  -- accepted for a quarter of an hour, each with a minute for clocks that differ; the state that
  -- comes back is that of the session. After that the error says that the token expired.
  pub decode_access_token-access_token_from_refresh_token :
      (issued refreshed now : ℕ) (state : AuthenticationState)
      → (access_token_from_refresh_token jwt refreshed (create_refresh_token jwt issued state)
          >>= decode_access_token jwt now)
        ≡ (if ltb (issued + 31536000 + 60) refreshed
            then err expired
            else if ltb (refreshed + 900 + 60) now
            then err expired
            else ok state)
  unfolding create_refresh_token access_token_from_refresh_token decode_access_token
  decode_access_token-access_token_from_refresh_token issued refreshed now state =
      rw (decode_token-create_token refreshed issued 31536000 refresh state)
        (elim (Bool-cases (ltb (issued + 31536000 + 60) refreshed)) [
          | inl late ↦ rw late refl
          | inr soon ↦ rw soon (
              rw (decode_token-create_token now refreshed 900 access state)
                (elim (Bool-cases (ltb (refreshed + 900 + 60) now)) [
                  | inl late ↦ rw late refl
                  | inr in_time ↦ rw in_time refl
                ]))
        ])

  -- Exactly the tokens that were signed as access tokens for a state, and that have not expired by
  -- more than a minute, are decoded to it.
  pub decode_access_token_iff :
      (now : ℕ) (token : Token) (state : AuthenticationState)
      → (decode_access_token jwt now token ≡ ok state) ↔ (
          (exp : ℕ) × (token
            ≡ jwt.encode (of_session (record { exp = exp; token_type = access; state = state })))
          × (now ≤ exp + 60))
  unfolding decode_access_token
  decode_access_token_iff now token state = (
    λ h.
        let (claims, got, h1) = >>=-eq-ok (decode_token jwt now token) _ h in
        let (kind, h2) = guard-bind-eq-ok (is_access claims.token_type) other _ h1 in
        let (p, e, right, soon) =
          decoded as_claims now token claims (map_err-eq-ok error_of _ got) in
        let same = as_claims-eq-some p claims right in
        let access_kind = is_access-eq-true claims.token_type kind in
        let same_state : claims.state ≡ state = cc h2 in
        (
          claims.exp,
          e ∙ ap jwt.encode (same ∙ cc (access_kind, same_state)),
          subst (λ q. now ≤ expiry q + 60) same soon,
        ),
    λ (exp, e, soon). rw e (
        rw
          (law.decodes as_claims now
            (of_session (record { exp = exp; token_type = access; state = state })) _ refl)
          (ground (arith, soon))),
  )

  refresh_token :
      (now : ℕ) (token answer : Token)
      → access_token_from_refresh_token jwt now token ≡ ok answer
      → (claims : Claims) × (token ≡ jwt.encode (of_session claims)) × (claims.token_type ≡ refresh)
  unfolding access_token_from_refresh_token
  refresh_token now token answer h =
      let (claims, got, h1) = >>=-eq-ok (decode_token jwt now token) _ h in
      let (kind, h2) = guard-bind-eq-ok (is_refresh claims.token_type) other _ h1 in
      let (p, e, right, soon) = decoded as_claims now token claims (map_err-eq-ok error_of _ got) in
      (
        claims,
        e ∙ ap jwt.encode (as_claims-eq-some p claims right),
        is_refresh-eq-true claims.token_type kind,
      )

  as_arbitrary-eq-some :
      (p : Payload Data) (a : ArbitraryTokenClaims Data) → as_arbitrary p ≡ some a → p ≡ of_data a
  as_arbitrary-eq-some (of_session c) a h = cc
  as_arbitrary-eq-some (of_data b) a h = cc

  -- Exactly the tokens that were signed for some data, and that have not expired by more than a
  -- minute, are decoded to it.
  pub decode_arbitrary_token_iff :
      (now : ℕ) (token : Token) (contents : Data)
      → (decode_arbitrary_token jwt now token ≡ ok contents) ↔ (
          (exp : ℕ) × (token ≡ jwt.encode (of_data (record { exp = exp; contents = contents })))
          × (now ≤ exp + 60))
  unfolding decode_arbitrary_token
  decode_arbitrary_token_iff now token contents = (
    λ h.
        let (a, got, h1) = >>=-eq-ok (map_err error_of (jwt.decode as_arbitrary now token)) _ h in
        let (p, e, right, soon) = decoded as_arbitrary now token a (map_err-eq-ok error_of _ got) in
        let same = as_arbitrary-eq-some p a right in
        let same_contents : a.contents ≡ contents = cc h1 in
        (
          a.exp,
          e ∙ ap jwt.encode (same ∙ cc same_contents),
          subst (λ q. now ≤ expiry q + 60) same soon,
        ),
    λ (exp, e, soon). rw e (
        rw
          (law.decodes as_arbitrary now (of_data (record { exp = exp; contents = contents })) _
            refl)
          (ground (arith, soon))),
  )

  pub decode_arbitrary_token-create_arbitrary_token :
      (now issued validity : ℕ) (contents : Data)
      → decode_arbitrary_token jwt now (create_arbitrary_token jwt issued contents validity)
        ≡ (if ltb (issued + validity + 60) now then err expired else ok contents)
  unfolding decode_arbitrary_token create_arbitrary_token
  decode_arbitrary_token-create_arbitrary_token now issued validity contents =
      rw
        (law.decodes as_arbitrary now
          (of_data (record { exp = issued + validity; contents = contents })) _ refl)
        (elim (Bool-cases (ltb (issued + validity + 60) now)) [
          | inl late ↦ rw late refl
          | inr soon ↦ rw soon refl
        ])

  encode-inj : (p q : Payload Data) → jwt.encode p ≡ jwt.encode q → p ≡ q
  encode-inj p q h =
      let left = law.decodes some 0 p p refl in
      let right = law.decodes some 0 q q refl in
      let early : (n : ℕ) → ltb (n + 60) 0 ≡ false = λ n. ground arith in
      cc (h, left, right, early (expiry p), early (expiry q))

  access_token :
      (now : ℕ) (token : Token) (state : AuthenticationState)
      → decode_access_token jwt now token ≡ ok state
      → (claims : Claims) × (token ≡ jwt.encode (of_session claims)) × (claims.token_type ≡ access)
  access_token now token state h =
      let (exp, e, soon) = (decode_access_token_iff now token state).0 h in
      (record { exp = exp; token_type = access; state = state }, e, refl)

  -- The three kinds of tokens cannot be confused: whatever the two times, no token is accepted both as
  -- an access token and as a refresh token, nor for a download and as one of these.
  pub kinds-distinct :
      (now later : ℕ) (token : Token)
      → ((is_ok (decode_access_token jwt now token)
            && is_ok (access_token_from_refresh_token jwt later token))
          ≡ false)
        × ((is_ok (decode_access_token jwt now token)
              && is_ok (decode_arbitrary_token jwt later token))
            ≡ false)
        × ((is_ok (access_token_from_refresh_token jwt now token)
              && is_ok (decode_arbitrary_token jwt later token))
            ≡ false)
  kinds-distinct now later token = (
    not_both _ _ (λ state answer h k.
        let (c, e, c_kind) = access_token now token state h in
        let (d, f, d_kind) = refresh_token later token answer k in
        cc (encode-inj (of_session c) (of_session d) (sym e ∙ f), c_kind, d_kind)),
    not_both _ _ (λ state contents h k.
        let (c, e, c_kind) = access_token now token state h in
        let (exp, f, soon) = (decode_arbitrary_token_iff later token contents).0 k in
        cc (
          encode-inj (of_session c) (of_data (record { exp = exp; contents = contents }))
            (sym e ∙ f))),
    not_both _ _ (λ answer contents h k.
        let (c, e, c_kind) = refresh_token now token answer h in
        let (exp, f, soon) = (decode_arbitrary_token_iff later token contents).0 k in
        cc (
          encode-inj (of_session c) (of_data (record { exp = exp; contents = contents }))
            (sym e ∙ f))),
  )
