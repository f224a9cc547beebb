-- ===== src/Mqtt/Topic/RoundTrip.antt =====
-- Which topics are accepted, and as what.
use astroplant_api.Prelude.{
  Text, codes, ◌≡◌, ◌↔◌, refl, sym, ◌∙◌, ap, Bool, true, false, ◌&&◌, Option, none, some, List, [],
  ◌∷◌, if◌then◌else◌, All, ok, err, arith, Bool-cases, Option-cases, inl, inr, guard-bind-eq-ok,
  ok_or-bind-eq-ok, subst,
}
use astroplant_api.Prelude.Equality.{◌≟◌, ≟_iff, nat_eq, list_eq}
use astroplant_api.Mqtt.Topic.{
  TopicKind, raw_measurement, aggregate_measurement, media, server_rpc_request, server_rpc_response,
  kit_rpc_request, kit_rpc_response, Topic, slash, HasNoSlash, kind_of, of_parts, try_from,
}
use astroplant_api.Prelude.Split.{split, join, join-split, split-Lacks, split-join}

-- The names of a kind, as the documentation of the topics gives them.
abbrev pub path : TopicKind → List Text
path raw_measurement = codes "measurement" ∷ codes "raw" ∷ []
path aggregate_measurement = codes "measurement" ∷ codes "aggregate" ∷ []
path media = codes "media" ∷ []
path server_rpc_request = codes "server-rpc" ∷ codes "request" ∷ []
path server_rpc_response = codes "server-rpc" ∷ codes "response" ∷ []
path kit_rpc_request = codes "kit-rpc" ∷ codes "request" ∷ []
path kit_rpc_response = codes "kit-rpc" ∷ codes "response" ∷ []

-- `kit/<serial>/<path>`
abbrev pub format : Topic → Text
format t = join slash (codes "kit" ∷ t.kit_serial ∷ path t.kind)

kind_of-path : (kind : TopicKind) → kind_of (path kind) ≡ some kind
unfolding kind_of
kind_of-path raw_measurement = refl
kind_of-path aggregate_measurement = refl
kind_of-path media = refl
kind_of-path server_rpc_request = refl
kind_of-path server_rpc_response = refl
kind_of-path kit_rpc_request = refl
kind_of-path kit_rpc_response = refl

path-HasNoSlash : (kind : TopicKind) → All HasNoSlash (path kind)
path-HasNoSlash raw_measurement = omega arith
path-HasNoSlash aggregate_measurement = omega arith
path-HasNoSlash media = omega arith
path-HasNoSlash server_rpc_request = omega arith
path-HasNoSlash server_rpc_response = omega arith
path-HasNoSlash kit_rpc_request = omega arith
path-HasNoSlash kit_rpc_response = omega arith

-- Two names that are tested together.
both-names : (a b c d : Text) → (a ≟ c && b ≟ d) ≡ true → a ∷ b ∷ [] ≡ c ∷ d ∷ []
both-names a b c d h = ground (arith, ≟_iff a c, ≟_iff b d)

-- One test of a chain of tests.
tested :
    (ps : List Text) (b : Bool) (k : TopicKind) (rest : Option TopicKind) (kind : TopicKind)
    → (b ≡ true → ps ≡ path k)
    → (rest ≡ some kind → ps ≡ path kind)
    → (if b then some k else rest) ≡ some kind
    → ps ≡ path kind
tested ps true k rest kind here later h = let same : k ≡ kind = cc h in here refl ∙ ap path same
tested ps false k rest kind here later h = later h

kind_of-inv : (ps : List Text) (kind : TopicKind) → kind_of ps ≡ some kind → ps ≡ path kind
unfolding kind_of
kind_of-inv [] kind h = cc
kind_of-inv (a ∷ []) kind h =
    tested (a ∷ []) (a ≟ codes "media") media none kind
      (λ e. ap (λ x. x ∷ []) ((≟_iff a (codes "media")).0 e)) (λ e. cc) h
kind_of-inv (a ∷ b ∷ []) kind h =
    let names = both-names a b in
    tested (a ∷ b ∷ []) _ raw_measurement _ kind (names _ _)
      (tested (a ∷ b ∷ []) _ aggregate_measurement _ kind (names _ _) (
        tested (a ∷ b ∷ []) _ server_rpc_request _ kind (names _ _) (
          tested (a ∷ b ∷ []) _ server_rpc_response _ kind (names _ _) (
            tested (a ∷ b ∷ []) _ kit_rpc_request _ kind (names _ _)
              (tested (a ∷ b ∷ []) _ kit_rpc_response none kind (names _ _) (λ e. cc))))))
      h
kind_of-inv (a ∷ b ∷ c ∷ ps) kind h = cc

try_from-format : (t : Topic) → HasNoSlash t.kit_serial → try_from (format t) ≡ ok t
unfolding try_from of_parts
try_from-format t h =
    rw
      (split-join slash (codes "kit") (t.kit_serial ∷ path t.kind)
        (omega arith, (h, path-HasNoSlash t.kind)))
      (rw (kind_of-path t.kind) refl)

of_parts-inv :
    (value : Text) (ps : List Text) (t : Topic)
    → of_parts value ps ≡ ok t
    → ps ≡ codes "kit" ∷ t.kit_serial ∷ path t.kind
unfolding of_parts
of_parts-inv value [] t h = cc
of_parts-inv value (kit ∷ []) t h = cc
of_parts-inv value (kit ∷ serial ∷ rest) t h =
    let (first_part, h1) = guard-bind-eq-ok (kit ≟ codes "kit") value _ h in
    let (kind, last_part, h2) = ok_or-bind-eq-ok (kind_of rest) value _ h1 in
    cc ((≟_iff kit (codes "kit")).0 first_part, kind_of-inv rest kind last_part, h2)

-- A topic is accepted exactly if it is `kit/`, a serial without a slash, and the path of a kind,
-- and it is accepted as that serial and that kind.
pub try_from_iff :
    (value : Text) (t : Topic)
    → (try_from value ≡ ok t) ↔ ((value ≡ format t) × HasNoSlash t.kit_serial)
unfolding try_from
try_from_iff value t = (
  λ h.
      let e = of_parts-inv value (split slash value) t h in
      let parts = subst (All HasNoSlash) e (split-Lacks slash value) in
      (sym (join-split slash value) ∙ ap (join slash) e, parts.1.0),
  λ h. ap try_from h.0 ∙ try_from-format t h.1,
)

of_parts-err : (value : Text) (ps : List Text) (e : Text) → of_parts value ps ≡ err e → e ≡ value
unfolding of_parts
of_parts-err value [] e h = cc
of_parts-err value (kit ∷ []) e h = cc
of_parts-err value (kit ∷ serial ∷ rest) e h = elim (Bool-cases (kit ≟ codes "kit")) [
  | inr other ↦ cc (rw other at h)
  | inl here ↦ elim (Option-cases (kind_of rest)) [
    | inl unknown ↦ cc (rw (here, unknown) at h)
    | inr (kind, known) ↦ absurd (cc (rw (here, known) at h))
  ]
]

-- A topic that is not accepted is named by the error.
pub try_from-err : (value e : Text) → try_from value ≡ err e → e ≡ value
unfolding try_from
try_from-err value e h = of_parts-err value (split slash value) e h
