-- ===== src/Api/Problem.antt =====
-- astroplant-api/src/problem.rs: the problems that a handler answers with, and their status codes.
-- `InvalidParameters` lists the reasons in the order in which they were added, each with the name
-- of its parameter; the texts of `DescriptiveProblem` are not modelled.
use astroplant_api.Prelude.{ℕ, Text, List, [], ◌∷◌, ◌++◌, Option, Bool, true, false, Result}

pub data GenericProblem : Type 0 where
  not_found internal_server_error service_unavailable forbidden method_not_allowed bad_request :
      GenericProblem

pub data AccessTokenProblemCategory : Type 0 where
  missing malformed expired : AccessTokenProblemCategory

pub data InvalidParameterReason : Type 0 where
  must_be_email_address must_be_url : InvalidParameterReason
  must_be_in_range : Text → Text → InvalidParameterReason
  must_have_length_between : Option ℕ → Option ℕ → InvalidParameterReason
  must_have_length_exactly : ℕ → InvalidParameterReason
  already_exists already_activated : InvalidParameterReason
  invalid_token : AccessTokenProblemCategory → InvalidParameterReason
  parameter_not_found other : InvalidParameterReason

pub data JsonDeserializeErrorCategory : Type 0 where
  syntactic semantic premature_end other_json : JsonDeserializeErrorCategory

abbrev pub InvalidParameters : Type 0
InvalidParameters = List (Text × InvalidParameterReason)

pub data Problem : Type 0 where
  generic : GenericProblem → Problem
  rate_limit : ℕ → Problem
  authorization_header : AccessTokenProblemCategory → Problem
  payload_too_large : ℕ → Problem
  invalid_json : JsonDeserializeErrorCategory → Problem
  invalid_parameters : InvalidParameters → Problem
  kit_rpc : Text → Problem
  kits_require_one_super_member : Problem

abbrev pub AppResult {ℓ} : Type ℓ → Type ℓ
AppResult A = Result Problem A

-- Problem::to_status_code
unfoldable pub to_status_code : Problem → ℕ
to_status_code (generic not_found) = 404
to_status_code (generic internal_server_error) = 500
to_status_code (generic service_unavailable) = 503
to_status_code (generic forbidden) = 403
to_status_code (generic method_not_allowed) = 405
to_status_code (generic bad_request) = 400
to_status_code (rate_limit _) = 429
to_status_code (authorization_header _) = 401
to_status_code (payload_too_large _) = 413
to_status_code (invalid_json _) = 400
to_status_code (invalid_parameters _) = 400
to_status_code (kit_rpc _) = 502
to_status_code kits_require_one_super_member = 400

-- InvalidParameters::is_empty
unfoldable pub is_empty : InvalidParameters → Bool
is_empty [] = true
is_empty (_ ∷ _) = false

-- InvalidParameters::add
unfoldable pub add : InvalidParameters → Text → InvalidParameterReason → InvalidParameters
add ps parameter reason = ps ++ (parameter, reason) ∷ []

-- InvalidParameterReason::singleton followed by InvalidParameters::into_problem
unfoldable pub singleton : InvalidParameterReason → Text → Problem
unfolding add
singleton reason parameter = invalid_parameters (add [] parameter reason)
