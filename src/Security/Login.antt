-- ===== src/Security/Login.antt =====
-- src/presentation/api/v1/auth.py: login and refresh. `verify` is `verify_password`, which calls a library.
use edo_adapter_enterprise.Shared.{
  ℕ, String, Bool, not, ◌&&◌, Option, none, some, List, ◌==◌, str_eq, if◌then◌else◌,
}
use edo_adapter_enterprise.Shared.Results.{value_error, key_error}
use edo_adapter_enterprise.Shared.Tables.{select_one}
use edo_adapter_enterprise.Core.Config.{Settings}
use edo_adapter_enterprise.Domain.Json.{Dict, Json, get}
use edo_adapter_enterprise.Api.Sessions.{Answer, returned, http_exception, raised}
use edo_adapter_enterprise.Security.Tokens.{
  Library, Outcome, value, failure, create_access_token, create_refresh_token, decode_token,
  is_text,
}
use edo_adapter_enterprise.Security.Tokens.Authentication.{user_claims}

pub record ApiUser : Type 0 where
  pub id : ℕ
  pub tenant_id : ℕ
  pub email : String
  pub hashed_password : String
  pub role : String
  pub is_active : Bool

pub record TokenResponse (lib : Library) : Type 0 where
  pub access_token : lib.Token
  pub refresh_token : lib.Token

-- New identifiers and clock readings, two of each for a pair of tokens.
pub record Issue : Type 0 where
  pub fresh : ℕ → ℕ
  pub clock : ℕ → ℕ

module _ (lib : Library) (s : Settings) (issue : Issue) where
  unfoldable pub tokens_for : ApiUser → TokenResponse lib
  tokens_for user = record {
    access_token =
        create_access_token lib s (lib.str_uuid user.id)
          (user_claims lib s user.tenant_id user.role) (issue.fresh 0) (issue.clock 0);
    refresh_token =
        create_refresh_token lib s (lib.str_uuid user.id) (issue.fresh 1) (issue.clock 1);
  }

  -- The conditions of the two SELECTs.
  abbrev active_email : String → ApiUser → Bool
  active_email email user = str_eq user.email email && user.is_active

  abbrev active_id : ℕ → ApiUser → Bool
  active_id id user = user.id == id && user.is_active

  unfoldable pub login_as :
      (String → String → Bool) → String → Option ApiUser → Answer (TokenResponse lib)
  login_as verify password none = http_exception 401 "Invalid email or password"
  login_as verify password (some user) =
      if not (verify password user.hashed_password)
      then http_exception 401 "Invalid email or password"
      else returned (tokens_for user)

  unfoldable pub login :
      (String → String → Bool) → String → String → List ApiUser → Answer (TokenResponse lib)
  login verify email password users =
      login_as verify password (select_one (active_email email) users)

  unfoldable pub refresh_as : Option ApiUser → Answer (TokenResponse lib)
  refresh_as none = http_exception 401 "User not found"
  refresh_as (some user) = returned (tokens_for user)

  -- `uuid.UUID(str(payload["sub"]))` stands outside a `try` here.
  unfoldable pub with_subject : List ApiUser → Option Json → Answer (TokenResponse lib)
  with_subject users none = raised key_error
  with_subject users (some sub) = elim (lib.uuid (lib.str_json sub)) [
    | value id ↦ refresh_as (select_one (active_id id) users)
    | failure message ↦ raised value_error
  ]

  unfoldable pub with_payload : List ApiUser → Outcome (Dict Json) → Answer (TokenResponse lib)
  with_payload users (failure message) = http_exception 401 message
  with_payload users (value payload) =
      if not (is_text lib "refresh" (get "type" payload))
      then http_exception 401 "Expected refresh token"
      else with_subject users (get "sub" payload)

  unfoldable pub refresh : ℕ → lib.Token → List ApiUser → Answer (TokenResponse lib)
  refresh now token users = with_payload users (decode_token lib now token)
