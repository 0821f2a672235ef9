-- ===== src/Security/Tokens.antt =====
-- src/core/security.py and `get_current_user` of src/presentation/deps.py: the claims of the tokens. The
-- library pyseto and Python's texts of times, identifiers and values are parameters.
pub mod Authentication
use edo_adapter_enterprise.Shared.{
  ℕ, ◌+◌, String, Bool, true, false, not, Option, none, some, List, [], ◌∷◌, ◌≡◌, concat, str_eq,
  leb, if◌then◌else◌,
}
use edo_adapter_enterprise.Core.Config.{Settings}
use edo_adapter_enterprise.Domain.Json.{Dict, Json, text, get, set}
use edo_adapter_enterprise.Api.Sessions.{CurrentUser, Answer, returned, http_exception}

-- A call that returns, or raises an exception with a text.
pub data Outcome {ℓ} (A : Type ℓ) : Type ℓ where
  value : A → Outcome A
  failure : String → Outcome A

-- The payload of a decoded token: `pyseto.decode` gives the bytes as they are, unless it is called with a
-- deserializer, which makes them a dictionary.
pub data Payload : Type 0 where
  raw : List ℕ → Payload
  dictionary : Dict Json → Payload

-- pyseto as the code calls it, and Python's texts: `decode` is `pyseto.decode(key, token).payload`, without a
-- deserializer, and `dumps` is the JSON in which `pyseto.encode` writes the claims. A token that was encoded with
-- the program's key is decoded to these bytes, and Python's `str` of a text is that text.
pub record Library : Type 1 where
  pub Token : Type 0
  pub encode : Dict Json → Token
  pub decode : Token → Outcome Payload
  pub dumps : Dict Json → List ℕ
  pub str_uuid : ℕ → String
  pub uuid : String → Outcome ℕ
  pub isoformat : ℕ → String
  pub fromisoformat : String → Outcome ℕ
  pub str_json : Json → String
  pub decode-encode : (payload : Dict Json) → decode (encode payload) ≡ value (raw (dumps payload))
  pub str_json-text : (t : String) → str_json (text t) ≡ t

-- `{**payload, **extra}`
unfoldable pub merge : Dict Json → Dict Json → Dict Json
merge payload [] = payload
merge payload ((key, v) ∷ extra) = merge (set key v payload) extra

module _ (lib : Library) where
  -- The claims that both kinds of token have; `jti` is a new identifier.
  abbrev pub claims : String → ℕ → ℕ → ℕ → String → Dict Json
  claims subject jti now ttl kind =
      ("sub", text subject)
      ∷ ("jti", text (lib.str_uuid jti))
      ∷ ("iat", text (lib.isoformat now))
      ∷ ("exp", text (lib.isoformat (now + ttl)))
      ∷ ("type", text kind)
      ∷ []

  unfoldable pub create_access_token : Settings → String → Dict Json → ℕ → ℕ → lib.Token
  create_access_token s subject extra jti now =
      lib.encode (merge (claims subject jti now s.access_token_ttl "access") extra)

  unfoldable pub create_refresh_token : Settings → String → ℕ → ℕ → lib.Token
  create_refresh_token s subject jti now =
      lib.encode (claims subject jti now s.refresh_token_ttl "refresh")

  -- The checks of the expiry; every exception becomes `ValueError("Invalid token: …")`.
  unfoldable pub unexpired : ℕ → Dict Json → Outcome ℕ → Outcome (Dict Json)
  unexpired now payload (failure message) = failure (concat "Invalid token: " message)
  unexpired now payload (value exp) =
      if leb exp now then failure "Invalid token: Token expired" else value payload

  unfoldable pub with_expiry : ℕ → Dict Json → Option Json → Outcome (Dict Json)
  with_expiry now payload none = failure "Invalid token: Token has no expiry"
  with_expiry now payload (some exp) = unexpired now payload (lib.fromisoformat (lib.str_json exp))

  -- `payload.get("exp")` and what follows: bytes have no method `get`.
  unfoldable pub decoded : ℕ → Outcome Payload → Outcome (Dict Json)
  decoded now (failure message) = failure (concat "Invalid token: " message)
  decoded now (value (raw bytes)) =
      failure (concat "Invalid token: " "'bytes' object has no attribute 'get'")
  decoded now (value (dictionary payload)) = with_expiry now payload (get "exp" payload)

  unfoldable pub decode_token : ℕ → lib.Token → Outcome (Dict Json)
  decode_token now token = decoded now (lib.decode token)

  -- `payload.get("type") == kind`
  abbrev pub is_text : String → Option Json → Bool
  is_text kind (some (text t)) = str_eq t kind
  is_text kind _ = false

  -- `uuid.UUID(str(payload[key]))`
  unfoldable pub uuid_claim : Option Json → Outcome ℕ
  uuid_claim none = failure "KeyError"
  uuid_claim (some j) = lib.uuid (lib.str_json j)

  -- `str(payload.get("role", "viewer"))`
  unfoldable pub role_claim : Option Json → String
  role_claim none = "viewer"
  role_claim (some j) = lib.str_json j

  abbrev user_of : Outcome ℕ → Outcome ℕ → String → Answer CurrentUser
  user_of (value user_id) (value tenant_id) role =
      returned (record { user_id = user_id; tenant_id = tenant_id; role = role })
  user_of _ _ role = http_exception 401 "Malformed token payload"

  unfoldable pub current_user : Outcome (Dict Json) → Answer CurrentUser
  current_user (failure message) = http_exception 401 message
  current_user (value payload) =
      if not (is_text "access" (get "type" payload))
      then http_exception 401 "Expected access token"
      else user_of (uuid_claim (get "sub" payload)) (uuid_claim (get "tenant_id" payload))
          (role_claim (get "role" payload))

  unfoldable pub get_current_user : ℕ → lib.Token → Answer CurrentUser
  get_current_user now token = current_user (decode_token now token)
