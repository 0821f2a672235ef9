-- ===== src/Providers/Calls.antt =====
-- What the methods of the HTTP providers share: the calls of httpx, the exceptions, and the reading of a
-- response. The world behind httpx and the clocks is a parameter, whose state each request moves on.
use edo_adapter_enterprise.Shared.{
  ℕ, ◌/◌, String, Bool, true, false, not, Option, none, some, [], ◌∷◌, str_eq, ltb, ◌==◌,
}
use edo_adapter_enterprise.Shared.Results.{
  Fault, value_error, key_error, type_error, attribute_error,
}
use edo_adapter_enterprise.Domain.Errors.{DomainError}
use edo_adapter_enterprise.Domain.Json
use edo_adapter_enterprise.Domain.Json.{Dict, Json, Items, Fields, get}

-- A response; `json` is what `response.json()` returns, and `none` is a body that is no JSON.
pub record Response : Type 0 where
  pub status_code : ℕ
  pub body_text : String
  pub json : Option Json

-- An exception: of the program, of Python, or of httpx.
pub data Raised : Type 0 where
  domain_error : DomainError → Raised
  fault : Fault → Raised
  http_error : Raised

pub data Call {ℓ} (A : Type ℓ) : Type ℓ where
  returned : A → Call A
  raised : Raised → Call A

pub record Request : Type 0 where
  pub path : String
  pub headers : Dict Json
  pub params : Dict Json
  pub content : Option String
  pub json : Option Json

-- The world outside: what it answers to a request, and its clocks in microseconds.
pub record Outside : Type 1 where
  pub State : Type 0
  pub time : State → ℕ
  pub monotonic : State → ℕ
  pub send : Request → State → Call Response × State

-- Python's texts of a number and of a JSON value that is no text, and `str.lower`.
pub record Texts : Type 0 where
  pub str_number : ℕ → String
  pub str_json : Json → String
  pub lower : String → String

-- `str(value)`
abbrev pub str_of : Texts → Json → String
str_of t (Json.text s) = s
str_of t j = t.str_json j

infixl 5 ◌>>=◌ ◌>>◌
abbrev pub ◌>>=◌ {ℓ κ} : {A : Type ℓ} {B : Type κ} → Call A → (A → Call B) → Call B
returned a >>= f = f a
raised e >>= f = raised e

abbrev pub ◌>>◌ {ℓ} : {B : Type ℓ} → Call (Unit {0}) → Call B → Call B
m >> k = m >>= λ _. k

-- `self._handle_errors(...)`, given what it raises.
abbrev pub checked : Option Raised → Call (Unit {0})
checked none = returned tt
checked (some e) = raised e

abbrev pub to_dict : Fields → Dict Json
to_dict Json.end = []
to_dict (Json.field k v d) = (k, v) ∷ to_dict d

-- `response.json()`
abbrev pub parsed : Response → Call Json
parsed r = elim r.json [ none ↦ raised (fault value_error) | some j ↦ returned j ]

-- A value that has the methods of a dictionary.
abbrev pub as_dict : Json → Call (Dict Json)
as_dict (Json.object d) = returned (to_dict d)
as_dict _ = raised (fault attribute_error)

-- A value where a test asks for its truth.
abbrev pub is_true : Json → Bool
is_true Json.null = false
is_true (Json.flag b) = b
is_true (Json.number n) = not (n == 0)
is_true (Json.text s) = not (str_eq s "")
is_true (Json.array Json.nil) = false
is_true (Json.array (Json.cons _ _)) = true
is_true (Json.object Json.end) = false
is_true (Json.object (Json.field _ _ _)) = true

-- `value[key]`, for a text key.
abbrev required_key : Option Json → Call Json
required_key none = raised (fault key_error)
required_key (some v) = returned v

abbrev pub subscript : String → Json → Call Json
subscript k (Json.object d) = required_key (get k (to_dict d))
subscript k _ = raised (fault type_error)

abbrev pub or_json : Json → Option Json → Json
or_json d none = d
or_json d (some v) = v

-- `value.get(key, default)`
abbrev pub get_or : String → Json → Dict Json → Json
get_or k d dict = or_json d (get k dict)

-- `value.lower()` of a value that should be a text.
abbrev lowered : Texts → Json → Call String
lowered t (Json.text s) = returned (t.lower s)
lowered t _ = raised (fault attribute_error)

-- The end of `health_check`: whether the status is below 500, with the milliseconds that the request took;
-- no exception leaves it.
abbrev pub healthy : ℕ → Call Response → Bool × ℕ
healthy elapsed (returned r) = (ltb r.status_code 500, elapsed / 1000)
healthy elapsed (raised e) = (false, 0)

abbrev pub request_to : String → Request
request_to path = record { path = path; headers = []; params = []; content = none; json = none }

-- A JSON object with its keys in order.
abbrev fields_of : Dict Json → Fields
fields_of [] = Json.end
fields_of ((k, v) ∷ rest) = Json.field k v (fields_of rest)

abbrev pub object_of : Dict Json → Json
object_of d = Json.object (fields_of d)
