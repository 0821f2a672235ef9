-- ===== src/Api/Middleware.antt =====
-- src/presentation/middleware: the headers that every response gets. The names of headers are in lower case, in
-- which Starlette compares them.
use edo_adapter_enterprise.Shared.{
  ℕ, ◌≡◌, String, ◌||◌, none, some, List, [], ◌∷◌, All, str_eq, starts_with, concat, if◌then◌else◌,
  ◌++◌,
}
use edo_adapter_enterprise.Shared.Results.{Result, ok, err, ◌>>=◌}
use edo_adapter_enterprise.Domain.Json.{Dict, get, set}

pub record Request : Type 0 where
  pub path : String
  pub headers : Dict String

pub record Response : Type 0 where
  pub status_code : ℕ
  pub headers : Dict String
  pub body : String

-- What stands behind a middleware; it may raise.
abbrev Endpoint : Type 0
Endpoint = Request → Result Response

-- `"; ".join(...)`
abbrev join : List String → String
join [] = ""
join (s ∷ []) = s
join (s ∷ rest) = concat s (concat "; " (join rest))

-- `_build_csp`
unfoldable pub build_csp : String → String
build_csp path =
    if starts_with path "/api/docs"
      || (starts_with path "/api/redoc" || str_eq path "/openapi.json")
    then join (
        "default-src 'self'" ∷ "script-src 'self' 'unsafe-inline' https://cdn.jsdelivr.net"
        ∷ "style-src 'self' 'unsafe-inline' https://cdn.jsdelivr.net"
        ∷ "img-src 'self' data: https://fastapi.tiangolo.com"
        ∷ "font-src 'self' https://cdn.jsdelivr.net" ∷ "connect-src 'self'" ∷ [])
    else "default-src 'self'"

abbrev pub security_headers : String → Dict String
security_headers path =
    ("x-content-type-options", "nosniff")
    ∷ ("x-frame-options", "DENY")
    ∷ ("x-xss-protection", "1; mode=block")
    ∷ ("referrer-policy", "strict-origin-when-cross-origin")
    ∷ ("permissions-policy", "geolocation=(), microphone=()")
    ∷ ("strict-transport-security", "max-age=63072000; includeSubDomains; preload")
    ∷ ("content-security-policy", build_csp path)
    ∷ []

-- `headers.update(...)`
abbrev update : Dict String → Dict String → Dict String
update [] headers = headers
update ((k, v) ∷ rest) headers = update rest (set k v headers)

abbrev secured : String → Response → Response
secured path r = record r { headers = update (security_headers path) r.headers }

-- `SecurityHeadersMiddleware.dispatch`
unfoldable security_headers_middleware : Endpoint → Endpoint
security_headers_middleware call_next request =
    call_next request >>= λ r. ok (secured request.path r)

-- `request.headers.get("X-Request-ID", str(uuid.uuid4()))`
abbrev pub request_id : String → Request → String
request_id new request = elim (get "x-request-id" request.headers) [ none ↦ new | some id ↦ id ]

abbrev identified : String → Response → Response
identified id r = record r { headers = set "x-request-id" id r.headers }

-- `RequestIDMiddleware.dispatch`; `new` is the text of a new identifier.
unfoldable request_id_middleware : String → Endpoint → Endpoint
request_id_middleware new call_next request =
    call_next request >>= λ r. ok (identified (request_id new request) r)

-- The two as `create_app` of src/main.py adds them: the one that is added last is the outer one.
unfoldable pub served : String → Endpoint → Endpoint
unfolding request_id_middleware security_headers_middleware
served new app = request_id_middleware new (security_headers_middleware app)

-- No key of a list stands in it again.
abbrev Distinct : Dict String → Type 0
Distinct [] = Unit
Distinct ((k, v) ∷ rest) = (get k rest ≡ none) × Distinct rest

-- All eight headers that a response gets.
abbrev added : String → String → Dict String
added id path = security_headers path ++ ("x-request-id", id) ∷ []

-- What a response, or an exception, of the application goes out as; `name` is any other header.
abbrev pub IsPassedOn : String → Request → String → Result Response → Result Response → Type 0
IsPassedOn new request name (err fault) out = out ≡ err fault
IsPassedOn new request name (ok r) result =
    (out : Response) × (result ≡ ok out)
    × (out.status_code ≡ r.status_code)
    × (out.body ≡ r.body)
    × (get "x-request-id" out.headers ≡ some (request_id new request))
    × All (λ (h : String × String). get h.0 out.headers ≡ some h.1) (security_headers request.path)
    × (get name out.headers ≡ get name r.headers)
