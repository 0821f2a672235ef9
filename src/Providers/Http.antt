-- ===== src/Providers/Http.antt =====
-- The `_handle_errors` of the three HTTP providers (diadoc_provider.py, kontur_provider.py and
-- sbis_provider.py): how a response becomes an exception. The texts of a number and of a JSON value are
-- parameters.
use edo_adapter_enterprise.Shared.{
  ℕ, ◌≡◌, String, Option, none, some, concat, leb, ◌==◌, if◌then◌else◌, arith, Option-cases, inl,
  inr, Bool, false, ◌||◌, str_eq, contains, refl,
}
use edo_adapter_enterprise.Domain.Errors.{
  ErrorClass, provider_rate_limit_error, provider_transient_error, provider_permanent_error,
}
use edo_adapter_enterprise.Domain.Json
use edo_adapter_enterprise.Domain.Json.{Json, Items, get}
use edo_adapter_enterprise.Shared.Results.{value_error, type_error}
use edo_adapter_enterprise.Providers.Calls.{
  Call, returned, raised, Raised, domain_error, fault, Response, Texts, str_of, parsed, to_dict,
}

-- `text in items`
abbrev has_text : String → Items → Bool
has_text s Json.nil = false
has_text s (Json.cons (Json.text r) xs) = str_eq r s || has_text s xs
has_text s (Json.cons _ xs) = has_text s xs

module _ (t : Texts) where
  -- `none` is a return, and `some` the exception that is raised.
  unfoldable pub diadoc_handle_errors : Response → String → Option Raised
  diadoc_handle_errors r context =
      if r.status_code == 429
      then some (domain_error (provider_rate_limit_error "DIADOC"))
      else if leb 500 r.status_code
      then some (
          domain_error (
            provider_transient_error
              (concat "Diadoc server error ["
                (concat (t.str_number r.status_code) (concat "] on " context)))
              "DIADOC"))
      else if leb 400 r.status_code
      then some (
          domain_error (
            provider_permanent_error
              (concat "Diadoc client error [" (
                concat (t.str_number r.status_code)
                  (concat "] on " (concat context (concat ": " r.body_text)))))
              "DIADOC"))
      else none

  unfoldable pub kontur_handle_errors : Response → String → Option Raised
  kontur_handle_errors r context =
      if r.status_code == 429
      then some (domain_error (provider_rate_limit_error "KONTUR_EDO"))
      else if leb 500 r.status_code
      then some (
          domain_error (
            provider_transient_error
              (concat "Kontur EDO error ["
                (concat (t.str_number r.status_code) (concat "] on " context)))
              "KONTUR_EDO"))
      else if leb 400 r.status_code
      then some (
          domain_error (
            provider_permanent_error
              (concat "Kontur EDO client error ["
                (concat (t.str_number r.status_code) (concat "]: " r.body_text)))
              "KONTUR_EDO"))
      else none

  abbrev named_error : Option Json → Option Raised
  named_error none = none
  named_error (some e) = some (domain_error (provider_permanent_error (str_of t e) "SBIS"))

  -- The last `if` of `_handle_errors`: a value that counts as true is searched for "error", and the
  -- subscript `data["error"]` is an error of Python where the value is no dictionary.
  abbrev error_in_body : Json → Option Raised
  error_in_body Json.null = none
  error_in_body (Json.flag b) = if b then some (fault type_error) else none
  error_in_body (Json.number n) = if n == 0 then none else some (fault type_error)
  error_in_body (Json.text s) = if contains "error" s then some (fault type_error) else none
  error_in_body (Json.array xs) = if has_text "error" xs then some (fault type_error) else none
  error_in_body (Json.object d) = named_error (get "error" (to_dict d))

  abbrev parsed_error : Call Json → Option Raised
  parsed_error (returned j) = error_in_body j
  parsed_error (raised e) = some e

  -- SBIS answers errors with a success status too, and names them in the body.
  unfoldable pub sbis_handle_errors : Response → String → Option Raised
  sbis_handle_errors r context =
      if r.status_code == 429
      then some (domain_error (provider_rate_limit_error "SBIS"))
      else if leb 500 r.status_code
      then some (
          domain_error (
            provider_transient_error
              (concat "SBIS error [" (concat (t.str_number r.status_code) (concat "] on " context)))
              "SBIS"))
      else if leb 400 r.status_code
      then some (
          domain_error (
            provider_permanent_error
              (concat "SBIS client error ["
                (concat (t.str_number r.status_code) (concat "]: " r.body_text)))
              "SBIS"))
      else parsed_error (parsed r)

-- Whether an exception tells the caller what the provider means, and how.
abbrev pub class_of : Option Raised → Option ErrorClass
class_of (some (domain_error e)) = some e.error_class
class_of _ = none

-- What a response means, by its status alone: too many requests, a fault of the server, a fault of the
-- request, or success.
abbrev pub status_class : ℕ → Option ErrorClass
status_class code =
    if code == 429
    then some ErrorClass.provider_rate_limit
    else if leb 500 code
    then some ErrorClass.provider_transient
    else if leb 400 code
    then some ErrorClass.provider_permanent
    else none

-- The value of the key "error" of a body, if it has one.
abbrev error_of : Option Json → Option Json
error_of (some (Json.object d)) = get "error" (to_dict d)
error_of _ = none

-- What an error in a body means.
abbrev body_class : Option Json → Option ErrorClass
body_class none = none
body_class (some e) = some ErrorClass.provider_permanent

body_error : (t : Texts) (b : Json) → class_of (error_in_body t b) ≡ body_class (error_of (some b))
body_error t Json.null = refl
body_error t (Json.flag b) = ground arith
body_error t (Json.number n) = ground arith
body_error t (Json.text s) = ground arith
body_error t (Json.array xs) = ground arith
body_error t (Json.object d) = elim (Option-cases (get "error" (to_dict d))) [
  | inl e ↦ rw e refl
  | inr (v, e) ↦ rw e refl
]

json_error :
    (t : Texts) (b : Option Json)
    → class_of (parsed_error t (elim b [ none ↦ raised (fault value_error) | some j ↦ returned j ]))
      ≡ body_class (error_of b)
json_error t none = refl
json_error t (some b) = body_error t b

-- The three providers agree on what a response means: 429 is the rate limit, 500 and above a transient
-- error, any other code from 400 on a permanent one, and below 400 Diadoc and Kontur report success;
-- SBIS reports there a permanent error if the body is an object with the key error, and none else.
pub handle_errors_agree :
    (t : Texts) (r : Response) (context : String)
    → (class_of (diadoc_handle_errors t r context) ≡ status_class r.status_code)
      × (class_of (kontur_handle_errors t r context) ≡ status_class r.status_code)
      × (class_of (sbis_handle_errors t r context) ≡ (
          if leb 400 r.status_code
          then status_class r.status_code
          else body_class (error_of r.json)))
unfolding diadoc_handle_errors kontur_handle_errors sbis_handle_errors
handle_errors_agree t r context = (ground arith, ground arith, ground (arith, json_error t r.json))
