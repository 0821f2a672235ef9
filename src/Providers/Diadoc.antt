-- ===== src/Providers/Diadoc.antt =====
-- src/infrastructure/providers/diadoc/diadoc_provider.py: the provider Diadoc, with the token that an object of it
-- keeps. Times are microseconds.
pub mod Token
use edo_adapter_enterprise.Shared.{
  ℕ, ◌+◌, ◌-◌, String, Bool, true, false, not, ◌&&◌, Option, none, some, List, [], ◌∷◌, concat,
  str_eq, if◌then◌else◌, ltb,
}
use edo_adapter_enterprise.Shared.Results.{type_error}
use edo_adapter_enterprise.Domain.Json
use edo_adapter_enterprise.Domain.Json.{Dict, Json, get}
use edo_adapter_enterprise.Providers.Interface.{
  SentAs, StatusAnswer, IncomingDocumentData, WebhookParseResult,
}
use edo_adapter_enterprise.Providers.Calls.{
  Outside, Texts, str_of, Response, Request, request_to, Call, returned, raised, Raised, fault,
  ◌>>=◌, ◌>>◌, checked, parsed, as_dict, or_json, get_or, healthy, object_of,
}
use edo_adapter_enterprise.Providers.Http.{diadoc_handle_errors}
use edo_adapter_enterprise.Providers.StatusMaps.{diadoc_unified}

-- The object that `__init__` makes: the credentials, and no token yet.
pub record DiadocProvider : Type 0 where
  pub client_id : Json
  pub login : Json
  pub password : Json
  pub box_id : Json
  pub token : Option String
  pub token_expires : ℕ

unfoldable pub init : Json → Json → Json → Json → DiadocProvider
init client_id login password box_id = record {
  client_id = client_id;
  login = login;
  password = password;
  box_id = box_id;
  token = none;
  token_expires = 0;
}

-- An hour, for which a token is kept.
abbrev token_ttl : ℕ
token_ttl = 3_600_000_000

-- `document_type.lower()` and `file_bytes.hex()` are parameters of a call, as the texts that they give.
pub record Letter : Type 0 where
  pub recipient_inn : String
  pub document_type_lower : String
  pub file_name : String
  pub file_bytes_hex : String

-- `_STATUS_MAP.get(raw, "UNKNOWN")` of a value: a list and a dictionary cannot be keys, and another value
-- that is no text is no key of the table.
abbrev pub unified_of : Json → Call String
unified_of (Json.text raw) = returned (diadoc_unified raw)
unified_of (Json.array _) = raised (fault type_error)
unified_of (Json.object _) = raised (fault type_error)
unified_of _ = returned "UNKNOWN"

module _ (t : Texts) where
  abbrev authenticate_request : DiadocProvider → Request
  authenticate_request d = record (request_to "/V2/Authenticate") {
    params = ("type", Json.text "password") ∷ [];
    content = some (concat (str_of t d.login) (concat ":" (str_of t d.password)));
    headers = ("Content-Type", Json.text "application/octet-stream") ∷ [];
  }

  abbrev read_token : Response → Call String
  read_token r = do checked (diadoc_handle_errors t r "auth"); returned r.body_text

  abbrev authorization : String → DiadocProvider → Dict Json
  authorization token d =
      (
        "Authorization",
        Json.text (
            concat "DiadocAuth ddauth_api_client_id="
              (concat (str_of t d.client_id) (concat ",ddauth_token=" token))),
      )
      ∷ []

  abbrev message_request : Letter → String → DiadocProvider → Request
  message_request l token d = record (request_to "/V3/PostMessage") {
    headers = authorization token d;
    json = some (
        object_of (
          ("FromBoxId", d.box_id)
          ∷ ("ToBoxId", Json.text l.recipient_inn)
          ∷ (
            "DocumentAttachments",
            Json.array (
                Json.cons
                  (object_of (
                    ("TypeNamedId", Json.text l.document_type_lower)
                    ∷ ("FileName", Json.text l.file_name)
                    ∷ ("SignedContent", object_of (("Content", Json.text l.file_bytes_hex) ∷ []))
                    ∷ []))
                  Json.nil),
          )
          ∷ []));
  }

  abbrev status_request : String → String → DiadocProvider → Request
  status_request id token d = record (request_to "/V3/GetMessage") {
    headers = authorization token d;
    params = ("boxId", d.box_id) ∷ ("messageId", Json.text id) ∷ [];
  }

  abbrev pub read_sent : Response → Call SentAs
  read_sent r = do
    checked (diadoc_handle_errors t r "send")
    body ← parsed r
    answer ← as_dict body
    returned (record {
      provider_document_id = get_or "MessageId" (Json.text "") answer;
      raw_status = "Sent";
    })

  abbrev pub read_status : String → Response → Call StatusAnswer
  read_status id r = do
    checked (diadoc_handle_errors t r "status")
    body ← parsed r
    answer ← as_dict body
    unified ← unified_of (get_or "MessageType" (Json.text "UnknownStatus") answer)
    returned (record {
      provider_document_id = id;
      unified_status = unified;
      raw_status = get_or "MessageType" (Json.text "UnknownStatus") answer;
      extra = answer;
    })

module _ (t : Texts) (w : Outside) where
  -- The object and the world.
  abbrev pub Object : Type 0
  Object = DiadocProvider × w.State

  -- `self._token and time.time() < self._token_expires`
  unfoldable pub token_in_use : Object → Option String
  token_in_use (d, s) = elim d.token [
    | none ↦ none
    | some k ↦ if not (str_eq k "") && ltb (w.time s) d.token_expires then some k else none
  ]

  abbrev pub stored : Call String → Object → Call String × Object
  stored (returned k) (d, s) =
      (returned k, (record d { token = some k; token_expires = w.time s + token_ttl }, s))
  stored (raised e) p = (raised e, p)

  unfoldable pub authenticate : Object → Call String × Object
  authenticate (d, s) =
      let (answer, s') = w.send (authenticate_request t d) s in
      stored (answer >>= read_token t) (d, s')

  abbrev pub token_or : Option String → Object → Call String × Object
  token_or none p = authenticate p
  token_or (some k) p = (returned k, p)

  -- `_ensure_token`
  unfoldable pub ensure_token : Object → Call String × Object
  ensure_token p = token_or (token_in_use p) p

  -- A request that needs a token.
  abbrev pub asked :
      (String → DiadocProvider → Request) → Call String × Object → Call Response × Object
  asked make (returned k, (d, s)) = let (answer, s') = w.send (make k d) s in (answer, (d, s'))
  asked make (raised e, p) = (raised e, p)

  unfoldable pub ask_with : (String → DiadocProvider → Request) → Object → Call Response × Object
  ask_with make p = asked make (ensure_token p)

  unfoldable pub send_document : Letter → Object → Call SentAs × Object
  send_document l p =
      let (answer, p') = ask_with (message_request t l) p in (answer >>= read_sent t, p')

  unfoldable pub get_document_status : String → Object → Call StatusAnswer × Object
  get_document_status id p =
      let (answer, p') = ask_with (status_request t id) p in (answer >>= read_status t id, p')

  unfoldable pub health_check : w.State → (Bool × ℕ) × w.State
  health_check s =
      let (answer, s') =
        w.send
          (record (request_to "/V2/GetOrganizationsByInnKpp") {
            params = ("inn", Json.text "0000000000") ∷ [];
          })
          s in
      (healthy (w.monotonic s' - w.monotonic s) answer, s')

-- The header is read, and the answer does not depend on it.
unfoldable pub validate_webhook : List ℕ → Dict String → Bool
validate_webhook payload headers = true

unfoldable pub poll_incoming : Option ℕ → ℕ → List IncomingDocumentData
poll_incoming since limit = []

unfoldable pub parse_webhook : Texts → Dict Json → WebhookParseResult
parse_webhook t payload = record {
  external_event_id = get "MessageId" payload;
  provider_document_id = get "MessageId" payload;
  unified_status =
      some (Json.text (diadoc_unified (str_of t (get_or "MessageType" (Json.text "") payload))));
  raw_payload = payload;
}
