-- ===== src/Providers/Sbis.antt =====
-- src/infrastructure/providers/sbis/sbis_provider.py: the provider SBIS, with the session that an object of it keeps.
pub mod Session
use edo_adapter_enterprise.Shared.{
  ℕ, ◌-◌, String, Bool, true, Option, none, some, List, [], ◌∷◌, if◌then◌else◌,
}
use edo_adapter_enterprise.Domain.Json
use edo_adapter_enterprise.Domain.Json.{Dict, Json, get}
use edo_adapter_enterprise.Providers.Interface.{
  SentAs, StatusAnswer, IncomingDocumentData, WebhookParseResult,
}
use edo_adapter_enterprise.Providers.Calls.{
  Outside, Texts, str_of, is_true, Response, Request, request_to, Call, returned, raised, ◌>>=◌,
  ◌>>◌, checked, parsed, as_dict, get_or, subscript, healthy, object_of,
}
use edo_adapter_enterprise.Providers.Http.{sbis_handle_errors}
use edo_adapter_enterprise.Providers.StatusMaps.{sbis_unified}

-- The object that `__init__` makes: the credentials, and no session yet. The session is whatever the key
-- "result" of the answer has.
pub record SbisProvider : Type 0 where
  pub login : Json
  pub password : Json
  pub reg_id : Json
  pub sid : Option Json

unfoldable pub init : Json → Json → Json → SbisProvider
init login password reg_id = record {
  login = login;
  password = password;
  reg_id = reg_id;
  sid = none;
}

pub record Letter : Type 0 where
  pub document_type : String
  pub title : String
  pub file_name : String

-- A call of JSON-RPC.
abbrev rpc : String → Json → ℕ → Json
rpc method params id = object_of (
    ("jsonrpc", Json.text "2.0")
    ∷ ("method", Json.text method)
    ∷ ("params", params)
    ∷ ("id", Json.number id)
    ∷ [])

abbrev auth_request : SbisProvider → Request
auth_request p = record (request_to "/auth/service/") {
  json = some (
      rpc "СБИС.Аутентифицировать"
        (object_of
          (("Параметры", object_of (("Логин", p.login) ∷ ("Пароль", p.password) ∷ [])) ∷ []))
        1);
}

abbrev session_header : Json → Dict Json
session_header sid = ("X-SBISSessionID", sid) ∷ []

abbrev pub write_request : Letter → Json → SbisProvider → Request
write_request l sid p = record (request_to "/service/") {
  headers = session_header sid;
  json = some (
      rpc "СБИС.ЗаписатьДокумент"
        (object_of (
          (
            "Документ",
            object_of (
                ("НашОрг", object_of (("РегНомер", p.reg_id) ∷ []))
                ∷ ("Тип", Json.text l.document_type)
                ∷ ("Название", Json.text l.title)
                ∷ ("ИдФайла", Json.text l.file_name)
                ∷ []),
          )
          ∷ []))
        2);
}

abbrev pub read_request : String → Json → SbisProvider → Request
read_request id sid p = record (request_to "/service/") {
  headers = session_header sid;
  json = some (
      rpc "СБИС.ПрочитатьДокумент"
        (object_of (("Документ", object_of (("Ид", Json.text id) ∷ [])) ∷ [])) 3);
}

module _ (t : Texts) where
  abbrev read_session : Response → Call Json
  read_session r = do
    checked (sbis_handle_errors t r "auth")
    body ← parsed r
    subscript "result" body

  -- `str(response.json().get("result", {}).get(key, ""))`
  abbrev result_text : String → Response → Call String
  result_text k r = do
    body ← parsed r
    answer ← as_dict body
    result ← as_dict (get_or "result" (object_of []) answer)
    returned (str_of t (get_or k (Json.text "") result))

  abbrev pub read_sent : Response → Call SentAs
  read_sent r = do
    checked (sbis_handle_errors t r "send")
    id ← result_text "Ид" r
    returned (record { provider_document_id = Json.text id; raw_status = "Отправлен" })

  abbrev pub read_status : String → Response → Call StatusAnswer
  read_status id r = do
    checked (sbis_handle_errors t r "status")
    raw ← result_text "Состояние" r
    returned (record {
      provider_document_id = id;
      unified_status = sbis_unified raw;
      raw_status = Json.text raw;
      extra = [];
    })

module _ (t : Texts) (w : Outside) where
  -- The object and the world.
  abbrev pub Object : Type 0
  Object = SbisProvider × w.State

  abbrev if_true : Option Json → Option Json
  if_true none = none
  if_true (some sid) = if is_true sid then some sid else none

  -- `if self._sid`
  unfoldable pub session_in_use : Object → Option Json
  session_in_use p = if_true p.0.sid

  abbrev pub stored : Call Json → Object → Call Json × Object
  stored (returned sid) (p, s) = (returned sid, (record p { sid = some sid }, s))
  stored (raised e) p = (raised e, p)

  unfoldable pub authenticate : Object → Call Json × Object
  authenticate (p, s) =
      let (answer, s') = w.send (auth_request p) s in stored (answer >>= read_session t) (p, s')

  abbrev session_or : Option Json → Object → Call Json × Object
  session_or none p = authenticate p
  session_or (some sid) p = (returned sid, p)

  -- `_ensure_session`
  unfoldable pub ensure_session : Object → Call Json × Object
  ensure_session p = session_or (session_in_use p) p

  -- A request that needs a session.
  abbrev pub asked : (Json → SbisProvider → Request) → Call Json × Object → Call Response × Object
  asked make (returned sid, (p, s)) = let (answer, s') = w.send (make sid p) s in (answer, (p, s'))
  asked make (raised e, p) = (raised e, p)

  unfoldable pub ask_with : (Json → SbisProvider → Request) → Object → Call Response × Object
  ask_with make p = asked make (ensure_session p)

  unfoldable pub send_document : Letter → Object → Call SentAs × Object
  send_document l p =
      let (answer, p') = ask_with (write_request l) p in (answer >>= read_sent t, p')

  unfoldable pub get_document_status : String → Object → Call StatusAnswer × Object
  get_document_status id p =
      let (answer, p') = ask_with (read_request id) p in (answer >>= read_status t id, p')

  unfoldable pub health_check : w.State → (Bool × ℕ) × w.State
  health_check s =
      let (answer, s') = w.send (request_to "/") s in
      (healthy (w.monotonic s' - w.monotonic s) answer, s')

unfoldable pub validate_webhook : List ℕ → Dict String → Bool
validate_webhook payload headers = true

unfoldable pub poll_incoming : Option ℕ → ℕ → List IncomingDocumentData
poll_incoming since limit = []

unfoldable pub parse_webhook : Texts → Dict Json → WebhookParseResult
parse_webhook t payload = record {
  external_event_id = get "Ид" payload;
  provider_document_id = get "ИдДокумент" payload;
  unified_status =
      some (Json.text (sbis_unified (str_of t (get_or "Состояние" (Json.text "") payload))));
  raw_payload = payload;
}
