-- ===== src/Providers/Kontur.antt =====
-- src/infrastructure/providers/kontur_edo/kontur_provider.py: the provider Kontur.EDO, whose key goes with every
-- request. `fromisoformat` is Python's reading of a time.
pub mod Incoming
use edo_adapter_enterprise.Shared.{
  ℕ, ◌-◌, String, Bool, true, Option, none, some, List, [], ◌∷◌, concat, str_eq, if◌then◌else◌,
}
use edo_adapter_enterprise.Shared.Results.{value_error, type_error, attribute_error}
use edo_adapter_enterprise.Domain.Json
use edo_adapter_enterprise.Domain.Json.{Dict, Json, Items, get}
use edo_adapter_enterprise.Providers.Interface.{
  SentAs, StatusAnswer, IncomingDocumentData, WebhookParseResult,
}
use edo_adapter_enterprise.Providers.Calls.{
  Outside, Texts, str_of, Response, Request, request_to, Call, returned, raised, fault, ◌>>=◌, ◌>>◌,
  checked, parsed, as_dict, get_or, subscript, healthy, object_of,
}
use edo_adapter_enterprise.Providers.Http.{kontur_handle_errors}
use edo_adapter_enterprise.Providers.StatusMaps.{kontur_unified}

pub record KonturEdoProvider : Type 0 where
  pub api_key : Json
  pub box_id : Json

pub record Letter : Type 0 where
  pub recipient_inn : String
  pub recipient_kpp : Option String
  pub document_type : String
  pub title : String
  pub file_name : String

abbrev text_or_null : Option String → Json
text_or_null none = Json.null
text_or_null (some s) = Json.text s

abbrev items_of : Items → List Json
items_of Json.nil = []
items_of (Json.cons x rest) = x ∷ items_of rest

-- The elements that a `for` over a value goes through. The characters of a text and the keys of a
-- dictionary are texts, whose subscript by "documentId" is an error of Python.
abbrev elements : Json → Call (List Json)
elements (Json.array xs) = returned (items_of xs)
elements (Json.text s) = if str_eq s "" then returned [] else raised (fault type_error)
elements (Json.object Json.end) = returned []
elements _ = raised (fault type_error)

-- A list comprehension whose body may raise.
abbrev pub each {ℓ κ} : {A : Type ℓ} {B : Type κ} → (A → Call B) → List A → Call (List B)
each f [] = returned []
each f (x ∷ xs) = let rest = each f xs in f x >>= λ y. rest >>= λ ys. returned (y ∷ ys)

module _ (t : Texts) where
  abbrev bearer : KonturEdoProvider → Dict Json
  bearer k = ("Authorization", Json.text (concat "Bearer " (str_of t k.api_key))) ∷ []

  abbrev document_request : KonturEdoProvider → Letter → Request
  document_request k l = record (request_to "/v1/documents") {
    headers = bearer k;
    json = some (
        object_of (
          ("boxId", k.box_id)
          ∷ ("recipientInn", Json.text l.recipient_inn)
          ∷ ("recipientKpp", text_or_null l.recipient_kpp)
          ∷ ("documentType", Json.text l.document_type)
          ∷ ("title", Json.text l.title)
          ∷ ("fileName", Json.text l.file_name)
          ∷ []));
  }

  abbrev pub read_sent : Response → Call SentAs
  read_sent r = do
    checked (kontur_handle_errors t r "send")
    body ← parsed r
    answer ← as_dict body
    returned (record {
      provider_document_id = get_or "documentId" (Json.text "") answer;
      raw_status = "sent";
    })

  -- `_STATUS_MAP.get(value.lower(), "UNKNOWN")`
  abbrev pub unified_of : Json → Call String
  unified_of (Json.text raw) = returned (kontur_unified t.lower raw)
  unified_of _ = raised (fault attribute_error)

  abbrev pub read_status : String → Response → Call StatusAnswer
  read_status id r = do
    checked (kontur_handle_errors t r "status")
    body ← parsed r
    answer ← as_dict body
    unified ← unified_of (get_or "status" (Json.text "") answer)
    returned (record {
      provider_document_id = id;
      unified_status = unified;
      raw_status = get_or "status" (Json.text "") answer;
      extra = [];
    })

  abbrev instant : (String → Option ℕ) → Json → Call ℕ
  instant fromisoformat (Json.text s) = elim (fromisoformat s) [
    | none ↦ raised (fault value_error)
    | some n ↦ returned n
  ]
  instant fromisoformat _ = raised (fault type_error)

  -- The document of an item, its values read in the order of the code.
  unfoldable pub incoming_of : (String → Option ℕ) → Json → Call IncomingDocumentData
  incoming_of fromisoformat item = do
    id ← subscript "documentId" item
    fields ← as_dict item
    unified ← unified_of (get_or "status" (Json.text "") fields)
    received ← subscript "receivedAt" item
    received_at ← instant fromisoformat received
    returned (record {
      provider_document_id = id;
      document_type = get_or "documentType" (Json.text "UNKNOWN") fields;
      sender_inn = get_or "senderInn" (Json.text "") fields;
      sender_name = get "senderName" fields;
      file_name = get_or "fileName" (Json.text "") fields;
      mime_type = get_or "mimeType" (Json.text "application/octet-stream") fields;
      unified_status = unified;
      metadata = get_or "metadata" (object_of []) fields;
      received_at = received_at;
    })

  abbrev pub read_items : Response → Call (List Json)
  read_items r = do
    checked (kontur_handle_errors t r "poll")
    body ← parsed r
    answer ← as_dict body
    elements (get_or "items" (Json.array Json.nil) answer)

  abbrev since_param : Option String → Dict Json
  since_param none = []
  since_param (some s) = ("since", Json.text s) ∷ []

  abbrev pub poll_request : KonturEdoProvider → Option String → ℕ → Request
  poll_request k since limit = record (request_to "/v1/incoming") {
    headers = bearer k;
    params = ("boxId", k.box_id) ∷ ("limit", Json.number limit) ∷ since_param since;
  }

  abbrev pub status_request : KonturEdoProvider → String → Request
  status_request k id = record (request_to (concat "/v1/documents/" id)) { headers = bearer k }

  module _ (w : Outside) (k : KonturEdoProvider) where
    unfoldable pub send_document : Letter → w.State → Call SentAs × w.State
    send_document l s =
        let (answer, s') = w.send (document_request k l) s in (answer >>= read_sent, s')

    unfoldable pub get_document_status : String → w.State → Call StatusAnswer × w.State
    get_document_status id s =
        let (answer, s') = w.send (status_request k id) s in (answer >>= read_status id, s')

    -- `since` is the text of a time, if one is given.
    unfoldable pub poll_incoming :
        (String → Option ℕ)
        → Option String
        → ℕ
        → w.State
        → Call (List IncomingDocumentData) × w.State
    poll_incoming fromisoformat since limit s =
        let (answer, s') = w.send (poll_request k since limit) s in
        (answer >>= read_items >>= each (incoming_of fromisoformat), s')

    unfoldable pub health_check : w.State → (Bool × ℕ) × w.State
    health_check s =
        let (answer, s') = w.send (record (request_to "/v1/ping") { headers = bearer k }) s in
        (healthy (w.monotonic s' - w.monotonic s) answer, s')

  unfoldable pub parse_webhook : Dict Json → WebhookParseResult
  parse_webhook payload = record {
    external_event_id = get "eventId" payload;
    provider_document_id = get "documentId" payload;
    unified_status =
        some
          (Json.text (kontur_unified t.lower (str_of t (get_or "status" (Json.text "") payload))));
    raw_payload = payload;
  }

unfoldable pub validate_webhook : List ℕ → Dict String → Bool
validate_webhook payload headers = true
