-- ===== src/Providers/Stub.antt =====
-- src/infrastructure/providers/stub/stub_provider.py: the provider for development. Its two module-level
-- dictionaries are a record that is passed on; times are microseconds, and `token` is the text that
-- `uuid.uuid4().hex[:16].upper()` gives.
pub mod Progress
use edo_adapter_enterprise.Shared.{
  ℕ, zero, suc, ◌+◌, ◌*◌, ◌-◌, ◌/◌, min, String, Bool, true, not, Option, none, some, List, [], ◌∷◌,
  if◌then◌else◌, ltb, concat, str_eq,
}
use edo_adapter_enterprise.Shared.Results.{Result, ok, err, type_error}
use edo_adapter_enterprise.Domain.Json
use edo_adapter_enterprise.Domain.Json.{Dict, Json, get, set, number, text}
use edo_adapter_enterprise.Providers.Interface.{
  SendResult, StatusResult, IncomingDocumentData, WebhookParseResult,
}

pub record StubDocument : Type 0 where
  pub sender_inn : String
  pub recipient_inn : String
  pub document_type : String
  pub title : String
  pub file_name : String
  pub mime_type : String
  pub status : String

pub record Store : Type 0 where
  pub documents : Dict StubDocument
  pub sent_at : Dict ℕ

abbrev pub document_id : String → String
document_id token = concat "STUB-" token

unfoldable pub send_document :
    String → ℕ → String → String → String → String → String → String → Store → SendResult × Store
send_document token now sender recipient type title file mime store = (
  record { provider_document_id = document_id token; raw_status = "SENT" },
  record {
    documents =
        set (document_id token)
          (record {
            sender_inn = sender;
            recipient_inn = recipient;
            document_type = type;
            title = title;
            file_name = file;
            mime_type = mime;
            status = "SENT";
          })
          (Store.documents store);
    sent_at = set (document_id token) now (Store.sent_at store);
  },
)

-- The status by the age, and by the delay in seconds after which a document is signed.
unfoldable pub aged : ℕ → ℕ → String
aged delay age =
    if ltb (delay * 1000000) age
    then "SIGNED"
    else (if ltb (delay * 1000000) (2 * age) then "DELIVERED" else "SENT")

abbrev pub or_now : ℕ → Option ℕ → ℕ
or_now now none = now
or_now now (some t) = t

abbrev pub found : ℕ → ℕ → String → Store → Option StubDocument → StatusResult × Store
found delay now id store none = (
  record {
    provider_document_id = id;
    unified_status = "UNKNOWN";
    raw_status = "not_found";
    extra = [];
  },
  store,
)
found delay now id store (some doc) =
    let age = now - or_now now (get id (Store.sent_at store)) in
    (
      record {
        provider_document_id = id;
        unified_status = aged delay age;
        raw_status = aged delay age;
        extra = ("age_seconds", number age) ∷ [];
      },
      record store {
        documents = set id (record doc { status = aged delay age }) (Store.documents store);
      },
    )

unfoldable pub get_document_status : ℕ → ℕ → String → Store → StatusResult × Store
get_document_status delay now id store = found delay now id store (get id (Store.documents store))

-- `limit` of the three documents that the stub makes up, from the index `i` on. `token` and `clock` give the
-- identifier and the time that each turn of the loop asks for, and `str` is the text of a number.
unfoldable pub made_up : (ℕ → String) → (ℕ → ℕ) → (ℕ → String) → ℕ → ℕ → List IncomingDocumentData
made_up token clock str i zero = []
made_up token clock str i (suc n) =
    record {
      provider_document_id = text (concat "STUB-IN-" (token i));
      document_type = text "INVOICE";
      sender_inn = text "7707083893";
      sender_name = some (text "ООО Ромашка");
      file_name = text (concat "invoice_" (concat (str (i + 1)) ".xml"));
      mime_type = text "application/xml";
      unified_status = "DELIVERED";
      metadata =
          Json.object (Json.field "stub" (Json.flag true) (Json.field "index" (number i) Json.end));
      received_at = clock i - i * 300_000_000;
    }
    ∷ made_up token clock str (i + 1) n

unfoldable pub poll_incoming :
    (ℕ → String) → (ℕ → ℕ) → (ℕ → String) → Option ℕ → ℕ → List IncomingDocumentData
poll_incoming token clock str since limit = made_up token clock str 0 (min 3 limit)

-- What the standard library computes: `hmac.new(secret, payload, sha256).hexdigest()`, and whether a text is
-- ASCII, without which `hmac.compare_digest` raises.
pub record Hmac : Type 0 where
  pub hexdigest : String → List ℕ → String
  pub is_ascii : String → Bool

-- `headers.get(key, "")`
abbrev pub or_blank : Option String → String
or_blank none = ""
or_blank (some v) = v

-- `secret` is the credential of the stub; `headers` has the names as they are looked up.
unfoldable pub validate_webhook : Hmac → String → List ℕ → Dict String → Result Bool
validate_webhook h secret payload headers =
    let signature = or_blank (get "x-stub-signature" headers) in
    if str_eq signature ""
    then ok true
    else if not (h.is_ascii signature)
    then err type_error
    else ok (str_eq (h.hexdigest secret payload) signature)

unfoldable pub parse_webhook : Dict Json → WebhookParseResult
parse_webhook payload = record {
  external_event_id = get "event_id" payload;
  provider_document_id = get "document_id" payload;
  unified_status = get "status" payload;
  raw_payload = payload;
}

-- `latency` is slept between the two readings of the clock, in microseconds.
unfoldable pub health_check : ℕ → ℕ → Bool × ℕ
health_check started ended = (true, (ended - started) / 1000)
