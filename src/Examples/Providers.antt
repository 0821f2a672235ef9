-- ===== src/Examples/Providers.antt =====
-- The providers on concrete answers.
use edo_adapter_enterprise.Providers.StatusMaps.{kontur_unified}
use edo_adapter_enterprise.Providers.Diadoc.{
  ask_with, ensure_token, get_document_status, token_in_use,
}
use edo_adapter_enterprise.Shared.{ℕ, ◌+◌, ◌≡◌, refl, [], ◌∷◌, none, some, All, length, List, arith}
use edo_adapter_enterprise.Domain.Json
use edo_adapter_enterprise.Domain.Json.{Json, get, text}
use edo_adapter_enterprise.Providers.Interface.{IncomingDocumentData}
use edo_adapter_enterprise.Providers.Calls.{Response, Outside, returned, object_of}
use edo_adapter_enterprise.Providers.Http.{kontur_handle_errors}
use edo_adapter_enterprise.Providers.Diadoc.{DiadocProvider}
use edo_adapter_enterprise.Providers.Diadoc.Token.{calls, asks, calls-token}
use edo_adapter_enterprise.Providers.Kontur.{
  KonturEdoProvider, poll_incoming, poll_request, read_items, incoming_of,
}
use edo_adapter_enterprise.Providers.Kontur.Incoming.{
  IsComplete, HasKnownStatus, poll_incoming-documents,
}
use edo_adapter_enterprise.Examples.Fixtures.{texts}

-- A server whose clock goes on by one second with each request, and that gives one answer.
abbrev answering : Json → Outside
answering j = record {
  State = ℕ;
  time = λ s. s;
  monotonic = λ s. s;
  send = λ r s.
      (returned (record { status_code = 200; body_text = "new"; json = some j }), s + 1_000_000);
}

abbrev logged_in : DiadocProvider
logged_in = record {
  client_id = text "c";
  login = text "l";
  password = text "p";
  box_id = text "b";
  token = some "old";
  token_expires = 3_600_000_000;
}

calls-token_example :
    (calls texts (answering (object_of [])) (asks "m" ∷ asks "n" ∷ []) (logged_in, 5)).0 ≡ logged_in
unfolding calls get_document_status ask_with ensure_token token_in_use
calls-token_example =
    calls-token texts (answering (object_of [])) (λ r s. omega arith) (asks "m" ∷ asks "n" ∷ [])
      (logged_in, 5) "old" refl (λ e. cc) (omega arith)

abbrev item : Json
item = object_of (
    ("documentId", text "d-1")
    ∷ ("receivedAt", text "2025-01-01T00:00:00")
    ∷ ("status", text "signed")
    ∷ [])

abbrev kontur_answer : Json
kontur_answer = object_of (("items", Json.array (Json.cons item Json.nil)) ∷ [])

abbrev kontur : KonturEdoProvider
kontur = record { api_key = text "k"; box_id = text "b" }

abbrev incoming : List IncomingDocumentData
incoming =
    record {
      provider_document_id = text "d-1";
      document_type = text "UNKNOWN";
      sender_inn = text "";
      sender_name = none;
      file_name = text "";
      mime_type = text "application/octet-stream";
      unified_status = "SIGNED";
      metadata = object_of [];
      received_at = 77;
    }
    ∷ []

poll_incoming-documents_example :
    (r : Response) × (items : List Json) × ((answering kontur_answer).send
        (poll_request texts kontur none 10)
        5
      ≡ (returned r, 1_000_005))
    × (read_items texts r ≡ returned items)
    × All (IsComplete) items
    × All HasKnownStatus incoming
    × (length incoming ≡ length items)
unfolding poll_incoming incoming_of kontur_handle_errors kontur_unified
poll_incoming-documents_example =
    poll_incoming-documents texts (λ s. some 77) (answering kontur_answer) kontur none 10 5
      1_000_005 incoming refl
