-- ===== src/Api/Documents/Retry.antt =====
-- src/presentation/api/v1/documents.py: the endpoint that sends failed deliveries again.
use edo_adapter_enterprise.Shared.{
  ℕ, String, Bool, true, false, not, ◌&&◌, none, some, List, [], ◌∷◌, ◌++◌, map, filter,
  if◌then◌else◌, ◌≡◌, refl, arith, Bool-cases, inl, inr, ap, ◌∙◌, sym, subst, All,
}
use mathlib.Core.List.{append_assoc, append-nil}
use edo_adapter_enterprise.Shared.Comprehensions.{All-filter}
use edo_adapter_enterprise.Shared.Results.{ok}
use edo_adapter_enterprise.Domain.Status
use edo_adapter_enterprise.Domain.Status.{is_failed, is_terminal}
use edo_adapter_enterprise.Domain.Delivery.{DocumentDelivery, is_final}
use edo_adapter_enterprise.Database.Deliveries
use edo_adapter_enterprise.Tasks.World.{SendCall}
use edo_adapter_enterprise.Api.Sessions.{Answer, returned, http_exception, Session, reading}

abbrev pub failed_of : List DocumentDelivery → List DocumentDelivery
failed_of ds = filter (λ d. is_failed d.unified_status) ds

-- What the endpoint makes of a delivery, and the call that it sends for it.
abbrev pub reset : DocumentDelivery → DocumentDelivery
reset d = record d { unified_status = Status.pending; next_retry_at = none }

abbrev empty_call : DocumentDelivery → SendCall
empty_call d = record { delivery_id = some d.id; file_bytes_hex = [] }

-- The body of the loop.
unfoldable pub retry_one : Bool → DocumentDelivery → Session → Session
retry_one force d s =
    if is_final d && not force
    then s
    else record { db = Deliveries.update (reset d) s.db; sent = s.sent ++ empty_call d ∷ [] }

unfoldable pub retry_each : Bool → List DocumentDelivery → Session → Session
retry_each force [] s = s
retry_each force (d ∷ ds) s = retry_each force ds (retry_one force d s)

-- `if not failed` and the loop. The text is the value of the response's key `status`.
unfoldable pub retry_failed : Bool → Session → List DocumentDelivery → Answer String × Session
retry_failed force s [] = (http_exception 404 "No failed deliveries found", s)
retry_failed force s (d ∷ ds) = (returned "retry_dispatched", retry_each force (d ∷ ds) s)

unfoldable pub retry_document : ℕ → Bool → Session → Answer String × Session
retry_document document_id force s =
    reading (Deliveries.list_by_document document_id s.db) s
      (λ ds. retry_failed force s (failed_of ds))

is_final-failed : (d : DocumentDelivery) → is_failed d.unified_status ≡ true → is_final d ≡ true
unfolding is_terminal
is_final-failed d h = ground arith

retry_each-unforced :
    (ds : List DocumentDelivery) (s : Session)
    → All (λ d. is_failed d.unified_status ≡ true) ds
    → retry_each false ds s ≡ s
unfolding retry_each retry_one
retry_each-unforced [] s h = refl
retry_each-unforced (d ∷ ds) s h = simp (is_final-failed d h.0) (retry_each-unforced ds s h.1)

retry_one-forced :
    (d : DocumentDelivery) (s : Session) → (retry_one true d s).sent ≡ s.sent ++ empty_call d ∷ []
unfolding retry_one
retry_one-forced d s = elim (Bool-cases (is_final d)) [ inl e ↦ rw e refl | inr e ↦ rw e refl ]

retry_each-forced :
    (ds : List DocumentDelivery) (s : Session)
    → (retry_each true ds s).sent ≡ s.sent ++ map empty_call ds
unfolding retry_each
retry_each-forced [] s = sym (append-nil s.sent)
retry_each-forced (d ∷ ds) s =
    retry_each-forced ds (retry_one true d s)
    ∙ ap (λ l. l ++ map empty_call ds) (retry_one-forced d s)
    ∙ append_assoc s.sent (empty_call d ∷ []) (map empty_call ds)

retry_failed-forced :
    (s : Session) (ds : List DocumentDelivery)
    → (retry_failed true s ds).1.sent ≡ s.sent ++ map empty_call ds
unfolding retry_failed
retry_failed-forced s [] = sym (append-nil s.sent)
retry_failed-forced s (d ∷ ds) = retry_each-forced (d ∷ ds) s

-- Without `force`, a request to retry answers that the retry was dispatched, if a delivery of the document
-- has failed, and yet changes nothing and sends nothing.
pub retry_document-unforced :
    (document_id : ℕ) (s : Session) (ds rest : List DocumentDelivery) (d : DocumentDelivery)
    → Deliveries.list_by_document document_id s.db ≡ ok ds
    → failed_of ds ≡ d ∷ rest
    → retry_document document_id false s ≡ (returned "retry_dispatched", s)
unfolding retry_document retry_failed
retry_document-unforced document_id s ds rest d listed failed =
    let all : All (λ d. is_failed d.unified_status ≡ true) (d ∷ rest) =
      subst (λ l. All (λ d. is_failed d.unified_status ≡ true) l) failed
        (All-filter (λ d. is_failed d.unified_status) ds) in
    rw listed (rw failed (rw (retry_each-unforced (d ∷ rest) s all) refl))

-- With `force`, one call is sent for each failed delivery of the document, in their order, each with an
-- empty file.
retry_document-forced :
    (document_id : ℕ) (s : Session) (ds : List DocumentDelivery)
    → Deliveries.list_by_document document_id s.db ≡ ok ds
    → (retry_document document_id true s).1.sent ≡ s.sent ++ map empty_call (failed_of ds)
unfolding retry_document
retry_document-forced document_id s ds listed = rw listed (retry_failed-forced s (failed_of ds))
