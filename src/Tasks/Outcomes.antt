-- ===== src/Tasks/Outcomes.antt =====
-- src/infrastructure/queue/tasks/send_document_task.py and the providers together: how the handlers of the task
-- sort what a provider's `send_document` returns or raises, and what becomes of the delivery then.
use edo_adapter_enterprise.Shared.{
  ℕ, ◌≤◌, ◌≡◌, refl, String, Bool, true, false, ◌||◌, Option, none, some, arith, leb, ltb, ◌==◌,
  if◌then◌else◌, Bool-cases, inl, inr, ◌⊎◌,
}
use edo_adapter_enterprise.Domain.Errors
use edo_adapter_enterprise.Domain.Errors.{DomainError, ErrorClass}
use edo_adapter_enterprise.Domain.Json
use edo_adapter_enterprise.Domain.Status
use edo_adapter_enterprise.Domain.Status.{UnifiedDocumentStatus}
use edo_adapter_enterprise.Domain.Delivery.{DocumentDelivery}
use edo_adapter_enterprise.Domain.DeadLetter.{DlqEntry}
use edo_adapter_enterprise.Reliability.Backoff.{should_retry}
use edo_adapter_enterprise.Providers.Interface.{
  SentAs, SendOutcome, accepted, transient, permanent, unexpected,
}
use edo_adapter_enterprise.Providers.Calls.{
  Call, returned, raised, Raised, domain_error, fault, http_error, Response, Texts,
}
use edo_adapter_enterprise.Providers.Http.{
  diadoc_handle_errors, kontur_handle_errors, sbis_handle_errors, class_of, status_class,
  handle_errors_agree,
}
use edo_adapter_enterprise.Providers.Diadoc
use edo_adapter_enterprise.Providers.Kontur
use edo_adapter_enterprise.Providers.Sbis
use edo_adapter_enterprise.Tasks.Sending.{Run, FitsCalendar, try_send, compute_next_retry-some}

-- The `except` clause that takes an exception of the program: the rate limit is a transient error too.
abbrev handler : ErrorClass → DomainError → SendOutcome
handler Errors.provider_transient e = transient e
handler Errors.provider_rate_limit e = transient e
handler Errors.provider_permanent e = permanent e
handler _ e = unexpected e.message

-- The branch of the `try` statement. `str` is the text of an exception that is none of the program's. A
-- provider's identifier that is no text is refused by the database later on, which is not modelled.
unfoldable pub outcome_of : (Raised → String) → Call SentAs → Option SendOutcome
outcome_of str (returned sent) = elim sent.provider_document_id [
  | Json.text id ↦
      some (accepted (record { provider_document_id = id; raw_status = sent.raw_status }))
  | _ ↦ none
]
outcome_of str (raised (domain_error e)) = some (handler e.error_class e)
outcome_of str (raised e) = some (unexpected (str e))

abbrev is_retryable_letter : Option DlqEntry → Option Bool
is_retryable_letter none = none
is_retryable_letter (some e) = some e.retryable

-- The status of the delivery and whether there is a dead letter, and if so, whether it is retryable.
abbrev pub Ends :
    (Raised → String)
    → Run
    → DocumentDelivery
    → UnifiedDocumentStatus
    → Option Bool
    → Call SentAs
    → Type 0
Ends str run d status letter c =
    (o : SendOutcome) × (outcome_of str c ≡ some o)
    × ((try_send run d o).delivery.unified_status ≡ status)
    × (is_retryable_letter (try_send run d o).dead_letter ≡ letter)

-- The status codes for which a send is tried again.
abbrev is_passing : ℕ → Bool
is_passing code = code == 429 || leb 500 code

passing_class :
    (code : ℕ) (x : DomainError)
    → is_passing code ≡ true
    → some x.error_class ≡ status_class code
    → (x.error_class ≡ Errors.provider_rate_limit) ⊎ (x.error_class ≡ Errors.provider_transient)
passing_class code x passing e = elim (Bool-cases (code == 429)) [
  | inl busy ↦ inl (ground arith)
  | inr other ↦ inr (ground arith)
]

module _ (str : Raised → String) (run : Run) (d : DocumentDelivery) where
  transient-Ends :
      (e : DomainError)
      → run.settings.default_retry_max_attempts ≤ 1024
      → FitsCalendar run
      → ((try_send run d (transient e)).delivery.unified_status
          ≡ (if should_retry run.settings d.retry_count then Status.pending else Status.failed))
        × (is_retryable_letter (try_send run d (transient e)).dead_letter
            ≡ (if should_retry run.settings d.retry_count then none else some true))
  unfolding try_send should_retry
  transient-Ends e small dated =
      elim (Bool-cases (ltb d.retry_count run.settings.default_retry_max_attempts)) [
        | inl left ↦
            let (next, found) = compute_next_retry-some run d.retry_count dated (ground arith) in
            rw (left, found) (refl, refl)
        | inr none_left ↦ rw none_left (refl, refl)
      ]

  permanent-Ends :
      (e : DomainError)
      → ((try_send run d (permanent e)).delivery.unified_status ≡ Status.failed)
        × (is_retryable_letter (try_send run d (permanent e)).dead_letter ≡ some false)
  unfolding try_send
  permanent-Ends e = (refl, refl)

  abbrev pub passing_status : UnifiedDocumentStatus
  passing_status = if should_retry run.settings d.retry_count then Status.pending else Status.failed

  abbrev pub passing_letter : Option Bool
  passing_letter = if should_retry run.settings d.retry_count then none else some true

  passed_on :
      (e : DomainError)
      → run.settings.default_retry_max_attempts ≤ 1024
      → FitsCalendar run
      → (e.error_class ≡ Errors.provider_rate_limit) ⊎ (e.error_class ≡ Errors.provider_transient)
      → Ends str run d passing_status passing_letter (raised (domain_error e))
  unfolding outcome_of
  passed_on e small dated (inl c) =
      (transient e, rw c refl, (transient-Ends e small dated).0, (transient-Ends e small dated).1)
  passed_on e small dated (inr c) =
      (transient e, rw c refl, (transient-Ends e small dated).0, (transient-Ends e small dated).1)

  refused :
      (e : DomainError)
      → e.error_class ≡ Errors.provider_permanent
      → Ends str run d Status.failed (some false) (raised (domain_error e))
  unfolding outcome_of
  refused e c = (permanent e, rw c refl, (permanent-Ends e).0, (permanent-Ends e).1)

  -- What an exception comes to whose class is that of a status code.
  raised-Ends :
      (code : ℕ) (h : Option Raised)
      → run.settings.default_retry_max_attempts ≤ 1024
      → FitsCalendar run
      → 400 ≤ code
      → class_of h ≡ status_class code
      → (e : Raised) × (h ≡ some e)
        × Ends str run d
            (if is_passing code then passing_status else Status.failed)
            (if is_passing code then passing_letter else some false)
            (raised e)
  raised-Ends code none small dated bad e = absurd (ground arith)
  raised-Ends code (some (fault f)) small dated bad e = absurd (ground arith)
  raised-Ends code (some http_error) small dated bad e = absurd (ground arith)
  raised-Ends code (some (domain_error x)) small dated bad e = elim (Bool-cases (is_passing code)) [
    | inl yes_passing ↦
        rw yes_passing
          (domain_error x, refl, passed_on x small dated (passing_class code x yes_passing e))
    | inr failing ↦ rw failing (domain_error x, refl, refused x (ground arith))
  ]

  -- Diadoc, Kontur and SBIS alike: when the answer to a document has a status of 429 or from 500 on, the
  -- delivery waits for a retry with no dead letter while retries are left, and is FAILED with a
  -- retryable dead letter when none are; with another status from 400 on it is FAILED with a dead letter
  -- that is not retryable. (At most 1024 attempts are configured, the random number is between 0 and its bound, and
  -- the longest delay does not lead past the last date of Python, so that the backoff is a time.)
  pub bad_answer-Ends :
      (t : Texts) (r : Response)
      → run.settings.default_retry_max_attempts ≤ 1024
      → FitsCalendar run
      → 400 ≤ r.status_code
      → let Judged =
          Ends str run d
            (if is_passing r.status_code then passing_status else Status.failed)
            (if is_passing r.status_code then passing_letter else some false) in
        Judged (Diadoc.read_sent t r) × Judged (Kontur.read_sent t r) × Judged (Sbis.read_sent t r)
  bad_answer-Ends t r small dated bad =
      let (on_diadoc, on_kontur, on_sbis) = handle_errors_agree t r "send" in
      let (e, raises, ends) =
        raised-Ends r.status_code (diadoc_handle_errors t r "send") small dated bad on_diadoc in
      let (e', raises', ends') =
        raised-Ends r.status_code (kontur_handle_errors t r "send") small dated bad on_kontur in
      let (e'', raises'', ends'') =
        raised-Ends r.status_code (sbis_handle_errors t r "send") small dated bad
          (ground (arith, on_sbis)) in
      (rw raises ends, rw raises' ends', rw raises'' ends'')
