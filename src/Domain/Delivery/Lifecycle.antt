-- ===== src/Domain/Delivery/Lifecycle.antt =====
-- What any sequence of the methods of a delivery keeps, from its creation on.
use edo_adapter_enterprise.Shared.{
  ℕ, suc, ◌+◌, String, true, List, [], ◌∷◌, ◌≡◌, refl, is_some, arith,
}
use edo_adapter_enterprise.Domain.Status.{
  UnifiedDocumentStatus, pending, sending, sent, delivered, signed, rejected, cancelled, failed,
  unknown,
}
use edo_adapter_enterprise.Domain.Delivery.{
  DocumentDelivery, create, mark_sending, mark_sent, mark_delivered, mark_signed, mark_rejected,
  mark_failed, schedule_retry,
}

-- One call of a method, with its arguments and the clock reading.
pub data Call : Type 0 where
  sending_at delivered_at signed_at rejected_at : ℕ → Call
  sent_as : String → ℕ → Call
  failed_with : String → String → ℕ → Call
  retry_at : ℕ → ℕ → Call

unfoldable pub perform : Call → DocumentDelivery → DocumentDelivery
perform (Call.sending_at now) d = mark_sending now d
perform (Call.delivered_at now) d = mark_delivered now d
perform (Call.signed_at now) d = mark_signed now d
perform (Call.rejected_at now) d = mark_rejected now d
perform (Call.sent_as i now) d = mark_sent i now d
perform (Call.failed_with c m now) d = mark_failed c m now d
perform (Call.retry_at next now) d = schedule_retry next now d

unfoldable pub perform_all : List Call → DocumentDelivery → DocumentDelivery
perform_all [] d = d
perform_all (c ∷ rest) d = perform_all rest (perform c d)

-- What each status says of the stamps and of the error. No method gives the statuses CANCELLED and UNKNOWN.
abbrev pub Stamped : UnifiedDocumentStatus → DocumentDelivery → Type 0
Stamped pending d = Unit
Stamped sending d = Unit
Stamped sent d = (is_some d.provider_document_id ≡ true) × (is_some d.sent_at ≡ true)
Stamped delivered d = is_some d.delivered_at ≡ true
Stamped signed d = (is_some d.final_at ≡ true) × (d.signed_at ≡ d.final_at)
Stamped rejected d = (is_some d.final_at ≡ true) × (d.rejected_at ≡ d.final_at)
Stamped cancelled d = ⊥
Stamped failed d =
    (is_some d.final_at ≡ true)
    × (is_some d.last_error_code ≡ true)
    × (is_some d.last_error_message ≡ true)
Stamped unknown d = ⊥

abbrev pub IsConsistent : DocumentDelivery → Type 0
IsConsistent d = Stamped d.unified_status d

perform-IsConsistent : (c : Call) (d : DocumentDelivery) → IsConsistent (perform c d)
unfolding perform mark_sending mark_sent mark_delivered mark_signed mark_rejected mark_failed
    schedule_retry
perform-IsConsistent (Call.sending_at now) d = tt
perform-IsConsistent (Call.delivered_at now) d = refl
perform-IsConsistent (Call.signed_at now) d = (refl, refl)
perform-IsConsistent (Call.rejected_at now) d = (refl, refl)
perform-IsConsistent (Call.sent_as i now) d = (refl, refl)
perform-IsConsistent (Call.failed_with c m now) d = (refl, refl, refl)
perform-IsConsistent (Call.retry_at next now) d = tt

perform_all-IsConsistent :
    (cs : List Call) (d : DocumentDelivery) → IsConsistent d → IsConsistent (perform_all cs d)
unfolding perform_all
perform_all-IsConsistent [] d h = h
perform_all-IsConsistent (c ∷ cs) d h =
    perform_all-IsConsistent cs (perform c d) (perform-IsConsistent c d)

-- Whatever methods are called on a new delivery, in any order: if it is sent, it has its provider
-- identifier and `sent_at`; if delivered, `delivered_at`; if signed or rejected, a `final_at` that is equal
-- to the stamp of that state; if failed, `final_at` and the error's code and message; and it is never
-- cancelled or unknown.
pub lifecycle-IsConsistent :
    (id tenant document account : ℕ) (key : String) (t u : ℕ) (cs : List Call)
    → IsConsistent (perform_all cs (create id tenant document account key t u))
unfolding create
lifecycle-IsConsistent id tenant document account key t u cs =
    perform_all-IsConsistent cs (create id tenant document account key t u) tt

-- How many of the calls schedule a retry.
abbrev retries : List Call → ℕ
retries [] = 0
retries (Call.retry_at _ _ ∷ cs) = suc (retries cs)
retries (_ ∷ cs) = retries cs

-- The retry counter counts the calls of `schedule_retry`, and no call changes who the delivery is
-- for: its identifier, tenant, document, account, idempotency key and creation time.
pub perform_all_counts :
    (cs : List Call) (d : DocumentDelivery)
    → let e = perform_all cs d in
      (e.retry_count ≡ d.retry_count + retries cs)
      × (e.id ≡ d.id)
      × (e.tenant_id ≡ d.tenant_id)
      × (e.document_id ≡ d.document_id)
      × (e.provider_account_id ≡ d.provider_account_id)
      × (e.idempotency_key ≡ d.idempotency_key)
      × (e.created_at ≡ d.created_at)
unfolding perform_all perform mark_sending mark_sent mark_delivered mark_signed mark_rejected
    mark_failed schedule_retry
perform_all_counts [] d = ground arith
perform_all_counts (Call.sending_at now ∷ cs) d =
    ground (arith, perform_all_counts cs (mark_sending now d))
perform_all_counts (Call.delivered_at now ∷ cs) d =
    ground (arith, perform_all_counts cs (mark_delivered now d))
perform_all_counts (Call.signed_at now ∷ cs) d =
    ground (arith, perform_all_counts cs (mark_signed now d))
perform_all_counts (Call.rejected_at now ∷ cs) d =
    ground (arith, perform_all_counts cs (mark_rejected now d))
perform_all_counts (Call.sent_as i now ∷ cs) d =
    ground (arith, perform_all_counts cs (mark_sent i now d))
perform_all_counts (Call.failed_with c m now ∷ cs) d =
    ground (arith, perform_all_counts cs (mark_failed c m now d))
perform_all_counts (Call.retry_at next now ∷ cs) d =
    ground (arith, perform_all_counts cs (schedule_retry next now d))
