-- ===== src/Tasks/SendDocument/Letters.antt =====
-- Dead letters and audit events: which runs write them, and what they say.
use edo_adapter_enterprise.Shared.{
  Bool, true, false, Option, none, some, List, [], ◌∷◌, ◌≡◌, refl, arith, is_some,
}
use edo_adapter_enterprise.Domain.Status
use edo_adapter_enterprise.Domain.Status.{is_failed}
use edo_adapter_enterprise.Domain.Delivery.{DocumentDelivery}
use edo_adapter_enterprise.Domain.DeadLetter.{DlqEntry}
use edo_adapter_enterprise.Domain.Audit
use edo_adapter_enterprise.Database.Rows.{Database}
use edo_adapter_enterprise.Providers.Interface.{
  SendOutcome, accepted, transient, permanent, unexpected,
}
use edo_adapter_enterprise.Tasks.World.{World}
use edo_adapter_enterprise.Tasks.Sending.{Run, try_send}

-- Whether the provider's answer may be different next time.
abbrev is_transient_outcome : SendOutcome → Bool
is_transient_outcome (transient e) = true
is_transient_outcome _ = false

-- After an answer of the provider to a delivery that is being sent, there is a dead letter exactly when the
-- delivery has become FAILED.
pub dead_letter-failed :
    (run : Run) (d : DocumentDelivery) (o : SendOutcome)
    → d.unified_status ≡ Status.sending
    → is_some (try_send run d o).dead_letter ≡ is_failed (try_send run d o).delivery.unified_status
unfolding try_send
dead_letter-failed run d (accepted r) st = refl
dead_letter-failed run d (transient e) st = ground arith
dead_letter-failed run d (permanent e) st = refl
dead_letter-failed run d (unexpected m) st = refl

-- The dead letter of a provider's answer names the delivery, its tenant and its account, gives the error
-- that the delivery carries, is not replayed, and is retryable exactly when the provider's error was
-- transient.
dead_letter_lem :
    (run : Run) (d : DocumentDelivery) (o : SendOutcome) (l : DlqEntry)
    → (try_send run d o).dead_letter ≡ some l
    → (l.delivery_id ≡ some d.id)
      × (l.tenant_id ≡ d.tenant_id)
      × (l.provider_account_id ≡ some d.provider_account_id)
      × (some l.reason_code ≡ (try_send run d o).delivery.last_error_code)
      × (some l.reason_message ≡ (try_send run d o).delivery.last_error_message)
      × (l.retryable ≡ is_transient_outcome o)
      × (l.replayed_at ≡ none)
unfolding try_send
dead_letter_lem run d (accepted r) l h = cc
dead_letter_lem run d (transient e) l h = ground arith
dead_letter_lem run d (permanent e) l h = ground arith
dead_letter_lem run d (unexpected m) l h = ground arith

abbrev pub letters : Option DlqEntry → List DlqEntry
letters none = []
letters (some l) = l ∷ []
