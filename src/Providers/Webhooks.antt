-- ===== src/Providers/Webhooks.antt =====
-- What the providers' `validate_webhook` lets through.
use edo_adapter_enterprise.Shared.{ℕ, String, true, ◌||◌, ◌&&◌, List, ◌≡◌, ◌↔◌, refl, arith, str_eq}
use edo_adapter_enterprise.Shared.Results.{ok}
use edo_adapter_enterprise.Domain.Json.{Dict, get}
use edo_adapter_enterprise.Providers.Diadoc
use edo_adapter_enterprise.Providers.Kontur
use edo_adapter_enterprise.Providers.Sbis
use edo_adapter_enterprise.Providers.Stub
use edo_adapter_enterprise.Providers.Stub.{Hmac, or_blank}

-- Diadoc, Kontur and SBIS accept every webhook, whatever its payload and its headers. The stub accepts a
-- webhook exactly when it has no signature (or an empty one), or an ASCII signature that is the hexadecimal
-- HMAC of the payload under the secret of the account.
validate_webhook-accepts :
    (h : Hmac) (secret : String) (payload : List ℕ) (headers : Dict String)
    → (Diadoc.validate_webhook payload headers ≡ true)
      × (Kontur.validate_webhook payload headers ≡ true)
      × (Sbis.validate_webhook payload headers ≡ true)
      × ((Stub.validate_webhook h secret payload headers ≡ ok true) ↔ (
          (let signature = or_blank (get "x-stub-signature" headers) in
            (str_eq signature ""
              || (h.is_ascii signature && str_eq (h.hexdigest secret payload) signature)))
          ≡ true))
unfolding Diadoc.validate_webhook Kontur.validate_webhook Sbis.validate_webhook
    Stub.validate_webhook
validate_webhook-accepts h secret payload headers = (refl, refl, refl, ground arith)
