-- ===== src/Api/Webhooks.antt =====
-- src/presentation/api/v1/webhooks.py: the endpoints that take webhooks of Diadoc, SBIS and Kontur, which are one
-- and the same: the webhook is queued for the task `process_webhook`. A text in base 64 is its code points.
use edo_adapter_enterprise.Shared.{ℕ, String, List}
use edo_adapter_enterprise.Shared.Base64.{b64encode}
use edo_adapter_enterprise.Domain.Json.{Dict}

-- The arguments of `process_webhook`.
pub record WebhookCall : Type 0 where
  pub account_id : ℕ
  pub headers : Dict String
  pub body_b64 : List ℕ

-- `_dispatch_webhook`: the call that is sent; the answer is always 202 with the status "queued".
unfoldable pub dispatch_webhook : Dict String → List ℕ → ℕ → WebhookCall
dispatch_webhook headers body account_id = record {
  account_id = account_id;
  headers = headers;
  body_b64 = b64encode body;
}

unfoldable diadoc_webhook : Dict String → List ℕ → ℕ → WebhookCall
diadoc_webhook headers body account_id = dispatch_webhook headers body account_id

unfoldable sbis_webhook : Dict String → List ℕ → ℕ → WebhookCall
sbis_webhook headers body account_id = dispatch_webhook headers body account_id

unfoldable kontur_webhook : Dict String → List ℕ → ℕ → WebhookCall
kontur_webhook headers body account_id = dispatch_webhook headers body account_id
