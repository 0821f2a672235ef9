-- ===== src/Examples/Background.antt =====
-- The tasks that process webhooks and clean up, and the answers of providers, on concrete inputs.
use edo_adapter_enterprise.Database.Rows.{provider_to_model}
use edo_adapter_enterprise.Shared.{
  ℕ, suc, ◌<◌, ◌≡◌, ◌⊎◌, String, List, [], ◌∷◌, none, some, arith, ◌==◌, if◌then◌else◌,
}
use edo_adapter_enterprise.Shared.Results.{attribute_error}
use edo_adapter_enterprise.Core.Config.{defaults}
use edo_adapter_enterprise.Providers.Calls.{Response, Raised}
use edo_adapter_enterprise.Providers.Diadoc
use edo_adapter_enterprise.Providers.Kontur
use edo_adapter_enterprise.Providers.Sbis
use edo_adapter_enterprise.Api.Webhooks.{dispatch_webhook}
use edo_adapter_enterprise.Tasks.Outcomes.{Ends, passing_status, passing_letter, bad_answer-Ends}
use edo_adapter_enterprise.Tasks.ProcessWebhook.{runs, gave_up, webhook_never_processed}
use edo_adapter_enterprise.Tasks.Cleanup.{cleanup, NotBack, cursor_after, keys_in, cleanup-scans}
use edo_adapter_enterprise.Examples.Fixtures.{texts, run, run-FitsCalendar, new_delivery, tables}

abbrev unavailable : Response
unavailable = record { status_code = 503; body_text = ""; json = none }

abbrev message : Raised → String
message e = "error"

bad_answer-Ends_example :
    let Judged =
      Ends message run new_delivery
        (passing_status message run new_delivery)
        (passing_letter message run new_delivery) in
    Judged (Diadoc.read_sent texts unavailable)
    × Judged (Kontur.read_sent texts unavailable)
    × Judged (Sbis.read_sent texts unavailable)
unfolding defaults
bad_answer-Ends_example =
    bad_answer-Ends message run new_delivery texts unavailable (omega arith) run-FitsCalendar
      (omega arith)

webhook_never_processed_example :
    runs 4 0 (dispatch_webhook [] (123 ∷ 125 ∷ []) 5) tables ≡ some (gave_up attribute_error, 4)
unfolding provider_to_model
webhook_never_processed_example =
    webhook_never_processed [] (123 ∷ 125 ∷ []) 5 tables (omega arith, (omega arith, tt))

-- A scan in three steps; a key comes between the first and the last of them.
abbrev three_steps : ℕ → ℕ → ℕ × List String
three_steps call c =
    if c == 0
    then (2, "idempotency:a" ∷ [])
    else if c == 2
    then (1, [])
    else (0, if call == 2 then "idempotency:b" ∷ "idempotency:c" ∷ [] else "idempotency:b" ∷ [])

cleanup-scans_example :
    ((n : ℕ) × (n < 4)
      × NotBack three_steps n
      × (cursor_after three_steps (suc n) ≡ 0)
      × (cleanup three_steps 4
          ≡ some (record { scanned = keys_in three_steps (suc n); deleted = 0 })))
    ⊎ (NotBack three_steps 4 × (cleanup three_steps 4 ≡ none))
cleanup-scans_example = cleanup-scans three_steps 4
