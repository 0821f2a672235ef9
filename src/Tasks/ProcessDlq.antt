-- ===== src/Tasks/ProcessDlq.antt =====
-- src/infrastructure/queue/tasks/process_dlq_task.py: the task that replays the dead letters of every tenant.
-- `publish` says whether the broker takes a call (`apply_async` raises if it does not), and `str_json` gives
-- the code points of Python's `str` of a JSON value. `set_gauge` is the method `set` of a Gauge of
-- prometheus_client, called on the metric itself: by the label names of the metric, and on a number.
pub mod Replayed
use edo_adapter_enterprise.Shared.{
  ℕ, ◌+◌, String, Bool, true, false, not, ◌&&◌, Option, none, some, List, [], ◌∷◌, ◌++◌, length,
  filter, is_some, if◌then◌else◌, ◌≡◌, refl, arith, ◌∙◌, ap, Bool-cases, inl, inr,
}
use edo_adapter_enterprise.Shared.Results.{Result, ok, ◌>>=◌}
use edo_adapter_enterprise.Domain.Json.{Json, get}
use edo_adapter_enterprise.Domain.DeadLetter.{DlqEntry}
use edo_adapter_enterprise.Tasks.World.{SendCall, World}

-- The counters of the task.
pub record Stats : Type 0 where
  pub scanned : ℕ
  pub replayed : ℕ
  pub skipped : ℕ

-- What a run of the task leaves: the table of dead letters, the calls that it sent, and its counters.
pub record Processed : Type 0 where
  pub entries : List DlqEntry
  pub calls : List SendCall
  pub stats : Stats

-- The condition of the SELECT.
abbrev pub is_waiting : DlqEntry → Bool
is_waiting e = not (is_some e.replayed_at) && e.retryable

abbrev text_or_empty : (Json → List ℕ) → Option Json → List ℕ
text_or_empty str_json none = []
text_or_empty str_json (some j) = str_json j

unfoldable pub call_of : (Json → List ℕ) → DlqEntry → SendCall
call_of str_json e = record {
  delivery_id = e.delivery_id;
  file_bytes_hex = text_or_empty str_json (get "file_bytes_hex" e.payload);
}

-- The label names of DELIVERIES_IN_DLQ in src/infrastructure/observability/metrics.py.
abbrev pub deliveries_in_dlq_labelnames : List String
deliveries_in_dlq_labelnames = "tenant_id" ∷ []

module _ (str_json : Json → List ℕ) (publish : SendCall → Bool) (now : ℕ) where
  -- One row of the table: a row that is not selected stays, and a selected one is replayed or skipped.
  abbrev step : DlqEntry → Processed → Processed
  step e rest =
      if is_waiting e
      then if publish (call_of str_json e)
        then record {
          entries = (record e { replayed_at = some now }) ∷ rest.entries;
          calls = call_of str_json e ∷ rest.calls;
          stats = record rest.stats {
            scanned = rest.stats.scanned + 1;
            replayed = rest.stats.replayed + 1;
          };
        }
        else record {
          entries = e ∷ rest.entries;
          calls = rest.calls;
          stats = record rest.stats {
            scanned = rest.stats.scanned + 1;
            skipped = rest.stats.skipped + 1;
          };
        }
      else record rest { entries = e ∷ rest.entries }

  -- The loop over the letters, with the counters that are left after it.
  unfoldable pub replay_entries : List DlqEntry → Processed
  replay_entries [] = record {
    entries = [];
    calls = [];
    stats = record { scanned = 0; replayed = 0; skipped = 0 };
  }
  replay_entries (e ∷ es) = step e (replay_entries es)

  -- `_process_dlq`: the gauge is set before the loop.
  unfoldable pub process_dlq :
      (List String → ℕ → Result (Unit {0})) → List DlqEntry → Result Processed
  process_dlq set_gauge es =
      set_gauge deliveries_in_dlq_labelnames (length (filter is_waiting es)) >>= λ _.
      ok (replay_entries es)

  -- The counters after the loop agree with what it did: every letter that was waiting is either replayed, with one
  -- call for it, or skipped, and the letters that still wait are those that were skipped.
  replay_entries_counts :
      (es : List DlqEntry)
      → let p = replay_entries es in
        (p.stats.scanned ≡ length (filter is_waiting es))
        × (p.stats.replayed + p.stats.skipped ≡ p.stats.scanned)
        × (length p.calls ≡ p.stats.replayed)
        × (length (filter is_waiting p.entries) ≡ p.stats.skipped)
  unfolding replay_entries
  replay_entries_counts [] = (refl, refl, refl, refl)
  replay_entries_counts (e ∷ es) =
      let (a, b, c, d) = replay_entries_counts es in
      elim (Bool-cases (is_waiting e)) [
        | inl w ↦ elim (Bool-cases (publish (call_of str_json e))) [
          | inl p ↦ rw w (rw p (ground arith))
          | inr p ↦ rw w (rw p (rw w (ground arith)))
        ]
        | inr w ↦ rw w (rw w (ground arith))
      ]
