-- ===== src/Reliability/Circuit/Workers/Lost.antt =====
-- `record_success` reads the count of successes with one command and writes it with another: what that does to two
-- calls that interleave.
use edo_adapter_enterprise.Shared.{
  ℕ, ◌+◌, ◌≡◌, false, true, Option, some, List, [], ◌∷◌, ◌++◌, leb, arith,
}
use edo_adapter_enterprise.Core.Config.{Settings}
use edo_adapter_enterprise.Domain.CircuitState.{closed, half_open}
use edo_adapter_enterprise.Reliability.Circuit.{CircuitHash}
use edo_adapter_enterprise.Reliability.Circuit.Workers.{
  Worker, succeeds, counts, writes, closes, finished, advance, System, Step, begins, moves, Reach,
  here, next, success_begins,
}

-- The hash of a half-open circuit with so many successes.
abbrev pub half_open_with : Option ℕ → Option ℕ → ℕ → CircuitHash
half_open_with opened_at failures n = record {
  state = some half_open;
  opened_at = opened_at;
  failures = failures;
  half_open_successes = some n;
}

module _ (s : Settings) (now : ℕ) (opened_at failures : Option ℕ) where
  abbrev with_count : ℕ → CircuitHash
  with_count = half_open_with opened_at failures

  written_few :
      (before after : List Worker) (m n : ℕ)
      → leb s.circuit_half_open_max_calls n ≡ false
      → Step s
          (record { workers = before ++ writes n ∷ after; hash = with_count m })
          (record { workers = before ++ finished ∷ after; hash = with_count n })
  unfolding advance
  written_few before after m n few =
      let step : Step s (record { workers = before ++ writes n ∷ after; hash = with_count m })
          (record {
            workers = before ++ (advance s now (writes n) (with_count m)).0 ∷ after;
            hash = (advance s now (writes n) (with_count m)).1;
          }) =
        moves before after (writes n) (with_count m) now in
      rw few at step

  written_enough :
      (before after : List Worker) (m n : ℕ)
      → leb s.circuit_half_open_max_calls n ≡ true
      → Step s
          (record { workers = before ++ writes n ∷ after; hash = with_count m })
          (record { workers = before ++ closes ∷ after; hash = with_count n })
  unfolding advance
  written_enough before after m n enough =
      let step : Step s (record { workers = before ++ writes n ∷ after; hash = with_count m })
          (record {
            workers = before ++ (advance s now (writes n) (with_count m)).0 ∷ after;
            hash = (advance s now (writes n) (with_count m)).1;
          }) =
        moves before after (writes n) (with_count m) now in
      rw enough at step

  -- A half-open circuit that lacks two successes is closed by two calls one after the other, and can stay half-open
  -- when their commands interleave: both read the same count, and write the same next one.
  pub successes_lost :
      (n : ℕ)
      → s.circuit_half_open_max_calls ≡ n + 2
      → let before : System = record { workers = []; hash = half_open_with opened_at failures n } in
        Reach s before (record {
          workers = finished ∷ finished ∷ [];
          hash = record {
            state = some closed;
            opened_at = opened_at;
            failures = some 0;
            half_open_successes = some 0;
          };
        })
        × Reach s before (record {
          workers = finished ∷ finished ∷ [];
          hash = half_open_with opened_at failures (n + 1);
        })
  unfolding advance
  successes_lost n asked =
      let begun : Reach s (record { workers = []; hash = with_count n })
          (record { workers = succeeds ∷ []; hash = with_count n }) =
        next here (begins succeeds [] (with_count n) success_begins) in
      (
        next
            (next
              (next
                (next
                  (next
                    (next
                      (next (next begun (moves [] [] succeeds (with_count n) now))
                        (moves [] [] counts (with_count n) now))
                      (written_few [] [] n (n + 1) (ground (arith, asked))))
                    (begins succeeds (finished ∷ []) (with_count (n + 1)) success_begins))
                  (moves [] (finished ∷ []) succeeds (with_count (n + 1)) now))
                (moves [] (finished ∷ []) counts (with_count (n + 1)) now))
              (written_enough [] (finished ∷ []) (n + 1) (n + 1 + 1) (ground (arith, asked))))
            (moves [] (finished ∷ []) closes (with_count (n + 1 + 1)) now),
        next
            (next
              (next
                (next
                  (next
                    (next
                      (next begun (begins succeeds (succeeds ∷ []) (with_count n) success_begins))
                      (moves [] (succeeds ∷ []) succeeds (with_count n) now))
                    (moves (counts ∷ []) [] succeeds (with_count n) now))
                  (moves [] (counts ∷ []) counts (with_count n) now))
                (moves (writes (n + 1) ∷ []) [] counts (with_count n) now))
              (written_few [] (writes (n + 1) ∷ []) n (n + 1) (ground (arith, asked))))
            (written_few (finished ∷ []) [] (n + 1) (n + 1) (ground (arith, asked))),
      )
