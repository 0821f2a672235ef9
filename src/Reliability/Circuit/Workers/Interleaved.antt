-- ===== src/Reliability/Circuit/Workers/Interleaved.antt =====
-- What holds of the hash however the commands of the workers interleave.
use edo_adapter_enterprise.Shared.{
  ℕ, ◌+◌, ◌≤◌, ◌<◌, ◌||◌, ◌≡◌, Option, if◌then◌else◌, ◌⊎◌, inl, inr, refl, Bool, true, false, none,
  some, is_some, List, [], ◌∷◌, ◌++◌, leb, arith, Bool-cases,
}
use edo_adapter_enterprise.Core.Config.{Settings}
use edo_adapter_enterprise.Domain.CircuitState.{opened}
use edo_adapter_enterprise.Reliability.Circuit.{CircuitHash, or_zero}
use edo_adapter_enterprise.Reliability.Circuit.Workers.{
  Worker, guards, guard_half_opens, answered, succeeds, success_half_opens, counts, writes, closes,
  resets, fails, opens, finished, advance, System, Step, begins, moves, Reach, here, next,
}

-- A worker that is about to open the circuit.
abbrev is_opening : Worker → Bool
is_opening opens = true
is_opening _ = false

abbrev some_opening : List Worker → Bool
some_opening [] = false
some_opening (w ∷ ws) = is_opening w || some_opening ws

-- The time of the last passage to open, if a worker has sent one.
abbrev last_in : {s : Settings} {x y : System} → Step s x y → Option ℕ → Option ℕ
last_in (begins w ws h new) t = t
last_in (moves before after w h now) t = if is_opening w then some now else t

abbrev pub last_opening : {s : Settings} {x y : System} → Reach s x y → Option ℕ
last_opening here = none
last_opening (next r step) = last_in step (last_opening r)

-- The time that is stored is that of the last passage to open, and an open circuit has one.
abbrev pub IsDated : Option ℕ → CircuitHash → Type 0
IsDated t h = (h.opened_at ≡ t) × (h.state ≡ some opened → is_some t ≡ true)

-- The failures are fewer than the threshold, or a worker is about to open the circuit.
abbrev pub IsCounted : Settings → List Worker → CircuitHash → Type 0
IsCounted s ws h = (or_zero h.failures < s.circuit_failure_threshold) ⊎ (some_opening ws ≡ true)

abbrev pub IsHeld : Settings → Option ℕ → System → Type 0
IsHeld s t x = IsDated t x.hash × IsCounted s x.workers x.hash

module _ (s : Settings) (now : ℕ) where
  advance-IsDated :
      (t : Option ℕ) (w : Worker) (h : CircuitHash)
      → IsDated t h
      → IsDated (if is_opening w then some now else t) (advance s now w h).1
  unfolding advance
  advance-IsDated t guards h d = d
  advance-IsDated t guard_half_opens h d = (d.0, λ e. cc)
  advance-IsDated t (answered g) h d = d
  advance-IsDated t succeeds h d = d
  advance-IsDated t success_half_opens h d = (d.0, λ e. cc)
  advance-IsDated t counts h d = d
  advance-IsDated t (writes n) h d = d
  advance-IsDated t closes h d = (d.0, λ e. cc)
  advance-IsDated t resets h d = d
  advance-IsDated t fails h d = (d.0, λ e. cc)
  advance-IsDated t opens h d = (refl, λ e. refl)
  advance-IsDated t finished h d = d

  abbrev IsFew : CircuitHash → Type 0
  IsFew h = or_zero h.failures < s.circuit_failure_threshold

  -- The command that passes the threshold makes its worker open the circuit next.
  advance-IsFew :
      (w : Worker) (h : CircuitHash)
      → 1 ≤ s.circuit_failure_threshold
      → IsFew h
      → IsFew (advance s now w h).1 ⊎ (is_opening (advance s now w h).0 ≡ true)
  unfolding advance
  advance-IsFew guards h pos few = inl few
  advance-IsFew guard_half_opens h pos few = inl few
  advance-IsFew (answered g) h pos few = inl few
  advance-IsFew succeeds h pos few = inl few
  advance-IsFew success_half_opens h pos few = inl few
  advance-IsFew counts h pos few = inl few
  advance-IsFew (writes n) h pos few = inl few
  advance-IsFew closes h pos few = inl (omega arith)
  advance-IsFew resets h pos few = inl (omega arith)
  advance-IsFew fails h pos few =
      elim (Bool-cases (leb s.circuit_failure_threshold (or_zero h.failures + 1))) [
        | inl e ↦ inr (rw e refl)
        | inr e ↦ inl (ground arith)
      ]
  advance-IsFew opens h pos few = inl (omega arith)
  advance-IsFew finished h pos few = inl few

  -- The passage to open resets the failures.
  opening-IsFew :
      (w : Worker) (h : CircuitHash)
      → 1 ≤ s.circuit_failure_threshold
      → is_opening w ≡ true
      → IsFew (advance s now w h).1
  unfolding advance
  opening-IsFew opens h pos e = omega arith
  opening-IsFew _ h pos e = cc

some_opening-at :
    (before after : List Worker) (w : Worker)
    → some_opening (before ++ w ∷ after)
      ≡ (some_opening before || (is_opening w || some_opening after))
some_opening-at [] after w = refl
some_opening-at (b ∷ before) after w = ground (arith, some_opening-at before after w)

moves-IsCounted :
    (s : Settings) (before after : List Worker) (w : Worker) (h : CircuitHash) (now : ℕ)
    → 1 ≤ s.circuit_failure_threshold
    → IsCounted s (before ++ w ∷ after) h
    → IsCounted s (before ++ (advance s now w h).0 ∷ after) (advance s now w h).1
moves-IsCounted s before after w h now pos (inl few) = elim (advance-IsFew s now w h pos few) [
  | inl still ↦ inl still
  | inr opening ↦ inr (ground (arith, some_opening-at before after (advance s now w h).0, opening))
]
moves-IsCounted s before after w h now pos (inr opening) = elim (Bool-cases (is_opening w)) [
  | inl e ↦ inl (opening-IsFew s now w h pos e)
  | inr e ↦ inr (
      ground (
        arith,
        some_opening-at before after (advance s now w h).0,
        some_opening-at before after w,
        opening,
        e,
      ))
]

begins-IsCounted :
    (s : Settings) (w : Worker) (ws : List Worker) (h : CircuitHash)
    → IsCounted s ws h
    → IsCounted s (w ∷ ws) h
begins-IsCounted s w ws h (inl few) = inl few
begins-IsCounted s w ws h (inr opening) = inr (ground (arith, opening))

Step-IsHeld :
    {s : Settings} {x y : System} (t : Option ℕ)
    → 1 ≤ s.circuit_failure_threshold
    → (step : Step s x y) → IsHeld s t x
    → IsHeld s (last_in step t) y
Step-IsHeld {s} t pos (begins w ws h new) v = (v.0, begins-IsCounted s w ws h v.1)
Step-IsHeld {s} t pos (moves before after w h now) v =
    (advance-IsDated s now t w h v.0, moves-IsCounted s before after w h now pos v.1)

Reach-IsHeld :
    {s : Settings} {x y : System}
    → 1 ≤ s.circuit_failure_threshold
    → IsHeld s none x
    → (r : Reach s x y) → IsHeld s (last_opening r) y
Reach-IsHeld pos v here = v
Reach-IsHeld pos v (next r step) = Step-IsHeld (last_opening r) pos step (Reach-IsHeld pos v r)

-- However the commands of any number of workers on an account interleave, from a hash without fields on: the
-- stored time of opening is the time at which a worker last sent its passage to open, an open circuit has
-- such a time, and the failures stay below the threshold save while a worker that saw them reach it has
-- yet to send its passage to open. (The threshold is not 0.)
pub workers-interleaved :
    (s : Settings) (ws : List Worker) (h : CircuitHash)
    → 1 ≤ s.circuit_failure_threshold
    → (r : Reach s
        (record {
          workers = [];
          hash = record {
            state = none;
            opened_at = none;
            failures = none;
            half_open_successes = none;
          };
        })
        (record { workers = ws; hash = h }))
    → IsHeld s (last_opening r) (record { workers = ws; hash = h })
workers-interleaved s ws h pos r = Reach-IsHeld pos ((refl, λ e. cc), inl (omega arith)) r
