-- ===== src/Tasks/Cleanup.antt =====
-- src/infrastructure/queue/tasks/cleanup_idempotency_task.py: the scan over the idempotency keys of Redis. `scan` is
-- the command SCAN with the pattern "idempotency:*" and the count 100: by the number of the call, since the keys may
-- change between two calls, and from a cursor, the next cursor and the keys of this step. The loop runs until
-- the cursor is 0 again.
use edo_adapter_enterprise.Shared.{
  ℕ, zero, suc, ◌+◌, ◌<◌, ◌≡◌, ◌≢◌, ◌⊎◌, refl, String, Option, none, some, List, length, ◌==◌,
  if◌then◌else◌, Bool-cases, inl, inr, arith, subst,
}

pub record CleanupStats : Type 0 where
  pub scanned : ℕ
  pub deleted : ℕ

module _ (scan : ℕ → ℕ → ℕ × List String) where
  -- The loop, with the counter `scanned`; `none` means that the fuel ran out. A key is counted, and that is all.
  unfoldable scan_from : ℕ → ℕ → ℕ → CleanupStats → Option CleanupStats
  scan_from zero call cursor stats = none
  scan_from (suc fuel) call cursor stats =
      let (next, keys) = scan call cursor in
      let counted = record stats { scanned = stats.scanned + length keys } in
      let rest = scan_from fuel (suc call) next counted in if next == 0 then some counted else rest

  -- `_cleanup`
  unfoldable pub cleanup : ℕ → Option CleanupStats
  unfolding scan_from
  cleanup fuel = scan_from fuel 0 0 (record { scanned = 0; deleted = 0 })

  -- The cursor after so many calls, each with the cursor of the one before.
  abbrev pub cursor_after : ℕ → ℕ
  cursor_after zero = 0
  cursor_after (suc calls) = (scan calls (cursor_after calls)).0

  -- How many keys these calls answer.
  abbrev pub keys_in : ℕ → ℕ
  keys_in zero = 0
  keys_in (suc calls) = keys_in calls + length (scan calls (cursor_after calls)).1

  -- None of these calls comes back to the cursor 0.
  abbrev pub NotBack : ℕ → Type 0
  NotBack zero = Unit
  NotBack (suc calls) = NotBack calls × (cursor_after (suc calls) ≢ 0)

  scan_from_lem :
      (fuel call last : ℕ)
      → call + fuel ≡ last
      → NotBack call
      → ((n : ℕ) × (n < last)
          × NotBack n
          × (cursor_after (suc n) ≡ 0)
          × (scan_from fuel call
                (cursor_after call)
                (record { scanned = keys_in call; deleted = 0 })
              ≡ some (record { scanned = keys_in (suc n); deleted = 0 })))
        ⊎ (NotBack last
            × (scan_from fuel call
                  (cursor_after call)
                  (record { scanned = keys_in call; deleted = 0 })
                ≡ none))
  unfolding scan_from
  scan_from_lem zero call last e h = inr (subst NotBack (omega arith) h, refl)
  scan_from_lem (suc fuel) call last e h = elim (Bool-cases (cursor_after (suc call) == 0)) [
    | inl back ↦ inl (call, omega arith, h, ground arith, rw back refl)
    | inr on ↦ elim (scan_from_lem fuel (suc call) last (omega arith) (h, λ z. ground arith)) [
      | inl (n, few, before, ends, r) ↦ inl (n, few, before, ends, rw on r)
      | inr (never, r) ↦ inr (never, rw on r)
    ]
  ]

  -- Whatever SCAN answers, in whatever keyspace: on fuel for so many calls the clean-up returns if one of these
  -- calls comes back to the cursor 0, after the first that does, and then it has counted the keys of the
  -- calls so far and deleted none; if none of them does, the fuel runs out.
  pub cleanup-scans :
      (fuel : ℕ)
      → ((n : ℕ) × (n < fuel)
          × NotBack n
          × (cursor_after (suc n) ≡ 0)
          × (cleanup fuel ≡ some (record { scanned = keys_in (suc n); deleted = 0 })))
        ⊎ (NotBack fuel × (cleanup fuel ≡ none))
  unfolding cleanup
  cleanup-scans fuel = scan_from_lem fuel 0 fuel (omega arith) tt
