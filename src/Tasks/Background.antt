-- ===== src/Tasks/Background.antt =====
-- The scheduled tasks sync_statuses_task.py, poll_incoming_task.py and provider_health_task.py of
-- src/infrastructure/queue/tasks. Each of them meets an exception before it has read or written anything
-- of an account; the statements after it, which no run reaches, are left out.
use edo_adapter_enterprise.Shared.{
  ℕ, ◌≡◌, refl, inl, inr, List, [], ◌∷◌, filter, List-cases, length,
}
use edo_adapter_enterprise.Shared.Results.{Result, ok, err, type_error, attribute_error, ◌>>=◌}
use edo_adapter_enterprise.Database.Rows.{Database, ProviderAccountModel}

-- `DocumentDeliveryModel.status`: the column is called `unified_status`.
abbrev status_column : Result (Unit {0})
status_column = err attribute_error

-- `CircuitBreaker(redis, str(account.id))`: the constructor takes the client alone.
abbrev circuit_breaker : ProviderAccountModel → Result (Unit {0})
circuit_breaker account = err type_error

pub record SyncStats : Type 0 where
  pub checked : ℕ
  pub updated : ℕ
  pub errors : ℕ

-- `_sync`: the statement that selects the deliveries cannot be made.
unfoldable sync : Database → Result SyncStats
sync db = status_column >>= λ column. ok (record { checked = 0; updated = 0; errors = 0 })

-- The SELECT of both tasks below.
abbrev active_accounts : Database → List ProviderAccountModel
active_accounts db = filter (λ a. a.is_active) db.accounts

pub record PollStats : Type 0 where
  pub accounts : ℕ
  pub new_docs : ℕ
  pub errors : ℕ

-- The loop over the accounts, whose first statement stands outside of the `try`.
abbrev each_account {ℓ} : {A : Type ℓ} → List ProviderAccountModel → A → Result A
each_account [] stats = ok stats
each_account (a ∷ rest) stats = circuit_breaker a >>= λ breaker. each_account rest stats

-- `_poll`
unfoldable pub poll : Database → Result PollStats
poll db =
    each_account (active_accounts db)
      (record { accounts = length (active_accounts db); new_docs = 0; errors = 0 })

pub record HealthStats : Type 0 where
  pub accounts : ℕ
  pub healthy : ℕ
  pub unhealthy : ℕ

-- `_check_health`
unfoldable check_health : Database → Result HealthStats
check_health db =
    each_account (active_accounts db)
      (record { accounts = length (active_accounts db); healthy = 0; unhealthy = 0 })

-- The scheduled tasks do nothing of what they are for. The synchronisation of statuses raises an
-- AttributeError on every run. The poll of incoming documents and the check of the providers' health raise a
-- TypeError as soon as one account is active, and return with all counters 0 when none is.
scheduled_tasks-fail :
    (db : Database)
    → (sync db ≡ err attribute_error)
      × (poll db ≡ elim (active_accounts db) [
        | [] ↦ ok (record { accounts = 0; new_docs = 0; errors = 0 })
        | a ∷ rest ↦ err type_error
      ])
      × (check_health db ≡ elim (active_accounts db) [
        | [] ↦ ok (record { accounts = 0; healthy = 0; unhealthy = 0 })
        | a ∷ rest ↦ err type_error
      ])
unfolding sync poll check_health
scheduled_tasks-fail db = elim (List-cases (active_accounts db)) [
  | inl e ↦ rw e (refl, refl, refl)
  | inr (a, rest, e) ↦ rw e (refl, refl, refl)
]
