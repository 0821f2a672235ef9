-- ===== src/Api/Accounts/Deactivation.antt =====
-- What the deactivation of an account does to the runs of its deliveries.
use edo_adapter_enterprise.Shared.{
  ℕ, true, some, List, ◌≡◌, refl, sym, subst, arith, ==_iff, Option-cases, inl, inr,
}
use edo_adapter_enterprise.Shared.Comprehensions.{both_returned}
use edo_adapter_enterprise.Shared.Results.{ok}
use edo_adapter_enterprise.Shared.Tables.{select_one, select_one-holds, select_one-update_where}
use edo_adapter_enterprise.Domain.Account
use edo_adapter_enterprise.Domain.Account.{ProviderAccount, ProviderType, deactivate}
use edo_adapter_enterprise.Domain.Delivery.{DocumentDelivery}
use edo_adapter_enterprise.Database.Rows.{
  Database, ProviderAccountModel, provider_to_entity, account_with_type, set_provider,
}
use edo_adapter_enterprise.Database.Accounts
use edo_adapter_enterprise.Database.Accounts.{has_id}
use edo_adapter_enterprise.Reliability.Circuit.{Redis}
use edo_adapter_enterprise.Tasks.World.{World}
use edo_adapter_enterprise.Tasks.Sending.{Run}
use edo_adapter_enterprise.Tasks.SendDocument.{with_account, refuse_account}
use edo_adapter_enterprise.Api.Sessions.{CurrentUser, returned, Session, is_admin, require_admin}
use edo_adapter_enterprise.Api.Accounts.{account_response, deactivate_account}

to_entity-set_provider :
    (m : ProviderAccountModel) (a : ProviderAccount) (now : ℕ)
    → provider_to_entity m ≡ ok a
    → provider_to_entity (set_provider (deactivate now a) m) ≡ ok (deactivate now a)
unfolding provider_to_entity set_provider deactivate
to_entity-set_provider m a now h =
    let (t, known, same) =
      both_returned (λ t. ok (account_with_type m t)) a (Account.of_value m.provider_type) h in
    rw known (ground arith)

found_row :
    (i : ℕ) (db : Database) (a : ProviderAccount)
    → Accounts.get_by_id i db ≡ ok (some a)
    → (m : ProviderAccountModel) × (select_one (has_id i) db.accounts ≡ some m)
      × (provider_to_entity m ≡ ok a)
unfolding Accounts.get_by_id
found_row i db a h = elim (Option-cases (select_one (has_id i) db.accounts)) [
  | inl e ↦ absurd (ground arith)
  | inr (m, e) ↦ (m, e, ground arith)
]

get_by_id-id :
    (i : ℕ) (db : Database) (a : ProviderAccount) → Accounts.get_by_id i db ≡ ok (some a) → a.id ≡ i
unfolding provider_to_entity
get_by_id-id i db a h =
    let (m, row, entity) = found_row i db a h in
    let (t, known, same) =
      both_returned (λ t. ok (account_with_type m t)) a (Account.of_value m.provider_type) entity in
    let is_row : m.id ≡ i = (==_iff m.id i).0 (select_one-holds (has_id i) db.accounts m row) in
    ground arith

get_by_id-update :
    (a : ProviderAccount) (now : ℕ) (db : Database)
    → Accounts.get_by_id a.id db ≡ ok (some a)
    → Accounts.get_by_id a.id (Accounts.update (deactivate now a) db) ≡ ok (some (deactivate now a))
unfolding Accounts.get_by_id Accounts.update deactivate set_provider
get_by_id-update a now db found =
    let (m, row, entity) = found_row a.id db a found in
    rw
      (select_one-update_where (has_id a.id) (set_provider (deactivate now a)) db.accounts m
        (λ y. refl) row)
      (rw (to_entity-set_provider m a now entity))

deactivate_account-update :
    (user : CurrentUser) (a : ProviderAccount) (now : ℕ) (s : Session)
    → is_admin user ≡ true
    → Accounts.get_by_id a.id s.db ≡ ok (some a)
    → a.tenant_id ≡ user.tenant_id
    → deactivate_account user a.id now s ≡ (
      returned (account_response (deactivate now a)),
      record s { db = Accounts.update (deactivate now a) s.db },
    )
unfolding deactivate_account require_admin
deactivate_account-update user a now s admin found tenant =
    rw admin (rw found (rw ((==_iff a.tenant_id user.tenant_id).1 tenant) refl))

-- After an administrator of its tenant deactivated an account, every run for a delivery of this account refuses
-- the delivery, whatever the circuit breaker says, and without a call of the provider.
pub deactivate_account-refuses :
    (redis : Redis) (run : Run) (user : CurrentUser) (a : ProviderAccount) (now : ℕ) (s : Session)
    (d : DocumentDelivery) (file : List ℕ) (w : World redis.Server)
    → is_admin user ≡ true
    → Accounts.get_by_id a.id s.db ≡ ok (some a)
    → a.tenant_id ≡ user.tenant_id
    → d.provider_account_id ≡ a.id
    → let (answer, s') = deactivate_account user a.id now s in
      (answer ≡ returned (account_response (deactivate now a)))
      × (with_account redis run (Accounts.get_by_id d.provider_account_id s'.db) d file w
          ≡ refuse_account redis run d w)
unfolding with_account deactivate
deactivate_account-refuses redis run user a now s d file w admin found tenant own =
    rw (deactivate_account-update user a now s admin found tenant) (
      refl,
      subst
          (λ i.
            with_account redis run (Accounts.get_by_id i (Accounts.update (deactivate now a) s.db))
              d file w
            ≡ refuse_account redis run d w)
          (sym own) (rw (get_by_id-update a now s.db found) refl),
    )
