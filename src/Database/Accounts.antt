-- ===== src/Database/Accounts.antt =====
-- src/infrastructure/database/repositories: SQLProviderAccountRepository.
use edo_adapter_enterprise.Shared.{ℕ, Bool, ◌&&◌, not, ◌||◌, Option, List, filter, ◌==◌}
use edo_adapter_enterprise.Shared.Results.{Result, traverse, traverse_option}
use edo_adapter_enterprise.Shared.Tables.{select_one, add, update_where, order_by}
use edo_adapter_enterprise.Domain.Account.{ProviderAccount}
use edo_adapter_enterprise.Database.Rows.{
  Database, ProviderAccountModel, provider_to_entity, provider_to_model, set_provider,
}

abbrev pub has_id : ℕ → ProviderAccountModel → Bool
has_id id m = m.id == id

unfoldable pub save : ProviderAccount → Database → Database
save a db = record db { accounts = add (provider_to_model a) db.accounts }

unfoldable pub get_by_id : ℕ → Database → Result (Option ProviderAccount)
get_by_id account_id db =
    traverse_option provider_to_entity (select_one (has_id account_id) db.accounts)

unfoldable pub list_by_tenant : ℕ → Bool → Database → Result (List ProviderAccount)
list_by_tenant tenant active_only db = traverse provider_to_entity (
    order_by (λ m. m.priority)
      (filter (λ m. m.tenant_id == tenant && (not active_only || m.is_active)) db.accounts))

unfoldable pub update : ProviderAccount → Database → Database
update a db = record db { accounts = update_where (has_id a.id) (set_provider a) db.accounts }
