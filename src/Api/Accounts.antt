-- ===== src/Api/Accounts.antt =====
-- src/presentation/api/v1/provider_accounts.py: the endpoints of provider accounts.
pub mod Deactivation
use edo_adapter_enterprise.Shared.{
  ℕ, String, Bool, not, Option, none, some, List, map, ◌==◌, if◌then◌else◌,
}
use edo_adapter_enterprise.Domain.Json.{Dict, Json}
use edo_adapter_enterprise.Domain.Account
use edo_adapter_enterprise.Domain.Account.{ProviderType, ProviderAccount, activate, deactivate}
use edo_adapter_enterprise.Database.Rows.{Database}
use edo_adapter_enterprise.Database.Accounts
use edo_adapter_enterprise.Api.Sessions.{
  CurrentUser, Answer, returned, http_exception, Session, reading, require_admin,
}

pub record ProviderAccountResponse : Type 0 where
  pub id : ℕ
  pub tenant_id : ℕ
  pub provider_type : String
  pub account_name : String
  pub is_active : Bool
  pub priority : ℕ
  pub created_at : ℕ
  pub updated_at : ℕ

-- `_to_response`
unfoldable pub account_response : ProviderAccount → ProviderAccountResponse
account_response a = record {
  id = a.id;
  tenant_id = a.tenant_id;
  provider_type = Account.value a.provider_type;
  account_name = a.account_name;
  is_active = a.is_active;
  priority = a.priority;
  created_at = a.created_at;
  updated_at = a.updated_at;
}

pub record RegisterProviderAccountRequest : Type 0 where
  pub provider_type : String
  pub account_name : String
  pub credentials_json : Dict Json
  pub webhook_secret : Option String
  pub rate_limit_per_minute : Option ℕ
  pub priority : ℕ

module _ (user : CurrentUser) where
  -- The new identifier comes first, and the clock reading last.
  unfoldable pub registered :
      ℕ
      → RegisterProviderAccountRequest
      → ℕ
      → Session
      → ProviderType
      → Answer ProviderAccountResponse × Session
  registered id body now s provider_type =
      let account =
        Account.create id user.tenant_id provider_type body.account_name body.credentials_json
          body.webhook_secret body.rate_limit_per_minute body.priority now in
      (returned (account_response account), record s { db = Accounts.save account s.db })

  unfoldable pub register_provider_account :
      ℕ → RegisterProviderAccountRequest → ℕ → Session → Answer ProviderAccountResponse × Session
  register_provider_account id body now s =
      require_admin user
        (reading (Account.of_value body.provider_type) s (registered id body now s)) s

  unfoldable list_provider_accounts :
      Bool → Session → Answer (List ProviderAccountResponse) × Session
  list_provider_accounts active_only s =
      reading (Accounts.list_by_tenant user.tenant_id active_only s.db) s
        (λ accounts. (returned (map account_response accounts), s))

  -- `if not account or account.tenant_id != current_user.tenant_id`
  abbrev pub for_own :
      {A : Type 0}
      → Session
      → (ProviderAccount → Answer A × Session)
      → Option ProviderAccount
      → Answer A × Session
  for_own s next none = (http_exception 404 "Account not found", s)
  for_own s next (some a) =
      if not (a.tenant_id == user.tenant_id)
      then (http_exception 404 "Account not found", s)
      else next a

  unfoldable get_provider_account : ℕ → Session → Answer ProviderAccountResponse × Session
  get_provider_account account_id s =
      reading (Accounts.get_by_id account_id s.db) s
        (for_own s (λ a. (returned (account_response a), s)))

  unfoldable pub activate_account : ℕ → ℕ → Session → Answer ProviderAccountResponse × Session
  activate_account account_id now s =
      require_admin user
        (reading (Accounts.get_by_id account_id s.db) s (
          for_own s (λ a. (
            returned (account_response (activate now a)),
            record s { db = Accounts.update (activate now a) s.db },
          ))))
        s

  unfoldable pub deactivate_account : ℕ → ℕ → Session → Answer ProviderAccountResponse × Session
  deactivate_account account_id now s =
      require_admin user
        (reading (Accounts.get_by_id account_id s.db) s (
          for_own s (λ a. (
            returned (account_response (deactivate now a)),
            record s { db = Accounts.update (deactivate now a) s.db },
          ))))
        s
