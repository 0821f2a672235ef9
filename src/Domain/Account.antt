-- ===== src/Domain/Account.antt =====
-- src/domain/entities/provider_account.py and value_objects/provider_type.py: a tenant's account with
-- a provider.
use edo_adapter_enterprise.Shared.{
  ℕ, String, Bool, true, false, Option, str_eq, if◌then◌else◌, ◌≡◌, refl,
}
use edo_adapter_enterprise.Shared.Results.{Result, ok, err, value_error}
use edo_adapter_enterprise.Domain.Json.{Dict, Json}

pub data ProviderType : Type 0 where
  diadoc sbis kontur_edo stub : ProviderType

abbrev pub value : ProviderType → String
value diadoc = "DIADOC"
value sbis = "SBIS"
value kontur_edo = "KONTUR_EDO"
value stub = "STUB"

-- `ProviderType(v)`
unfoldable pub of_value : String → Result ProviderType
of_value v =
    if str_eq v "DIADOC"
    then ok diadoc
    else if str_eq v "SBIS"
    then ok sbis
    else if str_eq v "KONTUR_EDO"
    then ok kontur_edo
    else if str_eq v "STUB"
    then ok stub
    else err value_error

pub of_value-value : (t : ProviderType) → of_value (value t) ≡ ok t
unfolding of_value
of_value-value diadoc = refl
of_value-value _ = refl

pub record ProviderAccount : Type 0 where
  pub id : ℕ
  pub tenant_id : ℕ
  pub provider_type : ProviderType
  pub account_name : String
  pub credentials_json : Dict Json
  pub is_active : Bool
  pub priority : ℕ
  pub webhook_secret : Option String
  pub rate_limit_per_minute : Option ℕ
  pub created_at : ℕ
  pub updated_at : ℕ

-- `ProviderAccount.create`, with the identifier of `uuid4` first and the clock reading last.
unfoldable pub create :
    ℕ → ℕ → ProviderType → String → Dict Json → Option String → Option ℕ → ℕ → ℕ → ProviderAccount
create id tenant_id provider_type account_name credentials_json webhook_secret rate_limit priority
      now =
    record {
      id = id;
      tenant_id = tenant_id;
      provider_type = provider_type;
      account_name = account_name;
      credentials_json = credentials_json;
      is_active = true;
      priority = priority;
      webhook_secret = webhook_secret;
      rate_limit_per_minute = rate_limit;
      created_at = now;
      updated_at = now;
    }

unfoldable pub deactivate : ℕ → ProviderAccount → ProviderAccount
deactivate now a = record a { is_active = false; updated_at = now }

unfoldable pub activate : ℕ → ProviderAccount → ProviderAccount
activate now a = record a { is_active = true; updated_at = now }
