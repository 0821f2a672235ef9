-- ===== src/Providers/Factory.antt =====
-- src/infrastructure/providers/provider_factory.py and the constructors of the providers: which
-- credentials each of them reads. A key that is read by `[…]` and is missing raises `KeyError`.
use edo_adapter_enterprise.Shared.{Option, none, some}
use edo_adapter_enterprise.Shared.Results.{Result, ok, err, key_error, ◌>>=◌}
use edo_adapter_enterprise.Domain.Json.{Dict, Json, text, number, get}
use edo_adapter_enterprise.Domain.Account.{ProviderType, diadoc, sbis, kontur_edo, stub}

pub data Provider : Type 0 where
  diadoc_provider : Json → Json → Json → Json → Provider
  sbis_provider : Json → Json → Json → Provider
  kontur_edo_provider : Json → Json → Provider
  stub_provider : Json → Json → Provider

-- `credentials[key]`
abbrev pub required : Option Json → Result Json
required none = err key_error
required (some v) = ok v

-- `credentials.get(key, default)`
abbrev or_default : Json → Option Json → Json
or_default d none = d
or_default d (some v) = v

unfoldable pub create : ProviderType → Dict Json → Result Provider
create stub c = ok (
    stub_provider (or_default (text "stub-secret") (get "webhook_secret" c))
      (or_default (number 30) (get "auto_sign_delay_seconds" c)))
create diadoc c = required (get "client_id" c) >>= λ client_id.
    required (get "login" c) >>= λ login. required (get "password" c) >>= λ password.
    ok (diadoc_provider client_id login password (or_default (text "") (get "box_id" c)))
create sbis c = required (get "login" c) >>= λ login. required (get "password" c) >>= λ password.
    ok (sbis_provider login password (or_default (text "") (get "reg_id" c)))
create kontur_edo c = required (get "api_key" c) >>= λ api_key.
    required (get "box_id" c) >>= λ box_id. ok (kontur_edo_provider api_key box_id)
