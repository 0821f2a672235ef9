-- ===== src/Api/Status.antt =====
-- src/presentation/api/v1/health.py and providers.py, and the endpoint `me` of auth.py.
use edo_adapter_enterprise.Shared.{
  ℕ, String, Bool, ◌&&◌, Option, none, some, List, [], ◌∷◌, map, str_eq, ◌==◌, if◌then◌else◌,
}
use edo_adapter_enterprise.Shared.Tables.{select_one}
use edo_adapter_enterprise.Domain.Account
use edo_adapter_enterprise.Domain.Account.{ProviderType, diadoc, sbis, kontur_edo, stub}
use edo_adapter_enterprise.Api.Sessions.{CurrentUser, Answer, returned, http_exception}
use edo_adapter_enterprise.Security.Login.{ApiUser}

pub record SystemHealthResponse : Type 0 where
  pub status : String
  pub database : String
  pub redis : String
  pub version : String

-- `liveness`
abbrev liveness : String
liveness = "ok"

abbrev ok_or_error : Bool → String
ok_or_error answers = if answers then "ok" else "error"

-- `readiness`: whether `SELECT 1` and `PING` return without an exception is given.
readiness : String → Bool → Bool → SystemHealthResponse
readiness version database_answers redis_answers =
    let db_ok = ok_or_error database_answers in
    let redis_ok = ok_or_error redis_answers in
    record {
      status = if str_eq db_ok "ok" && str_eq redis_ok "ok" then "ok" else "degraded";
      database = db_ok;
      redis = redis_ok;
      version = version;
    }

display_name : ProviderType → String
display_name diadoc = "Диадок (СКБ Контур)"
display_name sbis = "СБИС (Тензор)"
display_name kontur_edo = "Контур.ЭДО"
display_name stub = "Stub (для разработки)"

description : ProviderType → String
description diadoc = "Интеграция с Диадок через REST API с PASETO-токенами"
description sbis = "Интеграция с СБИС через JSON-RPC API"
description kontur_edo = "Интеграция с Контур.ЭДО через REST API"
description stub = "In-process заглушка для tests и local dev"

pub record ProviderTypeItem : Type 0 where
  pub id : String
  pub name : String
  pub description : String

list_provider_types : List ProviderTypeItem
list_provider_types =
    map (λ t. record { id = Account.value t; name = display_name t; description = description t })
      (diadoc ∷ sbis ∷ kontur_edo ∷ stub ∷ [])

pub record UserResponse : Type 0 where
  pub id : ℕ
  pub email : String
  pub role : String
  pub tenant_id : ℕ
  pub is_active : Bool

answer_user : Option ApiUser → Answer UserResponse
answer_user none = http_exception 404 "User not found"
answer_user (some user) = returned (record {
  id = user.id;
  email = user.email;
  role = user.role;
  tenant_id = user.tenant_id;
  is_active = user.is_active;
})

me : CurrentUser → List ApiUser → Answer UserResponse
me current users = answer_user (select_one (λ u. u.id == current.user_id) users)
