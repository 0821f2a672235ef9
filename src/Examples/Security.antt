-- ===== src/Examples/Security.antt =====
-- Tokens, logins and accounts on concrete inputs.
use edo_adapter_enterprise.Domain.Delivery.{create}
use edo_adapter_enterprise.Domain.Account.{of_value}
use edo_adapter_enterprise.Database.Rows.{provider_to_entity, provider_to_model}
use edo_adapter_enterprise.Shared.{
  ◌+◌, String, ◌≡◌, refl, [], ◌∷◌, true, str_eq, ◌==◌, if◌then◌else◌,
}
use edo_adapter_enterprise.Domain.Json.{Dict, Json, text}
use edo_adapter_enterprise.Domain.Account.{deactivate}
use edo_adapter_enterprise.Database.Accounts
use edo_adapter_enterprise.Tasks.SendDocument.{with_account, refuse_account}
use edo_adapter_enterprise.Api.Sessions.{CurrentUser, returned, Session, is_admin}
use edo_adapter_enterprise.Api.Accounts.{account_response, deactivate_account}
use edo_adapter_enterprise.Api.Accounts.Deactivation.{deactivate_account-refuses}
use edo_adapter_enterprise.Security.Tokens.{Library, value, raw}
use edo_adapter_enterprise.Security.Login.{ApiUser, Issue}
use edo_adapter_enterprise.Examples.Fixtures.{
  memory, run, new_delivery, stub_account, tables, world,
}

abbrev json_text : Json → String
json_text (text t) = t
json_text _ = ""

-- A token is its claims, and all are decoded to the bytes of an empty dictionary; two identifiers and two times
-- have texts.
abbrev library : Library
library = record {
  Token = Dict Json;
  encode = λ payload. payload;
  decode = λ token. value (raw (123 ∷ 125 ∷ []));
  dumps = λ payload. 123 ∷ 125 ∷ [];
  str_uuid = λ id. if id == 30 then "30" else "1";
  uuid = λ t. if str_eq t "30" then value 30 else value 1;
  isoformat = λ t. if t == 1_800_005_000 then "access" else "refresh";
  fromisoformat = λ t. if str_eq t "access" then value 1_800_005_000 else value 1_209_600_005_000;
  str_json = json_text;
  decode-encode = λ payload. refl;
  str_json-text = λ t. refl;
}

abbrev api_user : ApiUser
api_user = record {
  id = 30;
  tenant_id = 1;
  email = "a@b.c";
  hashed_password = "hash";
  role = "viewer";
  is_active = true;
}

abbrev issue : Issue
issue = record { fresh = λ n. 40 + n; clock = λ n. 5000 }

abbrev administrator : CurrentUser
administrator = record { user_id = 30; tenant_id = 1; role = "admin" }

abbrev session : Session
session = record { db = tables; sent = [] }

deactivate_account-refuses_example :
    let (answer, s') = deactivate_account administrator 5 7000 session in
    (answer ≡ returned (account_response (deactivate 7000 stub_account)))
    × (with_account memory run (Accounts.get_by_id 5 s'.db) new_delivery (79 ∷ []) world
        ≡ refuse_account memory run new_delivery world)
unfolding is_admin Accounts.get_by_id provider_to_model provider_to_entity of_value create
deactivate_account-refuses_example =
    deactivate_account-refuses memory run administrator stub_account 7000 session new_delivery
      (79 ∷ []) world refl refl refl refl
