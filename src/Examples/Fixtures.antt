-- ===== src/Examples/Fixtures.antt =====
-- Test data: a Redis server that is a function, ASCII texts, a delivery with its tables, and a run.
use edo_adapter_enterprise.Shared.{
  arith, ℕ, ◌+◌, ◌-◌, true, ◌&&◌, ◌||◌, none, some, [], ◌∷◌, refl, leb, ◌==◌, if◌then◌else◌,
}
use edo_adapter_enterprise.Core.Config.{defaults}
use edo_adapter_enterprise.Domain.Delivery
use edo_adapter_enterprise.Domain.Delivery.{DocumentDelivery}
use edo_adapter_enterprise.Domain.Account.{ProviderAccount, stub, kontur_edo}
use edo_adapter_enterprise.Domain.Errors.{DomainError, provider_transient_error}
use edo_adapter_enterprise.Domain.CircuitState.{opened}
use edo_adapter_enterprise.Domain.Inn.{Unicode}
use edo_adapter_enterprise.Database.Rows.{Database, delivery_to_model, provider_to_model}
use edo_adapter_enterprise.Providers.Interface.{SendOutcome, accepted}
use edo_adapter_enterprise.Providers.Calls.{Texts}
use edo_adapter_enterprise.Reliability.Circuit.{CircuitHash, Redis, set_field}
use edo_adapter_enterprise.Tasks.World.{World}
use edo_adapter_enterprise.Tasks.Sending.{Run, FitsCalendar}

-- A server is the function from an account to its hash.
abbrev pub memory : Redis
memory = record {
  Server = ℕ → CircuitHash;
  hgetall = λ r k. r k;
  hset = λ k f r j. if k == j then set_field f (r j) else r j;
  hgetall-hset = λ r k j f. refl;
}

abbrev pub empty_hash : CircuitHash
empty_hash = record { state = none; opened_at = none; failures = none; half_open_successes = none }

abbrev pub no_circuits : ℕ → CircuitHash
no_circuits k = empty_hash

-- The circuit of account 5 is open since 1000.
abbrev pub circuit_5_open : ℕ → CircuitHash
circuit_5_open k =
    if k == 5 then record empty_hash { state = some opened; opened_at = some 1000 } else empty_hash

abbrev pub ascii : Unicode
ascii = record {
  decimal = λ c. if leb 48 c && leb c 57 then some (c - 48) else none;
  is_space = λ c. c == 32 || leb 9 c && leb c 13;
}

abbrev pub texts : Texts
texts = record { str_number = λ n. "429"; str_json = λ j. "{}"; lower = λ s. s }

abbrev pub new_delivery : DocumentDelivery
new_delivery = Delivery.create 7 1 3 5 "3:5" 100 101

abbrev pub other_delivery : DocumentDelivery
other_delivery = Delivery.create 8 1 3 6 "3:6" 110 111

abbrev pub stub_account : ProviderAccount
stub_account = record {
  id = 5;
  tenant_id = 1;
  provider_type = stub;
  account_name = "test";
  credentials_json = [];
  is_active = true;
  priority = 100;
  webhook_secret = none;
  rate_limit_per_minute = none;
  created_at = 50;
  updated_at = 50;
}

-- An account of Kontur whose credentials have no key "api_key".
abbrev pub bare_account : ProviderAccount
bare_account = record stub_account { provider_type = kontur_edo }

abbrev pub tables : Database
tables = record {
  documents = [];
  deliveries = delivery_to_model new_delivery ∷ delivery_to_model other_delivery ∷ [];
  accounts = provider_to_model stub_account ∷ [];
  dlq_entries = [];
  audit_events = [];
  incoming_documents = [];
}

abbrev pub world : World (ℕ → CircuitHash)
world = record { db = tables; server = no_circuits; queue = [] }

abbrev pub world_5_open : World (ℕ → CircuitHash)
world_5_open = record { db = tables; server = circuit_5_open; queue = [] }

abbrev taken : SendOutcome
taken = accepted (record { provider_document_id = "STUB-1"; raw_status = "SENT" })

abbrev pub run : Run
run = record {
  settings = defaults;
  clock = λ n. 2000 + n;
  fresh = λ n. 900 + n;
  uniform = λ bound. bound;
  str = λ id. "7";
  send = λ provider delivery bytes. taken;
}

pub run-FitsCalendar : FitsCalendar run
unfolding defaults
run-FitsCalendar = (λ bound. omega arith, omega arith)

abbrev pub busy : DomainError
busy = provider_transient_error "busy" "STUB"
