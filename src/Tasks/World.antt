-- ===== src/Tasks/World.antt =====
-- What the tasks and the API share: the database, the Redis server of the circuit breakers, and the
-- queue of calls of `send_document`.
use edo_adapter_enterprise.Shared.{ℕ, Option, List}
use edo_adapter_enterprise.Database.Rows.{Database}

-- The arguments of `send_document`. `delivery_id` is the text of a delivery's identifier, or the text
-- "None" where the dead letter has none.
pub record SendCall : Type 0 where
  pub delivery_id : Option ℕ
  pub file_bytes_hex : List ℕ

pub record World (S : Type 0) : Type 0 where
  pub db : Database
  pub server : S
  pub queue : List SendCall
