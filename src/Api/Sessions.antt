-- ===== src/Api/Sessions.antt =====
-- src/presentation/deps.py and src/infrastructure/database/session.py: the user of a request, the ways in
-- which an endpoint ends, and the transaction around it.
use edo_adapter_enterprise.Shared.{ℕ, String, Bool, List, ◌++◌, str_eq, if◌then◌else◌}
use edo_adapter_enterprise.Shared.Results.{Result, ok, err, Fault}
use edo_adapter_enterprise.Database.Rows.{Database}
use edo_adapter_enterprise.Tasks.World.{World, SendCall}

pub record CurrentUser : Type 0 where
  pub user_id : ℕ
  pub tenant_id : ℕ
  pub role : String

-- The property `is_admin`.
unfoldable pub is_admin : CurrentUser → Bool
is_admin user = str_eq user.role "admin"

-- An endpoint returns a response, raises `HTTPException`, or lets another exception through.
pub data Answer {ℓ} (A : Type ℓ) : Type ℓ where
  returned : A → Answer A
  http_exception : ℕ → String → Answer A
  raised : Fault → Answer A

-- A property of the response, if there is one.
abbrev pub Returned {ℓ κ} : {A : Type ℓ} → (A → Type κ) → Answer A → Type κ
Returned P (returned a) = P a
Returned P (http_exception _ _) = Unit
Returned P (raised _) = Unit

-- What a request sees and does: the database as its transaction sees it, and the calls of
-- `send_document.apply_async`.
pub record Session : Type 0 where
  pub db : Database
  pub sent : List SendCall

-- `require_admin`
unfoldable pub require_admin {ℓ} :
    {A : Type ℓ} → CurrentUser → Answer A × Session → Session → Answer A × Session
require_admin user served s =
    if is_admin user then served else (http_exception 403 "Admin role required", s)

-- The end of `get_session`: a commit after a response, a rollback after an exception. The calls that were
-- sent are in the queue either way.
unfoldable pub ended {ℓ} :
    {A : Type ℓ} {S : Type 0} → Answer A × Session → World S → Answer A × World S
ended (returned a, s) w = (returned a, record w { db = s.db; queue = w.queue ++ s.sent })
ended (http_exception code detail, s) w =
    (http_exception code detail, record w { queue = w.queue ++ s.sent })
ended (raised f, s) w = (raised f, record w { queue = w.queue ++ s.sent })

-- A read that may raise before the rest of an endpoint.
abbrev pub reading {ℓ κ} :
    {A : Type ℓ} {B : Type κ} → Result A → Session → (A → Answer B × Session) → Answer B × Session
reading (ok a) s next = next a
reading (err f) s next = (raised f, s)
