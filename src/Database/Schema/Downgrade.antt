-- ===== src/Database/Schema/Downgrade.antt =====
-- What a downgrade leaves.
use edo_adapter_enterprise.Shared.{
  String, Bool, not, none, some, List, [], ◌∷◌, ◌≡◌, refl, str_eq, arith, filter, map,
}
use edo_adapter_enterprise.Database.Schema.{drop_table, Table, Schema, find_table, apply, run}
use edo_adapter_enterprise.Database.Schema.Initial
use edo_adapter_enterprise.Database.Schema.Aligned

find_table-filter :
    (name : String) (p : Table → Bool) (s : Schema)
    → find_table name s ≡ none
    → find_table name (filter p s) ≡ none
unfolding find_table
find_table-filter name p [] h = refl
find_table-filter name p (t ∷ s) h = ground (arith, find_table-filter name p s)

find_table-dropped :
    (name : String) (s : Schema) → find_table name (filter (λ t. not (str_eq t.name name)) s) ≡ none
unfolding find_table
find_table-dropped name [] = refl
find_table-dropped name (t ∷ s) = ground (arith, find_table-dropped name s)

-- A table that is not there does not come back by drops.
run-drops_missing :
    (name : String) (names : List String) (s s' : Schema)
    → find_table name s ≡ none
    → run (map drop_table names) s ≡ some s'
    → find_table name s' ≡ none
unfolding run apply
run-drops_missing name [] s s' h e = ground arith
run-drops_missing name (n ∷ names) s s' h e = ground (
  arith,
  find_table-filter name (λ t. not (str_eq t.name n)) s,
  run-drops_missing name names (filter (λ t. not (str_eq t.name n)) s) s',
)

-- The first table that a list of drops names is gone at its end.
run-drops_first :
    (name : String) (names : List String) (s s' : Schema)
    → run (map drop_table (name ∷ names)) s ≡ some s'
    → find_table name s' ≡ none
unfolding run apply
run-drops_first name names s s' e = ground (
  arith,
  find_table-dropped name s,
  run-drops_missing name names (filter (λ t. not (str_eq t.name name)) s) s',
)

-- A downgrade of the second revision, from any schema on which it runs to its end, leaves a database on
-- which the downgrade of the first revision is refused: it drops the tables that the first one is to drop,
-- and does not make the first revision's tables again.
downgrade_refused :
    (s s' : Schema) → run Aligned.downgrade s ≡ some s' → run Initial.downgrade s' ≡ none
unfolding run apply Aligned.downgrade Initial.downgrade
downgrade_refused s s' e =
    let gone =
      run-drops_first "audit_events"
        ("provider_health_snapshots" ∷ "dlq_entries" ∷ "webhook_events" ∷ "incoming_documents"
          ∷ "document_deliveries" ∷ "edo_documents" ∷ "provider_accounts" ∷ "api_users" ∷ "tenants"
          ∷ [])
        s s' e in
    rw gone refl
