-- ===== src/Database/Schema.antt =====
-- The schema of the database: what src/infrastructure/database/migrations and the models of
-- src/infrastructure/database/models say of tables, and what an operation of Alembic does to the catalog
-- of a database. An operation that the database refuses gives `none`; the transaction of the
-- migration is then rolled back.
pub mod Initial
pub mod Aligned
pub mod Models
pub mod Agreement
pub mod Downgrade
use edo_adapter_enterprise.Shared.{
  ℕ, String, Bool, true, false, ◌&&◌, ◌||◌, not, Option, none, some, List, [], ◌∷◌, str_eq,
  if◌then◌else◌, is_some, filter,
}

pub data ColumnType : Type 0 where
  uuid boolean timestamp integer big_integer text_type jsonb date : ColumnType
  string : ℕ → ColumnType
  numeric : ℕ → ℕ → ColumnType

pub record Column : Type 0 where
  pub name : String
  pub type : ColumnType
  pub nullable : Bool
  pub primary_key : Bool
  pub unique : Bool
  pub server_default : Option String

-- A foreign key of one column, with its table, that table's column and `ondelete`; a unique constraint.
pub data Constraint : Type 0 where
  foreign_key : String → String → String → Option String → Constraint
  unique_constraint : List String → Constraint

-- An index: its name, its columns, whether it is unique, and its condition.
pub data Index : Type 0 where
  index : String → List String → Bool → Option String → Index

pub record Table : Type 0 where
  pub name : String
  pub columns : List Column
  pub constraints : List Constraint
  pub indexes : List Index

-- `Column(name, type, nullable=False)` and its variants.
abbrev pub required : String → ColumnType → Column
required name type = record {
  name = name;
  type = type;
  nullable = false;
  primary_key = false;
  unique = false;
  server_default = none;
}

abbrev pub optional : String → ColumnType → Column
optional name type = record (required name type) { nullable = true }

abbrev pub key : String → ColumnType → Column
key name type = record (required name type) { primary_key = true }

abbrev pub with_default : String → Column → Column
with_default text c = record c { server_default = some text }

abbrev pub unique_column : Column → Column
unique_column c = record c { unique = true }

-- The operations of a migration.
pub data Op : Type 0 where
  create_table : String → List Column → List Constraint → Op
  create_index : String → Index → Op
  drop_table : String → Op

abbrev pub Schema : Type 0
Schema = List Table

unfoldable pub find_table : String → Schema → Option Table
find_table name [] = none
find_table name (t ∷ s) =
    let rest = find_table name s in if str_eq t.name name then some t else rest

-- A foreign key needs the table that it refers to, which may be the new one.
abbrev refers : String → Schema → Constraint → Bool
refers new s (foreign_key _ table _ _) = str_eq table new || is_some (find_table table s)
refers new s (unique_constraint _) = true

abbrev all_refer : String → Schema → List Constraint → Bool
all_refer new s [] = true
all_refer new s (c ∷ cs) = refers new s c && all_refer new s cs

-- Whether a table other than the named one has a foreign key to it.
abbrev points_to : String → List Constraint → Bool
points_to name [] = false
points_to name (foreign_key _ table _ _ ∷ cs) = str_eq table name || points_to name cs
points_to name (unique_constraint _ ∷ cs) = points_to name cs

abbrev is_referenced : String → Schema → Bool
is_referenced name [] = false
is_referenced name (t ∷ s) =
    not (str_eq t.name name) && points_to name t.constraints || is_referenced name s

abbrev add_index : String → Index → Schema → Schema
add_index name i [] = []
add_index name i (t ∷ s) =
    (if str_eq t.name name then record t { indexes = i ∷ t.indexes } else t) ∷ add_index name i s

unfoldable pub apply : Op → Schema → Option Schema
unfolding find_table
apply (create_table name columns constraints) s =
    if not (is_some (find_table name s)) && all_refer name s constraints
    then some
        (record { name = name; columns = columns; constraints = constraints; indexes = [] } ∷ s)
    else none
apply (create_index name i) s =
    if is_some (find_table name s) then some (add_index name i s) else none
apply (drop_table name) s =
    if is_some (find_table name s) && not (is_referenced name s)
    then some (filter (λ t. not (str_eq t.name name)) s)
    else none

abbrev then_run : (Schema → Option Schema) → Option Schema → Option Schema
then_run next none = none
then_run next (some s) = next s

-- The body of `upgrade` or `downgrade`.
unfoldable pub run : List Op → Schema → Option Schema
unfolding apply
run [] s = some s
run (op ∷ ops) s = then_run (run ops) (apply op s)
