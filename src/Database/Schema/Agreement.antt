-- ===== src/Database/Schema/Agreement.antt =====
-- The database that the migrations build, and the tables that the models declare.
use edo_adapter_enterprise.Shared.{
  String, Bool, true, false, ◌||◌, Option, none, some, List, [], ◌∷◌, ◌++◌, ◌≡◌, refl, str_eq,
  if◌then◌else◌,
}
use edo_adapter_enterprise.Database.Schema.{
  ColumnType, Column, Constraint, foreign_key, unique_constraint, Table, Schema, find_table, run,
}
use edo_adapter_enterprise.Database.Schema.Initial
use edo_adapter_enterprise.Database.Schema.Aligned
use edo_adapter_enterprise.Database.Schema.Models.{Model, api_user_model, table_of}

-- An empty database after both upgrades.
abbrev pub migrated : Option Schema
migrated = run (Initial.upgrade ++ Aligned.upgrade) []

abbrev pub table_in : String → Option Schema → Option Table
table_in name none = none
table_in name (some s) = find_table name s

-- What a statement on a column depends on: its type, and whether it takes NULL and is the primary key.
pub record Shape : Type 0 where
  pub type : ColumnType
  pub nullable : Bool
  pub primary_key : Bool

abbrev pub find_column : String → List Column → Option Shape
find_column name [] = none
find_column name (c ∷ cs) =
    let rest = find_column name cs in
    if str_eq c.name name
    then some (record { type = c.type; nullable = c.nullable; primary_key = c.primary_key })
    else rest

-- The table and the column that a foreign key of a column names, with `ondelete`.
abbrev pub find_reference : String → List Constraint → Option (String × String × Option String)
find_reference name [] = none
find_reference name (unique_constraint _ ∷ cs) = find_reference name cs
find_reference name (foreign_key from table column ondelete ∷ cs) =
    let rest = find_reference name cs in
    if str_eq from name then some (table, column, ondelete) else rest

-- Whether two rows may not share the value of a column.
abbrev pub is_unique : String → List Column → Bool
is_unique name [] = false
is_unique name (c ∷ cs) =
    let rest = is_unique name cs in if c.unique then rest || str_eq c.name name else rest

abbrev pub column_of : String → Option Table → Option Shape
column_of name none = none
column_of name (some t) = find_column name t.columns

abbrev pub reference_of : String → Option Table → Option (String × String × Option String)
reference_of name none = none
reference_of name (some t) = find_reference name t.constraints

abbrev pub unique_in : String → Option Table → Bool
unique_in name none = false
unique_in name (some t) = is_unique name t.columns

abbrev pub is_api_user : Model → Bool
is_api_user api_user_model = true
is_api_user _ = false

-- The migrations run on an empty database to the end, and then the table of every model has, under each
-- name, the same column as the model declares: there or not, with the same type, nullable or not, primary
-- key or not, with the same foreign key, and unique if the model says so; only in the table of users no
-- column is unique, though the model declares the column email to be.
pub models_agree :
    (m : Model) (column : String)
    → (column_of column (table_in (table_of m).name migrated)
        ≡ find_column column (table_of m).columns)
      × (reference_of column (table_in (table_of m).name migrated)
          ≡ find_reference column (table_of m).constraints)
      × (unique_in column (table_in (table_of m).name migrated)
          ≡ (if is_api_user m then false else is_unique column (table_of m).columns))
      × (is_unique "email" (table_of api_user_model).columns ≡ true)
unfolding table_of run Initial.upgrade Aligned.upgrade
models_agree api_user_model column = (refl, refl, refl, refl)
models_agree _ column = (refl, refl, refl, refl)
