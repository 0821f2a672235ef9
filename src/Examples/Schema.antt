-- ===== src/Examples/Schema.antt =====
-- The schema of the database: a column of a model.
use edo_adapter_enterprise.Shared.{◌≡◌, true, false, if◌then◌else◌}
use edo_adapter_enterprise.Database.Schema.Models.{
  document_delivery_model, api_user_model, table_of,
}
use edo_adapter_enterprise.Database.Schema.Agreement.{
  migrated, table_in, find_column, find_reference, is_unique, column_of, reference_of, unique_in,
  is_api_user, models_agree,
}

models_agree_example :
    (column_of "final_at" (table_in (table_of document_delivery_model).name migrated)
      ≡ find_column "final_at" (table_of document_delivery_model).columns)
    × (reference_of "final_at" (table_in (table_of document_delivery_model).name migrated)
        ≡ find_reference "final_at" (table_of document_delivery_model).constraints)
    × (unique_in "final_at" (table_in (table_of document_delivery_model).name migrated) ≡ (
        if is_api_user document_delivery_model
        then false
        else is_unique "final_at" (table_of document_delivery_model).columns))
    × (is_unique "email" (table_of api_user_model).columns ≡ true)
models_agree_example = models_agree document_delivery_model "final_at"
