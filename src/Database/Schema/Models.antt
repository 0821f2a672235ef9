-- ===== src/Database/Schema/Models.antt =====
-- src/infrastructure/database/models/__init__.py with the mixins of database/base.py: the table that each model
-- declares, which SQLAlchemy reads and writes. Relationships are left out: they are no part of a table.
use edo_adapter_enterprise.Shared.{false, none, some, [], ◌∷◌}
use edo_adapter_enterprise.Database.Schema.{
  Table, foreign_key, unique_constraint, index, required, optional, key, with_default,
  unique_column, uuid, string, boolean, timestamp, integer, text_type, jsonb, numeric,
}

-- The ten models.
pub data Model : Type 0 where
  tenant_model api_user_model provider_account_model edo_document_model document_delivery_model
        incoming_document_model webhook_event_model dlq_entry_model provider_health_snapshot_model
        audit_event_model :
      Model

abbrev tenants : Table
tenants = record {
  name = "tenants";
  columns =
      (with_default "gen_random_uuid()" (key "id" uuid))
      ∷ (required "name" (string 255))
      ∷ (unique_column (required "slug" (string 128)))
      ∷ (required "is_active" boolean)
      ∷ (with_default "now()" (required "created_at" timestamp))
      ∷ [];
  constraints = [];
  indexes = [];
}

abbrev api_users : Table
api_users = record {
  name = "api_users";
  columns =
      (with_default "gen_random_uuid()" (key "id" uuid))
      ∷ (required "tenant_id" uuid)
      ∷ (unique_column (required "email" (string 255)))
      ∷ (required "hashed_password" (string 255))
      ∷ (required "role" (string 64))
      ∷ (required "is_active" boolean)
      ∷ (with_default "now()" (required "created_at" timestamp))
      ∷ (with_default "now()" (required "updated_at" timestamp))
      ∷ [];
  constraints = (foreign_key "tenant_id" "tenants" "id" none) ∷ [];
  indexes = (index "ix_api_users_tenant_id" ("tenant_id" ∷ []) false none) ∷ [];
}

abbrev provider_accounts : Table
provider_accounts = record {
  name = "provider_accounts";
  columns =
      (with_default "gen_random_uuid()" (key "id" uuid))
      ∷ (required "tenant_id" uuid)
      ∷ (required "provider_type" (string 32))
      ∷ (required "account_name" (string 255))
      ∷ (required "credentials_json" jsonb)
      ∷ (required "is_active" boolean)
      ∷ (required "priority" integer)
      ∷ (optional "webhook_secret" (string 255))
      ∷ (optional "rate_limit_per_minute" integer)
      ∷ (with_default "now()" (required "created_at" timestamp))
      ∷ (with_default "now()" (required "updated_at" timestamp))
      ∷ [];
  constraints =
      (foreign_key "tenant_id" "tenants" "id" none)
      ∷ (unique_constraint ("tenant_id" ∷ "provider_type" ∷ "account_name" ∷ []))
      ∷ [];
  indexes = (index "ix_provider_accounts_tenant_id" ("tenant_id" ∷ []) false none) ∷ [];
}

abbrev edo_documents : Table
edo_documents = record {
  name = "edo_documents";
  columns =
      (with_default "gen_random_uuid()" (key "id" uuid))
      ∷ (required "tenant_id" uuid)
      ∷ (required "internal_document_id" uuid)
      ∷ (required "document_type" (string 64))
      ∷ (required "sender_inn" (string 12))
      ∷ (optional "sender_kpp" (string 9))
      ∷ (required "recipient_inn" (string 12))
      ∷ (optional "recipient_kpp" (string 9))
      ∷ (required "title" (string 255))
      ∷ (required "file_name" (string 255))
      ∷ (required "mime_type" (string 128))
      ∷ (required "file_checksum" (string 64))
      ∷ (required "metadata" jsonb)
      ∷ (required "created_by" uuid)
      ∷ (with_default "now()" (required "created_at" timestamp))
      ∷ [];
  constraints =
      (foreign_key "tenant_id" "tenants" "id" none)
      ∷ (foreign_key "created_by" "api_users" "id" none)
      ∷ (unique_constraint ("tenant_id" ∷ "internal_document_id" ∷ []))
      ∷ [];
  indexes = (index "ix_edo_documents_tenant_id" ("tenant_id" ∷ []) false none) ∷ [];
}

abbrev document_deliveries : Table
document_deliveries = record {
  name = "document_deliveries";
  columns =
      (with_default "gen_random_uuid()" (key "id" uuid))
      ∷ (required "tenant_id" uuid)
      ∷ (required "document_id" uuid)
      ∷ (required "provider_account_id" uuid)
      ∷ (optional "provider_document_id" (string 255))
      ∷ (required "unified_status" (string 64))
      ∷ (optional "provider_raw_status" (string 255))
      ∷ (required "retry_count" integer)
      ∷ (optional "next_retry_at" timestamp)
      ∷ (optional "last_error_code" (string 128))
      ∷ (optional "last_error_message" text_type)
      ∷ (required "idempotency_key" (string 128))
      ∷ (optional "sent_at" timestamp)
      ∷ (optional "delivered_at" timestamp)
      ∷ (optional "signed_at" timestamp)
      ∷ (optional "rejected_at" timestamp)
      ∷ (optional "final_at" timestamp)
      ∷ (with_default "now()" (required "created_at" timestamp))
      ∷ (with_default "now()" (required "updated_at" timestamp))
      ∷ [];
  constraints =
      (foreign_key "tenant_id" "tenants" "id" none)
      ∷ (foreign_key "document_id" "edo_documents" "id" (some "CASCADE"))
      ∷ (foreign_key "provider_account_id" "provider_accounts" "id" none)
      ∷ (unique_constraint ("provider_account_id" ∷ "idempotency_key" ∷ []))
      ∷ (unique_constraint ("provider_account_id" ∷ "provider_document_id" ∷ []))
      ∷ [];
  indexes =
      (index "ix_document_deliveries_tenant_id" ("tenant_id" ∷ []) false none)
      ∷ (index "idx_document_deliveries_status" ("unified_status" ∷ "updated_at" ∷ []) false none)
      ∷ (index "idx_document_deliveries_retry" ("next_retry_at" ∷ []) false
          (some "next_retry_at IS NOT NULL"))
      ∷ [];
}

abbrev incoming_documents : Table
incoming_documents = record {
  name = "incoming_documents";
  columns =
      (with_default "gen_random_uuid()" (key "id" uuid))
      ∷ (required "tenant_id" uuid)
      ∷ (required "provider_account_id" uuid)
      ∷ (required "provider_document_id" (string 255))
      ∷ (required "document_type" (string 64))
      ∷ (required "sender_inn" (string 12))
      ∷ (optional "sender_name" (string 255))
      ∷ (required "file_name" (string 255))
      ∷ (required "mime_type" (string 128))
      ∷ (required "unified_status" (string 64))
      ∷ (required "metadata" jsonb)
      ∷ (required "received_at" timestamp)
      ∷ (with_default "now()" (required "created_at" timestamp))
      ∷ [];
  constraints =
      (foreign_key "tenant_id" "tenants" "id" none)
      ∷ (foreign_key "provider_account_id" "provider_accounts" "id" none)
      ∷ (unique_constraint ("provider_account_id" ∷ "provider_document_id" ∷ []))
      ∷ [];
  indexes =
      (index "ix_incoming_documents_tenant_id" ("tenant_id" ∷ []) false none)
      ∷ (index "idx_incoming_documents_received" ("received_at" ∷ []) false none)
      ∷ [];
}

abbrev webhook_events : Table
webhook_events = record {
  name = "webhook_events";
  columns =
      (with_default "gen_random_uuid()" (key "id" uuid))
      ∷ (required "tenant_id" uuid)
      ∷ (required "provider_account_id" uuid)
      ∷ (required "provider_type" (string 32))
      ∷ (optional "external_event_id" (string 255))
      ∷ (required "signature_status" (string 32))
      ∷ (required "payload" jsonb)
      ∷ (required "headers" jsonb)
      ∷ (required "processed" boolean)
      ∷ (optional "processed_at" timestamp)
      ∷ (optional "error_message" text_type)
      ∷ (with_default "now()" (required "created_at" timestamp))
      ∷ [];
  constraints =
      (foreign_key "tenant_id" "tenants" "id" none)
      ∷ (foreign_key "provider_account_id" "provider_accounts" "id" none)
      ∷ [];
  indexes =
      (index "ix_webhook_events_tenant_id" ("tenant_id" ∷ []) false none)
      ∷ (index "idx_webhook_events_processed" ("processed" ∷ "created_at" ∷ []) false none)
      ∷ [];
}

abbrev dlq_entries : Table
dlq_entries = record {
  name = "dlq_entries";
  columns =
      (with_default "gen_random_uuid()" (key "id" uuid))
      ∷ (required "tenant_id" uuid)
      ∷ (optional "delivery_id" uuid)
      ∷ (optional "provider_account_id" uuid)
      ∷ (required "task_name" (string 128))
      ∷ (required "payload" jsonb)
      ∷ (required "reason_code" (string 128))
      ∷ (required "reason_message" text_type)
      ∷ (required "retryable" boolean)
      ∷ (optional "replayed_at" timestamp)
      ∷ (with_default "now()" (required "created_at" timestamp))
      ∷ [];
  constraints =
      (foreign_key "tenant_id" "tenants" "id" none)
      ∷ (foreign_key "delivery_id" "document_deliveries" "id" none)
      ∷ (foreign_key "provider_account_id" "provider_accounts" "id" none)
      ∷ [];
  indexes =
      (index "ix_dlq_entries_tenant_id" ("tenant_id" ∷ []) false none)
      ∷ (index "idx_dlq_entries_created" ("created_at" ∷ []) false none)
      ∷ [];
}

abbrev provider_health_snapshots : Table
provider_health_snapshots = record {
  name = "provider_health_snapshots";
  columns =
      (with_default "gen_random_uuid()" (key "id" uuid))
      ∷ (required "provider_account_id" uuid)
      ∷ (required "health_status" (string 32))
      ∷ (required "circuit_state" (string 32))
      ∷ (optional "response_time_ms" integer)
      ∷ (optional "error_rate" (numeric 5 2))
      ∷ (with_default "now()" (required "checked_at" timestamp))
      ∷ [];
  constraints = (foreign_key "provider_account_id" "provider_accounts" "id" none) ∷ [];
  indexes =
      (index "idx_provider_health_checked" ("provider_account_id" ∷ "checked_at" ∷ []) false none)
      ∷ [];
}

abbrev audit_events : Table
audit_events = record {
  name = "audit_events";
  columns =
      (with_default "gen_random_uuid()" (key "id" uuid))
      ∷ (required "tenant_id" uuid)
      ∷ (optional "actor_user_id" uuid)
      ∷ (required "resource_type" (string 64))
      ∷ (required "resource_id" uuid)
      ∷ (required "event_type" (string 64))
      ∷ (optional "trace_id" (string 128))
      ∷ (required "payload" jsonb)
      ∷ (with_default "now()" (required "created_at" timestamp))
      ∷ [];
  constraints =
      (foreign_key "tenant_id" "tenants" "id" none)
      ∷ (foreign_key "actor_user_id" "api_users" "id" none)
      ∷ [];
  indexes =
      (index "ix_audit_events_tenant_id" ("tenant_id" ∷ []) false none)
      ∷ (index "idx_audit_events_resource" ("resource_type" ∷ "resource_id" ∷ "created_at" ∷ [])
          false none)
      ∷ [];
}

unfoldable pub table_of : Model → Table
table_of tenant_model = tenants
table_of api_user_model = api_users
table_of provider_account_model = provider_accounts
table_of edo_document_model = edo_documents
table_of document_delivery_model = document_deliveries
table_of incoming_document_model = incoming_documents
table_of webhook_event_model = webhook_events
table_of dlq_entry_model = dlq_entries
table_of provider_health_snapshot_model = provider_health_snapshots
table_of audit_event_model = audit_events
