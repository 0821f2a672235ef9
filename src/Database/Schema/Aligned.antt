-- ===== src/Database/Schema/Aligned.antt =====
-- src/infrastructure/database/migrations/versions/0002_align_orm_schema.py: the second revision, which drops every table and makes it anew.
use edo_adapter_enterprise.Shared.{false, none, some, List, [], ◌∷◌, ◌++◌}
use edo_adapter_enterprise.Database.Schema.{
  Op, create_table, create_index, drop_table, foreign_key, unique_constraint, index, required,
  optional, key, with_default, unique_column, uuid, string, boolean, timestamp, integer, text_type,
  jsonb, numeric,
}

abbrev tenants : List Op
tenants =
    create_table "tenants"
      ((key "id" uuid)
        ∷ (required "name" (string 255))
        ∷ (unique_column (required "slug" (string 128)))
        ∷ (with_default "true" (required "is_active" boolean))
        ∷ (with_default "now()" (required "created_at" timestamp))
        ∷ [])
      ([])
    ∷ []

abbrev api_users : List Op
api_users =
    create_table "api_users"
      ((key "id" uuid)
        ∷ (required "tenant_id" uuid)
        ∷ (required "email" (string 255))
        ∷ (required "hashed_password" (string 255))
        ∷ (required "role" (string 64))
        ∷ (with_default "true" (required "is_active" boolean))
        ∷ (with_default "now()" (required "created_at" timestamp))
        ∷ (with_default "now()" (required "updated_at" timestamp))
        ∷ [])
      ((foreign_key "tenant_id" "tenants" "id" none) ∷ [])
    ∷ create_index "api_users" (index "ix_api_users_tenant_id" ("tenant_id" ∷ []) false none)
    ∷ []

abbrev provider_accounts : List Op
provider_accounts =
    create_table "provider_accounts"
      ((key "id" uuid)
        ∷ (required "tenant_id" uuid)
        ∷ (required "provider_type" (string 32))
        ∷ (required "account_name" (string 255))
        ∷ (required "credentials_json" jsonb)
        ∷ (with_default "true" (required "is_active" boolean))
        ∷ (with_default "100" (required "priority" integer))
        ∷ (optional "webhook_secret" (string 255))
        ∷ (optional "rate_limit_per_minute" integer)
        ∷ (with_default "now()" (required "created_at" timestamp))
        ∷ (with_default "now()" (required "updated_at" timestamp))
        ∷ [])
      ((foreign_key "tenant_id" "tenants" "id" none)
        ∷ (unique_constraint ("tenant_id" ∷ "provider_type" ∷ "account_name" ∷ []))
        ∷ [])
    ∷ create_index "provider_accounts"
        (index "ix_provider_accounts_tenant_id" ("tenant_id" ∷ []) false none)
    ∷ []

abbrev edo_documents : List Op
edo_documents =
    create_table "edo_documents"
      ((key "id" uuid)
        ∷ (required "tenant_id" uuid)
        ∷ (required "internal_document_id" uuid)
        ∷ (required "document_type" (string 64))
        ∷ (required "sender_inn" (string 12))
        ∷ (optional "sender_kpp" (string 9))
        ∷ (required "recipient_inn" (string 12))
        ∷ (optional "recipient_kpp" (string 9))
        ∷ (required "title" (string 255))
        ∷ (required "file_name" (string 255))
        ∷ (required "mime_type" (string 128))
        ∷ (required "file_checksum" (string 64))
        ∷ (with_default "'{}'::jsonb" (required "metadata" jsonb))
        ∷ (required "created_by" uuid)
        ∷ (with_default "now()" (required "created_at" timestamp))
        ∷ [])
      ((foreign_key "tenant_id" "tenants" "id" none)
        ∷ (foreign_key "created_by" "api_users" "id" none)
        ∷ (unique_constraint ("tenant_id" ∷ "internal_document_id" ∷ []))
        ∷ [])
    ∷ create_index "edo_documents"
        (index "ix_edo_documents_tenant_id" ("tenant_id" ∷ []) false none)
    ∷ []

abbrev document_deliveries : List Op
document_deliveries =
    create_table "document_deliveries"
      ((key "id" uuid)
        ∷ (required "tenant_id" uuid)
        ∷ (required "document_id" uuid)
        ∷ (required "provider_account_id" uuid)
        ∷ (optional "provider_document_id" (string 255))
        ∷ (required "unified_status" (string 64))
        ∷ (optional "provider_raw_status" (string 255))
        ∷ (with_default "0" (required "retry_count" integer))
        ∷ (optional "next_retry_at" timestamp)
        ∷ (optional "last_error_code" (string 128))
        ∷ (optional "last_error_message" text_type)
        ∷ (required "idempotency_key" (string 128))
        ∷ (optional "sent_at" timestamp)
        ∷ (optional "delivered_at" timestamp)
        ∷ (optional "signed_at" timestamp)
        ∷ (optional "rejected_at" timestamp)
        ∷ (optional "final_at" timestamp)
        ∷ (with_default "now()" (required "created_at" timestamp))
        ∷ (with_default "now()" (required "updated_at" timestamp))
        ∷ [])
      ((foreign_key "tenant_id" "tenants" "id" none)
        ∷ (foreign_key "document_id" "edo_documents" "id" (some "CASCADE"))
        ∷ (foreign_key "provider_account_id" "provider_accounts" "id" none)
        ∷ (unique_constraint ("provider_account_id" ∷ "idempotency_key" ∷ []))
        ∷ (unique_constraint ("provider_account_id" ∷ "provider_document_id" ∷ []))
        ∷ [])
    ∷ create_index "document_deliveries"
        (index "idx_document_deliveries_status" ("unified_status" ∷ "updated_at" ∷ []) false none)
    ∷ create_index "document_deliveries" (
        index "idx_document_deliveries_retry" ("next_retry_at" ∷ []) false
          (some "next_retry_at IS NOT NULL"))
    ∷ []

abbrev incoming_documents : List Op
incoming_documents =
    create_table "incoming_documents"
      ((key "id" uuid)
        ∷ (required "tenant_id" uuid)
        ∷ (required "provider_account_id" uuid)
        ∷ (required "provider_document_id" (string 255))
        ∷ (required "document_type" (string 64))
        ∷ (required "sender_inn" (string 12))
        ∷ (optional "sender_name" (string 255))
        ∷ (required "file_name" (string 255))
        ∷ (required "mime_type" (string 128))
        ∷ (required "unified_status" (string 64))
        ∷ (with_default "'{}'::jsonb" (required "metadata" jsonb))
        ∷ (required "received_at" timestamp)
        ∷ (with_default "now()" (required "created_at" timestamp))
        ∷ [])
      ((foreign_key "tenant_id" "tenants" "id" none)
        ∷ (foreign_key "provider_account_id" "provider_accounts" "id" none)
        ∷ (unique_constraint ("provider_account_id" ∷ "provider_document_id" ∷ []))
        ∷ [])
    ∷ create_index "incoming_documents"
        (index "idx_incoming_documents_received" ("received_at" ∷ []) false none)
    ∷ []

abbrev webhook_events : List Op
webhook_events =
    create_table "webhook_events"
      ((key "id" uuid)
        ∷ (required "tenant_id" uuid)
        ∷ (required "provider_account_id" uuid)
        ∷ (required "provider_type" (string 32))
        ∷ (optional "external_event_id" (string 255))
        ∷ (required "signature_status" (string 32))
        ∷ (required "payload" jsonb)
        ∷ (with_default "'{}'::jsonb" (required "headers" jsonb))
        ∷ (with_default "false" (required "processed" boolean))
        ∷ (optional "processed_at" timestamp)
        ∷ (optional "error_message" text_type)
        ∷ (with_default "now()" (required "created_at" timestamp))
        ∷ [])
      ((foreign_key "tenant_id" "tenants" "id" none)
        ∷ (foreign_key "provider_account_id" "provider_accounts" "id" none)
        ∷ [])
    ∷ create_index "webhook_events"
        (index "idx_webhook_events_processed" ("processed" ∷ "created_at" ∷ []) false none)
    ∷ []

abbrev dlq_entries : List Op
dlq_entries =
    create_table "dlq_entries"
      ((key "id" uuid)
        ∷ (required "tenant_id" uuid)
        ∷ (optional "delivery_id" uuid)
        ∷ (optional "provider_account_id" uuid)
        ∷ (required "task_name" (string 128))
        ∷ (required "payload" jsonb)
        ∷ (required "reason_code" (string 128))
        ∷ (required "reason_message" text_type)
        ∷ (with_default "false" (required "retryable" boolean))
        ∷ (optional "replayed_at" timestamp)
        ∷ (with_default "now()" (required "created_at" timestamp))
        ∷ [])
      ((foreign_key "tenant_id" "tenants" "id" none)
        ∷ (foreign_key "delivery_id" "document_deliveries" "id" none)
        ∷ (foreign_key "provider_account_id" "provider_accounts" "id" none)
        ∷ [])
    ∷ create_index "dlq_entries" (index "idx_dlq_entries_created" ("created_at" ∷ []) false none)
    ∷ []

abbrev provider_health_snapshots : List Op
provider_health_snapshots =
    create_table "provider_health_snapshots"
      ((key "id" uuid)
        ∷ (required "provider_account_id" uuid)
        ∷ (required "health_status" (string 32))
        ∷ (required "circuit_state" (string 32))
        ∷ (optional "response_time_ms" integer)
        ∷ (optional "error_rate" (numeric 5 2))
        ∷ (with_default "now()" (required "checked_at" timestamp))
        ∷ [])
      ((foreign_key "provider_account_id" "provider_accounts" "id" none) ∷ [])
    ∷ create_index "provider_health_snapshots"
        (index "idx_provider_health_checked" ("provider_account_id" ∷ "checked_at" ∷ []) false none)
    ∷ []

abbrev audit_events : List Op
audit_events =
    create_table "audit_events"
      ((key "id" uuid)
        ∷ (required "tenant_id" uuid)
        ∷ (optional "actor_user_id" uuid)
        ∷ (required "resource_type" (string 64))
        ∷ (required "resource_id" uuid)
        ∷ (required "event_type" (string 64))
        ∷ (optional "trace_id" (string 128))
        ∷ (with_default "'{}'::jsonb" (required "payload" jsonb))
        ∷ (with_default "now()" (required "created_at" timestamp))
        ∷ [])
      ((foreign_key "tenant_id" "tenants" "id" none)
        ∷ (foreign_key "actor_user_id" "api_users" "id" none)
        ∷ [])
    ∷ create_index "audit_events" (
        index "idx_audit_events_resource" ("resource_type" ∷ "resource_id" ∷ "created_at" ∷ [])
          false none)
    ∷ []

abbrev drops : List Op
drops =
    drop_table "audit_events"
    ∷ drop_table "provider_health_snapshots"
    ∷ drop_table "dlq_entries"
    ∷ drop_table "webhook_events"
    ∷ drop_table "incoming_documents"
    ∷ drop_table "document_deliveries"
    ∷ drop_table "edo_documents"
    ∷ drop_table "provider_accounts"
    ∷ drop_table "api_users"
    ∷ drop_table "tenants"
    ∷ []

unfoldable pub upgrade : List Op
upgrade =
    drops
    ++ (tenants
        ++ (api_users
            ++ (provider_accounts
                ++ (edo_documents
                    ++ (document_deliveries
                        ++ (incoming_documents
                            ++ (webhook_events
                                ++ (dlq_entries
                                    ++ (provider_health_snapshots ++ (audit_events))))))))))

unfoldable pub downgrade : List Op
downgrade =
    drop_table "audit_events"
    ∷ drop_table "provider_health_snapshots"
    ∷ drop_table "dlq_entries"
    ∷ drop_table "webhook_events"
    ∷ drop_table "incoming_documents"
    ∷ drop_table "document_deliveries"
    ∷ drop_table "edo_documents"
    ∷ drop_table "provider_accounts"
    ∷ drop_table "api_users"
    ∷ drop_table "tenants"
    ∷ []
