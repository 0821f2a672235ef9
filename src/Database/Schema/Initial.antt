-- ===== src/Database/Schema/Initial.antt =====
-- src/infrastructure/database/migrations/versions/0001_initial_schema.py: the first revision of the schema.
use edo_adapter_enterprise.Shared.{true, false, none, some, List, [], ◌∷◌, ◌++◌}
use edo_adapter_enterprise.Database.Schema.{
  Op, create_table, create_index, drop_table, foreign_key, unique_constraint, index, required,
  optional, key, with_default, unique_column, uuid, string, boolean, timestamp, integer,
  big_integer, text_type, jsonb, date,
}

abbrev tenants : List Op
tenants =
    create_table "tenants"
      ((key "id" uuid)
        ∷ (unique_column (required "inn" (string 12)))
        ∷ (required "name" (string 512))
        ∷ (with_default "true" (required "is_active" boolean))
        ∷ (with_default "now()" (required "created_at" timestamp))
        ∷ (with_default "now()" (required "updated_at" timestamp))
        ∷ [])
      ([])
    ∷ []

abbrev api_users : List Op
api_users =
    create_table "api_users"
      ((key "id" uuid)
        ∷ (required "tenant_id" uuid)
        ∷ (required "email" (string 320))
        ∷ (required "password_hash" (string 256))
        ∷ (with_default "viewer" (required "role" (string 32)))
        ∷ (with_default "true" (required "is_active" boolean))
        ∷ (with_default "now()" (required "created_at" timestamp))
        ∷ (with_default "now()" (required "updated_at" timestamp))
        ∷ [])
      ((foreign_key "tenant_id" "tenants" "id" (some "CASCADE")) ∷ [])
    ∷ create_index "api_users" (index "ix_api_users_tenant_id" ("tenant_id" ∷ []) false none)
    ∷ create_index "api_users"
        (index "ix_api_users_tenant_email" ("tenant_id" ∷ "email" ∷ []) true none)
    ∷ []

abbrev provider_accounts : List Op
provider_accounts =
    create_table "provider_accounts"
      ((key "id" uuid)
        ∷ (required "tenant_id" uuid)
        ∷ (required "provider_type" (string 64))
        ∷ (required "display_name" (string 256))
        ∷ (with_default "{}" (required "credentials" jsonb))
        ∷ (with_default "false" (required "is_active" boolean))
        ∷ (with_default "now()" (required "created_at" timestamp))
        ∷ (with_default "now()" (required "updated_at" timestamp))
        ∷ [])
      ((foreign_key "tenant_id" "tenants" "id" (some "CASCADE")) ∷ [])
    ∷ create_index "provider_accounts"
        (index "ix_provider_accounts_tenant_id" ("tenant_id" ∷ []) false none)
    ∷ []

abbrev edo_documents : List Op
edo_documents =
    create_table "edo_documents"
      ((key "id" uuid)
        ∷ (required "internal_id" (string 256))
        ∷ (required "tenant_id" uuid)
        ∷ (required "document_type" (string 128))
        ∷ (required "sender_inn" (string 12))
        ∷ (required "receiver_inn" (string 12))
        ∷ (optional "filename" (string 512))
        ∷ (optional "content_type" (string 128))
        ∷ (optional "file_size_bytes" big_integer)
        ∷ (optional "sha256_checksum" (string 64))
        ∷ (optional "extra_meta" jsonb)
        ∷ (with_default "now()" (required "created_at" timestamp))
        ∷ [])
      ((foreign_key "tenant_id" "tenants" "id" (some "CASCADE")) ∷ [])
    ∷ create_index "edo_documents"
        (index "ix_edo_documents_tenant_id" ("tenant_id" ∷ []) false none)
    ∷ create_index "edo_documents"
        (index "ix_edo_documents_tenant_internal" ("tenant_id" ∷ "internal_id" ∷ []) true none)
    ∷ []

abbrev document_deliveries : List Op
document_deliveries =
    create_table "document_deliveries"
      ((key "id" uuid)
        ∷ (required "document_id" uuid)
        ∷ (required "provider_account_id" uuid)
        ∷ (required "tenant_id" uuid)
        ∷ (with_default "pending" (required "status" (string 32)))
        ∷ (optional "provider_document_id" (string 256))
        ∷ (optional "provider_status" (string 128))
        ∷ (with_default "0" (required "retry_count" integer))
        ∷ (optional "next_retry_at" timestamp)
        ∷ (optional "last_error" text_type)
        ∷ (optional "raw_response" jsonb)
        ∷ (with_default "now()" (required "created_at" timestamp))
        ∷ (with_default "now()" (required "updated_at" timestamp))
        ∷ [])
      ((foreign_key "document_id" "edo_documents" "id" (some "CASCADE"))
        ∷ (foreign_key "provider_account_id" "provider_accounts" "id" (some "CASCADE"))
        ∷ (foreign_key "tenant_id" "tenants" "id" (some "CASCADE"))
        ∷ (unique_constraint ("document_id" ∷ "provider_account_id" ∷ []))
        ∷ [])
    ∷ create_index "document_deliveries"
        (index "ix_document_deliveries_document_id" ("document_id" ∷ []) false none)
    ∷ create_index "document_deliveries" (
        index "ix_document_deliveries_non_terminal" ("status" ∷ "next_retry_at" ∷ []) false
          (some "status NOT IN ('delivered','signed','rejected','cancelled','failed')"))
    ∷ []

abbrev incoming_documents : List Op
incoming_documents =
    create_table "incoming_documents"
      ((key "id" uuid)
        ∷ (required "tenant_id" uuid)
        ∷ (required "provider_account_id" uuid)
        ∷ (required "provider_document_id" (string 256))
        ∷ (optional "sender_inn" (string 12))
        ∷ (optional "sender_name" (string 512))
        ∷ (optional "document_type" (string 128))
        ∷ (optional "document_date" date)
        ∷ (optional "raw_payload" jsonb)
        ∷ (required "received_at" timestamp)
        ∷ [])
      ((foreign_key "tenant_id" "tenants" "id" (some "CASCADE"))
        ∷ (foreign_key "provider_account_id" "provider_accounts" "id" (some "CASCADE"))
        ∷ (unique_constraint ("provider_document_id" ∷ "provider_account_id" ∷ []))
        ∷ [])
    ∷ []

abbrev webhook_events : List Op
webhook_events =
    create_table "webhook_events"
      ((key "id" uuid)
        ∷ (required "tenant_id" uuid)
        ∷ (required "provider_account_id" uuid)
        ∷ (optional "provider_event_id" (string 256))
        ∷ (optional "event_type" (string 128))
        ∷ (optional "raw_payload" jsonb)
        ∷ (required "received_at" timestamp)
        ∷ (with_default "false" (required "processed" boolean))
        ∷ (optional "processed_at" timestamp)
        ∷ [])
      ((foreign_key "tenant_id" "tenants" "id" (some "CASCADE"))
        ∷ (foreign_key "provider_account_id" "provider_accounts" "id" (some "CASCADE"))
        ∷ [])
    ∷ create_index "webhook_events"
        (index "ix_webhook_events_provider_account_id" ("provider_account_id" ∷ []) false none)
    ∷ []

abbrev dlq_entries : List Op
dlq_entries =
    create_table "dlq_entries"
      ((key "id" uuid)
        ∷ (required "tenant_id" uuid)
        ∷ (required "delivery_id" uuid)
        ∷ (optional "error_code" (string 64))
        ∷ (optional "error_detail" text_type)
        ∷ (with_default "true" (required "is_retryable" boolean))
        ∷ (with_default "0" (required "retry_count" integer))
        ∷ (optional "next_retry_at" timestamp)
        ∷ (optional "payload_snapshot" jsonb)
        ∷ (optional "replayed_at" timestamp)
        ∷ (optional "replayed_by" (string 256))
        ∷ (with_default "now()" (required "created_at" timestamp))
        ∷ [])
      ((foreign_key "tenant_id" "tenants" "id" (some "CASCADE"))
        ∷ (foreign_key "delivery_id" "document_deliveries" "id" (some "CASCADE"))
        ∷ [])
    ∷ create_index "dlq_entries" (
        index "ix_dlq_entries_retryable" ("is_retryable" ∷ "next_retry_at" ∷ []) false
          (some "replayed_at IS NULL"))
    ∷ []

abbrev provider_health_snapshots : List Op
provider_health_snapshots =
    create_table "provider_health_snapshots"
      ((key "id" uuid)
        ∷ (required "provider_account_id" uuid)
        ∷ (required "is_healthy" boolean)
        ∷ (optional "response_time_ms" integer)
        ∷ (optional "circuit_state" (string 16))
        ∷ (optional "error_detail" text_type)
        ∷ (required "checked_at" timestamp)
        ∷ [])
      ((foreign_key "provider_account_id" "provider_accounts" "id" (some "CASCADE")) ∷ [])
    ∷ []

abbrev audit_events : List Op
audit_events =
    create_table "audit_events"
      ((key "id" uuid)
        ∷ (required "tenant_id" uuid)
        ∷ (optional "actor_user_id" uuid)
        ∷ (required "resource_type" (string 64))
        ∷ (required "resource_id" uuid)
        ∷ (required "event_type" (string 64))
        ∷ (optional "trace_id" (string 128))
        ∷ (with_default "{}" (required "payload" jsonb))
        ∷ (with_default "now()" (required "created_at" timestamp))
        ∷ [])
      ((foreign_key "tenant_id" "tenants" "id" (some "CASCADE"))
        ∷ (foreign_key "actor_user_id" "api_users" "id" (some "SET NULL"))
        ∷ [])
    ∷ create_index "audit_events" (
        index "idx_audit_events_resource" ("resource_type" ∷ "resource_id" ∷ "created_at" ∷ [])
          false none)
    ∷ create_index "audit_events" (index "ix_audit_events_tenant_id" ("tenant_id" ∷ []) false none)
    ∷ []

unfoldable pub upgrade : List Op
upgrade =
    tenants
    ++ (api_users
        ++ (provider_accounts
            ++ (edo_documents
                ++ (document_deliveries
                    ++ (incoming_documents
                        ++ (webhook_events
                            ++ (dlq_entries ++ (provider_health_snapshots ++ (audit_events)))))))))

unfoldable pub downgrade : List Op
downgrade =
    drop_table "audit_events"
    ∷ drop_table "provider_health_snapshots"
    ∷ drop_table "dlq_entries"
    ∷ drop_table "webhook_events"
    ∷ drop_table "incoming_documents"
    ∷ drop_table "document_deliveries"
    ∷ drop_table "edo_documents"
    ∷ drop_table "provider_accounts"
    ∷ drop_table "api_users"
    ∷ drop_table "tenants"
    ∷ []
