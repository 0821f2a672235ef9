-- ===== src/Database/Others.antt =====
-- src/infrastructure/database/repositories: SQLDocumentRepository, SQLDLQRepository and
-- SQLAuditRepository.
use edo_adapter_enterprise.Shared.{
  ℕ, String, Bool, ◌&&◌, Option, List, filter, take, drop, ◌==◌, str_eq, not, is_some,
}
use edo_adapter_enterprise.Shared.Tables.{select_one, add, update_where, order_by_desc}
use edo_adapter_enterprise.Domain.Document.{EdoDocument}
use edo_adapter_enterprise.Domain.DeadLetter.{DlqEntry}
use edo_adapter_enterprise.Domain.Audit.{AuditEvent}
use edo_adapter_enterprise.Database.Rows.{Database}

unfoldable pub save_document : EdoDocument → Database → Database
save_document d db = record db { documents = add d db.documents }

unfoldable pub get_document : ℕ → Database → Option EdoDocument
get_document document_id db = select_one (λ d. d.id == document_id) db.documents

unfoldable pub get_by_internal_id : ℕ → ℕ → Database → Option EdoDocument
get_by_internal_id tenant internal db =
    select_one (λ d. d.tenant_id == tenant && d.internal_document_id == internal) db.documents

unfoldable pub list_documents_by_tenant : ℕ → ℕ → ℕ → Database → List EdoDocument
list_documents_by_tenant tenant offset limit db = take limit (
    drop offset
      (order_by_desc (λ d. d.created_at) (filter (λ d. d.tenant_id == tenant) db.documents)))

abbrev pub has_id : ℕ → DlqEntry → Bool
has_id id e = e.id == id

unfoldable pub save_entry : DlqEntry → Database → Database
save_entry e db = record db { dlq_entries = add e db.dlq_entries }

unfoldable pub get_entry : ℕ → Database → Option DlqEntry
get_entry entry_id db = select_one (has_id entry_id) db.dlq_entries

unfoldable list_retryable : ℕ → Database → List DlqEntry
list_retryable tenant db =
    filter (λ e. e.tenant_id == tenant && e.retryable && not (is_some e.replayed_at)) db.dlq_entries

unfoldable pub list_entries_by_tenant : ℕ → ℕ → ℕ → Database → List DlqEntry
list_entries_by_tenant tenant offset limit db = take limit (
    drop offset
      (order_by_desc (λ e. e.created_at) (filter (λ e. e.tenant_id == tenant) db.dlq_entries)))

-- The only column that the update of an entry sets.
abbrev pub set_replayed : DlqEntry → DlqEntry → DlqEntry
set_replayed e row = record row { replayed_at = e.replayed_at }

unfoldable pub update_entry : DlqEntry → Database → Database
update_entry e db = record db {
  dlq_entries = update_where (has_id e.id) (set_replayed e) db.dlq_entries;
}

unfoldable pub save_event : AuditEvent → Database → Database
save_event e db = record db { audit_events = add e db.audit_events }

unfoldable list_by_resource : String → ℕ → ℕ → Database → List AuditEvent
list_by_resource resource_type resource_id limit db = take limit (
    order_by_desc (λ e. e.created_at)
      (filter (λ e. str_eq e.resource_type resource_type && e.resource_id == resource_id)
        db.audit_events))
