-- ===== src/Domain/Status.antt =====
-- src/domain/value_objects/unified_document_status.py: the unified status of a document, with the
-- text of each member and the lookup of a member by its text.
use edo_adapter_enterprise.Shared.{
  String, Bool, true, false, Option, none, some, List, [], ◌∷◌, str_eq, if◌then◌else◌, ◌≡◌, refl,
  ◌↔◌, arith, str_eq_iff, subst,
}

pub data UnifiedDocumentStatus : Type 0 where
  pending sending sent delivered signed rejected cancelled failed unknown : UnifiedDocumentStatus

UnifiedDocumentStatus-discrete : Discrete UnifiedDocumentStatus
UnifiedDocumentStatus-discrete = hlevel

-- The members in the order of the class, as an iteration over it gives them.
abbrev pub members : List UnifiedDocumentStatus
members =
    pending ∷ sending ∷ sent ∷ delivered ∷ signed ∷ rejected ∷ cancelled ∷ failed ∷ unknown ∷ []

-- `status.value`
abbrev pub value : UnifiedDocumentStatus → String
value pending = "PENDING"
value sending = "SENDING"
value sent = "SENT"
value delivered = "DELIVERED"
value signed = "SIGNED"
value rejected = "REJECTED"
value cancelled = "CANCELLED"
value failed = "FAILED"
value unknown = "UNKNOWN"

find_value : String → List UnifiedDocumentStatus → Option UnifiedDocumentStatus
find_value v [] = none
find_value v (s ∷ rest) = if str_eq (value s) v then some s else find_value v rest

-- `UnifiedDocumentStatus(v)`; `none` is the `ValueError`.
unfoldable pub of_value : String → Option UnifiedDocumentStatus
unfolding find_value
of_value v = find_value v members

unfoldable pub is_terminal : UnifiedDocumentStatus → Bool
is_terminal signed = true
is_terminal rejected = true
is_terminal cancelled = true
is_terminal failed = true
is_terminal _ = false

unfoldable is_retryable : UnifiedDocumentStatus → Bool
is_retryable pending = true
is_retryable sending = true
is_retryable failed = true
is_retryable _ = false

-- `status == UnifiedDocumentStatus.FAILED`
abbrev pub is_failed : UnifiedDocumentStatus → Bool
is_failed failed = true
is_failed _ = false

-- `status == UnifiedDocumentStatus.SIGNED`
abbrev pub is_signed : UnifiedDocumentStatus → Bool
is_signed signed = true
is_signed _ = false

pub of_value-value : (s : UnifiedDocumentStatus) → of_value (value s) ≡ some s
unfolding of_value
of_value-value pending = refl
of_value-value _ = refl

find_value_sound :
    (v : String) (l : List UnifiedDocumentStatus) (s : UnifiedDocumentStatus)
    → find_value v l ≡ some s
    → value s ≡ v
unfolding find_value
find_value_sound v [] s h = cc
find_value_sound v (r ∷ rest) s h =
    ground (arith, str_eq_iff (value r) v, find_value_sound v rest s)

-- A member is found by a text exactly when the text is the member's value; so a stored value is
-- read back as the member that was stored, and any other text is refused.
pub of_value_iff : (v : String) (s : UnifiedDocumentStatus) → (of_value v ≡ some s) ↔ (value s ≡ v)
unfolding of_value
of_value_iff v s =
    (find_value_sound v members s, λ e. subst (λ t. of_value t ≡ some s) e (of_value-value s))
