-- ===== src/Providers/StatusMaps.antt =====
-- The tables `_STATUS_MAP` of the three HTTP providers, and the unified status that a raw status of the
-- provider gets. `lower` is Python's `str.lower`.
use edo_adapter_enterprise.Shared.{
  String, Option, none, some, [], ◌∷◌, ◌≡◌, ◌≢◌, ◌↔◌, inl, inr, refl, sym, arith, str_eq,
  str_eq_iff, Bool-cases, true, All,
}
use edo_adapter_enterprise.Domain.Json.{Dict, get}
use edo_adapter_enterprise.Domain.Status
use edo_adapter_enterprise.Domain.Status.{UnifiedDocumentStatus, of_value}

abbrev diadoc_status_map : Dict String
diadoc_status_map =
    ("UnknownStatus", "UNKNOWN")
    ∷ ("Sent", "SENT")
    ∷ ("Delivered", "DELIVERED")
    ∷ ("Received", "DELIVERED")
    ∷ ("SignatureRequestSent", "DELIVERED")
    ∷ ("WaitingForSenderSignature", "DELIVERING")
    ∷ ("FinishedWithOneSignedDocument", "SIGNED")
    ∷ ("Signed", "SIGNED")
    ∷ ("SignedAndInvoiceConfirmationSent", "SIGNED")
    ∷ ("InvalidSignature", "REJECTED")
    ∷ ("Rejected", "REJECTED")
    ∷ []

abbrev kontur_status_map : Dict String
kontur_status_map =
    ("sent", "SENT")
    ∷ ("delivered", "DELIVERED")
    ∷ ("signed", "SIGNED")
    ∷ ("rejected", "REJECTED")
    ∷ ("cancelled", "CANCELLED")
    ∷ []

abbrev sbis_status_map : Dict String
sbis_status_map =
    ("Отправлен", "SENT")
    ∷ ("Прочитан", "DELIVERED")
    ∷ ("Подписан", "SIGNED")
    ∷ ("Отклонён", "REJECTED")
    ∷ ("Отозван", "CANCELLED")
    ∷ []

-- `_STATUS_MAP.get(raw, "UNKNOWN")`
abbrev or_unknown : Option String → String
or_unknown none = "UNKNOWN"
or_unknown (some v) = v

unfoldable pub diadoc_unified : String → String
diadoc_unified raw = or_unknown (get raw diadoc_status_map)

unfoldable pub kontur_unified : (String → String) → String → String
kontur_unified lower raw = or_unknown (get (lower raw) kontur_status_map)

unfoldable pub sbis_unified : String → String
sbis_unified raw = or_unknown (get raw sbis_status_map)

-- The texts of a table are values of the enumeration.
abbrev Known : String → Type 0
Known v = (s : UnifiedDocumentStatus) × (of_value v ≡ some s)

-- A lookup ends at the default or at an entry whose key is the one looked up.
get-All :
    (P : String → Type 0) (raw : String) (table : Dict String)
    → All (λ (entry : String × String). str_eq entry.0 raw ≡ true → P entry.1) table
    → P "UNKNOWN"
    → P (or_unknown (get raw table))
get-All P raw [] all d = d
get-All P raw ((k, v) ∷ table) all d = elim (Bool-cases (str_eq k raw)) [
  | inl e ↦ rw e (all.0 e)
  | inr e ↦ rw e (get-All P raw table all.1 d)
]

-- Every status of Diadoc but one.
diadoc_known :
    (raw : String)
    → raw ≢ "WaitingForSenderSignature"
    → (s : UnifiedDocumentStatus) × (of_value (diadoc_unified raw) ≡ some s)
unfolding diadoc_unified of_value
diadoc_known raw ne =
    get-All Known raw diadoc_status_map
      (
        λ _. (Status.unknown, refl),
        (
          λ _. (Status.sent, refl),
          (
            λ _. (Status.delivered, refl),
            (
              λ _. (Status.delivered, refl),
              (
                λ _. (Status.delivered, refl),
                (
                  λ e. absurd (ne (sym ((str_eq_iff "WaitingForSenderSignature" raw).0 e))),
                  (
                    λ _. (Status.signed, refl),
                    (
                      λ _. (Status.signed, refl),
                      (
                        λ _. (Status.signed, refl),
                        (λ _. (Status.rejected, refl), (λ _. (Status.rejected, refl), tt)),
                      ),
                    ),
                  ),
                ),
              ),
            ),
          ),
        ),
      )
      (Status.unknown, refl)

-- Every status that Kontur or SBIS reports becomes a member of `UnifiedDocumentStatus`. A status that
-- Diadoc reports does so too, unless it is exactly WaitingForSenderSignature: its text DELIVERING is no member.
pub unified_known :
    (lower : String → String) (raw : String)
    → ((s : UnifiedDocumentStatus) × (of_value (kontur_unified lower raw) ≡ some s))
      × ((s : UnifiedDocumentStatus) × (of_value (sbis_unified raw) ≡ some s))
      × ((of_value (diadoc_unified raw) ≡ none) ↔ (raw ≡ "WaitingForSenderSignature"))
unfolding kontur_unified sbis_unified diadoc_unified of_value
unified_known lower raw = (
  get-All Known (lower raw) kontur_status_map
      (
        λ _. (Status.sent, refl),
        (
          λ _. (Status.delivered, refl),
          (
            λ _. (Status.signed, refl),
            (λ _. (Status.rejected, refl), (λ _. (Status.cancelled, refl), tt)),
          ),
        ),
      )
      (Status.unknown, refl),
  get-All Known raw sbis_status_map
      (
        λ _. (Status.sent, refl),
        (
          λ _. (Status.delivered, refl),
          (
            λ _. (Status.signed, refl),
            (λ _. (Status.rejected, refl), (λ _. (Status.cancelled, refl), tt)),
          ),
        ),
      )
      (Status.unknown, refl),
  (
    λ none_found. elim (Bool-cases (str_eq raw "WaitingForSenderSignature")) [
      | inl e ↦ (str_eq_iff _ _).0 e
      | inr e ↦
          let (s, known) =
            diadoc_known raw
              (λ q. ground (arith, (str_eq_iff raw "WaitingForSenderSignature").1 q)) in
          absurd (ground arith)
    ],
    λ e. rw e refl,
  ),
)
