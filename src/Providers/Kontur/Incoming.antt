-- ===== src/Providers/Kontur/Incoming.antt =====
-- What a poll of incoming documents returns.
use edo_adapter_enterprise.Shared.{
  ℕ, suc, String, ◌≡◌, refl, ap, subst, List, [], ◌∷◌, Option, some, All, length, ◌⊎◌, inl, inr,
  arith,
}
use edo_adapter_enterprise.Domain.Json.{Json}
use edo_adapter_enterprise.Domain.Status.{UnifiedDocumentStatus, of_value}
use edo_adapter_enterprise.Providers.Interface.{IncomingDocumentData}
use edo_adapter_enterprise.Providers.Calls.{
  Outside, Texts, Response, Call, returned, raised, Raised, ◌>>=◌, subscript, get_or, as_dict,
}
use edo_adapter_enterprise.Providers.StatusMaps.{unified_known}
use edo_adapter_enterprise.Providers.Kontur.{
  KonturEdoProvider, unified_of, incoming_of, each, read_items, poll_request, poll_incoming,
}

-- A step that returns after another one: both have returned.
both_returned {ℓ κ} :
    {A : Type ℓ} {B : Type κ} (m : Call A) (f : A → Call B) (b : B)
    → (m >>= f) ≡ returned b
    → (a : A) × (m ≡ returned a) × (f a ≡ returned b)
both_returned (returned a) f b h = (a, refl, h)
both_returned (raised e) f b h = cc

or_call {ℓ} : {A : Type ℓ} → A → Call A → A
or_call d (returned a) = a
or_call d (raised e) = d

returned-injective {ℓ} : {A : Type ℓ} {a b : A} → returned a ≡ returned b → a ≡ b
unfolding or_call
returned-injective {a} p = ap (or_call a) p

-- A status that the program knows.
abbrev pub HasKnownStatus : IncomingDocumentData → Type 0
HasKnownStatus d = (s : UnifiedDocumentStatus) × (of_value d.unified_status ≡ some s)

-- An item with the keys that the code reads by subscript.
abbrev pub IsComplete : Json → Type 0
IsComplete item =
    ((id : Json) × (subscript "documentId" item ≡ returned id))
    × ((at : Json) × (subscript "receivedAt" item ≡ returned at))

Call-cases {ℓ} :
    {A : Type ℓ} (c : Call A) → ((a : A) × (c ≡ returned a)) ⊎ ((e : Raised) × (c ≡ raised e))
Call-cases (returned a) = inl (a, refl)
Call-cases (raised e) = inr (e, refl)

unified_of-known :
    (t : Texts) (j : Json) (u : String)
    → unified_of t j ≡ returned u
    → (s : UnifiedDocumentStatus) × (of_value u ≡ some s)
unified_of-known t (Json.text raw) u h =
    subst (λ v. (s : UnifiedDocumentStatus) × (of_value v ≡ some s)) (returned-injective h)
      (unified_known t.lower raw).0
unified_of-known t _ u h = cc

module _ (t : Texts) (fromisoformat : String → Option ℕ) where
  incoming_of-IsComplete :
      (item : Json) (d : IncomingDocumentData)
      → incoming_of t fromisoformat item ≡ returned d
      → IsComplete item
  unfolding incoming_of
  incoming_of-IsComplete item d h = (
    elim (Call-cases (subscript "documentId" item)) [
      | inl found ↦ found
      | inr (e, q) ↦ absurd (ground (arith, q))
    ],
    elim (Call-cases (subscript "receivedAt" item)) [
      | inl found ↦ found
      | inr (e, q) ↦ absurd (ground (arith, q))
    ],
  )

  -- The status of a document is what the item's status stands for.
  incoming_of-unified :
      (item : Json) (d : IncomingDocumentData)
      → incoming_of t fromisoformat item ≡ returned d
      → (j : Json) × (unified_of t j ≡ returned d.unified_status)
  unfolding incoming_of
  incoming_of-unified item d h = elim (Call-cases (as_dict item)) [
    | inl (fields, q) ↦ (get_or "status" (Json.text "") fields, ground (arith, q))
    | inr (e, q) ↦ absurd (ground (arith, q))
  ]

  incoming_of-HasKnownStatus :
      (item : Json) (d : IncomingDocumentData)
      → incoming_of t fromisoformat item ≡ returned d
      → HasKnownStatus d
  incoming_of-HasKnownStatus item d h =
      let (j, q) = incoming_of-unified item d h in unified_of-known t j d.unified_status q

  each-incoming :
      (items : List Json) (docs : List IncomingDocumentData)
      → each (incoming_of t fromisoformat) items ≡ returned docs
      → All IsComplete items × All HasKnownStatus docs × (length docs ≡ length items)
  each-incoming [] docs h =
      subst (λ ds. Unit × All HasKnownStatus ds × (length ds ≡ 0)) (returned-injective h)
        (tt, tt, refl)
  each-incoming (x ∷ items) docs h =
      let (d, first, rest) =
        both_returned (incoming_of t fromisoformat x)
          (λ y. each (incoming_of t fromisoformat) items >>= λ ys. returned (y ∷ ys)) docs h in
      let (ds, others, whole) =
        both_returned (each (incoming_of t fromisoformat) items) (λ ys. returned (d ∷ ys)) docs
          rest in
      let (complete, known, same) = each-incoming items ds others in
      subst
        (λ l. All IsComplete (x ∷ items) × All HasKnownStatus l × (length l ≡ suc (length items)))
        (returned-injective whole)
        (
          (incoming_of-IsComplete x d first, complete),
          (incoming_of-HasKnownStatus x d first, known),
          ap suc same,
        )

  -- A poll of incoming documents returns all of them or raises: when it returns, Kontur answered a list of
  -- items, each an object with the keys documentId and receivedAt, and the documents are as many as the
  -- items, each with a status of the enumeration.
  pub poll_incoming-documents :
      (w : Outside) (k : KonturEdoProvider) (since : Option String) (limit : ℕ) (s s' : w.State)
      (docs : List IncomingDocumentData)
      → poll_incoming t w k fromisoformat since limit s ≡ (returned docs, s')
      → (r : Response) × (items : List Json) × (w.send (poll_request t k since limit) s
          ≡ (returned r, s'))
        × (read_items t r ≡ returned items)
        × All IsComplete items
        × All HasKnownStatus docs
        × (length docs ≡ length items)
  unfolding poll_incoming
  poll_incoming-documents w k since limit s s' docs h =
      let answer = w.send (poll_request t k since limit) s in
      let (items, listed, rest) =
        both_returned (answer.0 >>= read_items t) (each (incoming_of t fromisoformat)) docs
          (ap (λ x. x.0) h) in
      let (r, sent, read) = both_returned answer.0 (read_items t) items listed in
      let (complete, known, same) = each-incoming items docs rest in
      (r, items, (λ i. (sent i, ap (λ x. x.1) h i)), read, complete, known, same)
