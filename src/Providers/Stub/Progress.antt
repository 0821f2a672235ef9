-- ===== src/Providers/Stub/Progress.antt =====
-- How the answers of the stub provider develop while a document is polled.
use edo_adapter_enterprise.Shared.{
  ℕ, ◌+◌, ◌*◌, ◌-◌, ◌≤◌, ◌≡◌, refl, String, Bool, true, false, some, List, [], ◌∷◌, inl, inr,
  if◌then◌else◌, ltb, Bool-cases, str_eq, str_eq_refl, arith,
}
use edo_adapter_enterprise.Domain.Json.{Dict, get, set}
use edo_adapter_enterprise.Providers.Interface.{StatusResult}
use edo_adapter_enterprise.Providers.Stub.{
  Store, StubDocument, document_id, send_document, aged, get_document_status,
}

get-set {ℓ} : {V : Type ℓ} (key : String) (v : V) (d : Dict V) → get key (set key v d) ≡ some v
get-set key v [] = rw (str_eq_refl key) refl
get-set key v ((k, w) ∷ d) = elim (Bool-cases (str_eq k key)) [
  | inl e ↦ rw e (rw e refl)
  | inr e ↦ rw e (rw e (get-set key v d))
]

-- How far a document has come: 2 when it is signed, 1 when it is delivered, 0 before.
unfoldable stage : String → ℕ
stage s = if str_eq s "SIGNED" then 2 else (if str_eq s "DELIVERED" then 1 else 0)

-- Polls of one document at the times of a list, one after the other.
unfoldable pub polls : ℕ → String → List ℕ → Store → Store
polls delay id [] store = store
polls delay id (now ∷ later) store = polls delay id later (get_document_status delay now id store).1

-- A document of the store with its time of sending.
IsSent : String → ℕ → Store → Type 0
IsSent id t store =
    ((doc : StubDocument) × (get id (Store.documents store) ≡ some doc))
    × (get id (Store.sent_at store) ≡ some t)

get_document_status-IsSent :
    (delay now t : ℕ) (id : String) (store : Store)
    → IsSent id t store
    → (IsSent id t (get_document_status delay now id store).1)
      × (StatusResult.unified_status (get_document_status delay now id store).0
          ≡ aged delay (now - t))
unfolding get_document_status IsSent
get_document_status-IsSent delay now t id store ((doc, p), q) =
    rw p (rw q (((_, get-set id _ (Store.documents store)), refl), refl))

polls-IsSent :
    (delay t : ℕ) (id : String) (times : List ℕ) (store : Store)
    → IsSent id t store
    → IsSent id t (polls delay id times store)
unfolding polls
polls-IsSent delay t id [] store h = h
polls-IsSent delay t id (now ∷ later) store h =
    polls-IsSent delay t id later _ (get_document_status-IsSent delay now t id store h).0

send_document-IsSent :
    (token : String) (t : ℕ) (sender recipient type title file mime : String) (store : Store)
    → IsSent
        (document_id token)
        t
        (send_document token t sender recipient type title file mime store).1
unfolding send_document IsSent
send_document-IsSent token t sender recipient type title file mime store = (
  (_, get-set (document_id token) _ (Store.documents store)),
  get-set (document_id token) t (Store.sent_at store),
)

-- A choice of a status is a choice of its stage.
stage-choice :
    (p q : Bool)
    → stage (if p then "SIGNED" else (if q then "DELIVERED" else "SENT"))
      ≡ (if p then 2 else (if q then 1 else 0))
unfolding stage
stage-choice true q = refl
stage-choice false true = refl
stage-choice false false = refl

stage-aged :
    (delay age : ℕ)
    → stage (aged delay age) ≡ (
        if ltb (delay * 1000000) age then 2 else (if ltb (delay * 1000000) (2 * age) then 1 else 0))
unfolding aged
stage-aged delay age = stage-choice (ltb (delay * 1000000) age) (ltb (delay * 1000000) (2 * age))

stage-aged-≤ : (delay a b : ℕ) → a ≤ b → stage (aged delay a) ≤ stage (aged delay b)
stage-aged-≤ delay a b h = rw (stage-aged delay a) (rw (stage-aged delay b) (ground arith))

-- The answer to a poll after any number of earlier polls of a sent document.
unfoldable pub answer : ℕ → ℕ → String → List ℕ → Store → String
answer delay now id times store =
    StatusResult.unified_status (get_document_status delay now id (polls delay id times store)).0

answer-sent :
    (delay t now : ℕ) (id : String) (times : List ℕ) (store : Store)
    → IsSent id t store
    → answer delay now id times store ≡ aged delay (now - t)
unfolding answer
answer-sent delay t now id times store h =
    (get_document_status-IsSent delay now t id _ (polls-IsSent delay t id times store h)).1

aged_lem :
    (delay t now : ℕ)
    → aged delay (now - t) ≡ (
        if ltb (t + delay * 1000000) now
        then "SIGNED"
        else (if ltb (2 * t + delay * 1000000) (2 * now) then "DELIVERED" else "SENT"))
unfolding aged
aged_lem delay t now = ground arith

-- After the stub provider accepted a document at time t, the answer to any poll, whatever polls came before
-- it, is SIGNED once the delay (in seconds) has passed, DELIVERED once half of it has, and SENT before; so a
-- later poll never reports an earlier stage.
answers_advance :
    (token : String) (t : ℕ) (sender recipient type title file mime : String) (store : Store)
    (delay : ℕ) (before after : List ℕ) (now later : ℕ)
    → now ≤ later
    → let sent = (send_document token t sender recipient type title file mime store).1 in
      (stage (answer delay now (document_id token) before sent)
        ≤ stage (answer delay later (document_id token) after sent))
      × (answer delay later (document_id token) after sent ≡ (
          if ltb (t + delay * 1000000) later
          then "SIGNED"
          else (if ltb (2 * t + delay * 1000000) (2 * later) then "DELIVERED" else "SENT")))
answers_advance token t sender recipient type title file mime store delay before after now later h =
    let p = send_document-IsSent token t sender recipient type title file mime store in
    rw (answer-sent delay t now _ before _ p) (
      rw (answer-sent delay t later _ after _ p)
        (stage-aged-≤ delay (now - t) (later - t) (omega arith), aged_lem delay t later))
