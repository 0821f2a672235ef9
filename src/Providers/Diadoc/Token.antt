-- ===== src/Providers/Diadoc/Token.antt =====
-- How long an object of the provider uses a token.
use edo_adapter_enterprise.Shared.{
  ◌≤◌, ◌<◌, ◌≡◌, ◌≢◌, refl, String, Option, none, some, List, [], ◌∷◌, arith, str_eq_iff, ◌∙◌,
}
use edo_adapter_enterprise.Providers.Calls.{Outside, Texts, Request, Call, returned, raised}
use edo_adapter_enterprise.Providers.Diadoc.{
  DiadocProvider, Letter, Object, stored, token_or, asked, ask_with, token_in_use, authenticate,
  ensure_token, send_document, get_document_status, message_request, status_request,
}

-- The calls that need a token.
pub data TokenCall : Type 0 where
  sends : Letter → TokenCall
  asks : String → TokenCall

module _ (t : Texts) (w : Outside) where
  call : TokenCall → Object t w → Object t w
  call (sends l) p = (send_document t w l p).1
  call (asks id) p = (get_document_status t w id p).1

  -- Calls of one object, one after the other, whatever each of them returns or raises.
  unfoldable pub calls : List TokenCall → Object t w → Object t w
  unfolding call
  calls [] p = p
  calls (c ∷ cs) p = calls cs (call c p)

  abbrev Clock : Type 0
  Clock = (r : Request) (s : w.State) → w.time s ≤ w.time (w.send r s).1

  stored-time : (c : Call String) (p : Object t w) → w.time (stored t w c p).1.1 ≡ w.time p.1
  stored-time (returned k) p = refl
  stored-time (raised e) p = refl

  token_or-time :
      Clock → (k : Option String) (p : Object t w) → w.time p.1 ≤ w.time (token_or t w k p).1.1
  unfolding authenticate
  token_or-time clock none (d, s) = omega (arith, clock _ s, stored-time _ _)
  token_or-time clock (some k) p = omega arith

  asked-time :
      Clock
      → (make : String → DiadocProvider → Request) (c : Call String × Object t w)
      → w.time c.1.1 ≤ w.time (asked t w make c).1.1
  asked-time clock make (returned k, (d, s)) = clock (make k d) s
  asked-time clock make (raised e, p) = omega arith

  ask_with-time :
      Clock
      → (make : String → DiadocProvider → Request) (p : Object t w)
      → w.time p.1 ≤ w.time (ask_with t w make p).1.1
  unfolding ask_with ensure_token
  ask_with-time clock make p = omega (
    arith,
    asked-time clock make (ensure_token t w p),
    token_or-time clock (token_in_use t w p) p,
  )

  call-time : Clock → (c : TokenCall) (p : Object t w) → w.time p.1 ≤ w.time (call c p).1
  unfolding call send_document get_document_status
  call-time clock (sends l) p = ask_with-time clock (message_request t l) p
  call-time clock (asks id) p = ask_with-time clock (status_request t id) p

  calls-time : Clock → (cs : List TokenCall) (p : Object t w) → w.time p.1 ≤ w.time (calls cs p).1
  unfolding calls
  calls-time clock [] p = omega arith
  calls-time clock (c ∷ cs) p = omega (arith, call-time clock c p, calls-time clock cs (call c p))

  -- An object with a token that is in use stays as it is.
  ask_with-token :
      (make : String → DiadocProvider → Request) (p : Object t w) (k : String)
      → token_in_use t w p ≡ some k
      → (ask_with t w make p).1.0 ≡ p.0
  unfolding ask_with ensure_token
  ask_with-token make p k e = rw e refl

  call-token :
      (c : TokenCall) (p : Object t w) (k : String)
      → token_in_use t w p ≡ some k
      → (call c p).0 ≡ p.0
  unfolding call send_document get_document_status
  call-token (sends l) p k e = ask_with-token (message_request t l) p k e
  call-token (asks id) p k e = ask_with-token (status_request t id) p k e

  token_in_use_lem :
      (p : Object t w) (k : String)
      → p.0.token ≡ some k
      → k ≢ ""
      → w.time p.1 < p.0.token_expires
      → token_in_use t w p ≡ some k
  unfolding token_in_use
  token_in_use_lem p k has some_text before = ground (arith, str_eq_iff k "")

  -- While the clock, which no request sets back, has not reached the expiry of the token of an object, calls
  -- on the object, in any number and with any answers, leave the object with this token and this expiry:
  -- none of them authenticates anew.
  pub calls-token :
      Clock
      → (cs : List TokenCall) (p : Object t w) (k : String) → p.0.token ≡ some k
      → k ≢ ""
      → w.time (calls cs p).1 < p.0.token_expires
      → (calls cs p).0 ≡ p.0
  unfolding calls
  calls-token clock [] p k has some_text before = refl
  calls-token clock (c ∷ cs) p k has some_text before =
      let rest = calls-time clock cs (call c p) in
      let now = call-time clock c p in
      let same = call-token c p k (token_in_use_lem p k has some_text (omega arith)) in
      calls-token clock cs (call c p) k (rw same has) some_text (rw same before) ∙ same
