-- ===== src/Providers/Sbis/Session.antt =====
-- How long an object of the provider uses a session.
use edo_adapter_enterprise.Shared.{◌≡◌, refl, ◌∙◌, some, List, [], ◌∷◌, String, true}
use edo_adapter_enterprise.Domain.Json.{Json}
use edo_adapter_enterprise.Providers.Calls.{Outside, Texts, Request, is_true}
use edo_adapter_enterprise.Providers.Sbis.{
  SbisProvider, Letter, Object, session_in_use, ensure_session, ask_with, send_document,
  get_document_status, write_request, read_request,
}

-- The calls that need a session.
pub data SessionCall : Type 0 where
  sends : Letter → SessionCall
  asks : String → SessionCall

module _ (t : Texts) (w : Outside) where
  call : SessionCall → Object t w → Object t w
  call (sends l) p = (send_document t w l p).1
  call (asks id) p = (get_document_status t w id p).1

  -- Calls of one object, one after the other, whatever each of them returns or raises.
  unfoldable pub calls : List SessionCall → Object t w → Object t w
  unfolding call
  calls [] p = p
  calls (c ∷ cs) p = calls cs (call c p)

  ask_with-session :
      (make : Json → SbisProvider → Request) (p : Object t w) (sid : Json)
      → p.0.sid ≡ some sid
      → is_true sid ≡ true
      → (ask_with t w make p).1.0 ≡ p.0
  unfolding ask_with ensure_session session_in_use
  ask_with-session make p sid has e = rw has (rw e refl)

  call-session :
      (c : SessionCall) (p : Object t w) (sid : Json)
      → p.0.sid ≡ some sid
      → is_true sid ≡ true
      → (call c p).0 ≡ p.0
  unfolding call send_document get_document_status
  call-session (sends l) p sid has e = ask_with-session (write_request l) p sid has e
  call-session (asks id) p sid has e = ask_with-session (read_request id) p sid has e

  -- An object with a session keeps it through any calls with any answers, also when SBIS answers that the
  -- session is no longer valid: none of the calls authenticates anew.
  calls-session :
      (cs : List SessionCall) (p : Object t w) (sid : Json)
      → p.0.sid ≡ some sid
      → is_true sid ≡ true
      → (calls cs p).0 ≡ p.0
  unfolding calls
  calls-session [] p sid has e = refl
  calls-session (c ∷ cs) p sid has e =
      let same = call-session c p sid has e in
      calls-session cs (call c p) sid (rw same has) e ∙ same
