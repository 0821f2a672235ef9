-- ===== src/Security/Tokens/Authentication.antt =====
-- Whom the claims of a token would authenticate, and for how long, if they were decoded to a dictionary.
use edo_adapter_enterprise.Shared.{
  ℕ, ◌+◌, String, [], ◌∷◌, ◌≡◌, refl, leb, if◌then◌else◌, Bool-cases, inl, inr,
}
use edo_adapter_enterprise.Core.Config.{Settings}
use edo_adapter_enterprise.Domain.Json.{Dict, Json, text}
use edo_adapter_enterprise.Api.Sessions.{returned, http_exception}
use edo_adapter_enterprise.Security.Tokens.{
  Library, value, dictionary, claims, merge, unexpired, with_expiry, decoded, uuid_claim,
  role_claim, current_user,
}

module _ (lib : Library) (s : Settings) where
  -- The extra claims of an access token.
  abbrev pub user_claims : ℕ → String → Dict Json
  user_claims tenant role = ("tenant_id", text (lib.str_uuid tenant)) ∷ ("role", text role) ∷ []

  -- The claims of an access token would authenticate exactly its user, with the tenant and the role that it was
  -- issued with, until its time to live has passed, and nobody from then on, if they were decoded to a
  -- dictionary. This rests on Python's reading back the texts that it made of the two identifiers and of
  -- the time of expiry.
  access_claims-authenticate :
      (user tenant : ℕ) (role : String) (jti issued now : ℕ)
      → lib.uuid (lib.str_uuid user) ≡ value user
      → lib.uuid (lib.str_uuid tenant) ≡ value tenant
      → lib.fromisoformat (lib.isoformat (issued + s.access_token_ttl))
        ≡ value (issued + s.access_token_ttl)
      → current_user lib (
          decoded lib now (
            value (
              dictionary (
                merge
                  (claims lib (lib.str_uuid user) jti issued s.access_token_ttl "access")
                  (user_claims tenant role)))))
        ≡ (if leb (issued + s.access_token_ttl) now
            then http_exception 401 "Invalid token: Token expired"
            else returned (record { user_id = user; tenant_id = tenant; role = role }))
  unfolding decoded merge with_expiry unexpired current_user uuid_claim role_claim
  access_claims-authenticate user tenant role jti issued now user_read tenant_read expiry_read =
      rw (lib.str_json-text (lib.isoformat (issued + s.access_token_ttl))) (
        rw expiry_read (elim (Bool-cases (leb (issued + s.access_token_ttl) now)) [
          | inl e ↦ rw e refl
          | inr e ↦ rw e (simp (lib.str_json-text, user_read, tenant_read))
        ]))

  -- The claims of a refresh token would authenticate no request either, at no time; this rests on Python's
  -- reading back the time of expiry.
  refresh_claims-refused :
      (user jti issued now : ℕ)
      → lib.fromisoformat (lib.isoformat (issued + s.refresh_token_ttl))
        ≡ value (issued + s.refresh_token_ttl)
      → current_user lib (
          decoded lib now (
            value (
              dictionary
                (claims lib (lib.str_uuid user) jti issued s.refresh_token_ttl "refresh"))))
        ≡ http_exception 401 (
            if leb (issued + s.refresh_token_ttl) now
            then "Invalid token: Token expired"
            else "Expected access token")
  unfolding decoded with_expiry unexpired current_user
  refresh_claims-refused user jti issued now expiry_read =
      rw (lib.str_json-text (lib.isoformat (issued + s.refresh_token_ttl))) (
        rw expiry_read (elim (Bool-cases (leb (issued + s.refresh_token_ttl) now)) [
          | inl e ↦ rw e refl
          | inr e ↦ rw e refl
        ]))
