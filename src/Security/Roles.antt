-- ===== src/Security/Roles.antt =====
-- src/infrastructure/security/rbac.py: the permissions of the roles.
use edo_adapter_enterprise.Shared.{
  String, Bool, true, false, ◌||◌, Option, none, some, List, [], ◌∷◌, ◌≡◌, refl, subst, str_eq,
  if◌then◌else◌, Bool-cases, inl, inr,
}

pub data Role : Type 0 where
  admin viewer : Role

abbrev admin_verbs : List String
admin_verbs =
    "provider_accounts:create" ∷ "provider_accounts:delete" ∷ "provider_accounts:activate"
    ∷ "provider_accounts:deactivate" ∷ "documents:send" ∷ "documents:retry" ∷ "dlq:replay"
    ∷ "dlq:read" ∷ "incoming:poll" ∷ "providers:read" ∷ "audit:read" ∷ []

abbrev viewer_verbs : List String
viewer_verbs =
    "provider_accounts:read" ∷ "documents:read" ∷ "incoming:read" ∷ "providers:read" ∷ "audit:read"
    ∷ []

-- `verb in verbs`
unfoldable is_in : String → List String → Bool
is_in verb [] = false
is_in verb (v ∷ verbs) = str_eq verb v || is_in verb verbs

abbrev of_viewer : String → Option Role
of_viewer role = if str_eq role "viewer" then some viewer else none

-- `Role(role)`; `none` is the `ValueError`.
unfoldable of_text : String → Option Role
of_text role = if str_eq role "admin" then some admin else of_viewer role

-- A verb is in the union of two sets if it is in one of them.
unfoldable permits : Option Role → String → Bool
permits none verb = false
permits (some admin) verb = is_in verb admin_verbs || is_in verb viewer_verbs
permits (some viewer) verb = is_in verb viewer_verbs

unfoldable has_permission : String → String → Bool
has_permission role verb = permits (of_text role) verb

||-true : (a b : Bool) → b ≡ true → (a || b) ≡ true
||-true true b h = refl
||-true false b h = h

-- Whatever a role is permitted, an administrator is permitted too; so no role has more rights than "admin".
has_permission-admin :
    (role verb : String) → has_permission role verb ≡ true → has_permission "admin" verb ≡ true
unfolding has_permission of_text permits
has_permission-admin role verb h = elim (Bool-cases (str_eq role "admin")) [
  | inl e ↦ subst (λ b. permits (if b then some admin else of_viewer role) verb ≡ true) e h
  | inr e ↦
      let viewed : permits (of_viewer role) verb ≡ true =
        subst (λ b. permits (if b then some admin else of_viewer role) verb ≡ true) e h in
      elim (Bool-cases (str_eq role "viewer")) [
        | inl f ↦
            ||-true (is_in verb admin_verbs) (is_in verb viewer_verbs)
              (subst (λ b. permits (if b then some viewer else none) verb ≡ true) f viewed)
        | inr f ↦ cc (subst (λ b. permits (if b then some viewer else none) verb ≡ true) f viewed)
      ]
]
