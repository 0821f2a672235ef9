-- ===== src/Security/Seed.antt =====
-- src/scripts/seed_demo_users.py: the tenant and the users for development. `hash` is `hash_password`, given the salt
-- that bcrypt draws. A row that was found is the object that is changed, so that the change is to that row alone.
pub mod Access
use edo_adapter_enterprise.Shared.{
  ℕ, ◌≡◌, refl, String, Bool, true, false, ◌&&◌, Option, none, some, List, [], ◌∷◌, str_eq,
  str_eq_iff, str_eq_refl, if◌then◌else◌, arith, Option-cases, inl, inr, ◌∙◌, is_some,
}
use edo_adapter_enterprise.Shared.Tables.{select_one, add}
use edo_adapter_enterprise.Security.Login.{ApiUser}

pub record Tenant : Type 0 where
  pub id : ℕ
  pub name : String
  pub slug : String
  pub is_active : Bool

pub record Tables : Type 0 where
  pub tenants : List Tenant
  pub users : List ApiUser

-- The first row that passes a test is changed.
abbrev update_first {ℓ} : {A : Type ℓ} → (A → Bool) → (A → A) → List A → List A
update_first p f [] = []
update_first p f (x ∷ xs) = let rest = update_first p f xs in if p x then f x ∷ xs else x ∷ rest

abbrev has_email : String → ApiUser → Bool
has_email email u = str_eq u.email email

abbrev is_demo : Tenant → Bool
is_demo t = str_eq t.slug "demo-corp"

-- What `_ensure_user` sets.
abbrev as_user : ℕ → String → String → ApiUser → ApiUser
as_user tenant_id hashed role u = record u {
  tenant_id = tenant_id;
  hashed_password = hashed;
  role = role;
  is_active = true;
}

abbrev new_user : ℕ → ℕ → String → String → String → ApiUser
new_user id tenant_id email hashed role = record {
  id = id;
  tenant_id = tenant_id;
  email = email;
  hashed_password = hashed;
  role = role;
  is_active = true;
}

-- The branches of `_ensure_user`, with the hash of the password: the users, and whether one was created.
abbrev ensured :
    ℕ → ℕ → String → String → String → List ApiUser → Option ApiUser → List ApiUser × Bool
ensured id tenant_id email hashed role users none =
    (add (new_user id tenant_id email hashed role) users, true)
ensured id tenant_id email hashed role users (some u) =
    (update_first (has_email email) (as_user tenant_id hashed role) users, false)

unfoldable ensure_user : ℕ → ℕ → String → String → String → List ApiUser → List ApiUser × Bool
ensure_user id tenant_id email hashed role users =
    ensured id tenant_id email hashed role users (select_one (has_email email) users)

-- The tenant: the tenants, and the identifier of the demo tenant.
unfoldable pub ensure_tenant : ℕ → List Tenant → List Tenant × ℕ
ensure_tenant id tenants = elim (select_one is_demo tenants) [
  | none ↦ (
    add (record { id = id; name = "Demo Corp"; slug = "demo-corp"; is_active = true }) tenants,
    id,
  )
  | some t ↦
      (update_first is_demo (λ t. record t { name = "Demo Corp"; is_active = true }) tenants, t.id)
]

-- `seed`: `fresh` gives the new identifiers and `salt` the salts.
unfoldable pub seed : (ℕ → String → String) → (ℕ → ℕ) → (ℕ → ℕ) → Tables → Tables
unfolding ensure_tenant ensure_user
seed hash fresh salt db =
    let (tenants, tenant_id) = ensure_tenant (fresh 0) db.tenants in
    let admins =
      (ensure_user (fresh 1) tenant_id "admin@demo.corp" (hash (salt 0) "admin1234!") "admin"
        db.users).0 in
    record {
      tenants = tenants;
      users =
          (ensure_user (fresh 2) tenant_id "viewer@demo.corp" (hash (salt 1) "viewer1234!") "viewer"
            admins).0;
    }

-- The SELECT of `login`.
abbrev active_email : String → ApiUser → Bool
active_email email u = str_eq u.email email && u.is_active

select_one-update_first :
    (email : String) (f : ApiUser → ApiUser) (users : List ApiUser) (u : ApiUser)
    → ((v : ApiUser) → (f v).email ≡ v.email)
    → ((v : ApiUser) → (f v).is_active ≡ true)
    → select_one (has_email email) users ≡ some u
    → select_one (active_email email) (update_first (has_email email) f users) ≡ some (f u)
select_one-update_first email f [] u keeps active h = absurd (ground arith)
select_one-update_first email f (x ∷ xs) u keeps active h =
    ground (arith, keeps x, active x, select_one-update_first email f xs u keeps active)

-- A change to the user of another address.
select_one-update_first_other :
    (email other : String) (f : ApiUser → ApiUser) (users : List ApiUser)
    → ((v : ApiUser) → (f v).email ≡ v.email)
    → str_eq email other ≡ false
    → select_one (active_email email) (update_first (has_email other) f users)
      ≡ select_one (active_email email) users
select_one-update_first_other email other f [] keeps differ = refl
select_one-update_first_other email other f (x ∷ xs) keeps differ = ground (
  arith,
  keeps x,
  str_eq_iff x.email other,
  str_eq_iff x.email email,
  str_eq_iff (f x).email email,
  str_eq_iff email other,
  select_one-update_first_other email other f xs keeps differ,
)

select_one-add :
    (p q : ApiUser → Bool) (u : ApiUser) (users : List ApiUser)
    → ((v : ApiUser) → p v ≡ false → q v ≡ false)
    → select_one p users ≡ none
    → q u ≡ true
    → select_one q (add u users) ≡ some u
select_one-add p q u [] none_found h e = ground arith
select_one-add p q u (x ∷ xs) none_found h e =
    ground (arith, none_found x, select_one-add p q u xs none_found)

select_one-add_other :
    (q : ApiUser → Bool) (u : ApiUser) (users : List ApiUser)
    → q u ≡ false
    → select_one q (add u users) ≡ select_one q users
select_one-add_other q u [] e = ground arith
select_one-add_other q u (x ∷ xs) e = ground (arith, select_one-add_other q u xs e)

-- The user that a login with an address finds: one with this tenant, this hash and this role.
abbrev Finds : String → ℕ → String → String → List ApiUser → Type 0
Finds email tenant_id hashed role users =
    (u : ApiUser) × (select_one (active_email email) users ≡ some u)
    × (u.tenant_id ≡ tenant_id)
    × (u.hashed_password ≡ hashed)
    × (u.role ≡ role)

module _ (id tenant_id : ℕ) (email hashed role : String) (users : List ApiUser) where
  ensured-Finds :
      (found : Option ApiUser)
      → select_one (has_email email) users ≡ found
      → Finds email tenant_id hashed role (ensured id tenant_id email hashed role users found).0
  ensured-Finds none e = (
    new_user id tenant_id email hashed role,
    select_one-add (has_email email) (active_email email) (new_user id tenant_id email hashed role)
        users (λ v h. ground arith) e (rw (str_eq_refl email) refl),
    refl,
    refl,
    refl,
  )
  ensured-Finds (some u) e = (
    as_user tenant_id hashed role u,
    select_one-update_first email (as_user tenant_id hashed role) users u (λ v. refl) (λ v. refl) e,
    refl,
    refl,
    refl,
  )

  ensure_user-Finds :
      Finds email tenant_id hashed role (ensure_user id tenant_id email hashed role users).0
  unfolding ensure_user
  ensure_user-Finds = ensured-Finds (select_one (has_email email) users) refl

  -- The user of another address is found as before.
  ensured_other :
      (other : String) (found : Option ApiUser)
      → str_eq other email ≡ false
      → select_one (active_email other) (ensured id tenant_id email hashed role users found).0
        ≡ select_one (active_email other) users
  ensured_other other none differ =
      select_one-add_other (active_email other) (new_user id tenant_id email hashed role) users
        (ground (arith, str_eq_iff email other, str_eq_iff other email))
  ensured_other other (some u) differ =
      select_one-update_first_other other email (as_user tenant_id hashed role) users (λ v. refl)
        differ

  ensure_user-Finds_other :
      (other : String) (t : ℕ) (h r : String)
      → str_eq other email ≡ false
      → Finds other t h r users
      → Finds other t h r (ensure_user id tenant_id email hashed role users).0
  unfolding ensure_user
  ensure_user-Finds_other other t h r differ (u, found, tenant, hash, role_of) = (
    u,
    ensured_other other (select_one (has_email email) users) differ ∙ found,
    tenant,
    hash,
    role_of,
  )

-- After a seeding, of an empty database or once more, a login with either address of the demo users finds a user of
-- the demo tenant with the role and the hash of the password that the script prints.
pub seed-Finds :
    (hash : ℕ → String → String) (fresh salt : ℕ → ℕ) (db : Tables)
    → let users = (seed hash fresh salt db).users in
      let tenant_id = (ensure_tenant (fresh 0) db.tenants).1 in
      Finds "admin@demo.corp" tenant_id (hash (salt 0) "admin1234!") "admin" users
      × Finds "viewer@demo.corp" tenant_id (hash (salt 1) "viewer1234!") "viewer" users
unfolding seed
seed-Finds hash fresh salt db =
    let tenant_id = (ensure_tenant (fresh 0) db.tenants).1 in
    let admin = hash (salt 0) "admin1234!" in
    let viewer = hash (salt 1) "viewer1234!" in
    let admins = (ensure_user (fresh 1) tenant_id "admin@demo.corp" admin "admin" db.users).0 in
    (
      ensure_user-Finds_other (fresh 2) tenant_id "viewer@demo.corp" viewer "viewer" admins
          "admin@demo.corp" tenant_id admin "admin" refl
          (ensure_user-Finds (fresh 1) tenant_id "admin@demo.corp" admin "admin" db.users),
      ensure_user-Finds (fresh 2) tenant_id "viewer@demo.corp" viewer "viewer" admins,
    )
