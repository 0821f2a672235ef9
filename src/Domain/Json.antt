-- ===== src/Domain/Json.antt =====
-- A value of JSON, and Python's `dict` with text keys, in insertion order.
use edo_adapter_enterprise.Shared.{
  ℕ, String, Bool, Option, none, some, List, [], ◌∷◌, str_eq, str_eq_iff, if◌then◌else◌, ◌≡◌, refl,
  arith,
}

mutual
  pub data Json : Type 0 where
    null : Json
    flag : Bool → Json
    number : ℕ → Json
    text : String → Json
    array : Items → Json
    object : Fields → Json

  pub data Items : Type 0 where
    nil : Items
    cons : Json → Items → Items

  pub data Fields : Type 0 where
    end : Fields
    field : String → Json → Fields → Fields

abbrev pub Dict {ℓ} : Type ℓ → Type ℓ
Dict V = List (String × V)

module _ {ℓ} {V : Type ℓ} where
  -- `d.get(key)`
  abbrev pub get : String → Dict V → Option V
  get key [] = none
  get key ((k, v) ∷ d) = let rest = get key d in if str_eq k key then some v else rest

  -- `d[key] = value`
  abbrev pub set : String → V → Dict V → Dict V
  set key v [] = (key, v) ∷ []
  set key v ((k, w) ∷ d) =
      let rest = set key v d in if str_eq k key then (k, v) ∷ d else (k, w) ∷ rest

  -- `payload or {}`
  abbrev pub or_empty : Option (Dict V) → Dict V
  or_empty none = []
  or_empty (some d) = d

  pub get-set_any :
      (key k : String) (v : V) (d : Dict V)
      → get k (set key v d) ≡ (if str_eq key k then some v else get k d)
  get-set_any key k v [] = refl
  get-set_any key k v ((j, w) ∷ d) =
      ground (arith, str_eq_iff j key, str_eq_iff j k, str_eq_iff key k, get-set_any key k v d)
