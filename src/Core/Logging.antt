-- ===== src/Core/Logging.antt =====
-- src/core/logging.py: the processor that hides what a log event should not show. `lower` is `str.lower`.
use edo_adapter_enterprise.Shared.{
  ◌≡◌, refl, String, Bool, false, ◌||◌, ◌&&◌, some, List, [], ◌∷◌, str_eq, str_eq_iff, is_some,
  contains, if◌then◌else◌, arith,
}
use edo_adapter_enterprise.Domain.Json.{Json, Dict, get, set, get-set_any, text}

abbrev sensitive : List String
sensitive =
    "password" ∷ "token" ∷ "secret" ∷ "credential" ∷ "authorization" ∷ "hashed_password" ∷ []

abbrev contains_any : List String → String → Bool
contains_any [] key = false
contains_any (s ∷ rest) key = contains s key || contains_any rest key

abbrev pub masked : Json
masked = text "***MASKED***"

abbrev keys : Dict Json → List String
keys [] = []
keys ((k, v) ∷ d) = k ∷ keys d

module _ (lower : String → String) where
  -- `any(s in key.lower() for s in sensitive)`
  unfoldable pub is_sensitive : String → Bool
  is_sensitive key = contains_any sensitive (lower key)

  -- The loop over the keys.
  abbrev mask_each : List String → Dict Json → Dict Json
  mask_each [] event_dict = event_dict
  mask_each (key ∷ rest) event_dict =
      mask_each rest (if is_sensitive key then set key masked event_dict else event_dict)

  -- `_mask_sensitive`
  unfoldable pub mask_sensitive : Dict Json → Dict Json
  mask_sensitive event_dict = mask_each (keys event_dict) event_dict

  abbrev has : String → List String → Bool
  has name [] = false
  has name (k ∷ ks) = str_eq k name || has name ks

  get-mask_each :
      (name : String) (ks : List String) (d : Dict Json)
      → get name (mask_each ks d)
        ≡ (if has name ks && is_sensitive name then some masked else get name d)
  get-mask_each name [] d = refl
  get-mask_each name (k ∷ ks) d = ground (
    arith,
    get-mask_each name ks (if is_sensitive k then set k masked d else d),
    get-set_any k name masked d,
    str_eq_iff k name,
  )

  has-keys : (name : String) (d : Dict Json) → has name (keys d) ≡ is_some (get name d)
  has-keys name [] = refl
  has-keys name ((k, v) ∷ d) = ground (arith, has-keys name d)

  -- The value of a key is masked in the event that is logged exactly when the lower-cased key contains one of
  -- the six sensitive words; every other value stays, and no key comes or goes.
  pub get-mask_sensitive :
      (name : String) (event_dict : Dict Json)
      → get name (mask_sensitive event_dict) ≡ (
          if (contains "password" (lower name)
              || (contains "token" (lower name)
                  || (contains "secret" (lower name)
                      || (contains "credential" (lower name)
                          || (contains "authorization" (lower name)
                              || contains "hashed_password" (lower name))))))
            && is_some (get name event_dict)
          then some masked
          else get name event_dict)
  unfolding mask_sensitive is_sensitive
  get-mask_sensitive name event_dict =
      ground (arith, get-mask_each name (keys event_dict) event_dict, has-keys name event_dict)
