-- ===== src/Core/Environment.antt =====
-- src/core/config.py: the settings that are texts: the addresses of the database and of Redis, the origins that
-- CORS allows, and the check of the secret. The text of the origins is its code points; `loads` gives the texts
-- of the elements that `json.loads` reads, or what it raises.
use edo_adapter_enterprise.Shared.{
  ℕ, ◌≡◌, refl, String, Bool, true, false, not, List, [], ◌∷◌, ◌++◌, map, concat, ltb, ◌==◌,
  if◌then◌else◌, filter, All, All-append, ap, ◌∙◌,
}
use edo_adapter_enterprise.Shared.Results.{Result, ok, err, value_error, ◌>>=◌}
use edo_adapter_enterprise.Shared.Comprehensions.{All-imp}
use edo_adapter_enterprise.Domain.Inn.{Unicode, strip}
use edo_adapter_enterprise.Domain.Inn.Reading.{NoSpaces, strip-NoSpaces}

-- Numbers stand as their texts.
pub record Addresses : Type 0 where
  pub postgres_host : String
  pub postgres_port : String
  pub postgres_db : String
  pub postgres_user : String
  pub postgres_password : String
  pub redis_host : String
  pub redis_port : String
  pub redis_password : String
  pub redis_db : String

abbrev postgres : Addresses → String
postgres s = concat s.postgres_user (
    concat ":" (
      concat s.postgres_password (
        concat "@" (
          concat s.postgres_host
            (concat ":" (concat s.postgres_port (concat "/" s.postgres_db)))))))

database_url : Addresses → String
database_url s = concat "postgresql+asyncpg://" (postgres s)

sync_database_url : Addresses → String
sync_database_url s = concat "postgresql+psycopg2://" (postgres s)

redis_url : Addresses → String
redis_url s = concat "redis://:" (
    concat s.redis_password
      (concat "@" (concat s.redis_host (concat ":" (concat s.redis_port (concat "/" s.redis_db))))))

-- `_validate_secret_length`, for the length of the secret.
validate_secret_length : ℕ → Result ℕ
validate_secret_length n = if ltb n 32 then err value_error else ok n

abbrev comma : ℕ
comma = b','

abbrev prepend : ℕ → List (List ℕ) → List (List ℕ)
prepend c [] = (c ∷ []) ∷ []
prepend c (w ∷ ws) = (c ∷ w) ∷ ws

-- `value.split(",")`
unfoldable split : List ℕ → List (List ℕ)
split [] = [] ∷ []
split (c ∷ cs) = let rest = split cs in if c == comma then [] ∷ rest else prepend c rest

abbrev is_empty : List ℕ → Bool
is_empty [] = true
is_empty (_ ∷ _) = false

module _ (u : Unicode) (loads : List ℕ → Result (List (List ℕ))) where
  -- `[origin.strip() for origin in origins if origin.strip()]`
  abbrev clean : List (List ℕ) → List (List ℕ)
  clean origins = filter (λ o. not (is_empty o)) (map (strip u) origins)

  -- What is read of the stripped text: nothing, an array of JSON, or a list with commas.
  unfoldable pub read_origins : List ℕ → Result (List (List ℕ))
  unfolding split
  read_origins [] = ok []
  read_origins (c ∷ cs) =
      if c == b'['
      then (loads (c ∷ cs) >>= λ parsed. ok (clean parsed))
      else ok (clean (split (c ∷ cs)))

  -- `cors_allow_origins`
  unfoldable pub cors_allow_origins : List ℕ → Result (List (List ℕ))
  cors_allow_origins raw = read_origins (strip u raw)

-- Origins as they are written in the environment: with a comma between two of them.
abbrev pub join : List (List ℕ) → List ℕ
join [] = []
join (o ∷ []) = o
join (o ∷ p ∷ rest) = o ++ comma ∷ join (p ∷ rest)

abbrev NoComma : List ℕ → Type 0
NoComma = All (λ c. (c == comma) ≡ false)

-- A text before a comma is the first part.
split-comma : (o rest : List ℕ) → NoComma o → split (o ++ comma ∷ rest) ≡ o ∷ split rest
unfolding split
split-comma [] rest h = refl
split-comma (c ∷ cs) rest h = rw h.0 (rw (split-comma cs rest h.1) refl)

split-word : (o : List ℕ) → NoComma o → split o ≡ o ∷ []
unfolding split
split-word [] h = refl
split-word (c ∷ cs) h = rw h.0 (rw (split-word cs h.1) refl)

split-join :
    (o : List ℕ) (rest : List (List ℕ))
    → All NoComma (o ∷ rest)
    → split (join (o ∷ rest)) ≡ o ∷ rest
split-join o [] h = split-word o h.0
split-join o (p ∷ rest) h =
    split-comma o (join (p ∷ rest)) h.0 ∙ ap (λ l. o ∷ l) (split-join p rest h.1)

module _ (u : Unicode) (loads : List ℕ → Result (List (List ℕ))) where
  -- An origin as it is written: not empty, and with neither white space nor a comma.
  abbrev IsOrigin : List ℕ → Type 0
  IsOrigin o = NoSpaces u o × NoComma o × (is_empty o ≡ false)

  NoSpaces-join :
      u.is_space comma ≡ false → (os : List (List ℕ)) → All IsOrigin os → NoSpaces u (join os)
  NoSpaces-join mark [] h = tt
  NoSpaces-join mark (o ∷ []) h = h.0.0
  NoSpaces-join mark (o ∷ p ∷ rest) h =
      All-append (λ c. u.is_space c ≡ false) o (comma ∷ join (p ∷ rest)) h.0.0
        (mark, NoSpaces-join mark (p ∷ rest) h.1)

  clean_lem : (os : List (List ℕ)) → All IsOrigin os → clean u loads os ≡ os
  clean_lem [] h = refl
  clean_lem (o ∷ os) h =
      rw (strip-NoSpaces u o h.0.0) (rw h.0.2 (ap (λ l. o ∷ l) (clean_lem os h.1)))

  join-head :
      (c : ℕ) (cs : List ℕ) (rest : List (List ℕ))
      → (tail : List ℕ) × (join ((c ∷ cs) ∷ rest) ≡ c ∷ tail)
  join-head c cs [] = (cs, refl)
  join-head c cs (p ∷ rest) = (cs ++ comma ∷ join (p ∷ rest), refl)

  read_origins_lem :
      (v : List ℕ) (c : ℕ) (tail : List ℕ)
      → v ≡ c ∷ tail
      → (c == b'[') ≡ false
      → read_origins u loads v ≡ ok (clean u loads (split v))
  unfolding read_origins
  read_origins_lem v c tail e first = rw e (rw first refl)

  -- Origins that are written with commas between them are read back as they are, in their order, if no origin
  -- is empty or has white space or a comma in it, and the first does not begin with a bracket. (A comma
  -- is no white space.)
  pub cors_allow_origins-join :
      (c : ℕ) (cs : List ℕ) (rest : List (List ℕ))
      → u.is_space comma ≡ false
      → All IsOrigin ((c ∷ cs) ∷ rest)
      → (c == b'[') ≡ false
      → cors_allow_origins u loads (join ((c ∷ cs) ∷ rest)) ≡ ok ((c ∷ cs) ∷ rest)
  unfolding cors_allow_origins
  cors_allow_origins-join c cs rest mark h first =
      let v = join ((c ∷ cs) ∷ rest) in
      let (tail, e) = join-head c cs rest in
      rw (strip-NoSpaces u v (NoSpaces-join mark ((c ∷ cs) ∷ rest) h)) (
        read_origins_lem v c tail e first
        ∙ ap (λ l. ok (clean u loads l))
            (split-join (c ∷ cs) rest (All-imp IsOrigin NoComma (λ o w. w.1) ((c ∷ cs) ∷ rest) h))
        ∙ ap ok (clean_lem ((c ∷ cs) ∷ rest) h))
