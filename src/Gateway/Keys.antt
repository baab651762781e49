-- ===== src/Gateway/Keys.antt =====
-- `APIKeyManager` and the two middlewares of gateway/middleware/auth.py. A text that is a key is its
-- code points; `hash_key` is the hash of a key, and what `secrets.token_hex` draws is an argument. In
-- `verify_key` an empty key is one that does not start with the prefix.
pub mod Standing
mod Tests
use project_stark.Prelude.{
  ℕ, ◌≡◌, Bool, true, false, Option, none, some, List, [], ◌∷◌, ◌++◌, if◌then◌else◌,
}
use project_stark.Prelude.Dict.{find, assign, remove}
use project_stark.Prelude.Text.{String, text_dec, member}
use project_stark.Security.Words.{starts_with, same_words}
use project_stark.Gateway.RateLimiter.{RateLimiter, check, get_remaining}

pub record ApiKey : Type 0 where
  pub key : List ℕ
  pub name : String
  pub rate_limit : ℕ
  pub scopes : List String
  pub created_at : ℕ

pub record ApiKeyManager : Type 0 where
  pub keys : List (String × ApiKey)
  pub default_key : List ℕ

-- An entry of `list_keys`.
pub record KeyInfo : Type 0 where
  pub name : String
  pub scopes : List String
  pub rate_limit : ℕ

-- `"hw_"` and `"hw_dev_"`
abbrev pub prefix : List ℕ
prefix = 104 ∷ 119 ∷ 95 ∷ []

abbrev pub dev_prefix : List ℕ
dev_prefix = 104 ∷ 119 ∷ 95 ∷ 100 ∷ 101 ∷ 118 ∷ 95 ∷ []

-- `scopes or ["read"]`
unfoldable pub scopes_or : Option (List String) → List String
scopes_or none = "read" ∷ []
scopes_or (some []) = "read" ∷ []
scopes_or (some (s ∷ l)) = s ∷ l

unfoldable pub info_each : List (String × ApiKey) → List KeyInfo
info_each [] = []
info_each (e ∷ l) =
    record { name = e.1.name; scopes = e.1.scopes; rate_limit = e.1.rate_limit } ∷ info_each l

unfoldable pub default_entry : List ℕ → ℕ → ApiKey
default_entry token now = record {
  key = dev_prefix ++ token;
  name = "default";
  rate_limit = 100;
  scopes = "read" ∷ "write" ∷ [];
  created_at = now;
}

unfoldable pub entry : List ℕ → ℕ → String → ℕ → Option (List String) → ApiKey
entry token now name rate_limit scopes = record {
  key = prefix ++ token;
  name = name;
  rate_limit = rate_limit;
  scopes = scopes_or scopes;
  created_at = now;
}

module _ (hash_key : List ℕ → String) where
  unfoldable pub init : List ℕ → ℕ → ApiKeyManager
  init token now =
      let e = default_entry token now in
      record { keys = (hash_key e.key, e) ∷ []; default_key = e.key }

  unfoldable pub create_key :
      List ℕ → ℕ → String → ℕ → Option (List String) → ApiKeyManager → ApiKeyManager × List ℕ
  create_key token now name rate_limit scopes m =
      let e = entry token now name rate_limit scopes in
      (record m { keys = assign text_dec (hash_key e.key) e m.keys }, e.key)

  unfoldable pub verify_key : List ℕ → ApiKeyManager → Option ApiKey
  verify_key key m =
      if starts_with prefix key
      then find text_dec (hash_key key) m.keys
      else (if same_words key m.default_key
          then find text_dec (hash_key m.default_key) m.keys
          else none)

  unfoldable pub revoke_key : List ℕ → ApiKeyManager → ApiKeyManager × Bool
  revoke_key key m = elim (find text_dec (hash_key key) m.keys) [
    | none ↦ (m, false)
    | some e ↦ (record m { keys = remove text_dec (hash_key key) m.keys }, true)
  ]

  unfoldable pub list_keys : ApiKeyManager → List KeyInfo
  list_keys m = info_each m.keys

  -- `none` where the request's state is left as it is, and else the value of its `api_key`; the next
  -- handler is called in each case
  unfoldable pub authenticate : String → Option (List ℕ) → ApiKeyManager → Option (Option ApiKey)
  authenticate path api_key m =
      if member path ("/health" ∷ "/docs" ∷ "/openapi.json" ∷ [])
      then none
      else some (elim api_key [ none ↦ none | some key ↦ verify_key key m ])

-- The calls that change the keys.
pub data Call : Type 0 where
  creates : List ℕ → ℕ → String → ℕ → Option (List String) → Call
  revokes : List ℕ → Call

module _ (hash_key : List ℕ → String) where
  unfoldable pub step : Call → ApiKeyManager → ApiKeyManager
  step (creates token now name rate_limit scopes) m =
      (create_key hash_key token now name rate_limit scopes m).0
  step (revokes key) m = (revoke_key hash_key key m).0

  unfoldable pub run : List Call → ApiKeyManager → ApiKeyManager
  run [] m = m
  run (c ∷ calls) m = run calls (step c m)

-- What the rate limit makes of a request.
pub data Limited : Type 0 where
  exempt : Limited
  too_many : Limited
  passed : ℕ → Limited

-- `RateLimitMiddleware.dispatch`; `later` is the time of its second reading
unfoldable pub limit_rate :
    ℕ → ℕ → String → Option String → RateLimiter String → RateLimiter String × Limited
limit_rate now later path host l =
    let client_id : String = elim host [ none ↦ "unknown" | some h ↦ h ] in
    let (l', may) = check text_dec now client_id l in
    if member path ("/health" ∷ "/docs" ∷ "/openapi.json" ∷ [])
    then (l, exempt)
    else (if may then (l', passed (get_remaining text_dec later client_id l')) else (l', too_many))
