-- ===== src/Cache/Backend.antt =====
-- `CacheBackend` of core_engine/cache/manager.py: what the composite and the manager ask of a tier,
-- and what they may rely on. `none` in place of an answer is an exception; the `get` and `exists` of
-- the three backends catch their own.
use project_stark.Prelude.{ℕ, ◌<◌, ◌≡◌, Bool, true, Option, none, some}

pub record Backend (K V T : Type 0) : Type 0 where
  pub get : ℕ → K → T → T × Option V
  pub set : ℕ → K → V → Option ℕ → T → T × Option Bool
  pub delete : K → T → T × Option Bool
  pub exists : ℕ → K → T → T × Bool
  pub clear : T → T × Option ℕ

-- A time to live that does not end at once.
abbrev pub IsLasting : Option ℕ → Type 0
IsLasting none = Unit
IsLasting (some t) = 0 < t

-- A tier that is `Good` gives back at once what it has stored, gives back again what it has given,
-- and stays good.
pub record Reliable {K V T : Type 0} (b : Backend K V T) (Good : T → Type 0) : Type 0 where
  pub get-set :
      (now : ℕ) (key : K) (value : V) (ttl : Option ℕ) (t : T)
      → Good t
      → IsLasting ttl
      → (b.set now key value ttl t).1 ≡ some true
      → (b.get now key (b.set now key value ttl t).0).1 ≡ some value
  pub get-get :
      (now : ℕ) (key : K) (value : V) (t : T)
      → Good t
      → (b.get now key t).1 ≡ some value
      → (b.get now key (b.get now key t).0).1 ≡ some value
  pub get-Good : (now : ℕ) (key : K) (t : T) → Good t → Good (b.get now key t).0
