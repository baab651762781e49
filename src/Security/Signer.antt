-- ===== src/Security/Signer.antt =====
-- `RequestSigner` of core_engine/security/validator.py. The HMAC with its hexadecimal digits, `str`
-- and `float` of a time, and `json.dumps` are parameters. The clock is a number of ticks; a call reads
-- it for the check and again for the removal of old nonces. What `float` makes of a text is a
-- number of ticks, an infinity or NaN, or it raises. The letters of a signature are ASCII.
pub mod Replay
pub mod Mismatch
use project_stark.Prelude.{
  ℕ, ◌+◌, ◌≡◌, Bool, true, false, ◌||◌, Option, none, some, List, [], ◌∷◌, ◌++◌, take, ltb,
  if◌then◌else◌,
}
use project_stark.Prelude.Int.{ℤ, above, below}
use project_stark.Prelude.Dict.{find, assign}
use project_stark.Security.Words.{words_dec, same_words, split_once}

pub record RequestSigner : Type 0 where
  pub secret : List ℕ
  pub nonce_store : List (List ℕ × ℕ)
  pub nonce_ttl : ℕ

-- A float that is read as a time; `infinity` is either one.
pub data Time : Type 0 where
  at : ℤ → Time
  infinity : Bool → Time
  nan : Time

-- `abs(now - ts) > tolerance`: NaN compares false with everything
unfoldable pub is_stale : ℕ → Time → ℕ → Bool
is_stale now nan tolerance = false
is_stale now (infinity negative) tolerance = true
is_stale now (at ts) tolerance =
    ltb (above ts + tolerance) (now + below ts) || ltb (now + below ts + tolerance) (above ts)

-- the entries that `_cleanup_old_nonces` leaves
unfoldable pub cleanup : ℕ → ℕ → List (List ℕ × ℕ) → List (List ℕ × ℕ)
cleanup now ttl [] = []
cleanup now ttl (e ∷ l) =
    let rest = cleanup now ttl l in if ltb (e.1 + ttl) now then rest else e ∷ rest

unfoldable pub cleanup_old_nonces : ℕ → RequestSigner → RequestSigner
cleanup_old_nonces now s = record s { nonce_store = cleanup now s.nonce_ttl s.nonce_store }

module _ {J : Type 0} (hmac : List ℕ → List ℕ → List ℕ) (str : Time → List ℕ)
    (float : List ℕ → Option Time) (dumps : J → List ℕ) where
  unfoldable pub digest : RequestSigner → Time → J → List ℕ
  digest s ts payload = hmac s.secret (str ts ++ b'.' ∷ dumps payload)

  unfoldable pub sign_request : RequestSigner → J → Time → List ℕ
  sign_request s payload ts = str ts ++ b'.' ∷ digest s ts payload

  -- `ts_str, sig = signature.split('.', 1)` and `ts = float(ts_str)`
  unfoldable pub read_signature : List ℕ → Option (Time × List ℕ)
  read_signature signature = elim (split_once b'.' signature) [
    | none ↦ none
    | some (ts_str, sig) ↦ elim (float ts_str) [ none ↦ none | some ts ↦ some (ts, sig) ]
  ]

  unfoldable pub nonce : Time → List ℕ → List ℕ
  nonce ts sig = str ts ++ b':' ∷ take 16 sig

  -- from the check of freshness on
  unfoldable pub verify_parts : ℕ → ℕ → J → Time → List ℕ → ℕ → RequestSigner → RequestSigner × Bool
  verify_parts now later payload ts sig tolerance s =
      if is_stale now ts tolerance
      then (s, false)
      else elim (find words_dec (nonce ts sig) s.nonce_store) [
        | some seen ↦ (s, false)
        | none ↦ (
          cleanup_old_nonces later
              (record s { nonce_store = assign words_dec (nonce ts sig) now s.nonce_store }),
          same_words sig (digest s ts payload),
        )
      ]

  unfoldable pub verify_request : ℕ → ℕ → J → List ℕ → ℕ → RequestSigner → RequestSigner × Bool
  verify_request now later payload signature tolerance s = elim (read_signature signature) [
    | none ↦ (s, false)
    | some (ts, sig) ↦ verify_parts now later payload ts sig tolerance s
  ]
