-- ===== src/Cache/Lru/Tests.antt =====
-- Runs of the memory cache, and its theorems at concrete inputs.
use native.Mathlib.Decide.{ℕ_discrete as dec}
use project_stark.Prelude.{ℕ, ◌+◌, ◌≡◌, refl, none, some, List, [], ◌∷◌, arith, if◌then◌else◌}
use project_stark.Prelude.Dict.{find, keys, contains, remove, assign, move_to_end}
use project_stark.Cache.Lru.{
  Entry, Lru, Call, gets, sets, init, expired, get, set, delete, exists, clear, step, run,
}
use project_stark.Cache.Lru.Invariant.{IsValid, run-empty-IsValid}
use project_stark.Cache.Lru.Reads.{readable, get-set}

program : Unit {0}
unfolding init get set delete exists clear step run expired find contains remove assign move_to_end
    dec
program = tt

abbrev calls : List (Call ℕ ℕ)
calls = sets 0 1 10 none ∷ sets 1 2 20 (some 5) ∷ gets 2 1 ∷ []

abbrev full : Lru ℕ ℕ
full = run dec (init 2) calls

-- The read of 1 makes 2 the least recently used key, so a third key takes its place.
evicts_oldest : keys (run dec full (sets 3 3 30 none ∷ [])).store ≡ 1 ∷ 3 ∷ []
unfolding program
evicts_oldest = refl

expires : (get dec 6 2 full).1 ≡ some 20
unfolding program
expires = refl

expired_after : (get dec 7 2 full).1 ≡ none
unfolding program
expired_after = refl

full-IsValid : IsValid dec full
full-IsValid = run-empty-IsValid dec 2 calls

full_size : full.max_size ≡ 2
unfolding program
full_size = refl

run-empty-IsValid_example : IsValid dec (run dec (init 2) calls)
run-empty-IsValid_example = run-empty-IsValid dec 2 calls

get-set_example :
    (get dec 5 3 (set dec 3 3 30 (some 2) full).0).1
    ≡ (if readable (full.sets + 1) (some 2) 3 5 then some 30 else none)
get-set_example =
    get-set dec 3 5 3 30 (some 2) full full-IsValid (rw full_size (omega arith)) (omega arith)

abbrev entry : Entry ℕ
entry = record { value = 20; expiry = some 6 }
