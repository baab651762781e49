-- ===== src/Gateway/Keys/Tests.antt =====
-- A key that is made, verified and revoked.
use project_stark.Prelude.{ℕ, ◌≡◌, refl, none, some, [], ◌∷◌, ◌++◌, List, keep_if, if◌then◌else◌}
use mathlib.Core.Logic.{ite}
use project_stark.Prelude.Dict.{find, assign, remove}
use project_stark.Prelude.Text.{String, text_dec, member}
use project_stark.Security.Words.{starts_with}
use project_stark.Gateway.RateLimiter as Limits
use project_stark.Gateway.Keys.{
  prefix, default_entry, entry, init, create_key, verify_key, revoke_key, Call, creates, revokes,
  step, run, limit_rate, too_many,
}
use project_stark.Gateway.Keys.Standing.{standing, run-verify_key}

-- A hash that tells short keys apart from long ones.
abbrev hash_key : List ℕ → String
hash_key (a ∷ b ∷ c ∷ d ∷ e ∷ l) = "long"
hash_key t = "short"

abbrev calls : List Call
calls = creates (1 ∷ []) 5 "mine" 10 none ∷ []

abbrev key : List ℕ
key = 104 ∷ 119 ∷ 95 ∷ 1 ∷ []

made_test :
    verify_key hash_key key (run hash_key calls (init hash_key (7 ∷ []) 0))
    ≡ some (entry (1 ∷ []) 5 "mine" 10 none)
unfolding verify_key run step create_key init find assign starts_with text_dec entry default_entry
made_test = refl

revoked_test :
    verify_key hash_key key (run hash_key (calls ++ revokes key ∷ []) (init hash_key (7 ∷ []) 0))
    ≡ none
unfolding verify_key run step create_key revoke_key init find assign remove starts_with text_dec
    entry default_entry
revoked_test = refl

limited_test : (limit_rate 3 3 "/chat" none (Limits.init 0 60)).1 ≡ too_many
unfolding limit_rate Limits.check Limits.init find member text_dec keep_if
limited_test = refl

run-verify_key_example :
    let first = default_entry (7 ∷ []) 0 in
    verify_key hash_key key (run hash_key calls (init hash_key (7 ∷ []) 0)) ≡ (
      if starts_with prefix key
      then standing hash_key
          (hash_key key)
          calls
          (ite (text_dec (hash_key first.key) (hash_key key)) (some first) none)
      else none)
run-verify_key_example = run-verify_key hash_key (7 ∷ []) 0 calls key
