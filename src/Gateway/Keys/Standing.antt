-- ===== src/Gateway/Keys/Standing.antt =====
-- gateway/middleware/auth.py: which keys are valid after any calls.
use project_stark.Prelude.{
  ℕ, ◌≡◌, refl, ap, ◌∙◌, true, false, Option, none, some, List, [], ◌∷◌, ◌++◌, if◌then◌else◌, arith,
  Option-cases, Bool-cases, inl, inr,
}
use mathlib.Core.Logic.{ite, if_pos, if_neg}
use project_stark.Prelude.Dict.{
  find, assign, remove, Unique, find-assign_self, find-assign_ne, find-remove_self, find-remove_ne,
  remove-Unique, assign-Unique,
}
use project_stark.Prelude.Text.{String, text_dec}
use project_stark.Security.Words.{starts_with, same_words, same_words_eq}
use project_stark.Gateway.Keys.{
  ApiKey, ApiKeyManager, prefix, dev_prefix, default_entry, entry, init, create_key, verify_key,
  revoke_key, Call, creates, revokes, step, run,
}

default_prefix : (token : List ℕ) → starts_with prefix (dev_prefix ++ token) ≡ true
unfolding starts_with
default_prefix token = refl

not_default :
    (key default : List ℕ)
    → starts_with prefix key ≡ false
    → starts_with prefix default ≡ true
    → same_words key default ≡ false
not_default key default f t = elim (Bool-cases (same_words key default)) [
  | inl e ↦
      let same : starts_with prefix key ≡ true =
        ap (starts_with prefix) (same_words_eq key default e) ∙ t in
      absurd (ground (arith, f, same))
  | inr e ↦ e
]

module _ (hash_key : List ℕ → String) where
  -- What stands under a hash: the last key made with it, unless one with it was revoked since.
  unfoldable pub standing : String → List Call → Option ApiKey → Option ApiKey
  standing h [] e = e
  standing h (creates token now name rate_limit scopes ∷ calls) e =
      let new = entry token now name rate_limit scopes in
      standing h calls (ite (text_dec h (hash_key new.key)) (some new) e)
  standing h (revokes key ∷ calls) e = standing h calls (ite (text_dec h (hash_key key)) none e)

  find-assign :
      (h k : String) (e : ApiKey) (l : List (String × ApiKey))
      → find text_dec h (assign text_dec k e l) ≡ ite (text_dec h k) (some e) (find text_dec h l)
  find-assign h k e l = elim (text_dec h k) [
    | yes p ↦
        rw (if_pos _ p)
          (ap (λ x. find text_dec x (assign text_dec k e l)) p ∙ find-assign_self text_dec k e l)
    | no p ↦ rw (if_neg _ p) (find-assign_ne text_dec k h e l p)
  ]

  find-remove :
      (h k : String) (l : List (String × ApiKey))
      → Unique text_dec l
      → find text_dec h (remove text_dec k l) ≡ ite (text_dec h k) none (find text_dec h l)
  find-remove h k l u = elim (text_dec h k) [
    | yes p ↦
        rw (if_pos _ p)
          (ap (λ x. find text_dec x (remove text_dec k l)) p ∙ find-remove_self text_dec k l u)
    | no p ↦ rw (if_neg _ p) (find-remove_ne text_dec k h l p)
  ]

  revoke_key_lem :
      (h : String) (key : List ℕ) (m : ApiKeyManager)
      → Unique text_dec m.keys
      → (find text_dec h (revoke_key hash_key key m).0.keys
          ≡ ite (text_dec h (hash_key key)) none (find text_dec h m.keys))
        × Unique text_dec (revoke_key hash_key key m).0.keys
        × ((revoke_key hash_key key m).0.default_key ≡ m.default_key)
  unfolding revoke_key
  revoke_key_lem h key m u = elim (Option-cases (find text_dec (hash_key key) m.keys)) [
    | inl e ↦ rw (e, revoke_key) (nothing e, u, refl)
    | inr (k, e) ↦
        rw (e, revoke_key)
          (
            find-remove h (hash_key key) m.keys u,
            remove-Unique text_dec (hash_key key) m.keys u,
            refl,
          )
  ]
    where
      nothing :
          find text_dec (hash_key key) m.keys ≡ none
          → find text_dec h m.keys ≡ ite (text_dec h (hash_key key)) none (find text_dec h m.keys)
      nothing e = elim (text_dec h (hash_key key)) [
        | yes p ↦ rw (if_pos _ p) (ap (λ x. find text_dec x m.keys) p ∙ e)
        | no p ↦ rw (if_neg _ p) refl
      ]

  run-find :
      (h : String) (calls : List Call) (m : ApiKeyManager)
      → Unique text_dec m.keys
      → (find text_dec h (run hash_key calls m).keys ≡ standing h calls (find text_dec h m.keys))
        × ((run hash_key calls m).default_key ≡ m.default_key)
  unfolding run step standing create_key
  run-find h [] m u = (refl, refl)
  run-find h (creates token now name rate_limit scopes ∷ calls) m u =
      let new = entry token now name rate_limit scopes in
      let next = (create_key hash_key token now name rate_limit scopes m).0 in
      let (ih, d) =
        run-find h calls next (assign-Unique text_dec (hash_key new.key) new m.keys u) in
      (ih ∙ ap (standing h calls) (find-assign h (hash_key new.key) new m.keys), d)
  run-find h (revokes key ∷ calls) m u =
      let (here, unique, kept) = revoke_key_lem h key m u in
      let (ih, d) = run-find h calls (revoke_key hash_key key m).0 unique in
      (ih ∙ ap (standing h calls) here, d ∙ kept)

  -- From a new manager, after any calls that make and revoke keys, a key is verified just when it
  -- starts with the prefix and something stands under its hash: the last key made with that hash, unless
  -- a key with it was revoked since, the default key counting as the first. The test for the default
  -- key behind the one for the prefix never decides.
  pub run-verify_key :
      (token : List ℕ) (now : ℕ) (calls : List Call) (key : List ℕ)
      → let first = default_entry token now in
        verify_key hash_key key (run hash_key calls (init hash_key token now)) ≡ (
          if starts_with prefix key
          then standing
              (hash_key key)
              calls
              (ite (text_dec (hash_key first.key) (hash_key key)) (some first) none)
          else none)
  unfolding verify_key init find default_entry
  run-verify_key token now calls key =
      let m = init hash_key token now in
      let (here, d) = run-find (hash_key key) calls m (refl, tt) in
      elim (Bool-cases (starts_with prefix key)) [
        | inl t ↦ rw t here
        | inr f ↦
            let other =
              not_default key (run hash_key calls m).default_key f
                (ap (starts_with prefix) d ∙ default_prefix token) in
            rw (f, other) refl
      ]
