-- ===== src/Security/Signer/Replay.antt =====
-- No request is accepted twice by `verify_request`.
use project_stark.Prelude.{
  ℕ, ◌+◌, ◌≤◌, ◌<◌, ◌≡◌, ◌≢◌, refl, sym, ap, ◌∙◌, Bool, true, false, Option, some, List, [], ◌∷◌,
  arith, Bool-cases, Option-cases, inl, inr, ◌⊎◌, ltb,
}
use mathlib.Core.Path.{subst}
use project_stark.Prelude.Dict.{find, assign, find-assign_self, find-assign_ne}
use project_stark.Security.Words.{words_dec}
use project_stark.Security.Signer.{
  Time, nan, infinity, at, RequestSigner, is_stale, cleanup, cleanup_old_nonces, read_signature,
  nonce, verify_parts, verify_request,
}

find-cleanup :
    (k : List ℕ) (now ttl : ℕ) (l : List (List ℕ × ℕ)) (v : ℕ)
    → find words_dec k l ≡ some v
    → now ≤ v + ttl
    → find words_dec k (cleanup now ttl l) ≡ some v
unfolding find cleanup
find-cleanup k now ttl [] v e h = absurd (ground arith)
find-cleanup k now ttl (x ∷ l) v e h = elim (words_dec x.0 k) [
  | yes p ↦ ground arith
  | no p ↦ let ih = find-cleanup k now ttl l v (ground arith) h in ground arith
]

-- At the time `t` the nonce `k`, seen at `first`, is stored with a time not before that, or it is
-- older than a nonce is kept.
Remembers : List ℕ → ℕ → ℕ → RequestSigner → Type 0
Remembers k first t s =
    ((v : ℕ) × (find words_dec k s.nonce_store ≡ some v) × (first ≤ v)) ⊎ (first + s.nonce_ttl < t)

Remembers-later :
    (k : List ℕ) (first t u : ℕ) (s : RequestSigner)
    → t ≤ u
    → Remembers k first t s
    → Remembers k first u s
unfolding Remembers
Remembers-later k first t u s h (inl r) = inl r
Remembers-later k first t u s h (inr r) = inr (omega arith)

cleanup-Remembers :
    (k : List ℕ) (first later v : ℕ) (s : RequestSigner)
    → find words_dec k s.nonce_store ≡ some v
    → first ≤ v
    → Remembers k first later (cleanup_old_nonces later s)
unfolding Remembers cleanup_old_nonces
cleanup-Remembers k first later v s e h = elim (Bool-cases (ltb (v + s.nonce_ttl) later)) [
  | inl old ↦ inr (ground arith)
  | inr kept ↦ inl (v, find-cleanup k later s.nonce_ttl s.nonce_store v e (ground arith), h)
]

store-Remembers :
    (k q : List ℕ) (first t now later : ℕ) (s : RequestSigner)
    → first ≤ t
    → t ≤ now
    → now ≤ later
    → Remembers k first t s
    → Remembers k first later
        (cleanup_old_nonces later (record s { nonce_store = assign words_dec q now s.nonce_store }))
unfolding Remembers cleanup_old_nonces
store-Remembers k q first t now later s a b c (inr r) = inr (omega arith)
store-Remembers k q first t now later s a b c (inl (v, e, h)) = elim (words_dec k q) [
  | yes p ↦
      cleanup-Remembers k first later now
        (record s { nonce_store = assign words_dec q now s.nonce_store })
        (ap (λ (x : List ℕ). find words_dec x (assign words_dec q now s.nonce_store)) p
          ∙ find-assign_self words_dec q now s.nonce_store)
        (omega arith)
  | no p ↦
      cleanup-Remembers k first later v
        (record s { nonce_store = assign words_dec q now s.nonce_store })
        (find-assign_ne words_dec q k now s.nonce_store p ∙ e) h
]

-- A call of `verify_request`, with the two times that it reads.
pub record Attempt (J : Type 0) : Type 0 where
  pub now : ℕ
  pub later : ℕ
  pub payload : J
  pub signature : List ℕ
  pub tolerance : ℕ

-- The clock does not go back.
abbrev pub InTime : {J : Type 0} → ℕ → List (Attempt J) → ℕ → Type 0
InTime t [] end = t ≤ end
InTime t (a ∷ attempts) end = (t ≤ a.now) × (a.now ≤ a.later) × InTime a.later attempts end

module _ {J : Type 0} (hmac : List ℕ → List ℕ → List ℕ) (str : Time → List ℕ)
    (float : List ℕ → Option Time) (dumps : J → List ℕ) where
  abbrev pub verify : Attempt J → RequestSigner → RequestSigner × Bool
  verify a s = verify_request hmac str float dumps a.now a.later a.payload a.signature a.tolerance s

  unfoldable pub run : List (Attempt J) → RequestSigner → RequestSigner
  run [] s = s
  run (a ∷ attempts) s = run attempts (verify a s).0

  -- What a call keeps of a nonce, and the time to live.
  abbrev Keeps : List ℕ → ℕ → ℕ → ℕ → RequestSigner → Type 0
  Keeps k first ttl t s = Remembers k first t s × (s.nonce_ttl ≡ ttl)

  verify_parts-Keeps :
      (k : List ℕ) (first ttl t now later : ℕ) (payload : J) (ts : Time) (sig : List ℕ)
      (tolerance : ℕ)
      → (s : RequestSigner) → first ≤ t
      → t ≤ now
      → now ≤ later
      → Keeps k first ttl t s
      → Keeps k first ttl later
          (verify_parts hmac str float dumps now later payload ts sig tolerance s).0
  unfolding verify_parts cleanup_old_nonces
  verify_parts-Keeps k first ttl t now later payload ts sig tolerance s a b c h =
      elim (Bool-cases (is_stale now ts tolerance)) [
        | inl stale ↦
            rw (stale, verify_parts) (Remembers-later k first t later s (omega arith) h.0, h.1)
        | inr timely ↦
            elim (Option-cases (find words_dec (nonce hmac str float dumps ts sig) s.nonce_store)) [
              | inl new ↦
                  rw (timely, new, verify_parts)
                    (
                      store-Remembers k (nonce hmac str float dumps ts sig) first t now later s a b
                          c h.0,
                      h.1,
                    )
              | inr (seen, e) ↦
                  rw (timely, e, verify_parts)
                    (Remembers-later k first t later s (omega arith) h.0, h.1)
            ]
      ]

  verify-Keeps :
      (k : List ℕ) (first ttl t : ℕ) (a : Attempt J) (s : RequestSigner)
      → first ≤ t
      → t ≤ a.now
      → a.now ≤ a.later
      → Keeps k first ttl t s
      → Keeps k first ttl a.later (verify a s).0
  unfolding verify_request
  verify-Keeps k first ttl t a s p b c h =
      elim (Option-cases (read_signature hmac str float dumps a.signature)) [
        | inl bad ↦
            rw (bad, verify_request) (Remembers-later k first t a.later s (omega arith) h.0, h.1)
        | inr ((ts, sig), e) ↦
            rw (e, verify_request)
              (verify_parts-Keeps k first ttl t a.now a.later a.payload ts sig a.tolerance s p b c
                h)
      ]

  run-Keeps :
      (k : List ℕ) (first ttl t : ℕ) (attempts : List (Attempt J)) (end : ℕ) (s : RequestSigner)
      → first ≤ t
      → InTime t attempts end
      → Keeps k first ttl t s
      → Keeps k first ttl end (run attempts s)
  unfolding run
  run-Keeps k first ttl t [] end s p i h = (Remembers-later k first t end s i h.0, h.1)
  run-Keeps k first ttl t (a ∷ attempts) end s p i h =
      run-Keeps k first ttl a.later attempts end (verify a s).0 (omega (arith, p, i)) i.2
        (verify-Keeps k first ttl t a s p i.0 i.1 h)

  accepted-Keeps :
      (now later : ℕ) (payload : J) (ts : Time) (sig : List ℕ) (tolerance : ℕ) (s : RequestSigner)
      → now ≤ later
      → (verify_parts hmac str float dumps now later payload ts sig tolerance s).1 ≡ true
      → (is_stale now ts tolerance ≡ false)
        × Keeps
            (nonce hmac str float dumps ts sig)
            now
            s.nonce_ttl
            later
            (verify_parts hmac str float dumps now later payload ts sig tolerance s).0
  unfolding verify_parts cleanup_old_nonces
  accepted-Keeps now later payload ts sig tolerance s c =
      elim (Bool-cases (is_stale now ts tolerance)) [
        | inl stale ↦ rw (stale, verify_parts) (λ e. absurd (ground arith))
        | inr timely ↦ elim (Option-cases (find words_dec k s.nonce_store)) [
          | inl new ↦ rw (timely, new, verify_parts) (λ e. (refl, (stored, refl)))
          | inr (seen, f) ↦ rw (timely, f, verify_parts) (λ e. absurd (ground arith))
        ]
      ]
    where
      k : List ℕ
      k = nonce hmac str float dumps ts sig

      stored : Remembers k now later (
          cleanup_old_nonces later
            (record s { nonce_store = assign words_dec k now s.nonce_store }))
      stored =
          cleanup-Remembers k now later now
            (record s { nonce_store = assign words_dec k now s.nonce_store })
            (find-assign_self words_dec k now s.nonce_store) (omega arith)

  stale_again :
      (first now ttl tolerance more : ℕ) (ts : Time)
      → ts ≢ nan
      → is_stale first ts tolerance ≡ false
      → tolerance + more ≤ ttl
      → first + ttl < now
      → is_stale now ts more ≡ true
  unfolding is_stale
  stale_again first now ttl tolerance more nan a h l m = absurd (a refl)
  stale_again first now ttl tolerance more (infinity negative) a h l m = refl
  stale_again first now ttl tolerance more (at z) a h l m = ground arith

  refused :
      (first tolerance now later : ℕ) (payload : J) (ts : Time) (sig : List ℕ) (more : ℕ)
      → (s : RequestSigner) → ts ≢ nan
      → is_stale first ts tolerance ≡ false
      → tolerance + more ≤ s.nonce_ttl
      → Remembers (nonce hmac str float dumps ts sig) first now s
      → (verify_parts hmac str float dumps now later payload ts sig more s).1 ≡ false
  unfolding verify_parts Remembers
  refused first tolerance now later payload ts sig more s a h l (inr old) =
      rw (stale_again first now s.nonce_ttl tolerance more ts a h l old, verify_parts) refl
  refused first tolerance now later payload ts sig more s a h l (inl (v, e, m)) =
      elim (Bool-cases (is_stale now ts more)) [
        | inl stale ↦ rw (stale, verify_parts) refl
        | inr timely ↦ rw (timely, e, verify_parts) refl
      ]

  verify_read :
      (a : Attempt J) (ts : Time) (sig : List ℕ)
      → read_signature hmac str float dumps a.signature ≡ some (ts, sig)
      → (s : RequestSigner)
      → verify a s ≡ verify_parts hmac str float dumps a.now a.later a.payload ts sig a.tolerance s
  unfolding verify_request
  verify_read a ts sig e s = rw (e, verify_request) refl

  -- A request that was accepted is not accepted again, for no payload and whatever calls come in
  -- between, if the time in its signature is not read as NaN, the clock does not go back and the two tolerances together do not exceed the time
  -- for which nonces are kept, as 30 and 30 seconds do not exceed 60.
  pub accepted_once :
      (a : Attempt J) (attempts : List (Attempt J)) (b : Attempt J) (s : RequestSigner)
      → b.signature ≡ a.signature
      → ((sig : List ℕ) → read_signature hmac str float dumps a.signature ≢ some (nan, sig))
      → a.now ≤ a.later
      → InTime a.later attempts b.now
      → a.tolerance + b.tolerance ≤ s.nonce_ttl
      → (verify a s).1 ≡ true
      → (verify b (run attempts (verify a s).0)).1 ≡ false
  unfolding verify_request
  accepted_once a attempts b s same number c i l ok =
      elim (Option-cases (read_signature hmac str float dumps a.signature)) [
        | inl bad ↦
            let rejected : (verify a s).1 ≡ false = rw (bad, verify_request) refl in
            absurd (ground arith)
        | inr ((ts, sig), e) ↦
            let first = verify_read a ts sig e s in
            let last = run attempts (verify a s).0 in
            let (timely, keeps) =
              accepted-Keeps a.now a.later a.payload ts sig a.tolerance s c
                (sym (ap (λ (x : RequestSigner × Bool). x.1) first) ∙ ok) in
            let k : List ℕ = nonce hmac str float dumps ts sig in
            let (remembers, ttl) =
              run-Keeps k a.now s.nonce_ttl a.later attempts b.now (verify a s).0 c i (
                subst (λ (x : RequestSigner × Bool). Keeps k a.now s.nonce_ttl a.later x.0)
                  (sym first) keeps) in
            ap (λ (x : RequestSigner × Bool). x.1)
              (verify_read b ts sig (ap (read_signature hmac str float dumps) same ∙ e) last)
            ∙ refused a.now a.tolerance b.now b.later b.payload ts sig b.tolerance last
                (λ p. number sig (e ∙ ap (λ (t : Time). some (t, sig)) p)) timely
                (subst (λ x. a.tolerance + b.tolerance ≤ x) (sym ttl) l) remembers
      ]
