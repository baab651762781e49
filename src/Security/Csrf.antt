-- ===== src/Security/Csrf.antt =====
-- `CSRFToken` and `CSRFMiddleware` of core_engine/security/advanced.py. The HMAC with its hexadecimal
-- digits and `str` of a time are parameters; the time and the random secret are arguments.
use project_stark.Prelude.{
  ℕ, ◌≡◌, refl, ap, ◌∙◌, Bool, false, ◌||◌, Option, none, some, List, [], ◌∷◌, ◌++◌, length,
  length-append, take, if◌then◌else◌, arith, Bool-cases, inl, inr,
}
use project_stark.Security.Words.{
  codes, upper, has_letter, same_words, same_words_eq, same_words_refl, split, split-two,
  split-append, split_whole, has_letter-take, starts_with,
}

-- what the middleware reads of a request
pub record Request : Type 0 where
  pub method : List ℕ
  pub path : List ℕ
  pub header : Option (List ℕ)
  pub cookie : Option (List ℕ)

pub data Answer : Type 0 where
  passed_on token_missing cookie_missing invalid_token : Answer

-- `any(t == x for x in xs)`
unfoldable pub one_of : List (List ℕ) → List ℕ → Bool
one_of [] t = false
one_of (x ∷ xs) t = same_words x t || one_of xs t

unfoldable pub is_safe : List ℕ → Bool
is_safe method =
    one_of (codes "GET" ∷ codes "HEAD" ∷ codes "OPTIONS" ∷ codes "TRACE" ∷ []) (upper method)

unfoldable pub is_exempt : List (List ℕ) → List ℕ → Bool
is_exempt [] path = false
is_exempt (p ∷ ps) path = starts_with p path || is_exempt ps path

module _ (hmac : List ℕ → List ℕ → List ℕ) (str : ℕ → List ℕ) where
  -- `hmac(f"{session_id}:{time}")[:16]`
  unfoldable pub signature : ℕ → List ℕ → List ℕ → List ℕ
  signature now secret session_id = take 16 (hmac secret (session_id ++ b':' ∷ str now))

  unfoldable pub generate : ℕ → List ℕ → List ℕ → List ℕ
  generate now secret session_id = session_id ++ b'-' ∷ signature now secret session_id

  unfoldable pub verify_split : ℕ → List ℕ → List (List ℕ) → List ℕ → Bool
  verify_split now secret (a ∷ b ∷ []) session_id =
      if same_words a session_id then same_words b (signature now secret session_id) else false
  verify_split now secret _ session_id = false

  unfoldable pub verify : ℕ → List ℕ → List ℕ → List ℕ → Bool
  verify now secret token session_id = verify_split now secret (split b'-' token) session_id

  -- the checks behind the two early returns; an empty text counts as missing
  unfoldable pub check : ℕ → List ℕ → Option (List ℕ) → Option (List ℕ) → Answer
  check now secret none cookie = token_missing
  check now secret (some []) cookie = token_missing
  check now secret (some (x ∷ xs)) none = cookie_missing
  check now secret (some (x ∷ xs)) (some []) = cookie_missing
  check now secret (some (x ∷ xs)) (some (y ∷ ys)) =
      if verify now secret (x ∷ xs) (y ∷ ys) then passed_on else invalid_token

  unfoldable pub dispatch : List (List ℕ) → ℕ → List ℕ → Request → Answer
  dispatch exempt_paths now secret r =
      if is_safe r.method
      then passed_on
      else if is_exempt exempt_paths r.path
      then passed_on
      else check now secret r.header r.cookie

  -- A token holds when the session has no "-" and the digits of the HMAC have none, exactly if the
  -- digits for the time of the check are those for the time at which it was made.
  pub verify-generate :
      (made now : ℕ) (secret session_id : List ℕ)
      → has_letter b'-' session_id ≡ false
      → ((key message : List ℕ) → has_letter b'-' (hmac key message) ≡ false)
      → verify now secret (generate made secret session_id) session_id
        ≡ same_words (signature made secret session_id) (signature now secret session_id)
  unfolding verify generate signature verify_split same_words
  verify-generate made now secret session_id h plain =
      let tail : has_letter b'-' (signature made secret session_id) ≡ false =
        digits made secret session_id plain in
      rw
        (
          split-append b'-' session_id (signature made secret session_id) h,
          split_whole b'-' (signature made secret session_id) tail,
          verify_split,
          same_words_refl session_id,
        )
        refl
    where
      digits :
          (t : ℕ) (k i : List ℕ)
          → ((key message : List ℕ) → has_letter b'-' (hmac key message) ≡ false)
          → has_letter b'-' (take 16 (hmac k (i ++ b':' ∷ str t))) ≡ false
      digits t k i q =
          has_letter-take b'-' 16 (hmac k (i ++ b':' ∷ str t)) (q k (i ++ b':' ∷ str t))

  -- A text is never its own part before the dash.
  longer : (a b : List ℕ) → same_words a (a ++ b'-' ∷ b) ≡ false
  longer a b = elim (Bool-cases (same_words a (a ++ b'-' ∷ b))) [
    | inl e ↦
        let size = ap (length {A = ℕ}) (same_words_eq a (a ++ b'-' ∷ b) e) in
        absurd (omega (arith, size, length-append a (b'-' ∷ b)))
    | inr e ↦ e
  ]

  verify_self : (now : ℕ) (secret token : List ℕ) → verify now secret token token ≡ false
  unfolding verify verify_split
  verify_self now secret token = by_parts (split b'-' token) refl
    where
      by_parts :
          (l : List (List ℕ)) → split b'-' token ≡ l → verify_split now secret l token ≡ false
      by_parts [] e = refl
      by_parts (a ∷ []) e = refl
      by_parts (a ∷ b ∷ c ∷ l) e = refl
      by_parts (a ∷ b ∷ []) e =
          let other : same_words a token ≡ false =
            ap (same_words a) (split-two b'-' token a b e) ∙ longer a b in
          rw (other, verify_split) refl

  -- The middleware refuses every request that echoes the token of its cookie in the header, as a
  -- double-submitted token is meant to be used, if the method is not safe and the path not exempt: at
  -- every time, with every secret and every token, valid ones included.
  pub dispatch_refuses_echo :
      (exempt_paths : List (List ℕ)) (now : ℕ) (secret method path : List ℕ) (x : ℕ)
      (token : List ℕ)
      → is_safe method ≡ false
      → is_exempt exempt_paths path ≡ false
      → dispatch exempt_paths now secret (record {
        method = method;
        path = path;
        header = some (x ∷ token);
        cookie = some (x ∷ token);
      })
        ≡ invalid_token
  unfolding dispatch check
  dispatch_refuses_echo exempt_paths now secret method path x token unsafe guarded =
      rw (unsafe, guarded, verify_self now secret (x ∷ token)) refl
