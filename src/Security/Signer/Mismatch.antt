-- ===== src/Security/Signer/Mismatch.antt =====
-- What `verify_request` says of what `sign_request` made.
use project_stark.Prelude.{
  ℕ, ◌≡◌, refl, ap, ◌∙◌, true, false, Option, none, some, List, ◌∷◌, ◌++◌, arith, Bool-cases,
  Option-cases, inl, inr,
}
use project_stark.Prelude.Bytes.{append_assoc}
use project_stark.Prelude.Dict.{find}
use project_stark.Security.Words.{
  words_dec, has_letter, same_words, same_words_eq, split_once, split_once-append,
  has_letter-append,
}
use project_stark.Security.Signer.{
  Time, RequestSigner, is_stale, digest, sign_request, read_signature, nonce, verify_parts,
  verify_request,
}

has_own : (c : ℕ) (a b : List ℕ) → has_letter c (a ++ c ∷ b) ≡ true
unfolding has_letter
has_own c a b = ground (arith, has_letter-append c a (c ∷ b))

module _ {J : Type 0} (hmac : List ℕ → List ℕ → List ℕ) (str : Time → List ℕ)
    (float : List ℕ → Option Time) (dumps : J → List ℕ) where
  verify_parts_dotted :
      (now later : ℕ) (payload : J) (ts : Time) (sig : List ℕ) (tolerance : ℕ) (s : RequestSigner)
      → has_letter b'.' (digest hmac str float dumps s ts payload) ≡ false
      → has_letter b'.' sig ≡ true
      → (verify_parts hmac str float dumps now later payload ts sig tolerance s).1 ≡ false
  unfolding verify_parts
  verify_parts_dotted now later payload ts sig tolerance s plain dotted =
      elim (Bool-cases (is_stale now ts tolerance)) [
        | inl stale ↦ rw (stale, verify_parts) refl
        | inr timely ↦
            elim (Option-cases (find words_dec (nonce hmac str float dumps ts sig) s.nonce_store)) [
              | inl new ↦ rw (timely, new, verify_parts) differ
              | inr (seen, e) ↦ rw (timely, e, verify_parts) refl
            ]
      ]
    where
      differ : same_words sig (digest hmac str float dumps s ts payload) ≡ false
      differ = elim (Bool-cases (same_words sig (digest hmac str float dumps s ts payload))) [
        | inl e ↦ let same = ap (has_letter b'.') (same_words_eq sig _ e) in ground arith
        | inr e ↦ e
      ]

  -- If `str` of a time has a dot and the hexadecimal digits of an HMAC have none, then no signature
  -- that `sign_request` makes with this time is accepted: at no moment, by no signer, with no
  -- tolerance and for no payload. `verify_request` splits it at the dot of the time, and takes the
  -- fraction of the time for a part of the digest.
  pub verify_request-sign_request :
      (ts : Time) (whole fraction : List ℕ)
      → str ts ≡ whole ++ b'.' ∷ fraction
      → has_letter b'.' whole ≡ false
      → ((key message : List ℕ) → has_letter b'.' (hmac key message) ≡ false)
      → (now later : ℕ) (payload other : J) (tolerance : ℕ) (s t : RequestSigner)
      → (verify_request hmac str float dumps now later payload
          (sign_request hmac str float dumps t other ts)
          tolerance
          s).1
        ≡ false
  unfolding verify_request sign_request read_signature digest
  verify_request-sign_request ts whole fraction e no_dot plain now later payload other tolerance s
        t =
      let sig : List ℕ = fraction ++ b'.' ∷ digest hmac str float dumps t ts other in
      let parts : split_once b'.' (sign_request hmac str float dumps t other ts)
          ≡ some (whole, sig) =
        ap (λ l. split_once b'.' (l ++ b'.' ∷ digest hmac str float dumps t ts other)) e
        ∙ ap (split_once b'.') (append_assoc whole (b'.' ∷ fraction) _)
        ∙ split_once-append b'.' whole sig no_dot in
      elim (Option-cases (float whole)) [
        | inl bad ↦
            let none_read : read_signature hmac str float dumps
                  (sign_request hmac str float dumps t other ts)
                ≡ none =
              rw (read_signature, parts, bad) refl in
            rw (none_read, verify_request) refl
        | inr (time, good) ↦
            let read : read_signature hmac str float dumps
                  (sign_request hmac str float dumps t other ts)
                ≡ some (time, sig) =
              rw (read_signature, parts, good) refl in
            rw (read, verify_request)
              (verify_parts_dotted now later payload time sig tolerance s
                (plain s.secret (str time ++ b'.' ∷ dumps payload))
                (has_own b'.' fraction (digest hmac str float dumps t ts other)))
      ]
