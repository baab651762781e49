-- ===== src/Security/Tests.antt =====
-- The protection of requests at concrete texts: the HMAC repeats one digit, a time is one digit.
use project_stark.Prelude.{
  ℕ, ◌+◌, ◌≤◌, ◌≡◌, refl, true, false, Option, some, List, [], ◌∷◌, arith, map,
}
use project_stark.Prelude.Int.{pos}
use project_stark.Prelude.Dict.{find, assign}
use project_stark.Security.Words.{words_dec, codes, has_letter, same_words, split_once, upper}
use project_stark.Security.Signer.{
  Time, RequestSigner, is_stale, cleanup, nonce, cleanup_old_nonces, digest, sign_request,
  read_signature, verify_parts, verify_request,
}
use project_stark.Security.Signer.Mismatch.{verify_request-sign_request}
use project_stark.Security.Signer.Replay.{Attempt, verify, run, accepted_once}
use project_stark.Security.Csrf.{
  invalid_token, one_of, is_safe, is_exempt, dispatch, dispatch_refuses_echo,
}
use project_stark.Security.Redact.{
  Value, Values, object, Fields, none_left, field, redact_dict, redacted, entries,
  entries-redact_dict,
}
use project_stark.Security.Bots as Bots
use project_stark.Security.Bots.{dispatch_never_blocks}

abbrev hmac : List ℕ → List ℕ → List ℕ
hmac key message = b'a' ∷ []

-- 1.0
abbrev str : Time → List ℕ
str ts = b'1' ∷ b'.' ∷ b'0' ∷ []

abbrev float : List ℕ → Option Time
float t = some (Time.at (pos 1))

abbrev dumps : ℕ → List ℕ
dumps payload = b'0' ∷ []

abbrev signer : RequestSigner
signer = record { secret = []; nonce_store = []; nonce_ttl = 60 }

verify_request-sign_request_example :
    (verify_request hmac str float dumps 2 2 7
      (sign_request hmac str float dumps signer 7 (Time.at (pos 1)))
      30
      signer).1
    ≡ false
unfolding has_letter
verify_request-sign_request_example =
    verify_request-sign_request hmac str float dumps (Time.at (pos 1)) (b'1' ∷ []) (b'0' ∷ []) refl
      refl (λ key message. refl) 2 2 7 7 30 signer signer

abbrev attempt : ℕ → Attempt ℕ
attempt now = record {
  now = now;
  later = now;
  payload = 7;
  signature = b'1' ∷ b'.' ∷ b'a' ∷ [];
  tolerance = 30;
}

accepted_once_example :
    (verify hmac str float dumps (attempt 20) (
      run hmac str float dumps
        (attempt 9 ∷ [])
        (verify hmac str float dumps (attempt 2) signer).0)).1
    ≡ false
unfolding verify_request read_signature split_once verify_parts is_stale find same_words digest
    cleanup_old_nonces
accepted_once_example =
    accepted_once hmac str float dumps (attempt 2) (attempt 9 ∷ []) (attempt 20) signer refl
      (λ sig e. cc) (omega arith) (omega arith, omega arith, omega arith) (omega arith) refl

-- A time that is read as NaN: the request is accepted again once its nonce is removed.
abbrev not_a_number : List ℕ → Option Time
not_a_number t = some Time.nan

again_test :
    let first = verify hmac str not_a_number dumps (attempt 2) signer in
    let other =
      verify hmac str not_a_number dumps
        (record (attempt 90) { signature = b'1' ∷ b'.' ∷ b'b' ∷ [] })
        first.0 in
    (first.1 ≡ true) × ((verify hmac str not_a_number dumps (attempt 91) other.0).1 ≡ true)
unfolding verify_request read_signature split_once verify_parts is_stale find same_words digest
    cleanup_old_nonces cleanup nonce words_dec assign
again_test = (refl, refl)

abbrev shown : ℕ → List ℕ
shown now = (b'0' + now) ∷ []

dispatch_refuses_echo_example :
    dispatch hmac shown [] 3 [] (record {
      method = codes "post";
      path = codes "/v1/webhooks/register";
      header = some (codes "s-a");
      cookie = some (codes "s-a");
    })
    ≡ invalid_token
unfolding is_safe one_of upper same_words is_exempt
dispatch_refuses_echo_example =
    dispatch_refuses_echo hmac shown [] 3 [] (codes "post") (codes "/v1/webhooks/register") b's'
      (codes "-a") refl refl

dispatch_never_blocks_example :
    (risk : ℕ) × (Bots.dispatch 8 (codes "curl") (codes "[]") ≡ some risk) × (risk ≤ 7)
dispatch_never_blocks_example = dispatch_never_blocks 8 (codes "curl") (codes "[]") (omega arith)

abbrev secrets : Fields
secrets = field (codes "mail") (Value.str (codes "a@b.c")) (
    field (codes "all") (Value.array (Values.item (Value.str (codes "d@e.f")) Values.end))
      none_left)

entries-redact_dict_example :
    entries [] (redact_dict ((λ t. codes "[EMAIL REDACTED]") ∷ []) secrets)
    ≡ map (redacted ((λ t. codes "[EMAIL REDACTED]") ∷ [])) (entries [] (object secrets))
entries-redact_dict_example = entries-redact_dict ((λ t. codes "[EMAIL REDACTED]") ∷ []) secrets
