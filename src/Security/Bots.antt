-- ===== src/Security/Bots.antt =====
-- `BotScorer`, `FingerprintMiddleware` and `ThreatFeed` of core_engine/security/advanced.py. A score
-- is a number of tenths; the fields of a fingerprint that no code reads are left out.
use project_stark.Prelude.{
  ℕ, ◌+◌, ◌≤◌, ◌≡◌, Bool, true, false, not, ◌||◌, Option, none, some, List, [], ◌∷◌, min, ltb, leb,
  if◌then◌else◌, arith,
}
use project_stark.Security.Words.{codes, lower, occurs, any_occurs, same_words}

pub record Fingerprint : Type 0 where
  pub user_agent : List ℕ
  pub headers_fingerprint : List ℕ
  pub timing_score : ℕ
  pub mouse_movement : Option ℕ

abbrev pub bot_uas : List (List ℕ)
bot_uas =
    codes "bot"
    ∷ codes "spider"
    ∷ codes "crawl"
    ∷ codes "scrape"
    ∷ codes "headless"
    ∷ codes "python-requests"
    ∷ codes "curl"
    ∷ codes "wget"
    ∷ codes "httpie"
    ∷ codes "postman"
    ∷ codes "insomnia"
    ∷ codes "java"
    ∷ codes "okhttp"
    ∷ []

abbrev tenths : Bool → ℕ → ℕ
tenths t n = if t then n else 0

abbrev is_none : Option ℕ → Bool
is_none none = true
is_none (some n) = false

unfoldable pub score : Fingerprint → ℕ
score fp =
    min
      (tenths (any_occurs bot_uas (lower fp.user_agent)) 4
        + tenths (not (occurs (codes "accept-language") (lower fp.headers_fingerprint))) 2
        + tenths (ltb 9 fp.timing_score) 2
        + tenths (is_none fp.mouse_movement) 1)
      10

unfoldable pub is_bot : ℕ → Fingerprint → Bool
is_bot threshold fp = leb threshold (score fp)

-- `dispatch` of the middleware: `none` where the request is blocked, else the risk that it attaches.
-- `headers` is the text of the sorted header names.
unfoldable pub fingerprint_of : List ℕ → List ℕ → Fingerprint
fingerprint_of user_agent headers = record {
  user_agent = user_agent;
  headers_fingerprint = headers;
  timing_score = 0;
  mouse_movement = none;
}

unfoldable pub dispatch : ℕ → List ℕ → List ℕ → Option ℕ
dispatch block_threshold user_agent headers =
    let risk = score (fingerprint_of user_agent headers) in
    if leb block_threshold risk then none else some risk

-- With a threshold of eight tenths, the default, or more the middleware blocks no request, whatever
-- its user agent and its headers: it takes the timing as 0, so that a risk is at most seven tenths.
pub dispatch_never_blocks :
    (block_threshold : ℕ) (user_agent headers : List ℕ)
    → 8 ≤ block_threshold
    → (risk : ℕ) × (dispatch block_threshold user_agent headers ≡ some risk) × (risk ≤ 7)
unfolding dispatch fingerprint_of score
dispatch_never_blocks block_threshold user_agent headers h =
    by_tests (any_occurs bot_uas (lower user_agent))
      (not (occurs (codes "accept-language") (lower headers)))
  where
    by_tests :
        (a c : Bool)
        → let s : ℕ =
            min (tenths a 4 + tenths c 2 + tenths (ltb 9 0) 2 + tenths (is_none none) 1) 10 in
          (risk : ℕ) × ((if leb block_threshold s then none else some s) ≡ some risk) × (risk ≤ 7)
    by_tests true true = (7, ground arith, omega arith)
    by_tests true false = (5, ground arith, omega arith)
    by_tests false true = (3, ground arith, omega arith)
    by_tests false false = (1, ground arith, omega arith)

pub record ThreatFeed : Type 0 where
  pub last_update : ℕ
  pub threat_ips : List (List ℕ)
  pub threat_uas : List (List ℕ)

-- What a download gave: the lists of a good answer, or nothing. A bad answer leaves the feed.
unfoldable pub update : ℕ → Option (List (List ℕ) × List (List ℕ)) → ThreatFeed → ThreatFeed
update now none feed = feed
update now (some (ips, uas)) feed = record { last_update = now; threat_ips = ips; threat_uas = uas }

unfoldable pub is_malicious_ip : List ℕ → ThreatFeed → Bool
is_malicious_ip ip feed = listed feed.threat_ips
  where
    listed : List (List ℕ) → Bool
    listed [] = false
    listed (x ∷ xs) = same_words x ip || listed xs

unfoldable pub is_malicious_ua : List ℕ → ThreatFeed → Bool
is_malicious_ua ua feed = any_occurs feed.threat_uas ua
