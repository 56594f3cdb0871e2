-- ===== src/RateLimit/Middleware.antt =====
-- `RateLimitMiddleware` of rate_limit.py. `forwarded` stands for `call_next(request)`, `throttled`
-- for the 429 response with its `Retry-After`, `failed` for an exception out of `dispatch`.
use zaqorincore.Prelude.{
  ℕ, ◌+◌, ◌/◌, String, Bool, ◌||◌, Option, none, some, List, [], ◌∷◌, leb, ◌==◌, string_eq, max,
  append, has_prefix, strip, is_empty, any, if◌then◌else◌,
}
use zaqorincore.Dict.{Dict, get, put, map_some}
use zaqorincore.RateLimit.Bucket.{
  Bucket, Verdict, accepted, rejected, index_error, drop_old, allow, new_bucket,
}

pub record RateLimiter : Type 0 where
  pub buckets : Dict String Bucket
  pub accepted_since_prune : ℕ
  pub enabled : Bool
  pub limit : ℕ

-- The header `X-API-Key`, if it is there, and `request.client.host`, if there is a client.
pub record Request : Type 0 where
  pub path : String
  pub api_key : Option String
  pub host : Option String

pub data Reply : Type 0 where
  forwarded : Reply
  throttled : ℕ → Reply
  failed : Reply

abbrev pub window_ms : ℕ
window_ms = 60000

abbrev pub prune_every : ℕ
prune_every = 256

abbrev pub excluded_prefixes : List String
excluded_prefixes = "/healthz" ∷ "/readyz" ∷ "/static/" ∷ []

unfoldable pub is_excluded : String → Bool
is_excluded path = (path == "/" || path == "/index.html") || any (has_prefix path) excluded_prefixes

client_key : Option String → String
client_key none = "anonymous"
client_key (some host) = if is_empty host then "anonymous" else append "ip:" host

presented_key : Option String → String
presented_key none = ""
presented_key (some header) = strip header

unfoldable pub bucket_key : Request → String
unfolding client_key presented_key
bucket_key r =
    let presented = presented_key r.api_key in
    if is_empty presented then client_key r.host else append "key:" presented

-- A bucket with its old hits dropped; none if no hit is left.
abbrev pub live : ℕ → Bucket → Option Bucket
live now b = elim (drop_old window_ms now b.hits) [
  | [] ↦ none
  | h ∷ hs ↦ some (record b { hits = h ∷ hs })
]

unfoldable pub prune : ℕ → Dict String Bucket → Dict String Bucket
prune now m = map_some (live now) m

-- The bucket of a key, made anew where `self._buckets.get(key)` is `None`.
abbrev pub found : ℕ → Option Bucket → Bucket
found limit none = new_bucket window_ms limit
found limit (some b) = b

unfoldable pub bucket_at : String → RateLimiter → Bucket
bucket_at key s = found s.limit (get key s.buckets)

-- What follows `bucket.allow` under the lock.
unfoldable pub count_request : ℕ → RateLimiter → RateLimiter
count_request now s =
    if leb prune_every (s.accepted_since_prune + 1)
    then record s { buckets = prune now s.buckets; accepted_since_prune = 0 }
    else record s { accepted_since_prune = s.accepted_since_prune + 1 }

-- `max(1, int(retry_after + 0.999))`, from milliseconds.
unfoldable pub retry_seconds : ℕ → ℕ
retry_seconds r = max 1 ((r + 999) / 1000)

unfoldable pub finish : Verdict → ℕ → RateLimiter → Reply × RateLimiter
finish accepted now s = (forwarded, count_request now s)
finish (rejected r) now s = (throttled (retry_seconds r), count_request now s)
finish index_error now s = (failed, s)

unfoldable pub throttle : String → ℕ → RateLimiter → Reply × RateLimiter
unfolding finish
throttle key now s =
    let (v, b) = allow now (bucket_at key s) in
    finish v now (record s { buckets = put key b s.buckets })

unfoldable pub dispatch : Request → ℕ → RateLimiter → Reply × RateLimiter
dispatch r now s =
    if s.enabled
    then (if is_excluded r.path then (forwarded, s) else throttle (bucket_key r) now s)
    else (forwarded, s)
