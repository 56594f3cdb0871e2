-- ===== src/RateLimit/Budget.antt =====
-- `RateLimitMiddleware.dispatch` over a sequence of requests of many callers.
use zaqorincore.Prelude.{
  ℕ, ◌+◌, ◌≤◌, ◌≡◌, refl, ap, ◌∙◌, inl, inr, Bool, true, false, ◌&&◌, not, String, List, [], ◌∷◌,
  ◌++◌, arith, length, keep, leb, if◌then◌else◌, Bool-cases, string_eq, ◌==◌, ==_iff, append_assoc,
  append-nil, length-append, keep-append,
}
use zaqorincore.Dict.{get, put}
use zaqorincore.RateLimit.Bucket.{Verdict, allow}
use zaqorincore.RateLimit.Window.{recent}
use zaqorincore.RateLimit.Allow.{new_bucket-Serves, has_room, log_request}
use zaqorincore.RateLimit.Middleware.{
  RateLimiter, Request, window_ms, throttle, dispatch, is_excluded, bucket_key, bucket_at, finish,
  count_request,
}
use zaqorincore.RateLimit.Prune.{Serving, Serving-later}
use zaqorincore.RateLimit.Throttle.{is_forwarded, log_key, throttle-is_forwarded, throttle-Serving}

abbrev pub Timed : Type 0
Timed = Request × ℕ

-- The clock is monotonic.
abbrev pub InOrder : ℕ → List Timed → Type 0
InOrder t [] = Unit
InOrder t ((r, now) ∷ rs) = (t ≤ now) × InOrder now rs

-- The limiter counts this request against `key`.
abbrev pub counts : String → Request → Bool
counts key r = not (is_excluded r.path) && bucket_key r == key

-- When the requests that count against `key` were forwarded.
unfoldable pub forwarded_times : String → List Timed → RateLimiter → List ℕ
forwarded_times key [] s = []
forwarded_times key ((r, now) ∷ rs) s =
    let rest = forwarded_times key rs (dispatch r now s).1 in
    if counts key r && is_forwarded (dispatch r now s).0 then now ∷ rest else rest

-- `h` lies in the window of length `w` that ends at `t`.
abbrev pub in_window : ℕ → ℕ → ℕ → Bool
in_window w t h = leb h t && leb t (h + w)

-- No window of length `w` holds more than `limit` of the times.
abbrev pub Bounded : ℕ → ℕ → List ℕ → Type 0
Bounded w limit log = (t : ℕ) → length (keep (in_window w t) log) ≤ limit

length-keep-recent :
    (w t now : ℕ) (log : List ℕ)
    → now ≤ t
    → length (keep (in_window w t) log) ≤ length (recent w now log)
length-keep-recent w t now [] le = omega arith
length-keep-recent w t now (h ∷ log) le = ground (arith, length-keep-recent w t now log le)

log_request-Bounded :
    (w limit now : ℕ) (log : List ℕ)
    → Bounded w limit log
    → Bounded w limit (log_request (has_room w limit now log) now log)
log_request-Bounded w limit now log b t = elim (Bool-cases (has_room w limit now log)) [
  | inl room ↦
      rw (room, keep-append)
        (ground (
          arith,
          b t,
          length-append (keep (in_window w t) log) (keep (in_window w t) (now ∷ [])),
          length-keep-recent w t now log,
        ))
  | inr full ↦ rw full (b t)
]

finish-settings :
    (v : Verdict) (now : ℕ) (s : RateLimiter)
    → ((finish v now s).1.limit ≡ s.limit) × ((finish v now s).1.enabled ≡ s.enabled)
unfolding finish count_request
finish-settings v now s = ground arith

throttle-settings :
    (key : String) (now : ℕ) (s : RateLimiter)
    → ((throttle key now s).1.limit ≡ s.limit) × ((throttle key now s).1.enabled ≡ s.enabled)
unfolding throttle
throttle-settings key now s =
    finish-settings (allow now (bucket_at key s)).0 now
      (record s { buckets = put key (allow now (bucket_at key s)).1 s.buckets })

dispatch-excluded :
    (r : Request) (now : ℕ) (s : RateLimiter) → is_excluded r.path ≡ true → (dispatch r now s).1 ≡ s
unfolding dispatch
dispatch-excluded r now s e = rw e (ground arith)

dispatch-counted :
    (r : Request) (now : ℕ) (s : RateLimiter)
    → s.enabled ≡ true
    → is_excluded r.path ≡ false
    → dispatch r now s ≡ throttle (bucket_key r) now s
unfolding dispatch
dispatch-counted r now s on e = rw (on, e)

-- The specification: a caller's requests are judged by the log of that caller's own requests alone.
unfoldable pub admitted_times : String → ℕ → List ℕ → List Timed → List ℕ
admitted_times key limit log [] = []
admitted_times key limit log ((r, now) ∷ rs) =
    let later = admitted_times key limit (log ++ now ∷ []) rs in
    let skipped = admitted_times key limit log rs in
    if counts key r && has_room window_ms limit now log then now ∷ later else skipped

admitted_times-Bounded :
    (key : String) (limit : ℕ) (log : List ℕ) (rs : List Timed)
    → Bounded window_ms limit log
    → Bounded window_ms limit (log ++ admitted_times key limit log rs)
unfolding admitted_times
admitted_times-Bounded key limit log [] b = rw append-nil b
admitted_times-Bounded key limit log ((r, now) ∷ rs) b =
    elim (Bool-cases (counts key r && has_room window_ms limit now log)) [
      | inl both ↦
          let room : has_room window_ms limit now log ≡ true = ground arith in
          rw both (
            rw (← append_assoc log (now ∷ []) (admitted_times key limit (log ++ now ∷ []) rs)) (
              admitted_times-Bounded key limit (log ++ now ∷ []) rs
                (rw room at (log_request-Bounded window_ms limit now log b))))
      | inr no_room ↦ rw no_room (admitted_times-Bounded key limit log rs b)
    ]

times_step :
    (same room room' : Bool) (now : ℕ) (log rest : List ℕ) (f : List ℕ → List ℕ)
    → (same ≡ true → room ≡ room')
    → rest ≡ f (if same then log_request room now log else log)
    → (if same && room then now ∷ rest else rest)
      ≡ (if same && room' then now ∷ f (log ++ now ∷ []) else f log)
times_step true true room' now log rest f h e = rw (← h refl) (ap (λ l. now ∷ l) e)
times_step true false room' now log rest f h e = rw (← h refl) e
times_step false room room' now log rest f h e = e

forwarded_times-admitted :
    (key : String) (t : ℕ) (rs : List Timed) (s : RateLimiter) (logs : String → List ℕ)
    → s.enabled ≡ true
    → InOrder t rs
    → Serving t s logs
    → forwarded_times key rs s ≡ admitted_times key s.limit (logs key) rs
unfolding forwarded_times admitted_times
forwarded_times-admitted key t [] s logs on ord k = refl
forwarded_times-admitted key t ((r, now) ∷ rs) s logs on ord k =
    elim (Bool-cases (is_excluded r.path)) [
      | inl free ↦
          rw (free, dispatch-excluded r now s free)
            (forwarded_times-admitted key now rs s logs on ord.1 (Serving-later t now s ord.0 k))
      | inr counted ↦
          let caller = bucket_key r in
          let s' = (throttle caller now s).1 in
          let room : Bool = has_room window_ms s.limit now (logs caller) in
          let settings = throttle-settings caller now s in
          let logs' : String → List ℕ = log_key caller room now logs in
          let ih =
            forwarded_times-admitted key now rs s' logs' (settings.1 ∙ on) ord.1
              (throttle-Serving caller t now s ord.0 k) in
          rw
            (
              counted,
              dispatch-counted r now s on counted,
              throttle-is_forwarded caller t now s ord.0 k,
            )
            (times_step (caller == key) room (has_room window_ms s.limit now (logs key)) now
              (logs key) (forwarded_times key rs s') (λ l. admitted_times key s.limit l rs)
              (λ same.
                ap (λ j. has_room window_ms s.limit now (logs j)) ((==_iff caller key).0 same))
              (rw settings.0 at ih))
    ]

unfoldable pub new_limiter : ℕ → RateLimiter
new_limiter limit = record { buckets = []; accepted_since_prune = 0; enabled = true; limit = limit }

new_limiter-Serving : (limit : ℕ) → Serving 0 (new_limiter limit) (λ key. [])
unfolding new_limiter bucket_at get
new_limiter-Serving limit = record {
  unique = tt;
  serves = λ key. new_bucket-Serves window_ms limit 0;
}

-- A limiter that starts empty forwards, of the requests that count against a key and reach it in
-- the order of the clock, exactly those for which the log of that key's own forwarded requests has
-- room in the window that ends with the request: other callers and pruning make no difference.
pub new_limiter-forwarded_times :
    (key : String) (limit : ℕ) (rs : List Timed)
    → InOrder 0 rs
    → forwarded_times key rs (new_limiter limit) ≡ admitted_times key limit [] rs
unfolding new_limiter
new_limiter-forwarded_times key limit rs ord =
    forwarded_times-admitted key 0 rs (new_limiter limit) (λ j. []) refl ord
      (new_limiter-Serving limit)

-- Whatever requests reach a limiter that starts empty, in the order of the clock, no window of
-- 60 seconds holds more than `limit` forwarded requests of one key.
pub new_limiter-within_budget :
    (key : String) (limit : ℕ) (rs : List Timed)
    → InOrder 0 rs
    → (t : ℕ)
    → length (keep (in_window window_ms t) (forwarded_times key rs (new_limiter limit))) ≤ limit
new_limiter-within_budget key limit rs ord t =
    rw (new_limiter-forwarded_times key limit rs ord)
      (admitted_times-Bounded key limit [] rs (λ u. omega arith) t)
