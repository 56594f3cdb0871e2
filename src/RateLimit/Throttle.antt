-- ===== src/RateLimit/Throttle.antt =====
-- One counted request of `RateLimitMiddleware.dispatch`, against the log of each caller.
use zaqorincore.Prelude.{
  ℕ, ◌≤◌, ◌≡◌, refl, ◌∙◌, inl, inr, Bool, true, false, String, List, if◌then◌else◌, Bool-cases,
  string_eq, ◌==◌, ==_iff,
}
use zaqorincore.Dict.{get, put, get-put, put-IsDict}
use zaqorincore.RateLimit.Bucket.{Verdict, accepted, rejected, index_error, allow}
use zaqorincore.RateLimit.Allow.{
  Serves, Serves-later, has_room, log_request, allow-Serves, allow-is_accepted, is_accepted,
}
use zaqorincore.RateLimit.Middleware.{
  RateLimiter, Reply, forwarded, window_ms, bucket_at, found, throttle, finish,
}
use zaqorincore.RateLimit.Prune.{Serving, count_request-Serving}

abbrev pub is_forwarded : Reply → Bool
is_forwarded forwarded = true
is_forwarded _ = false

finish-is_forwarded :
    (v : Verdict) (now : ℕ) (s : RateLimiter) → is_forwarded (finish v now s).0 ≡ is_accepted v
unfolding finish
finish-is_forwarded accepted now s = refl
finish-is_forwarded (rejected r) now s = refl
finish-is_forwarded index_error now s = refl

finish-Serving :
    (v : Verdict) (now : ℕ) (s : RateLimiter) {logs : String → List ℕ}
    → Serving now s logs
    → Serving now (finish v now s).1 logs
unfolding finish
finish-Serving accepted now s k = count_request-Serving now s k
finish-Serving (rejected r) now s k = count_request-Serving now s k
finish-Serving index_error now s k = k

-- The logs after a request of `key` at `now`.
abbrev pub log_key : String → Bool → ℕ → (String → List ℕ) → String → List ℕ
log_key key room now logs j = if key == j then log_request room now (logs j) else logs j

module _ (key : String) (t now : ℕ) (s : RateLimiter) {logs : String → List ℕ} (le : t ≤ now)
    (k : Serving t s logs) where
  pub throttle-is_forwarded :
      is_forwarded (throttle key now s).0 ≡ has_room window_ms s.limit now (logs key)
  unfolding throttle
  throttle-is_forwarded =
      finish-is_forwarded _ now _
      ∙ allow-is_accepted window_ms s.limit t now (bucket_at key s) le (k.serves key)

  put-Serves :
      (j : String)
      → Serves window_ms s.limit now
          (found s.limit (get j (put key (allow now (bucket_at key s)).1 s.buckets)))
          (log_key key (has_room window_ms s.limit now (logs key)) now logs j)
  unfolding bucket_at
  put-Serves j = elim (Bool-cases (key == j)) [
    | inl same ↦
        let p = (==_iff key j).0 same in
        rw (get-put, same)
          (rw (← p) (allow-Serves window_ms s.limit t now (bucket_at key s) le (k.serves key)))
    | inr other ↦ rw (get-put, other) (Serves-later window_ms s.limit t now le (k.serves j))
  ]

  pub throttle-Serving :
      Serving now
        (throttle key now s).1
        (log_key key (has_room window_ms s.limit now (logs key)) now logs)
  unfolding throttle bucket_at
  throttle-Serving = finish-Serving (allow now (bucket_at key s)).0 now _ (record {
    unique = put-IsDict key (allow now (bucket_at key s)).1 s.buckets k.unique;
    serves = put-Serves;
  })
