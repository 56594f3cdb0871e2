-- ===== src/RateLimit/Tests.antt =====
-- The rate limiter on concrete requests.
use zaqorincore.Prelude.{
  ◌≤◌, has_prefix, strip, append, ◌≡◌, refl, some, List, [], ◌∷◌, length, keep, arith,
}
use zaqorincore.RateLimit.Bucket.{Bucket, drop_old, rejected, allow}
use zaqorincore.RateLimit.Middleware.{Request, is_excluded, bucket_key, window_ms}
use zaqorincore.RateLimit.Budget.{
  Timed, InOrder, forwarded_times, admitted_times, new_limiter, in_window,
  new_limiter-forwarded_times, new_limiter-within_budget,
}

abbrev request : Request
request = record { path = "/api/v1/alerts"; api_key = some " k "; host = some "10.0.0.1" }

abbrev requests : List Timed
requests = (request, 5) ∷ (request, 7) ∷ (request, 70000) ∷ []

requests-InOrder : InOrder 0 requests
requests-InOrder = (omega arith, (omega arith, (omega arith, tt)))

admitted_times_run : admitted_times "key:k" 1 [] requests ≡ 5 ∷ 70000 ∷ []
unfolding admitted_times is_excluded has_prefix bucket_key strip append
admitted_times_run = refl

new_limiter-forwarded_times_example :
    forwarded_times "key:k" requests (new_limiter 1) ≡ admitted_times "key:k" 1 [] requests
new_limiter-forwarded_times_example =
    new_limiter-forwarded_times "key:k" 1 requests requests-InOrder

new_limiter-within_budget_example :
    length (keep (in_window window_ms 60005) (forwarded_times "key:k" requests (new_limiter 1))) ≤ 1
new_limiter-within_budget_example =
    new_limiter-within_budget "key:k" 1 requests requests-InOrder 60005

abbrev full : Bucket
full = record { hits = 0 ∷ 10 ∷ []; window = window_ms; limit = 2 }

full_refuses : (allow 1000 full).0 ≡ rejected 59000
unfolding allow drop_old
full_refuses = refl
