-- ===== src/RateLimit/Prune.antt =====
-- `_prune` of rate_limit.py never changes what a bucket stands for.
use zaqorincore.Prelude.{
  ℕ, ◌+◌, ◌≤◌, ◌≡◌, refl, inl, inr, Option, none, some, String, List, [], ◌∷◌, leb, Bool-cases,
  and_then, string_eq,
}
use zaqorincore.Dict.{get, get-map_some, IsDict, map_some-IsDict}
use zaqorincore.RateLimit.Bucket.{Bucket, drop_old, new_bucket}
use zaqorincore.RateLimit.Window.{Tracks, Tracks-trim}
use zaqorincore.RateLimit.Allow.{Serves, Serves-later}
use zaqorincore.RateLimit.Middleware.{
  RateLimiter, live, prune, prune_every, window_ms, bucket_at, found, count_request,
}

module _ (limit now : ℕ) where
  emptied-Tracks :
      (hits : List ℕ) {log : List ℕ}
      → drop_old window_ms now hits ≡ []
      → Tracks window_ms now hits log
      → Tracks window_ms now [] log
  emptied-Tracks hits e k = rw e at (Tracks-trim window_ms now k)

  live-Serves :
      (b : Bucket) {log : List ℕ}
      → Serves window_ms limit now b log
      → Serves window_ms limit now (found limit (live now b)) log
  unfolding new_bucket
  live-Serves b {log} k = by_rest (drop_old window_ms now b.hits) refl
    where
      by_rest :
          (rest : List ℕ)
          → drop_old window_ms now b.hits ≡ rest
          → Serves window_ms limit now (found limit (live now b)) log
      by_rest [] e =
          rw (found, live, e)
            (record {
              same_window = refl;
              same_limit = refl;
              tracks = emptied-Tracks b.hits e k.tracks;
            })
      by_rest (h ∷ hs) e =
          rw (found, live, e)
            (record {
              same_window = k.same_window;
              same_limit = k.same_limit;
              tracks = rw e at (Tracks-trim window_ms now k.tracks);
            })

  found-Serves :
      (o : Option Bucket) {log : List ℕ}
      → Serves window_ms limit now (found limit o) log
      → Serves window_ms limit now (found limit (and_then o (live now))) log
  found-Serves none k = k
  found-Serves (some b) k = live-Serves b k

-- What the limiter has counted for each key, up to time `t`.
pub record Serving (t : ℕ) (s : RateLimiter) (logs : String → List ℕ) : Type 0 where
  pub unique : IsDict s.buckets
  pub serves : (key : String) → Serves window_ms s.limit t (bucket_at key s) (logs key)

pub Serving-later :
    (t now : ℕ) (s : RateLimiter) {logs : String → List ℕ}
    → t ≤ now
    → Serving t s logs
    → Serving now s logs
Serving-later t now s le k = record {
  unique = k.unique;
  serves = λ key. Serves-later window_ms s.limit t now le (k.serves key);
}

pub prune-Serving :
    (now : ℕ) (s : RateLimiter) {logs : String → List ℕ}
    → Serving now s logs
    → Serving now (record s { buckets = prune now s.buckets }) logs
unfolding prune bucket_at
prune-Serving now s k = record {
  unique = map_some-IsDict (live now) s.buckets k.unique;
  serves = λ key.
      rw (bucket_at, get-map_some (live now) key s.buckets k.unique)
        (found-Serves s.limit now (get key s.buckets) (k.serves key));
}

pub count_request-Serving :
    (now : ℕ) (s : RateLimiter) {logs : String → List ℕ}
    → Serving now s logs
    → Serving now (count_request now s) logs
unfolding count_request bucket_at
count_request-Serving now s k = elim (Bool-cases (leb prune_every (s.accepted_since_prune + 1))) [
  | inl due ↦
      rw due (let p = prune-Serving now s k in record { unique = p.unique; serves = p.serves })
  | inr early ↦ rw early (record { unique = k.unique; serves = k.serves })
]
