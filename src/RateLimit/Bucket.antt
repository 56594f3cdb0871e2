-- ===== src/RateLimit/Bucket.antt =====
-- `_Bucket` of rate_limit.py: one caller's sliding window.
use zaqorincore.Prelude.{ℕ, ◌+◌, ◌-◌, List, [], ◌∷◌, ◌++◌, length, ltb, leb, if◌then◌else◌}

pub record Bucket : Type 0 where
  pub hits : List ℕ
  pub window : ℕ
  pub limit : ℕ

-- `index_error` is the exception of `self.hits[0]` on an empty deque.
pub data Verdict : Type 0 where
  accepted : Verdict
  rejected : ℕ → Verdict
  index_error : Verdict

-- while self.hits and self.hits[0] < now - window: self.hits.popleft()
unfoldable pub drop_old : ℕ → ℕ → List ℕ → List ℕ
drop_old w now [] = []
drop_old w now (h ∷ hs) = let rest = drop_old w now hs in if ltb (h + w) now then rest else h ∷ hs

-- The verdict of a full window: the seconds until its oldest hit ages out. `-` stops at 0, as
-- `max(0.0, ...)` does.
unfoldable pub refuse : ℕ → ℕ → List ℕ → Verdict
refuse w now [] = index_error
refuse w now (h ∷ hs) = rejected (h + w - now)

unfoldable pub allow : ℕ → Bucket → Verdict × Bucket
unfolding refuse
allow now b =
    let hits = drop_old b.window now b.hits in
    if leb b.limit (length hits)
    then (refuse b.window now hits, record b { hits = hits })
    else (accepted, record b { hits = hits ++ now ∷ [] })

unfoldable pub new_bucket : ℕ → ℕ → Bucket
new_bucket w limit = record { hits = []; window = w; limit = limit }
