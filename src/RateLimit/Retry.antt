-- ===== src/RateLimit/Retry.antt =====
-- The `Retry-After` that `_Bucket.allow` and the middleware announce.
use zaqorincore.Prelude.{
  ℕ, suc, ◌+◌, ◌-◌, ◌*◌, ◌%◌, ◌≤◌, ◌<◌, ◌≡◌, refl, ap, ◌&&◌, nat_beq, ◌⊎◌, inl, inr, List, [], ◌∷◌,
  arith, length, leb, length-append, if◌then◌else◌, true, false, Bool-cases,
}
use zaqorincore.RateLimit.Bucket.{Bucket, accepted, rejected, refuse, drop_old, allow}
use zaqorincore.RateLimit.Middleware.{retry_seconds}

length-drop_old-le : (w now : ℕ) (hs : List ℕ) → length (drop_old w now hs) ≤ length hs
unfolding drop_old
length-drop_old-le w now [] = omega arith
length-drop_old-le w now (h ∷ hs) = ground (arith, length-drop_old-le w now hs)

-- A deque never holds more hits than the limit.
pub allow-length-le :
    (now : ℕ) (b : Bucket) → length b.hits ≤ b.limit → length (allow now b).1.hits ≤ b.limit
unfolding allow
allow-length-le now b h = ground (
  arith,
  length-drop_old-le b.window now b.hits,
  length-append (drop_old b.window now b.hits) (now ∷ []),
)

drop_old_head : (w now h : ℕ) (hs : List ℕ) (bs : List ℕ) → drop_old w now bs ≡ h ∷ hs → now ≤ h + w
unfolding drop_old
drop_old_head w now h hs [] e = cc
drop_old_head w now h hs (b ∷ bs) e = ground (arith, drop_old_head w now h hs bs)

allow_rejected :
    (now r : ℕ) (b : Bucket)
    → (allow now b).0 ≡ rejected r
    → (h : ℕ) × (hs : List ℕ) × (drop_old b.window now b.hits ≡ h ∷ hs)
      × (h + b.window ≡ now + r)
      × (b.limit ≤ suc (length hs))
      × ((allow now b).1 ≡ record b { hits = h ∷ hs })
unfolding allow
allow_rejected now r b e = go (drop_old b.window now b.hits) refl
  where
    go :
        (rest : List ℕ)
        → drop_old b.window now b.hits ≡ rest
        → (h : ℕ) × (hs : List ℕ) × (drop_old b.window now b.hits ≡ h ∷ hs)
          × (h + b.window ≡ now + r)
          × (b.limit ≤ suc (length hs))
          × ((allow now b).1 ≡ record b { hits = h ∷ hs })
    go [] p = ground arith
    go (h ∷ hs) p = (
      h,
      hs,
      p,
      ground (arith, drop_old_head b.window now h hs b.hits p),
      ground arith,
      ground arith,
    )

allow_held :
    (now r h : ℕ) (hs : List ℕ) (b : Bucket)
    → h + b.window ≡ now + r
    → b.limit ≤ suc (length hs)
    → (allow (now + r) (record b { hits = h ∷ hs })).0 ≡ rejected 0
unfolding allow refuse drop_old
allow_held now r h hs b e full = ground arith

allow_freed :
    (now r d h : ℕ) (hs : List ℕ) (b : Bucket)
    → h + b.window ≡ now + r
    → suc (length hs) ≤ b.limit
    → 0 < d
    → (allow (now + r + d) (record b { hits = h ∷ hs })).0 ≡ accepted
unfolding allow drop_old
allow_freed now r d h hs b e full pos = ground (arith, length-drop_old-le b.window (now + r + d) hs)

-- A request refused with `r` is refused again, with 0, just when `r` has passed, and is accepted
-- any later, if the deque holds at most `limit` hits and no other request of the key comes between.
pub allow_retry :
    (now r d : ℕ) (b : Bucket)
    → length b.hits ≤ b.limit
    → (allow now b).0 ≡ rejected r
    → 0 < d
    → ((allow (now + r) (allow now b).1).0 ≡ rejected 0)
      × ((allow (now + r + d) (allow now b).1).0 ≡ accepted)
allow_retry now r d b h e pos =
    let (x, xs, dropped, ages, full, after) = allow_rejected now r b e in
    let fits : suc (length xs) ≤ b.limit =
      omega (arith, ap length dropped, length-drop_old-le b.window now b.hits) in
    (
      rw after (allow_held now r x xs b ages full),
      rw after (allow_freed now r d x xs b ages fits pos),
    )

wait_exact : (r : ℕ) → (leb 1 r && nat_beq (r % 1000) 0) ≡ true → retry_seconds r * 1000 ≡ r
unfolding retry_seconds
wait_exact r h =
    let low : 1 ≤ r = ground arith in let whole : r % 1000 ≡ 0 = ground arith in omega arith

wait_long : (r : ℕ) → (leb 1 r && nat_beq (r % 1000) 0) ≡ false → r < retry_seconds r * 1000
unfolding retry_seconds
wait_long r h = let partial : (r ≡ 0) ⊎ (0 < r % 1000) = ground arith in omega arith

-- The wait that the 429 response asks for, in milliseconds, is too short exactly where the time
-- that is left is a positive whole number of seconds: then the next request is refused again, and
-- otherwise it is accepted.
pub allow-retry_seconds :
    (now r : ℕ) (b : Bucket)
    → length b.hits ≤ b.limit
    → (allow now b).0 ≡ rejected r
    → (allow (now + retry_seconds r * 1000) (allow now b).1).0
      ≡ (if leb 1 r && nat_beq (r % 1000) 0 then rejected 0 else accepted)
allow-retry_seconds now r b h e = elim (Bool-cases (leb 1 r && nat_beq (r % 1000) 0)) [
  | inl exact ↦ rw (exact, wait_exact r exact) (allow_retry now r 1 b h e (omega arith)).0
  | inr partial ↦
      let d = retry_seconds r * 1000 - r in
      let long = wait_long r partial in
      let split : now + retry_seconds r * 1000 ≡ now + r + d = omega arith in
      rw (partial, split) (allow_retry now r d b h e (omega arith)).1
]
