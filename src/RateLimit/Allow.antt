-- ===== src/RateLimit/Allow.antt =====
-- `_Bucket.allow` against the log of accepted requests.
use zaqorincore.Prelude.{
  ℕ, ◌≤◌, ◌≡◌, refl, inl, inr, Bool, true, false, List, [], ◌∷◌, ◌++◌, arith, length, ltb, leb,
  Bool-cases,
}
use zaqorincore.RateLimit.Bucket.{Bucket, Verdict, accepted, refuse, drop_old, allow, new_bucket}
use zaqorincore.RateLimit.Window.{
  recent, Tracks, Tracks-empty, Tracks-later, Tracks-trim, Tracks-append,
}

-- The specification: a request is accepted if the window that ends with it has room.
abbrev pub has_room : ℕ → ℕ → ℕ → List ℕ → Bool
has_room w limit now log = ltb (length (recent w now log)) limit

abbrev pub is_accepted : Verdict → Bool
is_accepted accepted = true
is_accepted _ = false

-- The log after a request.
abbrev pub log_request : Bool → ℕ → List ℕ → List ℕ
log_request true now log = log ++ now ∷ []
log_request false now log = log

pub record Serves (w limit t : ℕ) (b : Bucket) (log : List ℕ) : Type 0 where
  pub same_window : b.window ≡ w
  pub same_limit : b.limit ≡ limit
  pub tracks : Tracks w t b.hits log

module _ (w limit : ℕ) where
  pub new_bucket-Serves : (t : ℕ) → Serves w limit t (new_bucket w limit) []
  unfolding new_bucket
  new_bucket-Serves t = record { same_window = refl; same_limit = refl; tracks = Tracks-empty w t }

  pub Serves-later :
      (s t : ℕ) {b : Bucket} {log : List ℕ}
      → s ≤ t
      → Serves w limit s b log
      → Serves w limit t b log
  Serves-later s t st k = record {
    same_window = k.same_window;
    same_limit = k.same_limit;
    tracks = Tracks-later w s t st k.tracks;
  }

  refuse-is_accepted : (now : ℕ) (hs : List ℕ) → is_accepted (refuse w now hs) ≡ false
  unfolding refuse
  refuse-is_accepted now [] = refl
  refuse-is_accepted now (h ∷ hs) = refl

  pub allow-is_accepted :
      (t now : ℕ) (b : Bucket) {log : List ℕ}
      → t ≤ now
      → Serves w limit t b log
      → is_accepted (allow now b).0 ≡ has_room w limit now log
  unfolding allow
  allow-is_accepted t now b {log} le k =
      rw (k.same_window, k.same_limit, k.tracks.trims now le)
        (ground (arith, refuse-is_accepted now (recent w now log)))

  allow-Tracks :
      (t now : ℕ) (b : Bucket) {log : List ℕ}
      → t ≤ now
      → Serves w limit t b log
      → Tracks w now (allow now b).1.hits (log_request (has_room w limit now log) now log)
  unfolding allow
  allow-Tracks t now b {log} le k =
      let trimmed = Tracks-trim w now (Tracks-later w t now le k.tracks) in
      let n : ℕ = length (recent w now log) in
      elim (Bool-cases (has_room w limit now log)) [
        | inl room ↦
            rw (k.same_window, k.same_limit, room)
              (let full : leb limit (length (drop_old w now b.hits)) ≡ false =
                  rw (k.tracks.trims now le) (ground arith) in
                rw full (Tracks-append w now trimmed))
        | inr none_left ↦
            rw (k.same_window, k.same_limit, none_left)
              (let full : leb limit (length (drop_old w now b.hits)) ≡ true =
                  rw (k.tracks.trims now le) (ground arith) in
                rw full trimmed)
      ]

  pub allow-Serves :
      (t now : ℕ) (b : Bucket) {log : List ℕ}
      → t ≤ now
      → Serves w limit t b log
      → Serves w limit now (allow now b).1 (log_request (has_room w limit now log) now log)
  unfolding allow
  allow-Serves t now b le k = record {
    same_window = ground arith;
    same_limit = ground arith;
    tracks = allow-Tracks t now b le k;
  }
