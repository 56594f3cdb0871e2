-- ===== src/RateLimit/Window.antt =====
-- The window of `_Bucket` against the log of every request that it ever accepted.
use zaqorincore.Prelude.{
  ℕ, ◌+◌, ◌≤◌, ◌≡◌, refl, ◌∙◌, List, [], ◌∷◌, ◌++◌, arith, keep, All, leb, keep-append, All-append,
}
use zaqorincore.RateLimit.Bucket.{drop_old}

-- The accepted requests that a window ending at `now` still counts.
abbrev pub recent : ℕ → ℕ → List ℕ → List ℕ
recent w now log = keep (λ h. leb now (h + w)) log

-- The deque `hits` at time `t` stands for `log`: at every later time it trims to the same window.
pub record Tracks (w t : ℕ) (hits log : List ℕ) : Type 0 where
  pub past : All (λ h. h ≤ t) hits
  pub trims : (now : ℕ) → t ≤ now → drop_old w now hits ≡ recent w now log

pub drop_old-drop_old :
    (w m n : ℕ) (hs : List ℕ) → m ≤ n → drop_old w n (drop_old w m hs) ≡ drop_old w n hs
unfolding drop_old
drop_old-drop_old w m n [] h = refl
drop_old-drop_old w m n (x ∷ hs) h = ground (arith, drop_old-drop_old w m n hs h)

pub All-drop_old :
    (w now t : ℕ) (hs : List ℕ) → All (λ h. h ≤ t) hs → All (λ h. h ≤ t) (drop_old w now hs)
unfolding drop_old
All-drop_old w now t [] h = tt
All-drop_old w now t (x ∷ hs) h = ground (arith, All-drop_old w now t hs h.1)

All-later : (s t : ℕ) (hs : List ℕ) → s ≤ t → All (λ h. h ≤ s) hs → All (λ h. h ≤ t) hs
All-later s t [] st h = tt
All-later s t (x ∷ hs) st h = (omega arith, All-later s t hs st h.1)

-- A hit that is no older than the others is trimmed only after all of them.
drop_old-append :
    (w n x : ℕ) (hs : List ℕ)
    → All (λ h. h ≤ x) hs
    → drop_old w n (hs ++ x ∷ []) ≡ drop_old w n hs ++ recent w n (x ∷ [])
unfolding drop_old
drop_old-append w n x [] h = ground arith
drop_old-append w n x (y ∷ hs) h = ground (arith, drop_old-append w n x hs h.1)

module _ (w : ℕ) where
  pub Tracks-empty : (t : ℕ) → Tracks w t [] []
  unfolding drop_old
  Tracks-empty t = record { past = tt; trims = λ now le. refl }

  pub Tracks-later :
      (s t : ℕ) {hits log : List ℕ} → s ≤ t → Tracks w s hits log → Tracks w t hits log
  Tracks-later s t {hits} st k = record {
    past = All-later s t hits st k.past;
    trims = λ now le. k.trims now (omega arith);
  }

  pub Tracks-trim :
      (t : ℕ) {hits log : List ℕ} → Tracks w t hits log → Tracks w t (drop_old w t hits) log
  Tracks-trim t {hits} k = record {
    past = All-drop_old w t t hits k.past;
    trims = λ now le. drop_old-drop_old w t now hits le ∙ k.trims now le;
  }

  pub Tracks-append :
      (t : ℕ) {hits log : List ℕ}
      → Tracks w t hits log
      → Tracks w t (hits ++ t ∷ []) (log ++ t ∷ [])
  Tracks-append t {hits} {log} k = record {
    past = All-append (λ h. h ≤ t) hits (t ∷ []) k.past (omega arith, tt);
    trims = λ now le. rw (drop_old-append w now t hits k.past, k.trims now le, keep-append) refl;
  }
