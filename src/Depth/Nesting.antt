-- ===== src/Depth/Nesting.antt =====
-- The scan of `_check_depth` against the depth of the value that a text stands for.
use zaqorincore.Prelude.{
  ℕ, suc, ◌+◌, ◌≤◌, String, true, false, ◌&&◌, leb, append, all_chars, ◌≡◌, refl, ◌∙◌, arith, inl,
  inr, Bool-cases,
}
use zaqorincore.Prelude.Int.{pos}
use zaqorincore.Depth.{scan, check_depth}
use zaqorincore.Depth.Json.{
  is_plain, Json, literal, text, array, object, Items, no_items, item, Members, no_members, member,
  print_chars, print_text, print, print_items, print_more_items, print_members, print_more_members,
  depth, depth_items, depth_members,
}

module _ (m d : ℕ) where
  scan-plain :
      (s rest : String)
      → all_chars is_plain s ≡ true
      → scan m (pos d) false false (append s rest) ≡ scan m (pos d) false false rest
  unfolding scan append is_plain
  scan-plain String.[] rest p = refl
  scan-plain (String.◌∷◌ c s) rest p = ground (arith, scan-plain s rest)

  scan-print_chars :
      (s rest : String)
      → scan m (pos d) true false (print_chars s (String.◌∷◌ "\"" rest))
        ≡ scan m (pos d) false false rest
  unfolding scan print_chars
  scan-print_chars String.[] rest = refl
  scan-print_chars (String.◌∷◌ c s) rest = ground (arith, scan-print_chars s rest)

  scan-print_text :
      (s rest : String)
      → scan m (pos d) false false (print_text s rest) ≡ scan m (pos d) false false rest
  unfolding scan print_text
  scan-print_text s rest = scan-print_chars s rest

-- One bracket, comma or colon.
module _ (m d : ℕ) (rest : String) where
  scan-array :
      scan m (pos d) false false (String.◌∷◌ "[" rest)
      ≡ (leb (d + 1) m && scan m (pos (d + 1)) false false rest)
  unfolding scan
  scan-array = ground arith

  scan-object :
      scan m (pos d) false false (String.◌∷◌ "{" rest)
      ≡ (leb (d + 1) m && scan m (pos (d + 1)) false false rest)
  unfolding scan
  scan-object = ground arith

  scan-array_end :
      scan m (pos (d + 1)) false false (String.◌∷◌ "]" rest) ≡ scan m (pos d) false false rest
  unfolding scan
  scan-array_end = let up : d + 1 ≡ suc d = omega arith in rw up refl

  scan-object_end :
      scan m (pos (d + 1)) false false (String.◌∷◌ "}" rest) ≡ scan m (pos d) false false rest
  unfolding scan
  scan-object_end = let up : d + 1 ≡ suc d = omega arith in rw up refl

  scan-comma : scan m (pos d) false false (String.◌∷◌ "," rest) ≡ scan m (pos d) false false rest
  unfolding scan
  scan-comma = refl

  scan-colon : scan m (pos d) false false (String.◌∷◌ ":" rest) ≡ scan m (pos d) false false rest
  unfolding scan
  scan-colon = refl

-- A depth that may be passed on: the scan accepts up to it, and then goes on.
abbrev Passes : ℕ → ℕ → String → ℕ → String → Type 0
Passes m d s n rest =
    scan m (pos d) false false s ≡ (leb (d + n) m && scan m (pos d) false false rest)

mutual
  unfolding print depth

  print-Passes :
      (v : Json) (m d : ℕ) (rest : String) → d ≤ m → Passes m d (print v rest) (depth v) rest
  print-Passes (literal s p) m d rest le = scan-plain m d s rest p ∙ ground arith
  print-Passes (text s) m d rest le = scan-print_text m d s rest ∙ ground arith
  print-Passes (array vs) m d rest le = elim (Bool-cases (leb (d + 1) m)) [
    | inl fits ↦
        let inner = print_items-Passes vs m (d + 1) (String.◌∷◌ "]" rest) (ground arith) in
        rw
          (
            scan-array m d (print_items vs (String.◌∷◌ "]" rest)),
            fits,
            inner,
            scan-array_end m d rest,
          )
          (ground arith)
    | inr deep ↦ rw (scan-array m d (print_items vs (String.◌∷◌ "]" rest)), deep) (ground arith)
  ]
  print-Passes (object ms) m d rest le = elim (Bool-cases (leb (d + 1) m)) [
    | inl fits ↦
        let inner = print_members-Passes ms m (d + 1) (String.◌∷◌ "}" rest) (ground arith) in
        rw
          (
            scan-object m d (print_members ms (String.◌∷◌ "}" rest)),
            fits,
            inner,
            scan-object_end m d rest,
          )
          (ground arith)
    | inr deep ↦ rw (scan-object m d (print_members ms (String.◌∷◌ "}" rest)), deep) (ground arith)
  ]

  print_items-Passes :
      (vs : Items) (m d : ℕ) (rest : String)
      → d ≤ m
      → Passes m d (print_items vs rest) (depth_items vs) rest
  print_items-Passes no_items m d rest le = ground arith
  print_items-Passes (item v vs) m d rest le =
      rw (print-Passes v m d (print_more_items vs rest) le, print_more_items-Passes vs m d rest le)
        (ground arith)

  print_more_items-Passes :
      (vs : Items) (m d : ℕ) (rest : String)
      → d ≤ m
      → Passes m d (print_more_items vs rest) (depth_items vs) rest
  print_more_items-Passes no_items m d rest le = ground arith
  print_more_items-Passes (item v vs) m d rest le =
      rw
        (
          scan-comma m d (print v (print_more_items vs rest)),
          print-Passes v m d (print_more_items vs rest) le,
          print_more_items-Passes vs m d rest le,
        )
        (ground arith)

  print_members-Passes :
      (ms : Members) (m d : ℕ) (rest : String)
      → d ≤ m
      → Passes m d (print_members ms rest) (depth_members ms) rest
  print_members-Passes no_members m d rest le = ground arith
  print_members-Passes (member k v ms) m d rest le =
      rw
        (
          scan-print_text m d k (String.◌∷◌ ":" (print v (print_more_members ms rest))),
          scan-colon m d (print v (print_more_members ms rest)),
          print-Passes v m d (print_more_members ms rest) le,
          print_more_members-Passes ms m d rest le,
        )
        (ground arith)

  print_more_members-Passes :
      (ms : Members) (m d : ℕ) (rest : String)
      → d ≤ m
      → Passes m d (print_more_members ms rest) (depth_members ms) rest
  print_more_members-Passes no_members m d rest le = ground arith
  print_more_members-Passes (member k v ms) m d rest le =
      rw
        (
          scan-comma m d (print_text k (String.◌∷◌ ":" (print v (print_more_members ms rest)))),
          scan-print_text m d k (String.◌∷◌ ":" (print v (print_more_members ms rest))),
          scan-colon m d (print v (print_more_members ms rest)),
          print-Passes v m d (print_more_members ms rest) le,
          print_more_members-Passes ms m d rest le,
        )
        (ground arith)

-- The depth check accepts the text of a JSON value exactly if the value nests no deeper than the
-- maximum.
pub check_depth-print : (v : Json) (m : ℕ) → check_depth m (print v "") ≡ leb (depth v) m
unfolding check_depth
check_depth-print v m = print-Passes v m 0 "" (omega arith) ∙ unfold scan in ground arith
