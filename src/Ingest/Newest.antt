-- ===== src/Ingest/Newest.antt =====
-- The newest rows of a table that is read by the time of their transactions, the latest first.
use zaqorincore.Prelude.{
  ℕ, zero, suc, ◌≤◌, ◌<◌, Bool, true, false, List, [], ◌∷◌, ◌++◌, All, length, take, keep,
  keep-append, leb, ◌≡◌, refl, sym, ◌∙◌, ap, arith, Bool-cases, inl, inr,
}
use mathlib.Core.Path.{subst}
use mathlib.Core.List.{Perm, filter, foldr}
use mathlib.Core.List.Perm
use native.Mathlib.Nat.{ℕ_set}

dec_true : (b : Bool) → Dec (b ≡ true)
dec_true true = yes refl
dec_true false = no (λ e. cc)

module _ {A : Type 0} where
  keep-filter :
      (p : A → Bool) (xs : List A)
      → filter {p = λ x. p x ≡ true} (λ x. dec_true (p x)) xs ≡ keep p xs
  unfolding dec_true
  keep-filter p [] = refl
  keep-filter p (x ∷ xs) = elim (Bool-cases (p x)) [
    | inl e ↦ rw e (ap (λ ys. x ∷ ys) (keep-filter p xs))
    | inr e ↦ rw e (keep-filter p xs)
  ]

  keep-Perm : (p : A → Bool) {xs ys : List A} → Perm xs ys → Perm (keep p xs) (keep p ys)
  keep-Perm p {xs} {ys} h =
      subst (λ l. Perm l (keep p ys)) (keep-filter p xs)
        (subst (λ l. Perm (filter {p = λ x. p x ≡ true} (λ x. dec_true (p x)) xs) l)
          (keep-filter p ys) (Perm.filter {p = λ x. p x ≡ true} (λ x. dec_true (p x)) h))

  length-foldr : (xs : List A) → foldr (λ x n. suc n) zero xs ≡ length xs
  length-foldr [] = refl
  length-foldr (x ∷ xs) = ap suc (length-foldr xs)

  length-Perm : {xs ys : List A} → Perm xs ys → length xs ≡ length ys
  length-Perm {xs} {ys} h =
      sym (length-foldr xs)
      ∙ Perm.foldr-eq ℕ_set (λ x n. suc n) (λ a b n. refl) h zero
      ∙ length-foldr ys

module _ {A : Type 0} (time : A → ℕ) where
  -- ORDER BY the time DESC: rows of the same time stand in any order.
  abbrev pub IsLatestFirst : List A → Type 0
  IsLatestFirst [] = Unit
  IsLatestFirst (x ∷ xs) = All (λ y. time y ≤ time x) xs × IsLatestFirst xs

  module _ (now : ℕ) where
    is_new : A → Bool
    is_new x = leb now (time x)

    keep-old :
        (bound : ℕ) (xs : List A) → bound < now → All (λ y. time y ≤ bound) xs → keep is_new xs ≡ []
    unfolding is_new
    keep-old bound [] lt h = refl
    keep-old bound (x ∷ xs) lt h = ground (arith, h, keep-old bound xs lt h.1)

    keep-before : (xs : List A) → All (λ y. time y < now) xs → keep is_new xs ≡ []
    unfolding is_new
    keep-before [] h = refl
    keep-before (x ∷ xs) h = ground (arith, h, keep-before xs h.1)

    keep-new : (xs : List A) → All (λ y. time y ≡ now) xs → keep is_new xs ≡ xs
    unfolding is_new
    keep-new [] h = refl
    keep-new (x ∷ xs) h = ground (arith, h, keep-new xs h.1)

    take-keep :
        (xs : List A) → IsLatestFirst xs → take (length (keep is_new xs)) xs ≡ keep is_new xs
    unfolding is_new
    take-keep [] h = refl
    take-keep (x ∷ xs) h = elim (Bool-cases (leb now (time x))) [
      | inl new ↦ rw new (ap (λ ys. x ∷ ys) (take-keep xs h.1))
      | inr old ↦ rw (old, keep-old (time x) xs (ground (arith, old)) h.0) refl
    ]

    -- The first rows are those of the latest transaction, as many as it has.
    pub take-Perm :
        (rows old added : List A)
        → IsLatestFirst rows
        → Perm rows (old ++ added)
        → All (λ y. time y < now) old
        → All (λ y. time y ≡ now) added
        → Perm (take (length added) rows) added
    take-Perm rows old added sorted same before new =
        let kept : keep is_new (old ++ added) ≡ added =
          keep-append is_new old added
          ∙ ap (λ l. l ++ keep is_new added) (keep-before old before)
          ∙ keep-new added new in
        let perm : Perm (keep is_new rows) added =
          subst (λ l. Perm (keep is_new rows) l) kept (keep-Perm is_new same) in
        let first : take (length added) rows ≡ keep is_new rows =
          ap (λ n. take n rows) (sym (length-Perm perm)) ∙ take-keep rows sorted in
        subst (λ l. Perm l added) (sym first) perm
