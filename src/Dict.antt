-- ===== src/Dict.antt =====
-- Python's `dict`: entries in insertion order, an assignment to a known key keeps its place.
use zaqorincore.Prelude.{
  ◌≡◌, refl, Bool, true, false, Option, none, some, List, [], ◌∷◌, arith, Eq, ◌==◌, ==_iff,
  and_then, if◌then◌else◌,
}

abbrev pub Dict {ℓ κ} : Type ℓ → Type κ → Type (ℓ ⊔ κ)
Dict K V = List (K × V)

module _ {ℓ κ} {K : Type ℓ} {V : Type κ} ⦃e : Eq K⦄ where
  -- d.get(k)
  unfoldable pub get : K → Dict K V → Option V
  get k [] = none
  get k ((j, v) ∷ d) = if j == k then some v else get k d

  -- d[k] = v
  unfoldable pub put : K → V → Dict K V → Dict K V
  put k v [] = (k, v) ∷ []
  put k v ((j, w) ∷ d) = if j == k then (j, v) ∷ d else (j, w) ∷ put k v d

  -- d.pop(k, None); keys are unique, so that every entry at `k` goes
  unfoldable pub remove : K → Dict K V → Dict K V
  remove k [] = []
  remove k ((j, v) ∷ d) = let rest = remove k d in if j == k then rest else (j, v) ∷ rest

  -- k in d
  unfoldable pub has : K → Dict K V → Bool
  unfolding get
  has k d = elim (get k d) [ none ↦ false | some _ ↦ true ]

  pub get-put :
      (k j : K) (v : V) (d : Dict K V) → get j (put k v d) ≡ (if k == j then some v else get j d)
  unfolding get put
  get-put k j v [] = refl
  get-put k j v ((i, w) ∷ d) = ground (arith, ==_iff k j, ==_iff i k, ==_iff i j, get-put k j v d)

  pub get-remove :
      (k j : K) (d : Dict K V) → get j (remove k d) ≡ (if k == j then none else get j d)
  unfolding get remove
  get-remove k j [] = ground arith
  get-remove k j ((i, w) ∷ d) = ground (arith, ==_iff k j, ==_iff i k, ==_iff i j, get-remove k j d)

  -- Each key has one entry.
  abbrev pub IsDict : Dict K V → Type κ
  IsDict [] = Unit
  IsDict ((j, v) ∷ d) = (get j d ≡ none) × IsDict d

  pub put-IsDict : (k : K) (v : V) (d : Dict K V) → IsDict d → IsDict (put k v d)
  unfolding get put
  put-IsDict k v [] h = (refl, tt)
  put-IsDict k v ((j, w) ∷ d) h =
      ground (arith, ==_iff j k, ==_iff k j, put-IsDict k v d h.1, get-put k j v d)

  -- { k: w for k, v in d.items() if f(v) is w }
  unfoldable pub map_some : (V → Option V) → Dict K V → Dict K V
  map_some f [] = []
  map_some f ((j, v) ∷ d) =
      let rest = map_some f d in elim (f v) [ none ↦ rest | some w ↦ (j, w) ∷ rest ]

  pub get-map_some-none :
      (f : V → Option V) (k : K) (d : Dict K V) → get k d ≡ none → get k (map_some f d) ≡ none
  unfolding get map_some
  get-map_some-none f k [] h = refl
  get-map_some-none f k ((j, v) ∷ d) h = ground (arith, get-map_some-none f k d)

  pub get-map_some :
      (f : V → Option V) (k : K) (d : Dict K V)
      → IsDict d
      → get k (map_some f d) ≡ and_then (get k d) f
  unfolding get map_some
  get-map_some f k [] h = refl
  get-map_some f k ((j, v) ∷ d) h =
      ground (arith, ==_iff j k, get-map_some f k d h.1, get-map_some-none f j d h.0)

  pub map_some-IsDict : (f : V → Option V) (d : Dict K V) → IsDict d → IsDict (map_some f d)
  unfolding map_some
  map_some-IsDict f [] h = tt
  map_some-IsDict f ((j, v) ∷ d) h =
      ground (arith, map_some-IsDict f d h.1, get-map_some-none f j d h.0)
