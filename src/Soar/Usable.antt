-- ===== src/Soar/Usable.antt =====
-- What soar/config.py makes sure of in a configuration that it loads.
use zaqorincore.Prelude.{
  ℕ, ◌≤◌, String, Bool, true, false, not, Option, none, some, [], ◌∷◌, All, contains, string_eq,
  ◌==◌, ==_iff, if◌then◌else◌, ok, >>=-eq-ok, raise_if->>-eq-ok, ok-injective, ◌≡◌, refl, sym,
  arith, inl, inr, Bool-cases,
}
use mathlib.Core.Path.{subst}
use zaqorincore.Prelude.Int.{ℤ, pos, negsuc}
use zaqorincore.Dict.{Dict, get, put, has, IsDict, put-IsDict}
use zaqorincore.Soar.Config.{severity_order}
use zaqorincore.Soar.Load.{
  Toml, known_backends, at_least, known_severity, unknown_backend, Backend, SoarConfig, backend_of,
  coerce_int, coerce_float, add_backend, load_backends, load_table, load_config, or_not_a_table,
  or_no_backends, table_at,
}

at_least-le : (n : ℕ) (i : ℤ) → n ≤ at_least n i
at_least-le n (pos m) = omega arith
at_least-le n (negsuc m) = omega arith

or_low-has :
    (s : String) (b : Bool)
    → has s severity_order ≡ b
    → has (if b then s else "low") severity_order ≡ true
unfolding has get
or_low-has s true e = e
or_low-has s false e = refl

known_severity-has : (s : String) → has (known_severity s) severity_order ≡ true
unfolding known_severity
known_severity-has s = or_low-has s (has s severity_order) refl

module _ (t : Toml) where
  -- An entry is a known backend under its name, with a severity of the order.
  pub record IsKnown (e : String × Backend t) : Type 0 where
    pub known : contains e.0 known_backends ≡ true
    pub named : e.1.name ≡ e.0
    pub ordered : has e.1.config.severity_min severity_order ≡ true

  pub record IsUsable (c : SoarConfig t) : Type 0 where
    pub has_room : 1 ≤ c.queue_max
    pub one_each : IsDict c.backends
    pub all_known : All IsKnown c.backends

  All-put :
      (name : String) (b : Backend t) (d : Dict String (Backend t))
      → IsKnown (name, b)
      → All IsKnown d
      → All IsKnown (put name b d)
  unfolding put
  All-put name b [] k h = (k, tt)
  All-put name b ((j, w) ∷ d) k h = elim (Bool-cases (j == name)) [
    | inl e ↦ rw e (subst (λ x. IsKnown (x, b)) (sym ((==_iff j name).0 e)) k, h.1)
    | inr e ↦ rw e (h.0, All-put name b d k h.1)
  ]

  backend_of-IsKnown :
      (name : String) (block : Dict String t.Value) (b : Backend t)
      → contains name known_backends ≡ true
      → backend_of t name block ≡ ok b
      → IsKnown (name, b)
  unfolding backend_of
  backend_of-IsKnown name block b known returned =
      let (cooldown, e, after) =
        >>=-eq-ok (coerce_int t (pos 60) (get "cooldown_sec" block)) _ returned in
      let (retries, f, later) =
        >>=-eq-ok (coerce_int t (pos 5) (get "max_retries" block)) _ after in
      let (timeout, g, last) =
        >>=-eq-ok (coerce_float t (t.literal "10.0") (get "timeout_sec" block)) _ later in
      subst (λ x. IsKnown (name, x)) (ok-injective last)
        (record { known = known; named = refl; ordered = known_severity-has _ })

  -- What the loop keeps of the backends it has read.
  abbrev AreKnown : Dict String (Backend t) → Type 0
  AreKnown d = IsDict d × All IsKnown d

  add_backend-AreKnown :
      (name : String) (block : Option (Dict String t.Value)) (done next : Dict String (Backend t))
      → contains name known_backends ≡ true
      → add_backend t name block done ≡ ok next
      → AreKnown done
      → AreKnown next
  add_backend-AreKnown name none done next known returned h =
      subst AreKnown (ok-injective returned) h
  add_backend-AreKnown name (some block) done next known returned h =
      let (b, read, last) = >>=-eq-ok (backend_of t name block) _ returned in
      subst AreKnown (ok-injective last) (
        put-IsDict name b done h.0,
        All-put name b done (backend_of-IsKnown name block b known read) h.1,
      )

  load_backends-AreKnown :
      (rest : Dict String t.Value) (done end : Dict String (Backend t))
      → load_backends t rest done ≡ ok end
      → AreKnown done
      → AreKnown end
  unfolding load_backends
  load_backends-AreKnown [] done end returned h = subst AreKnown (ok-injective returned) h
  load_backends-AreKnown ((name, v) ∷ rest) done end returned h =
      let (known, added) =
        raise_if->>-eq-ok (not (contains name known_backends)) (unknown_backend name) _ returned in
      let (next, e, last) = >>=-eq-ok (add_backend t name (t.table_of v) done) _ added in
      load_backends-AreKnown rest next end last
        (add_backend-AreKnown name (t.table_of v) done next (ground arith) e h)

  load_table-IsUsable :
      (raw : Dict String t.Value) (c : SoarConfig t) → load_table t raw ≡ ok c → IsUsable c
  unfolding load_table
  load_table-IsUsable raw c returned =
      let (block, e, after) =
        >>=-eq-ok (or_not_a_table t (table_at t (get "soar" raw))) _ returned in
      let (poll, f, later) =
        >>=-eq-ok (coerce_float t (t.literal "2.0") (get "poll_sec" block)) _ after in
      let (queue, g, loading) =
        >>=-eq-ok (coerce_int t (pos 1000) (get "queue_max" block)) _ later in
      let (backends, read, last) =
        >>=-eq-ok (load_backends t (or_no_backends t (table_at t (get "backends" raw))) []) _
          loading in
      let kept =
        load_backends-AreKnown (or_no_backends t (table_at t (get "backends" raw))) [] backends read
          (tt, tt) in
      subst IsUsable (ok-injective last)
        (record { has_room = at_least-le 1 queue; one_each = kept.0; all_known = kept.1 })

  -- Whatever the file holds, a configuration that `load_config` returns has room for a delivery in its
  -- queue and one entry for each of its backends, all of which are known and have a severity of the
  -- order.
  pub load_config-IsUsable :
      (file : Option (Dict String t.Value)) (c : SoarConfig t)
      → load_config t file ≡ ok c
      → IsUsable c
  load_config-IsUsable none c returned =
      subst IsUsable (ok-injective returned)
        (record { has_room = omega arith; one_each = tt; all_known = tt })
  load_config-IsUsable (some raw) c returned = load_table-IsUsable raw c returned
