-- ===== src/Evidence/Rotation.antt =====
-- evidence.py: bundles and the rotation of the signing key.
use zaqorincore.Prelude.{
  ◌≡◌, ◌≢◌, refl, sym, ◌∙◌, ap, arith, String, true, false, some, [], ◌∷◌, ok, string_eq, ==_iff,
  Bool-cases, inl, inr,
}
use zaqorincore.Dict.{Dict, get, put, get-put}
use zaqorincore.Evidence.Store.{
  Outside, Store, Submission, crash, or_signing_key, sidecar_of, submit, rotate, signed_by,
  signed_by_any, is_ascii, verify,
}
use zaqorincore.Evidence.Signatures.{submit-Wrote, any-get, verify-Wrote, keys_kept}

module _ (out : Outside) where
  previous-rotate :
      (id new : String) (s : Store) (key : String)
      → get "current" s.keys ≡ some key
      → get "previous" (rotate id new s).keys ≡ some key
  unfolding rotate
  previous-rotate id new s key found = rw found (
      get-put "current" "previous" new (put "previous" key ((id, new) ∷ []))
      ∙ get-put "previous" "previous" key ((id, new) ∷ []))

  current-rotate : (id new : String) (s : Store) → get "current" (rotate id new s).keys ≡ some new
  unfolding rotate
  current-rotate id new s =
      get-put "current" "current" new
        (put "previous" (or_signing_key s.signing_key (get "current" s.keys)) ((id, new) ∷ []))

  unsigned :
      (bytes sig key : String) → out.hmac key bytes ≢ sig → signed_by out bytes sig key ≡ false
  unsigned bytes sig key other = elim (Bool-cases (signed_by out bytes sig key)) [
    | inl same ↦ absurd (other ((==_iff (out.hmac key bytes) sig).0 same))
    | inr e ↦ e
  ]

  any-put :
      (bytes sig id key : String) (keys : Dict String String)
      → signed_by out bytes sig key ≡ false
      → signed_by_any out bytes sig keys ≡ false
      → signed_by_any out bytes sig (put id key keys) ≡ false
  unfolding put signed_by_any
  any-put bytes sig id key [] e rest = ground (arith, e)
  any-put bytes sig id key ((j, k) ∷ keys) e rest =
      ground (arith, e, any-put bytes sig id key keys e)

  -- A rotation keeps nothing but the key before it and the new one.
  any-rotate :
      (bytes sig id new old : String) (s : Store)
      → get "current" s.keys ≡ some old
      → out.hmac new bytes ≢ sig
      → out.hmac old bytes ≢ sig
      → signed_by_any out bytes sig (rotate id new s).keys ≡ false
  unfolding rotate signed_by_any
  any-rotate bytes sig id new old s found other_new other_old = rw found (
      any-put bytes sig "current" new (put "previous" old ((id, new) ∷ []))
        (unsigned bytes sig new other_new)
        (any-put bytes sig "previous" old ((id, new) ∷ []) (unsigned bytes sig old other_old)
          (rw (unsigned bytes sig new other_new) refl)))

  -- A bundle that was submitted verifies, and it still does after the key was rotated once, where the
  -- parser does not crash on its sidecar and its signature is ASCII.
  pub rotate-verify :
      (p : Submission) (s end : Store) (sig id new : String)
      → submit out p s ≡ ok (end, sig)
      → out.loads (out.dumps (sidecar_of out p)) ≢ crash
      → is_ascii sig ≡ true
      → (verify out p.alert_id end ≡ ok true)
        × (verify out p.alert_id (rotate id new end) ≡ ok true)
  unfolding rotate
  rotate-verify p s end sig id new returned sane ascii =
      let wrote = submit-Wrote out p s end sig returned in
      let bytes = out.dumps (sidecar_of out p) in
      let held = ap (get "current") (sym (keys_kept out p s end sig wrote)) ∙ wrote.found in
      let signed = (==_iff (out.hmac wrote.key bytes) sig).1 wrote.signed in
      (
        verify-Wrote out p s end end sig wrote refl refl sane ascii
            ∙ ap ok (any-get out bytes sig "current" wrote.key end.keys held signed),
        verify-Wrote out p s end (rotate id new end) sig wrote refl refl sane ascii
            ∙ ap ok (
                any-get out bytes sig "previous" wrote.key (rotate id new end).keys
                  (previous-rotate id new end wrote.key held) signed),
      )

  -- After two rotations it does not, where the two new keys give the sidecar other digests, the parser
  -- does not crash on it and its signature is ASCII.
  pub rotate-rotate-verify :
      (p : Submission) (s end : Store) (sig id new id2 new2 : String)
      → submit out p s ≡ ok (end, sig)
      → out.loads (out.dumps (sidecar_of out p)) ≢ crash
      → is_ascii sig ≡ true
      → out.hmac new (out.dumps (sidecar_of out p)) ≢ sig
      → out.hmac new2 (out.dumps (sidecar_of out p)) ≢ sig
      → verify out p.alert_id (rotate id2 new2 (rotate id new end)) ≡ ok false
  unfolding rotate
  rotate-rotate-verify p s end sig id new id2 new2 returned sane ascii other other2 =
      verify-Wrote out p s end (rotate id2 new2 (rotate id new end)) sig
        (submit-Wrote out p s end sig returned) refl refl sane ascii
      ∙ ap ok (
          any-rotate (out.dumps (sidecar_of out p)) sig id2 new2 new (rotate id new end)
            (current-rotate id new end) other2 other)
