-- ===== src/Evidence/Signatures.antt =====
-- evidence.py: which signatures `verify` accepts.
use zaqorincore.Prelude.{
  not, ◌≡◌, ◌≢◌, refl, sym, ◌∙◌, ap, arith, inl, inr, String, true, false, Option, none, some, [],
  ◌∷◌, append, ok, string_eq, ==_iff, ◌==◌, >>=-eq-ok, raise_if->>-eq-ok, ok-injective, ==_refl,
  Option-cases, Bool-cases,
}
use text.Mathlib.TextLemmas.{tail-eq_of_cons-eq}
use zaqorincore.Dict.{Dict, get, get-put}
use zaqorincore.Evidence.Store.{
  Outside, Store, Submission, Loaded, loaded, decode_error, crash, alert_dir, sidecar_path,
  sig_path, sidecar_of, write_bundle, submit, current_key, signed_by, signed_by_any, or_current,
  verify_loaded, is_ascii, uncaught, hash_mismatch, verify,
}

module _ (out : Outside) where
  -- A known key that has signed is one of the keys tried.
  pub any-get :
      (bytes sig id key : String) (keys : Dict String String)
      → get id keys ≡ some key
      → signed_by out bytes sig key ≡ true
      → signed_by_any out bytes sig keys ≡ true
  unfolding get signed_by_any
  any-get bytes sig id key [] found signed = cc
  any-get bytes sig id key ((j, k) ∷ keys) found signed =
      ground (arith, ==_iff j id, any-get bytes sig id key keys)

  verify_loaded-loaded :
      (bytes sig : String) (keys : Dict String String) (id : Option String)
      → verify_loaded out bytes sig keys (loaded id) ≡ ok (signed_by_any out bytes sig keys)
  unfolding verify_loaded
  verify_loaded-loaded bytes sig keys id = elim (Option-cases (get (or_current out id) keys)) [
    | inl missing ↦ rw missing refl
    | inr (key, found) ↦ ground (arith, found, any-get bytes sig (or_current out id) key keys found)
  ]

  verify_loaded-any :
      (bytes sig : String) (keys : Dict String String) (l : Loaded)
      → l ≢ crash
      → verify_loaded out bytes sig keys l ≡ ok (signed_by_any out bytes sig keys)
  unfolding verify_loaded
  verify_loaded-any bytes sig keys crash sane = absurd (sane refl)
  verify_loaded-any bytes sig keys decode_error sane = refl
  verify_loaded-any bytes sig keys (loaded id) sane = verify_loaded-loaded bytes sig keys id

  -- Where both files are there, the sidecar's bytes crash no parser and the signature is ASCII,
  -- `verify` says whether any key in the history has signed them: the id that the sidecar names makes no difference.
  pub verify-any :
      (s : Store) (id dir bytes sig : String)
      → alert_dir out s id ≡ ok dir
      → get (sidecar_path out dir) s.files ≡ some bytes
      → get (sig_path out dir) s.files ≡ some sig
      → out.loads bytes ≢ crash
      → is_ascii sig ≡ true
      → verify out id s ≡ ok (signed_by_any out bytes sig s.keys)
  unfolding verify
  verify-any s id dir bytes sig placed has_sidecar has_sig sane ascii =
      rw (placed, has_sidecar, has_sig, ascii)
        (verify_loaded-any bytes sig s.keys (out.loads bytes) sane)

  -- What `submit` has found and written when it returns.
  pub record Wrote (p : Submission) (s end : Store) (sig : String) : Type 0 where
    pub dir : String
    pub key : String
    pub placed : alert_dir out s p.alert_id ≡ ok dir
    pub found : get "current" s.keys ≡ some key
    pub signed : out.hmac key (out.dumps (sidecar_of out p)) ≡ sig
    pub written : write_bundle out dir p.tarball (out.dumps (sidecar_of out p)) sig s ≡ end

  current_key-eq-ok : (o : Option String) (key : String) → current_key out o ≡ ok key → o ≡ some key
  current_key-eq-ok none key e = cc
  current_key-eq-ok (some k) key e = ap some (ok-injective e)

  return-Wrote :
      (p : Submission) (s end : Store) (sig dir key : String)
      → alert_dir out s p.alert_id ≡ ok dir
      → get "current" s.keys ≡ some key
      → Path
          (Store × String)
          (
            write_bundle out dir p.tarball
                (out.dumps (sidecar_of out p))
                (out.hmac key (out.dumps (sidecar_of out p)))
                s,
            out.hmac key (out.dumps (sidecar_of out p)),
          )
          (end, sig)
      → Wrote p s end sig
  return-Wrote p s end sig dir key placed found same = record {
    dir = dir;
    key = key;
    placed = placed;
    found = found;
    signed = ap (λ w. w.1) same;
    written =
        ap (λ g. write_bundle out dir p.tarball (out.dumps (sidecar_of out p)) g s)
          (sym (ap (λ w. w.1) same))
        ∙ ap (λ w. w.0) same;
  }

  pub submit-Wrote :
      (p : Submission) (s end : Store) (sig : String)
      → submit out p s ≡ ok (end, sig)
      → Wrote p s end sig
  unfolding submit
  submit-Wrote p s end sig returned =
      let (ascii, checked) =
        raise_if->>-eq-ok (not (is_ascii p.bundle_sha256)) uncaught _ returned in
      let (same, rest) =
        raise_if->>-eq-ok (not (out.sha256 p.tarball == p.bundle_sha256)) hash_mismatch _ checked in
      let (dir, placed, after) = >>=-eq-ok (alert_dir out s p.alert_id) _ rest in
      let (key, found, wrote) = >>=-eq-ok (current_key out (get "current" s.keys)) _ after in
      return-Wrote p s end sig dir key placed (current_key-eq-ok _ key found) (ok-injective wrote)

  append-injective : (d s t : String) → append d s ≡ append d t → s ≡ t
  unfolding append
  append-injective String.[] s t e = e
  append-injective (String.◌∷◌ c d) s t e = append-injective d s t (tail-eq_of_cons-eq e)

  sig-sidecar_differ : (dir : String) → (sig_path out dir == sidecar_path out dir) ≡ false
  unfolding sidecar_path sig_path
  sig-sidecar_differ dir = elim (Bool-cases (sig_path out dir == sidecar_path out dir)) [
    | inl same ↦ cc (
        append-injective dir "/bundle.coc.sig" "/bundle.coc.json"
          ((==_iff (sig_path out dir) (sidecar_path out dir)).0 same))
    | inr e ↦ e
  ]

  -- What is found in the files of a bundle afterwards.
  pub sidecar_written :
      (dir tarball sidecar sig : String) (s : Store)
      → get (sidecar_path out dir) (write_bundle out dir tarball sidecar sig s).files ≡ some sidecar
  unfolding write_bundle
  sidecar_written dir tarball sidecar sig s =
      rw (get-put, sig-sidecar_differ dir, get-put, ==_refl (sidecar_path out dir)) refl

  pub sig_written :
      (dir tarball sidecar sig : String) (s : Store)
      → get (sig_path out dir) (write_bundle out dir tarball sidecar sig s).files ≡ some sig
  unfolding write_bundle
  sig_written dir tarball sidecar sig s = rw (get-put, ==_refl (sig_path out dir)) refl

  pub alert_dir-base :
      (s t : Store) (id : String)
      → s.base_dir ≡ t.base_dir
      → alert_dir out s id ≡ alert_dir out t id
  unfolding alert_dir
  alert_dir-base s t id same = rw same refl

  pub base_kept :
      (p : Submission) (s end : Store) (sig : String)
      → Wrote p s end sig
      → s.base_dir ≡ end.base_dir
  unfolding write_bundle
  base_kept p s end sig wrote = ap (λ w. w.base_dir) wrote.written

  pub keys_kept :
      (p : Submission) (s end : Store) (sig : String) → Wrote p s end sig → s.keys ≡ end.keys
  unfolding write_bundle
  keys_kept p s end sig wrote = ap (λ w. w.keys) wrote.written

  -- A store with the same files looks for the signature among its own keys.
  pub verify-Wrote :
      (p : Submission) (s end now : Store) (sig : String)
      → Wrote p s end sig
      → now.base_dir ≡ end.base_dir
      → now.files ≡ end.files
      → out.loads (out.dumps (sidecar_of out p)) ≢ crash
      → is_ascii sig ≡ true
      → verify out p.alert_id now
        ≡ ok (signed_by_any out (out.dumps (sidecar_of out p)) sig now.keys)
  verify-Wrote p s end now sig wrote base files sane ascii =
      verify-any now p.alert_id wrote.dir (out.dumps (sidecar_of out p)) sig
        (alert_dir-base now s p.alert_id (base ∙ sym (base_kept p s end sig wrote)) ∙ wrote.placed)
        (ap (get (sidecar_path out wrote.dir)) (files ∙ ap (λ w. w.files) (sym wrote.written))
          ∙ sidecar_written wrote.dir p.tarball (out.dumps (sidecar_of out p)) sig s)
        (ap (get (sig_path out wrote.dir)) (files ∙ ap (λ w. w.files) (sym wrote.written))
          ∙ sig_written wrote.dir p.tarball (out.dumps (sidecar_of out p)) sig s)
        sane ascii
