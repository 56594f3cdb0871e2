-- ===== src/Evidence/Tests.antt =====
-- The evidence store on a concrete bundle.
use zaqorincore.Prelude.{
  ◌≡◌, ◌≢◌, refl, arith, String, true, false, Option, some, [], append, ok, err, string_eq, ==_iff,
  ◌==◌,
}
use zaqorincore.Evidence.Store.{
  Outside, Store, Submission, loaded, crash, path_separator, sidecar_of, write_bundle, new_store,
  submit, rotate, verify,
}
use zaqorincore.Evidence.Rotation.{rotate-verify, rotate-rotate-verify}

abbrev outside : Outside
unfolding append
outside = record {
  sha256 = λ bytes. append "#" bytes;
  hmac = λ key bytes. append key bytes;
  dumps = λ sidecar. append "{}" sidecar.alert_id;
  loads = λ bytes. loaded (some "current");
  resolve = λ path. path;
}

abbrev payload : String → Submission
payload id = record {
  alert_id = id;
  host_id = "host";
  captured_at = "2024";
  captured_by = "ops";
  bundle_sha256 = "#tar";
  source_hashes = [];
  tarball = "tar";
}

abbrev store : Store
store = new_store "/e" "k0" []

abbrev kept : Store
kept = write_bundle outside "/e/a1" "tar" "{}a1" "k0{}a1" store

escaping : submit outside (payload "../a1") store ≡ err path_separator
unfolding submit
escaping = refl

submitted : submit outside (payload "a1") store ≡ ok (kept, "k0{}a1")
unfolding submit new_store
submitted = refl

differ : (s t : String) → (s == t) ≡ false → s ≢ t
differ s t h e = ground (arith, ==_iff s t)

sane : (id : Option String) → loaded id ≢ crash
sane id e = cc

rotate-verify_example :
    (verify outside "a1" kept ≡ ok true) × (verify outside "a1" (rotate "u1" "k1" kept) ≡ ok true)
unfolding outside
rotate-verify_example =
    rotate-verify outside (payload "a1") store kept "k0{}a1" "u1" "k1" submitted
      (sane (some "current")) refl

rotate-rotate-verify_example :
    verify outside "a1" (rotate "u2" "k2" (rotate "u1" "k1" kept)) ≡ ok false
unfolding outside sidecar_of
rotate-rotate-verify_example =
    rotate-rotate-verify outside (payload "a1") store kept "k0{}a1" "u1" "k1" "u2" "k2" submitted
      (sane (some "current")) refl (differ "k1{}a1" "k0{}a1" refl) (differ "k2{}a1" "k0{}a1" refl)
