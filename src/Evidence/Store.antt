-- ===== src/Evidence/Store.antt =====
-- evidence.py: `EvidenceStore`. Byte strings are texts; a directory is the path of its files. The
-- hash, the HMAC, the writing and reading of JSON and the resolution of paths are parameters.
use zaqorincore.Prelude.{
  all_chars, ltb, ◌&&◌, String, Bool, true, false, not, ◌||◌, Option, none, some, [], ◌∷◌, any,
  append, has_char, has_prefix, is_empty, Result, ok, err, ◌>>=◌, ◌>>◌, raise_if, string_eq, ◌==◌,
  if◌then◌else◌,
}
use zaqorincore.Dict.{Dict, get, put, has}

-- EvidenceSubmit, with the bytes of `as_tarball`; the time is its text in UTC.
pub record Submission : Type 0 where
  pub alert_id : String
  pub host_id : String
  pub captured_at : String
  pub captured_by : String
  pub bundle_sha256 : String
  pub source_hashes : Dict String String
  pub tarball : String

pub record Sidecar : Type 0 where
  pub alert_id : String
  pub host_id : String
  pub captured_at : String
  pub captured_by : String
  pub bundle_sha256 : String
  pub source_hashes : Dict String String
  pub key_id : String

-- What `safe_loads` and `get` make of a sidecar's bytes: the key id, which may be missing, a
-- JSONDecodeError, or another exception.
pub data Loaded : Type 0 where
  loaded : Option String → Loaded
  decode_error : Loaded
  crash : Loaded

pub record Outside : Type 0 where
  pub sha256 : String → String
  pub hmac : String → String → String
  pub dumps : Sidecar → String
  pub loads : String → Loaded
  pub resolve : String → String

pub record Store : Type 0 where
  pub base_dir : String
  pub signing_key : String
  pub keys : Dict String String
  pub files : Dict String String

-- The ValueErrors, the KeyError of `self.keys[...]`, and what is not caught.
pub data EvidenceError : Type 0 where
  hash_mismatch : EvidenceError
  empty_id nul_byte dot_name path_separator hidden_name outside_base : EvidenceError
  no_current_key : EvidenceError
  uncaught : EvidenceError

-- `__post_init__`
unfoldable pub new_store : String → String → Dict String String → Store
unfolding put has
new_store base key keys = record {
  base_dir = base;
  signing_key = key;
  keys = if has "current" keys then keys else put "current" key keys;
  files = [];
}

-- s.isascii()
abbrev pub is_ascii : String → Bool
is_ascii s = all_chars (λ c. ltb c 128) s

abbrev pub or_signing_key : String → Option String → String
or_signing_key key none = key
or_signing_key key (some k) = k

-- `new_id` is the fresh id, `new_key` the given or the random key.
unfoldable pub rotate : String → String → Store → Store
unfolding get put
rotate new_id new_key s = record s {
  keys = put "current" new_key (
      put "previous" (or_signing_key s.signing_key (get "current" s.keys))
        ((new_id, new_key) ∷ []));
  signing_key = new_key;
}

module _ (out : Outside) where
  -- An id without separators is relative, so that the check of `is_absolute` cannot fail.
  unfoldable pub alert_dir : Store → String → Result EvidenceError String
  unfolding has_char has_prefix append
  alert_dir s alert_id = do
    raise_if (is_empty alert_id) empty_id
    raise_if (has_char 0 alert_id) nul_byte
    raise_if (alert_id == "." || alert_id == "..") dot_name
    raise_if (has_char b'/' alert_id || has_char b'\\' alert_id) path_separator
    raise_if (has_prefix alert_id ".") hidden_name
    let joined = out.resolve (append s.base_dir (append "/" alert_id))
    raise_if (not (has_prefix joined (append (out.resolve s.base_dir) "/"))) outside_base
    ok joined

  unfoldable pub bundle_path : String → String
  unfolding append
  bundle_path dir = append dir "/bundle.tar.gz"

  unfoldable pub sidecar_path : String → String
  unfolding append
  sidecar_path dir = append dir "/bundle.coc.json"

  unfoldable pub sig_path : String → String
  unfolding append
  sig_path dir = append dir "/bundle.coc.sig"

  unfoldable pub sidecar_of : Submission → Sidecar
  sidecar_of p = record {
    alert_id = p.alert_id;
    host_id = p.host_id;
    captured_at = p.captured_at;
    captured_by = p.captured_by;
    bundle_sha256 = p.bundle_sha256;
    source_hashes = p.source_hashes;
    key_id = "current";
  }

  -- The three files of a bundle.
  unfoldable pub write_bundle : String → String → String → String → Store → Store
  unfolding put bundle_path sidecar_path sig_path
  write_bundle dir tarball sidecar sig s = record s {
    files =
        put (sig_path dir) sig
          (put (sidecar_path dir) sidecar (put (bundle_path dir) tarball s.files));
  }

  abbrev pub current_key : Option String → Result EvidenceError String
  current_key none = err no_current_key
  current_key (some k) = ok k

  -- `submit`: the store and the signature, where the disk can be written. A store made by `new_store`
  -- always has a current key; without one, the bundle would be written before the KeyError.
  unfoldable pub submit : Submission → Store → Result EvidenceError (Store × String)
  unfolding alert_dir sidecar_of write_bundle get
  submit p s = do
    raise_if (not (is_ascii p.bundle_sha256)) uncaught
    raise_if (not (out.sha256 p.tarball == p.bundle_sha256)) hash_mismatch
    dir ← alert_dir s p.alert_id
    key ← current_key (get "current" s.keys)
    let sidecar = out.dumps (sidecar_of p)
    let sig = out.hmac key sidecar
    ok (write_bundle dir p.tarball sidecar sig s, sig)

  abbrev pub signed_by : String → String → String → Bool
  signed_by bytes sig key = out.hmac key bytes == sig

  abbrev pub or_current : Option String → String
  or_current none = "current"
  or_current (some id) = id

  abbrev pub signed_by_entry : String → String → Option String → Bool
  signed_by_entry bytes sig none = false
  signed_by_entry bytes sig (some key) = signed_by bytes sig key

  -- The loop over all keys.
  unfoldable pub signed_by_any : String → String → Dict String String → Bool
  signed_by_any bytes sig keys = any (λ e. signed_by bytes sig e.1) keys

  -- The two steps on the files' contents.
  unfoldable pub verify_loaded :
      String → String → Dict String String → Loaded → Result EvidenceError Bool
  unfolding get signed_by_any
  verify_loaded bytes sig keys crash = err uncaught
  verify_loaded bytes sig keys decode_error = ok (signed_by_any bytes sig keys)
  verify_loaded bytes sig keys (loaded id) =
      if signed_by_entry bytes sig (get (or_current id) keys)
      then ok true
      else ok (signed_by_any bytes sig keys)

  -- `compare_digest` refuses a text beyond ASCII by a TypeError, where there is a key to compare with.
  abbrev pub is_refused : String → Dict String String → Bool
  is_refused sig keys = not (is_ascii sig) && any (λ e. true) keys

  abbrev pub verify_files :
      Dict String String → Option String → Option String → Result EvidenceError Bool
  verify_files keys none sig = ok false
  verify_files keys (some bytes) none = ok false
  verify_files keys (some bytes) (some sig) =
      if is_refused sig keys then err uncaught else verify_loaded bytes sig keys (out.loads bytes)

  unfoldable pub verify : String → Store → Result EvidenceError Bool
  unfolding alert_dir verify_loaded get sidecar_path sig_path
  verify alert_id s = do
    dir ← alert_dir s alert_id
    verify_files s.keys (get (sidecar_path dir) s.files) (get (sig_path dir) s.files)
