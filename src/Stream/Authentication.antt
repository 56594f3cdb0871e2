-- ===== src/Stream/Authentication.antt =====
-- Who gets through the handshake of api/v1/stream.py.
use zaqorincore.Prelude.{
  String, true, false, Option, none, some, List, Result, ok, err, >>=-eq-ok, is_empty, ◌≡◌, arith,
  string_eq, ==_iff, ap,
}
use zaqorincore.Dispatcher.{Host, find_host}
use zaqorincore.Depth.{DecodeError, too_deep, malformed, safe_loads}
use zaqorincore.Stream.Frames.{Hello, Parser}
use zaqorincore.Stream.Session.{is_type, loaded, validated, read_hello, check_hello, handshake}

abbrev or_empty : Option String → String
or_empty none = ""
or_empty (some s) = s

-- A host that has proved that it knows its secret, on this connection.
pub record Authenticated (p : Parser) (hmac : String → String → String) (nonce raw : String)
    (hosts : List Host) (host : Host) : Type 0 where
  pub first : p.Object
  pub hello : Hello
  pub secret : String
  pub was_read : safe_loads p.decode raw ≡ ok first
  pub was_valid : p.hello_of first ≡ some hello
  pub nonce_echoed : p.nonce_of first ≡ some nonce
  pub known : find_host hello.agent_id hosts ≡ some host
  pub has_secret : host.secret ≡ some secret
  pub secret_set : is_empty secret ≡ false
  pub signed : p.sig_of first ≡ some (hmac secret nonce)

module _ (p : Parser) where
  is_type-eq : (name : String) (o : Option String) → is_type p name o ≡ true → o ≡ some name
  is_type-eq name none h = ground arith
  is_type-eq name (some t) h = ap some ((==_iff t name).0 h)

  loaded-eq-ok : (r : Result DecodeError p.Object) (o : p.Object) → loaded p r ≡ ok o → r ≡ ok o
  loaded-eq-ok (ok o') o h = ground arith
  loaded-eq-ok (err too_deep) o h = ground arith
  loaded-eq-ok (err malformed) o h = ground arith

  validated-eq-ok : (v : Option Hello) (h : Hello) → validated p v ≡ ok h → v ≡ some h
  validated-eq-ok (some h') h e = ground arith
  validated-eq-ok none h e = ground arith

  read_hello-eq-ok :
      (nonce raw : String) (first : p.Object) (hello : Hello)
      → read_hello p nonce raw ≡ ok (first, hello)
      → (safe_loads p.decode raw ≡ ok first)
        × (p.hello_of first ≡ some hello)
        × (p.nonce_of first ≡ some nonce)
  unfolding read_hello
  read_hello-eq-ok nonce raw first hello h =
      (ground arith, ground arith, is_type-eq nonce (p.nonce_of first) (ground arith))

  check_hello-eq-ok :
      (hmac : String → String → String) (nonce : String) (first : p.Object) (hello : Hello)
      (hosts : List Host) (host : Host)
      → check_hello p hmac nonce first hello hosts ≡ ok host
      → (find_host hello.agent_id hosts ≡ some host)
        × (secret : String) × (host.secret ≡ some secret)
        × (is_empty secret ≡ false)
        × (p.sig_of first ≡ some (hmac secret nonce))
  unfolding check_hello
  check_hello-eq-ok hmac nonce first hello hosts host h = (
    ground arith,
    or_empty host.secret,
    ground arith,
    ground arith,
    ground (arith, ==_iff (hmac (or_empty host.secret) nonce) (or_empty (p.sig_of first))),
  )

  -- If a handshake ends well, then its first frame echoed the connection's nonce and carried the HMAC
  -- of it under the secret, which is not empty, of the host with the frame's agent id.
  pub handshake-Authenticated :
      (hmac : String → String → String) (nonce raw : String) (hosts : List Host) (host : Host)
      → handshake p hmac nonce raw hosts ≡ ok host
      → Authenticated p hmac nonce raw hosts host
  unfolding handshake
  handshake-Authenticated hmac nonce raw hosts host h =
      let ((first, hello), reads, checks) =
        >>=-eq-ok (read_hello p nonce raw) (λ q. check_hello p hmac nonce q.0 q.1 hosts) h in
      let (was_read, was_valid, nonce_echoed) = read_hello-eq-ok nonce raw first hello reads in
      let (known, secret, has_secret, secret_set, signed) =
        check_hello-eq-ok hmac nonce first hello hosts host checks in
      record {
        first = first;
        hello = hello;
        secret = secret;
        was_read = was_read;
        was_valid = was_valid;
        nonce_echoed = nonce_echoed;
        known = known;
        has_secret = has_secret;
        secret_set = secret_set;
        signed = signed;
      }
