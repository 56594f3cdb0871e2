-- ===== src/Envelope/Wrapped.antt =====
-- What error_envelope.py makes of an error response.
use zaqorincore.Prelude.{
  ℕ, String, Bool, true, false, not, ◌&&◌, some, List, ◌≤◌, ◌<◌, ◌⊎◌, [], ◌∷◌, is_empty, nat_eq,
  string_eq, ◌≡◌,
}
use zaqorincore.Dict.{Dict, get}
use zaqorincore.Envelope.{
  Codec, Chunk, chunks, wrapped, Response, Envelope, drain_body, error_code_for,
  is_envelope_enabled, is_excluded_path,
}

abbrev texts_full : Dict ℕ String → Bool
texts_full [] = true
texts_full ((n, s) ∷ d) = not (is_empty s) && texts_full d

-- What Starlette documents of headers: `dict` of them has each name with its first value, and a new
-- response has the headers that it is given; it adds `content-type` and `content-length` where they
-- are missing.
pub record IsDocumented (c : Codec) : Type 0 where
  pub dict_of-first : (h : Dict String String) (name : String) → get name (c.dict_of h) ≡ get name h
  pub init_headers-keeps :
      (e : Envelope) (d : Dict String String) (name : String) {v : String}
      → get name d ≡ some v
      → get name (c.init_headers e d) ≡ some v

-- A response with an envelope in the place of its body, and with every header that it had.
pub record IsWrapped (c : Codec) (before after : Response c) : Type 0 where
  pub envelope : Envelope
  pub body : after.body ≡ wrapped envelope
  pub told_twice : envelope.message ≡ envelope.detail
  pub not_empty : is_empty envelope.detail ≡ false
  pub code : envelope.code ≡ error_code_for before.status_code
  pub status : after.status_code ≡ before.status_code
  pub headers :
      (name : String) {v : String}
      → get name before.headers ≡ some v
      → get name after.headers ≡ some v

-- The responses that are passed through.
abbrev pub PassesThrough : {c : Codec} → String → String → Response c → Type 0
PassesThrough env path r =
    (is_envelope_enabled env ≡ false) ⊎ (r.status_code < 400) ⊎ (is_excluded_path path ≡ true)

-- What becomes of a response with the body `cs`.
pub data Dispatched (c : Codec) (env path : String) (r : Response c) (cs : List (Chunk c))
    (after : Response c) : Type 0 where
  passed : PassesThrough env path r → after ≡ r → Dispatched c env path r cs after
  drained :
      c.size (drain_body c cs) ≡ 0
      → after ≡ record r { body = chunks [] }
      → Dispatched c env path r cs after
  enveloped :
      400 ≤ r.status_code
      → is_excluded_path path ≡ false
      → IsWrapped c r after
      → Dispatched c env path r cs after
