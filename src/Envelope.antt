-- ===== src/Envelope.antt =====
-- error_envelope.py: `ErrorEnvelopeMiddleware`, which wraps the bodies of error responses.
use zaqorincore.Prelude.{
  ℕ, ◌+◌, String, Bool, true, false, not, ◌&&◌, ◌||◌, Option, none, some, List, [], ◌∷◌, map, any,
  ltb, nat_beq, is_empty, append, decimal, strip, lower, has_prefix, has_part, contains, Result, ok,
  err, string_eq, nat_eq, ◌==◌, if◌then◌else◌,
}
use zaqorincore.Dict.{Dict, get}
use zaqorincore.Depth.{DecodeError, safe_loads}
use zaqorincore.Ingest.Values.{Json, null, boolean, number, text, array, object, member_of}
pub mod Wrapped
mod Tests

abbrev pub envelope_excluded_prefixes : List String
envelope_excluded_prefixes =
    "/healthz" ∷ "/readyz" ∷ "/api/v1/healthcheck" ∷ "/api/v1/ingest/cloudflare"
    ∷ "/api/v1/ingest/webhook" ∷ "/api/v1/security" ∷ "/api/v1/stats" ∷ "/api/v1/kanban" ∷ "/static"
    ∷ []

unfoldable pub is_excluded_path : String → Bool
is_excluded_path path =
    (path == "/") || any (λ prefix. has_prefix path prefix) envelope_excluded_prefixes

abbrev pub error_codes : Dict ℕ String
error_codes =
    (400, "bad_request")
    ∷ (401, "unauthorized")
    ∷ (403, "forbidden")
    ∷ (404, "not_found")
    ∷ (405, "method_not_allowed")
    ∷ (406, "not_acceptable")
    ∷ (409, "conflict")
    ∷ (413, "payload_too_large")
    ∷ (415, "unsupported_media_type")
    ∷ (422, "unprocessable_entity")
    ∷ (429, "rate_limited")
    ∷ (500, "internal_error")
    ∷ (501, "not_implemented")
    ∷ (502, "bad_gateway")
    ∷ (503, "service_unavailable")
    ∷ (504, "gateway_timeout")
    ∷ []

abbrev pub status_texts : Dict ℕ String
status_texts =
    (400, "Bad Request")
    ∷ (401, "Unauthorized")
    ∷ (403, "Forbidden")
    ∷ (404, "Not Found")
    ∷ (405, "Method Not Allowed")
    ∷ (406, "Not Acceptable")
    ∷ (409, "Conflict")
    ∷ (413, "Payload Too Large")
    ∷ (415, "Unsupported Media Type")
    ∷ (422, "Unprocessable Entity")
    ∷ (429, "Too Many Requests")
    ∷ (500, "Internal Server Error")
    ∷ (501, "Not Implemented")
    ∷ (502, "Bad Gateway")
    ∷ (503, "Service Unavailable")
    ∷ (504, "Gateway Timeout")
    ∷ []

abbrev pub text_or : String → Option String → String
text_or default none = default
text_or default (some s) = s

unfoldable pub error_code_for : ℕ → String
error_code_for status = text_or "http_error" (get status error_codes)

-- What the environment variable holds, or "".
unfoldable pub is_envelope_enabled : String → Bool
is_envelope_enabled raw = contains (lower (strip raw)) ("1" ∷ "true" ∷ "yes" ∷ [])

-- The envelope, whose `detail` stands in it twice.
pub record Envelope : Type 0 where
  pub code : String
  pub message : String
  pub request_id : Option String
  pub detail : String

-- Bytes, with their decoding, the JSON decoder and `json.dumps`; and of Starlette what `dict` makes of
-- the headers of a response, and the headers of `Response(content, headers=…,
-- media_type="application/json")` for an envelope and such a dictionary.
pub record Codec : Type 1 where
  pub Bytes : Type 0
  pub size : Bytes → ℕ
  pub join : List Bytes → Bytes
  pub encode : String → Bytes
  pub text_of : Bytes → String
  pub decode : String → Result DecodeError Json
  pub dumps : Json → String
  pub dict_of : Dict String String → Dict String String
  pub init_headers : Envelope → Dict String String → Dict String String

module _ (c : Codec) where
  -- A chunk of a streaming body.
  pub data Chunk : Type 0 where
    bytes : c.Bytes → Chunk
    characters : String → Chunk

  pub data Body : Type 0 where
    chunks : List Chunk → Body
    wrapped : Envelope → Body

  -- The headers are pairs in their order, where a name may stand more than once; `get` reads the
  -- first.
  pub record Response : Type 0 where
    pub status_code : ℕ
    pub headers : Dict String String
    pub body : Body

  abbrev pub chunk_bytes : Chunk → c.Bytes
  chunk_bytes (bytes b) = b
  chunk_bytes (characters s) = c.encode s

  unfoldable pub drain_body : List Chunk → c.Bytes
  drain_body cs = c.join (map chunk_bytes cs)

  abbrev pub detail_text : String → Option Json → String
  detail_text raw none = raw
  detail_text raw (some null) = raw
  detail_text raw (some (text s)) = s
  detail_text raw (some (boolean b)) = c.dumps (boolean b)
  detail_text raw (some (number n)) = c.dumps (number n)
  detail_text raw (some (array vs)) = c.dumps (array vs)
  detail_text raw (some (object ms)) = c.dumps (object ms)

  abbrev pub parsed_detail : String → Result DecodeError Json → String
  parsed_detail raw (ok (object ms)) = detail_text raw (member_of "detail" ms)
  parsed_detail raw (ok null) = raw
  parsed_detail raw (ok (boolean b)) = raw
  parsed_detail raw (ok (number n)) = raw
  parsed_detail raw (ok (text s)) = raw
  parsed_detail raw (ok (array vs)) = raw
  parsed_detail raw (err e) = raw

  unfoldable pub extract_detail : c.Bytes → String → String
  extract_detail body content_type =
      let raw = c.text_of body in
      if nat_beq (c.size body) 0
      then ""
      else if has_part (lower content_type) "json"
      then parsed_detail raw (safe_loads c.decode raw)
      else raw

  abbrev pub detail_or_status : ℕ → String → String
  detail_or_status status detail =
      if is_empty detail
      then text_or (append "HTTP " (decimal status)) (get status status_texts)
      else detail

  -- response.headers.get("x-request-id") or the one of the context
  abbrev pub request_id_of : Option String → Option String → Option String
  request_id_of none context = context
  request_id_of (some id) context = if is_empty id then context else some id

  abbrev pub detail_of : c.Bytes → Response → String
  detail_of body r =
      detail_or_status r.status_code
        (extract_detail body (text_or "" (get "content-type" r.headers)))

  abbrev pub envelope_of : Option String → c.Bytes → Response → Envelope
  envelope_of context body r = record {
    code = error_code_for r.status_code;
    message = detail_of body r;
    request_id = request_id_of (get "x-request-id" r.headers) context;
    detail = detail_of body r;
  }

  unfoldable pub wrap : Option String → c.Bytes → Response → Response
  wrap context body r =
      let envelope = envelope_of context body r in
      record {
        status_code = r.status_code;
        headers = c.init_headers envelope (c.dict_of r.headers);
        body = wrapped envelope;
      }

  -- A response whose body is read is left without it where it is empty.
  abbrev pub on_body : Option String → Response → Body → Response
  on_body context r (wrapped e) = r
  on_body context r (chunks cs) =
      let body = drain_body cs in
      if nat_beq (c.size body) 0 then record r { body = chunks [] } else wrap context body r

  -- `dispatch`, behind `call_next`; names of headers are in lower case.
  unfoldable pub envelope_dispatch : String → Option String → String → Response → Response
  envelope_dispatch env context path r =
      if not (is_envelope_enabled env) || ltb r.status_code 400 || is_excluded_path path
      then r
      else on_body context r r.body
