-- ===== src/Ingest/Cloudflare.antt =====
-- api/v1/ingest_cloudflare.py: signed batches of Cloudflare's log lines become events.
use zaqorincore.Prelude.{
  ℕ, ◌+◌, String, Bool, true, false, not, ◌&&◌, Option, none, some, List, [], ◌∷◌, ◌++◌, ltb,
  nat_beq, is_empty, text_length, all_chars, lower, keep, take, Result, ok, err, ◌>>=◌, ◌>>◌,
  raise_if, string_eq, nat_eq, ◌==◌, if◌then◌else◌,
}
use mathlib.Core.List.{reverse}
use zaqorincore.Dict.{Dict, put}
use zaqorincore.Depth.{DecodeError, safe_loads}
use zaqorincore.Ingest.Values.{
  Json, null, boolean, number, text, array, object, Members, member_of, scalar_text, coerced,
  truncate,
}
use zaqorincore.Ingest.Webhook.{
  Stamp, Event, Tables, Batch, empty_batch, stamp_or, replace_zulu, schema_version,
}
use zaqorincore.Audit.Log.{
  Field, code as status_code, Entry, State, Writer, Moment, AuditError, Item, record_entry,
}
use zaqorincore.Ingest.Endpoint.{fits, Service}
use zaqorincore.Prelude.Int.{int, in_range}

abbrev pub max_logpush_bytes : ℕ
max_logpush_bytes = 5242880

abbrev pub max_line_bytes : ℕ
max_line_bytes = 65536

abbrev pub logpush_source : String
logpush_source = "cloudflare_logpush"

-- The UUID b1f4b3e0-0000-0000-0000-000000000001, by its last digits
abbrev pub logpush_host_id : ℕ
logpush_host_id = 1

-- What the libraries, the database and the stream do for one request. `hmac` is the hexadecimal digest
-- under the module's secret, `without_cr` takes a carriage return off the end, `by_received` is the
-- database's order of rows by the time of their transaction, the latest first.
pub record Edge : Type 1 where
  pub Bytes : Type 0
  pub size : Bytes → ℕ
  pub splitlines : Bytes → List Bytes
  pub without_cr : Bytes → Bytes
  pub text_of : Bytes → String
  pub hmac : Bytes → String
  pub repr : Json → String
  pub decode : String → Result DecodeError Json
  pub fromisoformat : String → Option Stamp
  pub now : ℕ
  pub uuid4 : ℕ → ℕ
  pub upserts : Bool
  pub commits : List Event → Bool
  pub selects : Bool
  pub by_received : List Event → List Event
  pub publishes : ℕ → Bool

-- The answers other than an acknowledgement, and what is raised outside all `try`s.
pub data LogpushError : Type 0 where
  body_too_large unauthorized body_empty not_persisted raised : LogpushError

abbrev pub logpush_fields : List (String × String)
logpush_fields =
    ("ClientIP", "src_ip")
    ∷ ("ClientRequestHost", "host")
    ∷ ("ClientRequestMethod", "method")
    ∷ ("ClientRequestURI", "uri")
    ∷ ("EdgeResponseStatus", "status")
    ∷ ("ClientRequestUserAgent", "user_agent")
    ∷ ("ClientCountry", "country")
    ∷ ("ClientASN", "asn")
    ∷ ("BotScore", "bot_score")
    ∷ ("WAFAction", "waf_action")
    ∷ ("WAFRuleID", "waf_rule_id")
    ∷ ("CacheCacheStatus", "cache_status")
    ∷ ("EdgeStartTimestamp", "edge_start_ts")
    ∷ ("EdgeEndTimestamp", "edge_end_ts")
    ∷ []

module _ (e : Edge) where
  abbrev pub put_field : String → Option Json → Dict String String → Dict String String
  put_field key none out = out
  put_field key (some v) out = elim (coerced e.repr v) [
    | none ↦ out
    | some s ↦ put key (truncate (scalar_text s)) out
  ]

  unfoldable pub logpush_metadata_from :
      List (String × String) → Members → Dict String String → Dict String String
  logpush_metadata_from [] r out = out
  logpush_metadata_from ((field, key) ∷ fields) r out =
      logpush_metadata_from fields r (put_field key (member_of field r) out)

  -- `_build_metadata`
  unfoldable pub logpush_metadata : Members → Dict String String
  logpush_metadata r = logpush_metadata_from logpush_fields r []

  abbrev pub edge_now : Stamp
  edge_now = record { at = e.now; aware = true }

  unfoldable pub parse_timestamp : Option Json → Stamp
  parse_timestamp (some (text raw)) = stamp_or edge_now (e.fromisoformat (replace_zulu raw))
  parse_timestamp (some null) = edge_now
  parse_timestamp (some (boolean b)) = edge_now
  parse_timestamp (some (number n)) = edge_now
  parse_timestamp (some (array vs)) = edge_now
  parse_timestamp (some (object ms)) = edge_now
  parse_timestamp none = edge_now

  -- `_verify_hmac`: a text beyond ASCII is refused by `compare_digest` with a TypeError. A header is
  -- Latin-1, of which no letter beyond ASCII has an ASCII lower case.
  unfoldable pub verify_hmac : e.Bytes → String → Result LogpushError Bool
  verify_hmac body presented =
      if is_empty presented
      then ok false
      else if not (nat_beq (text_length presented) 64)
      then ok false
      else if not (all_chars (λ c. ltb c 128) presented)
      then err raised
      else ok (e.hmac body == lower presented)

  abbrev pub logged_event : e.Bytes → ℕ → Members → Event
  logged_event line n r = record {
    id = e.uuid4 n;
    host_id = logpush_host_id;
    schema = schema_version;
    occurred_at = parse_timestamp (member_of "EdgeStartTimestamp" r);
    source = logpush_source;
    raw = e.text_of line;
    metadata = logpush_metadata r;
  }

  abbrev pub rejected_line : Batch → Batch
  rejected_line b = record b { rejected = b.rejected + 1 }

  abbrev pub decoded_line : e.Bytes → Batch → Result DecodeError Json → Batch
  decoded_line line b (ok (object r)) = record {
    accepted = b.accepted + 1;
    rejected = b.rejected;
    added = b.added ++ logged_event line b.accepted r ∷ [];
  }
  decoded_line line b (ok null) = rejected_line b
  decoded_line line b (ok (boolean v)) = rejected_line b
  decoded_line line b (ok (number v)) = rejected_line b
  decoded_line line b (ok (text v)) = rejected_line b
  decoded_line line b (ok (array v)) = rejected_line b
  decoded_line line b (err d) = rejected_line b

  unfoldable pub ingest_line : e.Bytes → Batch → Batch
  ingest_line line b =
      if nat_beq (e.size line) 0
      then b
      else if ltb max_line_bytes (e.size line)
      then rejected_line b
      else decoded_line line b (safe_loads e.decode (e.text_of line))

  unfoldable pub ingest_lines : List e.Bytes → Batch → Batch
  ingest_lines [] b = b
  ingest_lines (line ∷ lines) b = ingest_lines lines (ingest_line (e.without_cr line) b)

  -- `_ensure_logpush_host`
  unfoldable pub ensure_logpush_host : Tables → Tables
  ensure_logpush_host t = record t { hosts = put logpush_host_id e.now t.hosts }

  abbrev pub is_logged : Event → Bool
  is_logged v = nat_beq v.host_id logpush_host_id && (v.source == logpush_source)

  -- The first `n` rows of the SELECT, last one first.
  unfoldable pub newest_logged : ℕ → List Event → List Event
  newest_logged n es = reverse (take n (e.by_received (keep is_logged es)))

  unfoldable pub publish_each : List Event → List ℕ → List ℕ
  publish_each [] sent = sent
  publish_each (v ∷ es) sent =
      let after = publish_each es (sent ++ v.id ∷ []) in
      let skipped = publish_each es sent in if e.publishes v.id then after else skipped

  -- `_publish_accepted`, whose SELECT is outside the `try`, where something was accepted
  unfoldable pub publish_accepted : ℕ → Tables → Result LogpushError (Unit {0}) × Tables
  publish_accepted accepted t =
      if nat_beq accepted 0
      then (ok tt, t)
      else if e.selects
      then (
        ok tt,
        record t { published = publish_each (newest_logged accepted t.events) t.published },
      )
      else (err raised, t)

  abbrev pub published_batch :
      Batch → Result LogpushError (Unit {0}) × Tables → Result LogpushError Batch × Tables
  published_batch b (ok u, t) = (ok b, t)
  published_batch b (err d, t) = (err d, t)

  -- A batch whose host row was written or not, and whose commit went well or not.
  abbrev pub logged_if : Bool → Bool → Batch → Tables → Result LogpushError Batch × Tables
  logged_if false commits b t = (err raised, t)
  logged_if true false b t = (err not_persisted, t)
  logged_if true true b t = published_batch b (
      publish_accepted b.accepted (record (ensure_logpush_host t) { events = t.events ++ b.added }))

  -- `_ingest_ndjson`
  unfoldable pub ingest_ndjson : e.Bytes → Tables → Result LogpushError Batch × Tables
  ingest_ndjson body t =
      let b = ingest_lines (e.splitlines body) empty_batch in
      logged_if e.upserts (e.commits b.added) b t

  abbrev pub logpush_length_fits : Option String → Bool
  logpush_length_fits none = true
  logpush_length_fits (some s) = elim (int s) [
    | none ↦ false
    | some n ↦ fits (in_range 0 max_logpush_bytes n)
  ]

  abbrev pub presented_by : e.Bytes → Option String → Result LogpushError Bool
  presented_by body none = ok false
  presented_by body (some sig) = verify_hmac body sig

  -- The checks in front of the batch.
  unfoldable pub admit : Option String → Option String → e.Bytes → Result LogpushError (Unit {0})
  admit content_length signature body = do
    raise_if (not (logpush_length_fits content_length)) body_too_large
    raise_if (ltb max_logpush_bytes (e.size body)) body_too_large
    valid ← presented_by body signature
    raise_if (not valid) unauthorized
    raise_if (nat_beq (e.size body) 0) body_empty
    ok tt

  abbrev pub ingest_admitted :
      e.Bytes → Tables → Result LogpushError (Unit {0}) → Result LogpushError Batch × Tables
  ingest_admitted body t (err d) = (err d, t)
  ingest_admitted body t (ok u) = ingest_ndjson body t

  -- The endpoint up to its audit entry.
  unfoldable pub ingest_signed :
      Option String → Option String → e.Bytes → Tables → Result LogpushError Batch × Tables
  ingest_signed content_length signature body t =
      ingest_admitted body t (admit content_length signature body)

  -- IngestAck
  abbrev pub LogpushAck : Type 0
  LogpushAck = ℕ × ℕ

  abbrev pub logpush_entry : Batch → Entry Json
  logpush_entry b = record {
    actor = "cloudflare_logpush";
    action = "ingest cloudflare";
    target = "b1f4b3e0-0000-0000-0000-000000000001";
    status = some 200;
    extra =
        ("accepted", status_code b.accepted)
        ∷ ("rejected", status_code b.rejected)
        ∷ ("source", Field.text logpush_source)
        ∷ [];
  }

  abbrev pub logpush_answer :
      Batch
      → State Json × Result AuditError (Item Json)
      → Result LogpushError LogpushAck × State Json
  logpush_answer b (s, err d) = (err raised, s)
  logpush_answer b (s, ok i) = (ok (b.accepted, b.rejected), s)

  abbrev pub audited_logpush :
      Writer Json
      → Moment
      → State Json
      → Result LogpushError Batch × Tables
      → Result LogpushError LogpushAck × Service
  audited_logpush w m s (err d, t) = (err d, record { tables = t; audit = s })
  audited_logpush w m s (ok b, t) =
      let (r, after) = logpush_answer b (record_entry w m (logpush_entry b) s) in
      (r, record { tables = t; audit = after })

  -- `ingest_cloudflare_logpush`
  unfoldable pub ingest_cloudflare_logpush :
      Writer Json
      → Moment
      → Option String
      → Option String
      → e.Bytes
      → Service
      → Result LogpushError LogpushAck × Service
  ingest_cloudflare_logpush w m content_length signature body s =
      audited_logpush w m s.audit (ingest_signed content_length signature body s.tables)

-- The module's secret from the environment; `none` is the RuntimeError at its import.
unfoldable pub hmac_secret : String → Bool → Option String
hmac_secret env_secret is_dev =
    if is_empty env_secret
    then if is_dev then some "zaqorincore-dev-cloudflare-secret-change-me" else none
    else if (env_secret == "zaqorincore-dev-cloudflare-secret-change-me") && not is_dev
    then none
    else some env_secret
