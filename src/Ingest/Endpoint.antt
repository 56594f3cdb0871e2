-- ===== src/Ingest/Endpoint.antt =====
-- api/v1/ingest_webhook.py: the endpoint, from the request to the audit entry and the answer.
use zaqorincore.Prelude.{
  ℕ, String, Bool, true, false, not, Option, none, some, [], ◌∷◌, ltb, nat_beq, is_empty, strip,
  Result, ok, err, ◌>>=◌, ◌>>◌, raise_if, string_eq, if◌then◌else◌,
}
use zaqorincore.Prelude.Int.{int, in_range}
use zaqorincore.Depth.{DecodeError, safe_loads}
use zaqorincore.Audit.Log.{
  Field, code as status_code, Entry, State, Writer, Moment, AuditError, Item, record_entry,
}
use zaqorincore.Ingest.Values.{Json, text, object, Members, member_of}
use zaqorincore.Ingest.Translate.{vendor_or, pick_translator}
use zaqorincore.Ingest.Webhook.{
  max_body_bytes, Tables, Outside, IngestError, too_large, empty_body, malformed_json, no_object,
  crashed, Batch, ingest_records,
}

pub record Request : Type 0 where
  pub content_length : Option String
  pub body_size : ℕ
  pub body_text : String
  pub vendor : Option String
  pub x_event_source : Option String

-- IngestAck
pub record Ack : Type 0 where
  pub accepted : ℕ
  pub rejected : ℕ
  pub source : String

abbrev pub fits : Option ℕ → Bool
fits none = false
fits (some n) = true

abbrev pub length_fits : Option String → Bool
length_fits none = true
length_fits (some s) = elim (int s) [ none ↦ false | some n ↦ fits (in_range 0 max_body_bytes n) ]

-- The body as JSON, whose ValueErrors include the one of the depth limit.
abbrev pub parsed_body : Result DecodeError Json → Result IngestError Json
parsed_body (err e) = err malformed_json
parsed_body (ok v) = ok v

abbrev pub object_body : Json → Result IngestError Members
object_body (object ms) = ok ms
object_body _ = err no_object

-- The steps up to the translation.
unfoldable pub read_body : Outside → Request → Result IngestError Members
unfolding int safe_loads
read_body o r = do
  raise_if (not (length_fits r.content_length)) too_large
  raise_if (ltb max_body_bytes r.body_size) too_large
  raise_if (nat_beq r.body_size 0) empty_body
  parsed ← parsed_body (safe_loads o.library.decode r.body_text)
  object_body parsed

-- s.strip() or None
abbrev pub stripped : Option String → Option String
stripped none = none
stripped (some s) = if is_empty (strip s) then none else some (strip s)

abbrev pub text_value : Option Json → Option String
text_value (some (text s)) = some s
text_value _ = none

abbrev pub first_source : Option String → Option String → Option String → String
first_source (some s) body vendor = s
first_source none (some s) vendor = s
first_source none none (some s) = s
first_source none none none = "webhook"

-- header > body > vendor > default
unfoldable pub detect_source : Option String → Members → String → String
detect_source x_event_source body vendor_source =
    first_source (stripped x_event_source) (stripped (text_value (member_of "source" body)))
      (stripped (some vendor_source))

abbrev pub audit_entry : String → String → ℕ → ℕ → Entry Json
audit_entry source vendor accepted rejected = record {
  actor = "webhook";
  action = "ingest webhook";
  target = source;
  status = some 200;
  extra =
      ("accepted", status_code accepted)
      ∷ ("rejected", status_code rejected)
      ∷ ("vendor", Field.text vendor)
      ∷ [];
}

-- What a request works on: the tables, and the module `audit`.
pub record Service : Type 0 where
  pub tables : Tables
  pub audit : State Json

abbrev pub audited :
    String
    → Batch
    → State Json × Result AuditError (Item Json)
    → Result IngestError Ack × State Json
audited source b (s, err e) = (err crashed, s)
audited source b (s, ok item) =
    (ok (record { accepted = b.accepted; rejected = b.rejected; source = source }), s)

abbrev pub finished :
    Writer Json
    → Moment
    → String
    → String
    → State Json
    → Result IngestError Batch × Tables
    → Result IngestError Ack × Service
finished w m source vendor s (err e, t) = (err e, record { tables = t; audit = s })
finished w m source vendor s (ok b, t) =
    let (r, after) =
      audited source b (record_entry w m (audit_entry source vendor b.accepted b.rejected) s) in
    (r, record { tables = t; audit = after })

unfoldable pub ingest_body :
    Outside → Writer Json → Moment → Request → Service → Members → Result IngestError Ack × Service
ingest_body o w m r s body =
    let (records, vendor_source) = pick_translator o.library r.vendor r.x_event_source body in
    let source = detect_source r.x_event_source body vendor_source in
    let vendor = vendor_or r.vendor (stripped r.x_event_source) in
    finished w m source vendor s.audit (ingest_records o records source vendor s.tables)

abbrev pub ingest_read :
    Outside
    → Writer Json
    → Moment
    → Request
    → Service
    → Result IngestError Members
    → Result IngestError Ack × Service
ingest_read o w m r s (err e) = (err e, s)
ingest_read o w m r s (ok body) = ingest_body o w m r s body

-- `ingest_webhook`; no translator raises.
unfoldable pub ingest_webhook :
    Outside → Writer Json → Moment → Request → Service → Result IngestError Ack × Service
ingest_webhook o w m r s = ingest_read o w m r s (read_body o r)
