-- ===== src/Ingest/Webhook.antt =====
-- api/v1/ingest_webhook.py: the endpoint, with the events it stores, publishes and records.
use Prim.Native.Char.{code}
use zaqorincore.Prelude.{
  ℕ, ◌+◌, String, Bool, true, false, not, Option, none, some, List, [], ◌∷◌, ◌++◌, nat_beq,
  is_empty, append, any, map, Result, ok, err, ◌>>◌, raise_if, string_eq, nat_eq, ◌==◌,
  if◌then◌else◌,
}
use zaqorincore.Dict.{Dict, get, put}
use zaqorincore.Ingest.Values.{Scalar, flag, numeral, chars, Record, scalar_text, truncate}
use zaqorincore.Ingest.Translate.{Library}

abbrev pub max_body_bytes : ℕ
max_body_bytes = 1048576

abbrev pub schema_version : String
schema_version = "1.0"

-- The UUID b1f4b3e0-0000-0000-0000-000000000002, by its last digits
abbrev pub webhook_host_id : ℕ
webhook_host_id = 2

-- A moment, and whether it has a time zone.
pub record Stamp : Type 0 where
  pub at : ℕ
  pub aware : Bool

-- Event
pub record Event : Type 0 where
  pub id : ℕ
  pub host_id : ℕ
  pub schema : String
  pub occurred_at : Stamp
  pub source : String
  pub raw : String
  pub metadata : Dict String String

-- The rows of `hosts`, by their `last_seen_at`, the rows of `events` and the ids on the stream.
pub record Tables : Type 0 where
  pub hosts : Dict ℕ ℕ
  pub events : List Event
  pub published : List ℕ

-- What the libraries, the database and the stream do for one request: `uuid4` gives the ids of its events.
pub record Outside : Type 0 where
  pub library : Library
  pub fromisoformat : String → Option Stamp
  pub dumps : Record → String
  pub now : ℕ
  pub uuid4 : ℕ → ℕ
  pub upserts : Bool
  pub commits : List Event → Bool
  pub selects : Bool
  pub publishes : ℕ → Bool

-- The HTTPExceptions, and what is raised outside all `try`s.
pub data IngestError : Type 0 where
  too_large empty_body malformed_json no_object persistence_failed crashed : IngestError

-- raw.replace("Z", "+00:00")
unfoldable pub replace_zulu : String → String
unfolding append
replace_zulu String.[] = String.[]
replace_zulu (String.◌∷◌ c s) =
    let rest = replace_zulu s in
    if nat_beq (code c) b'Z' then append "+00:00" rest else String.◌∷◌ c rest

abbrev pub stamp_or : Stamp → Option Stamp → Stamp
stamp_or now none = now
stamp_or now (some t) = t

abbrev pub utc_now : Outside → Stamp
utc_now o = record { at = o.now; aware = true }

unfoldable pub parse_occurred_at : Outside → Option Scalar → Stamp
unfolding replace_zulu
parse_occurred_at o (some (chars raw)) = stamp_or (utc_now o) (o.fromisoformat (replace_zulu raw))
parse_occurred_at o (some (flag b)) = utc_now o
parse_occurred_at o (some (numeral n)) = utc_now o
parse_occurred_at o none = utc_now o

unfoldable pub metadata_from : Record → Dict String String → Dict String String
metadata_from [] out = out
metadata_from ((k, v) ∷ r) out =
    let skipped = metadata_from r out in
    let stored = metadata_from r (put k (truncate (scalar_text v)) out) in
    if k == "occurred_at" then skipped else stored

unfoldable pub build_metadata : Record → Dict String String
build_metadata r = metadata_from r []

abbrev pub set_default : String → String → Option String → Dict String String → Dict String String
set_default k v none d = put k v d
set_default k v (some found) d = d

-- The metadata of an event: those of the record, its address and the vendor. `_truncate(vendor) or
-- vendor` is the truncated vendor, which is empty only if the vendor is.
unfoldable pub event_metadata : String → String → Record → Dict String String
event_metadata vendor src_ip r =
    let m = build_metadata r in
    put "vendor" (truncate vendor) (set_default "src_ip" (truncate src_ip) (get "src_ip" m) m)

-- A record's address, if it is a text that is not empty.
abbrev pub address_of : Option Scalar → Option String
address_of (some (chars s)) = if is_empty s then none else some s
address_of (some (flag b)) = none
address_of (some (numeral n)) = none
address_of none = none

-- The variables of the loop, with the events that the session holds.
pub record Batch : Type 0 where
  pub accepted : ℕ
  pub rejected : ℕ
  pub added : List Event

abbrev pub new_event : Outside → String → String → ℕ → String → Record → Event
new_event o source vendor n src_ip r = record {
  id = o.uuid4 n;
  host_id = webhook_host_id;
  schema = schema_version;
  occurred_at = parse_occurred_at o (get "occurred_at" r);
  source = source;
  raw = o.dumps r;
  metadata = event_metadata vendor src_ip r;
}

abbrev pub add_event : Outside → String → String → Record → Batch → Option String → Batch
add_event o source vendor r b none = record b { rejected = b.rejected + 1 }
add_event o source vendor r b (some src_ip) = record {
  accepted = b.accepted + 1;
  rejected = b.rejected;
  added = b.added ++ new_event o source vendor b.accepted src_ip r ∷ [];
}

unfoldable pub add_events : Outside → String → String → List Record → Batch → Batch
add_events o source vendor [] b = b
add_events o source vendor (r ∷ rs) b =
    add_events o source vendor rs (add_event o source vendor r b (address_of (get "src_ip" r)))

-- `_ensure_webhook_host`
unfoldable pub ensure_webhook_host : Outside → Tables → Tables
ensure_webhook_host o t = record t { hosts = put webhook_host_id o.now t.hosts }

-- The rows of the SELECT that are published, where a failure is logged.
unfoldable pub publish_rows : Outside → List ℕ → List Event → List ℕ → List ℕ
publish_rows o ids [] sent = sent
publish_rows o ids (e ∷ es) sent =
    let skipped = publish_rows o ids es sent in
    let after = publish_rows o ids es (sent ++ e.id ∷ []) in
    if any (λ i. nat_beq i e.id) ids then if o.publishes e.id then after else skipped else skipped

-- `_publish_persisted`: the SELECT is outside the `try`.
unfoldable pub publish_persisted : Outside → List ℕ → Tables → Result IngestError Tables
publish_persisted o ids t =
    raise_if (not o.selects) crashed
    >> ok (record t { published = publish_rows o ids t.events t.published })

abbrev pub is_none : List ℕ → Bool
is_none [] = true
is_none (i ∷ is) = false

abbrev pub published_or : Tables → Result IngestError Tables → Tables
published_or t (ok after) = after
published_or t (err e) = t

abbrev pub answered {ℓ} : {A : Type ℓ} → A → Result IngestError Tables → Result IngestError A
answered a (ok t) = ok a
answered a (err e) = err e

-- The publication, where there is something to publish.
unfoldable pub publish_new : Outside → Batch → Tables → Result IngestError Tables
publish_new o b t =
    let ids = map (λ e. e.id) b.added in if is_none ids then ok t else publish_persisted o ids t

abbrev pub committed : Outside → Batch → Tables → Result IngestError Batch × Tables
committed o b t =
    let stored = record t { events = t.events ++ b.added } in
    let r = publish_new o b stored in (answered b r, published_or stored r)

-- What becomes of a batch whose host row was written or not, and whose commit went well or not: a
-- failed commit rolls the session back, with the row of the host.
abbrev pub stored_if : Bool → Bool → Outside → Batch → Tables → Result IngestError Batch × Tables
stored_if false commits o b t = (err crashed, t)
stored_if true false o b t = (err persistence_failed, t)
stored_if true true o b t = committed o b (ensure_webhook_host o t)

abbrev pub empty_batch : Batch
empty_batch = record { accepted = 0; rejected = 0; added = [] }

-- `_ingest_records`
unfoldable pub ingest_records :
    Outside → List Record → String → String → Tables → Result IngestError Batch × Tables
ingest_records o records source vendor t =
    let b = add_events o source vendor records empty_batch in
    stored_if o.upserts (o.commits b.added) o b t
