-- ===== src/Ingest/CloudflareTests.antt =====
-- A signed batch of two log lines, one of which is no object, between blank ones.
use zaqorincore.Prelude.{
  ℕ, ◌≤◌, List, All, arith, String, true, false, none, some, [], ◌∷◌, ok, ◌≡◌, refl, string_eq,
  nat_eq, ◌==◌, if◌then◌else◌, text_length, lower, split, take_text,
}
use zaqorincore.Depth.{safe_loads}
use zaqorincore.Dict.{put}
use zaqorincore.Ingest.Values.{text, number, object, member, no_members, member_of, truncate}
use zaqorincore.Ingest.Webhook.{Tables, Batch, Event}
use zaqorincore.Ingest.Cloudflare.{
  Edge, verify_hmac, admit, ingest_signed, ingest_ndjson, ingest_lines, ingest_line,
  publish_accepted, hmac_secret, parse_timestamp, logpush_metadata, logpush_metadata_from,
}
use zaqorincore.Ingest.Logged.{Accepted, ingest_signed-Accepted}
use zaqorincore.Ingest.Newest.{IsLatestFirst}
use zaqorincore.Ingest.Published.{Published, ingest_signed-Published}
use mathlib.Core.List.Perm

abbrev digest : String
digest = "0123456789abcdef0123456789abcdef0123456789abcdef0123456789abcdef"

abbrev presented : String
presented = "0123456789ABCDEF0123456789abcdef0123456789abcdef0123456789abcdef"

abbrev edge : Edge
edge = record {
  Bytes = String;
  size = text_length;
  splitlines = split 10;
  without_cr = λ s. s;
  text_of = λ s. s;
  hmac = λ s. digest;
  repr = λ v. "...";
  decode = λ s.
      if s == "7"
      then ok (number "7")
      else ok (object (member "ClientIP" (text "10.0.0.1") no_members));
  fromisoformat = λ s. none;
  now = 5;
  uuid4 = λ n. 40;
  upserts = true;
  commits = λ es. true;
  selects = true;
  by_received = λ es. es;
  publishes = λ i. true;
}

abbrev tables : Tables
tables = record { hosts = []; events = []; published = 3 ∷ [] }

abbrev lines : String
lines = "\n7\n{}\n"

abbrev event : Event
event = record {
  id = 40;
  host_id = 1;
  schema = "1.0";
  occurred_at = record { at = 5; aware = true };
  source = "cloudflare_logpush";
  raw = "{}";
  metadata = ("src_ip", "10.0.0.1") ∷ [];
}

abbrev batch : Batch
batch = record { accepted = 1; rejected = 1; added = event ∷ [] }

accepts : (ingest_signed edge none (some presented) lines tables).0 ≡ ok batch
unfolding ingest_signed admit verify_hmac lower ingest_ndjson publish_accepted ingest_lines split
    ingest_line safe_loads parse_timestamp logpush_metadata member_of logpush_metadata_from put
    truncate take_text
accepts = refl

refuses_text : verify_hmac edge lines "é" ≡ ok false
unfolding verify_hmac
refuses_text = refl

no_placeholder : hmac_secret "zaqorincore-dev-cloudflare-secret-change-me" false ≡ none
unfolding hmac_secret
no_placeholder = refl

ingest_signed-Accepted_example :
    Accepted edge
      (some presented)
      lines
      tables
      (ingest_signed edge none (some presented) lines tables).1
      batch
ingest_signed-Accepted_example =
    ingest_signed-Accepted edge none (some presented) lines tables batch accepts

-- All rows are of one transaction.
abbrev time : Event → ℕ
time v = 5

one_time-latest : (v : Event) (es : List Event) → All (λ w. time w ≤ time v) es
one_time-latest v [] = tt
one_time-latest v (w ∷ es) = (omega arith, one_time-latest v es)

one_time-IsLatestFirst : (es : List Event) → IsLatestFirst time es
one_time-IsLatestFirst [] = tt
one_time-IsLatestFirst (v ∷ es) = (one_time-latest v es, one_time-IsLatestFirst es)

ingest_signed-Published_example :
    Published edge
      (3 ∷ [])
      (ingest_signed edge none (some presented) lines tables).1.published
      (event ∷ [])
ingest_signed-Published_example =
    ingest_signed-Published edge none (some presented) lines tables batch time 5
      (record { latest_first = one_time-IsLatestFirst; same_rows = λ es. Perm.refl es }) tt
      (refl, tt) (λ i. refl) accepts
