-- ===== src/Ingest/Tests.antt =====
-- A webhook with two records, one of which names no address.
use zaqorincore.Prelude.{
  ℕ, leb, ◌&&◌, String, Bool, true, false, none, some, [], ◌∷◌, ok, err, ◌≡◌, ◌⊎◌, refl, string_eq,
  nat_eq, is_space, append,
}
use zaqorincore.Dict.{get, put}
use zaqorincore.Audit.Log.{Writer, Moment, record_entry, written}
use zaqorincore.Ingest.Values.{
  Json, text, array, object, no_items, item, no_members, member, filter_from, filter_fields,
}
use zaqorincore.Ingest.KeyValues.{findall, message_of, are_pairs, findall-message_of}
use zaqorincore.Ingest.Translate.{Library, translator_named, pick_translator}
use zaqorincore.Ingest.Webhook.{
  Outside, persistence_failed, crashed, add_events, publish_persisted, publish_new, ingest_records,
}
use zaqorincore.Ingest.Endpoint.{
  Request, Ack, Service, read_body, detect_source, ingest_body, ingest_webhook,
}
use zaqorincore.Ingest.Counts.{Ingested, ingest_webhook-Ingested, ingest_webhook-err}

abbrev is_letter : ℕ → Bool
is_letter c = leb 97 c && leb c 122

findall_skips : findall is_letter "= at= k==v x y=1" ≡ ("k", "=v") ∷ ("y", "1") ∷ []
unfolding findall is_space append
findall_skips = refl

fields_are_pairs : are_pairs is_letter (("uri", "/a=b") ∷ ("status", "401") ∷ []) ≡ true
unfolding is_space
fields_are_pairs = refl

findall-message_of_example :
    findall is_letter (message_of (("uri", "/a=b") ∷ ("status", "401") ∷ []))
    ≡ ("uri", "/a=b") ∷ ("status", "401") ∷ []
findall-message_of_example =
    findall-message_of is_letter refl (("uri", "/a=b") ∷ ("status", "401") ∷ []) fields_are_pairs

abbrev record_with : String → Json → Json
record_with key v = object (member key v no_members)

abbrev body : Json
body = object (
    member "events"
      (array (
        item (record_with "src_ip" (text "10.0.0.1"))
          (item (record_with "uri" (text "/")) no_items)))
      no_members)

abbrev library : Library
library = record { repr = λ v. "..."; decode = λ s. ok body; is_word = is_letter }

abbrev outside : Bool → Outside
outside commits = record {
  library = library;
  fromisoformat = λ s. none;
  dumps = λ r. "{}";
  now = 7;
  uuid4 = λ n. 100;
  upserts = true;
  commits = λ es. commits;
  selects = true;
  publishes = λ i. true;
}

abbrev writer : Writer Json
writer = record { isoformat = λ t. "t"; dumps = λ i. some "{}" }

abbrev moment : Moment
moment = record { now = 7; today = "d"; opens = true; write = written }

abbrev request : Request
request = record {
  content_length = some "80";
  body_size = 80;
  body_text = "{}";
  vendor = none;
  x_event_source = some "edge";
}

abbrev service : Service
service = record {
  tables = record { hosts = []; events = []; published = [] };
  audit = record {
    log = [];
    persist_dir = none;
    persist_file = none;
    persist_handle = none;
    persist_date = none;
    persist_warned = false;
    disk = [];
  };
}

abbrev ack : Ack
ack = record { accepted = 1; rejected = 1; source = "edge" }

answers : (ingest_webhook (outside true) writer moment request service).0 ≡ ok ack
unfolding ingest_webhook ingest_body read_body ingest_records publish_new add_events pick_translator
    translator_named get filter_fields filter_from put publish_persisted record_entry detect_source
answers = refl

fails : (ingest_webhook (outside false) writer moment request service).0 ≡ err persistence_failed
unfolding ingest_webhook ingest_body read_body ingest_records
fails = refl

ingest_webhook-Ingested_example :
    Ingested
      (outside true)
      request
      service
      (ingest_webhook (outside true) writer moment request service).1
      ack
ingest_webhook-Ingested_example =
    ingest_webhook-Ingested (outside true) writer moment request service ack answers

ingest_webhook-err_example :
    (persistence_failed ≡ crashed)
    ⊎ ((ingest_webhook (outside false) writer moment request service).1 ≡ service)
ingest_webhook-err_example =
    ingest_webhook-err (outside false) writer moment request service persistence_failed fails
