-- ===== src/Ingest/Logged.antt =====
-- What a batch that api/v1/ingest_cloudflare.py accepts was signed with, counts, stores and publishes.
use zaqorincore.Prelude.{
  ℕ, suc, ◌+◌, String, Bool, true, false, not, Option, none, some, List, [], ◌∷◌, ◌++◌, map, All,
  All-append, length, length-append, keep, nat_beq, ltb, lower, Result, ok, err, ok-injective,
  string_eq, nat_eq, ==_iff, if◌then◌else◌, ◌≡◌, refl, sym, ◌∙◌, ap, arith, Bool-cases, inl, inr,
}
use zaqorincore.Dict.{Dict, put}
use zaqorincore.Depth.{DecodeError, safe_loads}
use zaqorincore.Ingest.Values.{
  Json, null, boolean, number, text, array, object, Members, Scalar, member_of, coerced, truncate,
  scalar_text,
}
use zaqorincore.Ingest.Webhook.{Event, Tables, Batch, empty_batch}
use zaqorincore.Ingest.Stored.{IsShort, put-IsShort, truncate-length, IsCounted}
use zaqorincore.Ingest.Cloudflare.{
  Edge, LogpushError, max_line_bytes, logpush_source, logpush_host_id, logpush_fields, put_field,
  logpush_metadata_from, logpush_metadata, verify_hmac, logged_event, rejected_line, decoded_line,
  ingest_line, ingest_lines, ensure_logpush_host, publish_accepted, published_batch, logged_if,
  ingest_ndjson, admit, ingest_admitted, ingest_signed,
}

-- An event of a batch: it belongs to the synthesised host and source, and its values keep to the limit.
pub record IsLogged (v : Event) : Type 0 where
  pub of_host : v.host_id ≡ logpush_host_id
  pub of_source : v.source ≡ logpush_source
  pub short : IsShort v.metadata

-- The lines that are not blank.
abbrev pub lines_of : (e : Edge) → e.Bytes → List e.Bytes
lines_of e body =
    keep (λ line. not (nat_beq (e.size line) 0)) (map e.without_cr (e.splitlines body))

-- What an accepted batch has done.
pub record Accepted (e : Edge) (signature : Option String) (body : e.Bytes) (t after : Tables)
    (b : Batch) : Type 0 where
  pub presented : String
  pub was_given : signature ≡ some presented
  pub signed : e.hmac body ≡ lower presented
  pub counted : (b.accepted + b.rejected) ≡ length (lines_of e body)
  pub accepted : length b.added ≡ b.accepted
  pub stored : after.events ≡ t.events ++ b.added
  pub well_formed : All IsLogged b.added

module _ (e : Edge) where
  put_field-IsShort :
      (key : String) (v : Option Json) (out : Dict String String)
      → IsShort out
      → IsShort (put_field e key v out)
  put_field-IsShort key none out h = h
  put_field-IsShort key (some v) out h = scalar (coerced e.repr v)
    where
      scalar :
          (s : Option Scalar)
          → IsShort (elim s [ none ↦ out | some x ↦ put key (truncate (scalar_text x)) out ])
      scalar none = h
      scalar (some x) =
          put-IsShort key (truncate (scalar_text x)) out (truncate-length (scalar_text x)) h

  logpush_metadata_from-IsShort :
      (fields : List (String × String)) (r : Members) (out : Dict String String)
      → IsShort out
      → IsShort (logpush_metadata_from e fields r out)
  unfolding logpush_metadata_from
  logpush_metadata_from-IsShort [] r out h = h
  logpush_metadata_from-IsShort ((field, key) ∷ fields) r out h =
      logpush_metadata_from-IsShort fields r (put_field e key (member_of field r) out)
        (put_field-IsShort key (member_of field r) out h)

  logged_event-IsLogged :
      (line : e.Bytes) (n : ℕ) (r : Members) → IsLogged (logged_event e line n r)
  unfolding logpush_metadata
  logged_event-IsLogged line n r = record {
    of_host = refl;
    of_source = refl;
    short = logpush_metadata_from-IsShort logpush_fields r [] tt;
  }

  -- The numbers and the events of a batch after `seen` lines.
  pub record Sound (seen : ℕ) (b : Batch) : Type 0 where
    pub counts : IsCounted seen b
    pub events : All IsLogged b.added

  rejected_line-Sound : (seen : ℕ) (b : Batch) → Sound seen b → Sound (suc seen) (rejected_line e b)
  rejected_line-Sound seen b h = record {
    counts = record { total = omega (arith, h.counts.total); held = h.counts.held };
    events = h.events;
  }

  decoded_line-Sound :
      (seen : ℕ) (line : e.Bytes) (b : Batch) (r : Result DecodeError Json)
      → Sound seen b
      → Sound (suc seen) (decoded_line e line b r)
  decoded_line-Sound seen line b (ok (object r)) h = record {
    counts = record {
      total = omega (arith, h.counts.total);
      held =
          length-append b.added (logged_event e line b.accepted r ∷ [])
          ∙ omega (arith, h.counts.held);
    };
    events =
        All-append IsLogged b.added (logged_event e line b.accepted r ∷ []) h.events
          (logged_event-IsLogged line b.accepted r, tt);
  }
  decoded_line-Sound seen line b (ok null) h = rejected_line-Sound seen b h
  decoded_line-Sound seen line b (ok (boolean v)) h = rejected_line-Sound seen b h
  decoded_line-Sound seen line b (ok (number v)) h = rejected_line-Sound seen b h
  decoded_line-Sound seen line b (ok (text v)) h = rejected_line-Sound seen b h
  decoded_line-Sound seen line b (ok (array v)) h = rejected_line-Sound seen b h
  decoded_line-Sound seen line b (err d) h = rejected_line-Sound seen b h

  ingest_line-Sound :
      (seen : ℕ) (line : e.Bytes) (b : Batch)
      → Sound seen b
      → Sound (if not (nat_beq (e.size line) 0) then suc seen else seen) (ingest_line e line b)
  unfolding ingest_line
  ingest_line-Sound seen line b h = elim (Bool-cases (nat_beq (e.size line) 0)) [
    | inl f ↦ simp f h
    | inr f ↦ elim (Bool-cases (ltb max_line_bytes (e.size line))) [
      | inl g ↦ simp (f, g) (rejected_line-Sound seen b h)
      | inr g ↦
          simp (f, g) (decoded_line-Sound seen line b (safe_loads e.decode (e.text_of line)) h)
    ]
  ]

  pub ingest_lines-Sound :
      (lines : List e.Bytes) (seen end : ℕ) (b : Batch)
      → Sound seen b
      → (seen + length (keep (λ line. not (nat_beq (e.size line) 0)) (map e.without_cr lines)))
        ≡ end
      → Sound end (ingest_lines e lines b)
  unfolding ingest_lines
  ingest_lines-Sound [] seen end b h eq = record {
    counts = record { total = omega (arith, h.counts.total, eq); held = h.counts.held };
    events = h.events;
  }
  ingest_lines-Sound (line ∷ lines) seen end b h eq =
      ingest_lines-Sound lines
        (if not (nat_beq (e.size (e.without_cr line)) 0) then suc seen else seen) end
        (ingest_line e (e.without_cr line) b) (ingest_line-Sound seen (e.without_cr line) b h)
        (shift seen (nat_beq (e.size (e.without_cr line)) 0)
          (keep (λ l. not (nat_beq (e.size l) 0)) (map e.without_cr lines)) eq)
    where
      shift :
          (n : ℕ) (blank : Bool) (rest : List e.Bytes)
          → (n + length (if not blank then e.without_cr line ∷ rest else rest)) ≡ end
          → ((if not blank then suc n else n) + length rest) ≡ end
      shift n true rest q = q
      shift n false rest q = omega (arith, q)

  admit-signed :
      (content_length signature : Option String) (body : e.Bytes)
      → admit e content_length signature body ≡ ok tt
      → (presented : String) × (signature ≡ some presented) × (e.hmac body ≡ lower presented)
  unfolding admit verify_hmac
  admit-signed content_length none body h = ground arith
  admit-signed content_length (some sig) body h =
      (sig, refl, ground (arith, ==_iff (e.hmac body) (lower sig)))

  publish_accepted-events : (n : ℕ) (t : Tables) → (publish_accepted e n t).1.events ≡ t.events
  unfolding publish_accepted
  publish_accepted-events n t = ground arith

  published_batch-ok :
      (b c : Batch) (r : Result LogpushError (Unit {0}) × Tables)
      → (published_batch e b r).0 ≡ ok c
      → (b ≡ c) × ((published_batch e b r).1 ≡ r.1) × (r.0 ≡ ok tt)
  published_batch-ok b c (ok u, t) h = (ok-injective h, refl, refl)
  published_batch-ok b c (err d, t) h = cc h

  -- The tables with a batch, before its publication.
  abbrev pub with_batch : Batch → Tables → Tables
  with_batch b t = record {
    hosts = (ensure_logpush_host e t).hosts;
    events = t.events ++ b.added;
    published = (ensure_logpush_host e t).published;
  }

  pub logged_if-ok :
      (upserts commits : Bool) (b c : Batch) (t : Tables)
      → (logged_if e upserts commits b t).0 ≡ ok c
      → (b ≡ c)
        × ((logged_if e upserts commits b t).1 ≡ (publish_accepted e b.accepted (with_batch b t)).1)
        × ((publish_accepted e b.accepted (with_batch b t)).0 ≡ ok tt)
  logged_if-ok false commits b c t h = cc h
  logged_if-ok true false b c t h = cc h
  logged_if-ok true true b c t h =
      published_batch-ok b c (publish_accepted e b.accepted (with_batch b t)) h

  -- The batch of a body's lines.
  abbrev pub batch_of : e.Bytes → Batch
  batch_of body = ingest_lines e (e.splitlines body) empty_batch

  pub batch_of-Sound : (body : e.Bytes) → Sound (length (lines_of e body)) (batch_of body)
  batch_of-Sound body =
      ingest_lines-Sound (e.splitlines body) 0 (length (lines_of e body)) empty_batch
        (record { counts = record { total = refl; held = refl }; events = tt }) (omega arith)

  -- A batch that is accepted was presented with the HMAC of its body, but for the case of its letters;
  -- its lines that are not blank are counted as accepted or rejected; and as many events as are accepted
  -- have been added at the end of the table, all of the synthesised host and source, with values within
  -- the limit.
  pub ingest_signed-Accepted :
      (content_length signature : Option String) (body : e.Bytes) (t : Tables) (b : Batch)
      → (ingest_signed e content_length signature body t).0 ≡ ok b
      → Accepted e signature body t (ingest_signed e content_length signature body t).1 b
  unfolding ingest_signed ingest_ndjson
  ingest_signed-Accepted content_length signature body t b h =
      admitted (admit e content_length signature body) refl h
    where
      admitted :
          (r : Result LogpushError (Unit {0}))
          → admit e content_length signature body ≡ r
          → (ingest_admitted e body t r).0 ≡ ok b
          → Accepted e signature body t (ingest_admitted e body t r).1 b
      admitted (err d) was h' = cc h'
      admitted (ok tt) was h' =
          let batch = batch_of body in
          let sound = batch_of-Sound body in
          let (same, stored, went) = logged_if-ok e.upserts (e.commits batch.added) batch b t h' in
          let (presented, was_given, signed) = admit-signed content_length signature body was in
          record {
            presented = presented;
            was_given = was_given;
            signed = signed;
            counted = ap (λ c. c.accepted + c.rejected) (sym same) ∙ sound.counts.total;
            accepted =
                ap (λ c. length c.added) (sym same) ∙ sound.counts.held ∙ ap (λ c. c.accepted) same;
            stored =
                ap (λ q. q.events) stored
                ∙ publish_accepted-events batch.accepted (with_batch batch t)
                ∙ ap (λ c. t.events ++ c.added) same;
            well_formed = rw (sym same) sound.events;
          }
