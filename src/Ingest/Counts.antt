-- ===== src/Ingest/Counts.antt =====
-- The endpoint of api/v1/ingest_webhook.py as a whole: what it answers, stores and leaves alone.
use zaqorincore.Prelude.{
  ◌+◌, String, Bool, true, false, not, Option, none, some, List, ◌++◌, All, length, is_empty, strip,
  Result, ok, err, ◌≡◌, ◌⊎◌, inl, inr, refl, sym, ◌∙◌, ap, arith, ok-injective, string_eq,
  Bool-cases,
}
use zaqorincore.Audit.Log.{State, Writer, Moment, AuditError, Item, record_entry}
use zaqorincore.Ingest.Values.{Json, Members, member_of}
use zaqorincore.Ingest.Translate.{pick_translator, vendor_or}
use zaqorincore.Ingest.Webhook.{Event, Tables, Outside, IngestError, crashed, Batch, ingest_records}
use zaqorincore.Ingest.Endpoint.{
  Request, Ack, Service, read_body, stripped, text_value, first_source, detect_source, audited,
  finished, ingest_body, ingest_read, ingest_webhook, audit_entry,
}
use zaqorincore.Ingest.Stored.{IsStored}
use zaqorincore.Ingest.Unique.{pick_translator-IsDict}
use zaqorincore.Ingest.Batches.{ingest_records-Kept, ingest_records-err}

-- What is new after a request that has been answered: its records are counted as accepted or rejected,
-- as many events as accepted ones are added at the end of the table, and the source is not empty.
pub record Ingested (o : Outside) (r : Request) (before after : Service) (ack : Ack) : Type 0 where
  pub body : Members
  pub was_read : read_body o r ≡ ok body
  pub counted :
      (ack.accepted + ack.rejected)
      ≡ length (pick_translator o.library r.vendor r.x_event_source body).0
  pub added : List Event
  pub stored : after.tables.events ≡ before.tables.events ++ added
  pub accepted : length added ≡ ack.accepted
  pub well_formed : All (IsStored ack.source (vendor_or r.vendor (stripped r.x_event_source))) added
  pub named : is_empty ack.source ≡ false

abbrev is_full : Option String → Bool
is_full none = true
is_full (some s) = not (is_empty s)

stripped-full : (o : Option String) → is_full (stripped o) ≡ true
stripped-full none = refl
stripped-full (some t) = elim (Bool-cases (is_empty (strip t))) [
  | inl e ↦ rw e refl
  | inr e ↦ rw (e, e) refl
]

first_source-full :
    (a b c : Option String)
    → is_full a ≡ true
    → is_full b ≡ true
    → is_full c ≡ true
    → is_empty (first_source a b c) ≡ false
first_source-full (some s) b c f g h = ground arith
first_source-full none (some s) c f g h = ground arith
first_source-full none none (some s) f g h = ground arith
first_source-full none none none f g h = refl

detect_source-full :
    (header : Option String) (body : Members) (vendor : String)
    → is_empty (detect_source header body vendor) ≡ false
unfolding detect_source
detect_source-full header body vendor =
    first_source-full (stripped header) (stripped (text_value (member_of "source" body)))
      (stripped (some vendor)) (stripped-full header)
      (stripped-full (text_value (member_of "source" body))) (stripped-full (some vendor))

module _ (o : Outside) (w : Writer Json) (m : Moment) where
  finished-ok :
      (source vendor : String) (s : State Json) (q : Result IngestError Batch × Tables) (ack : Ack)
      → (finished w m source vendor s q).0 ≡ ok ack
      → (b : Batch) × (q.0 ≡ ok b)
        × (ack ≡ record { accepted = b.accepted; rejected = b.rejected; source = source })
        × ((finished w m source vendor s q).1.tables ≡ q.1)
  finished-ok source vendor s (err e, t) ack h = cc h
  finished-ok source vendor s (ok b, t) ack h = (
    b,
    refl,
    ok_ack (record_entry w m (audit_entry source vendor b.accepted b.rejected) s) h,
    refl,
  )
    where
      ok_ack :
          (r : State Json × Result AuditError (Item Json))
          → (audited source b r).0 ≡ ok ack
          → ack ≡ record { accepted = b.accepted; rejected = b.rejected; source = source }
      ok_ack (s', err e) h' = cc h'
      ok_ack (s', ok i) h' = sym (ok-injective h')

  finished-err :
      (source vendor : String) (s : State Json) (q : Result IngestError Batch × Tables)
      (e : IngestError)
      → (finished w m source vendor s q).0 ≡ err e
      → (e ≡ crashed)
        ⊎ ((q.0 ≡ err e)
            × ((finished w m source vendor s q).1 ≡ record { tables = q.1; audit = s }))
  finished-err source vendor s (err d, t) e h = inr (ap err (ground arith), refl)
  finished-err source vendor s (ok b, t) e h =
      inl (crash (record_entry w m (audit_entry source vendor b.accepted b.rejected) s) h)
    where
      crash :
          (r : State Json × Result AuditError (Item Json))
          → (audited source b r).0 ≡ err e
          → e ≡ crashed
      crash (s', err d) h' = ground arith
      crash (s', ok i) h' = cc h'

  ingest_body-Ingested :
      (r : Request) (s : Service) (body : Members) (ack : Ack)
      → read_body o r ≡ ok body
      → (ingest_body o w m r s body).0 ≡ ok ack
      → Ingested o r s (ingest_body o w m r s body).1 ack
  unfolding ingest_body
  ingest_body-Ingested r s body ack reads h =
      let (records, vendor_source) = pick_translator o.library r.vendor r.x_event_source body in
      let source = detect_source r.x_event_source body vendor_source in
      let vendor = vendor_or r.vendor (stripped r.x_event_source) in
      let unique = pick_translator-IsDict o.library r.vendor r.x_event_source body in
      let q = ingest_records o records source vendor s.tables in
      let (b, was, answer, tables) = finished-ok source vendor s.audit q ack h in
      let kept = ingest_records-Kept o records source vendor s.tables b unique was in
      record {
        body = body;
        was_read = reads;
        counted = ap (λ a. a.accepted + a.rejected) answer ∙ kept.counted;
        added = b.added;
        stored = ap (λ t. t.events) tables ∙ kept.stored;
        accepted = kept.accepted ∙ ap (λ a. a.accepted) (sym answer);
        well_formed = rw answer kept.well_formed;
        named =
            ap (λ a. is_empty a.source) answer
            ∙ detect_source-full r.x_event_source body vendor_source;
      }

  -- If the endpoint answers with an acknowledgement, then the records that the vendor's translator finds
  -- in the body are counted as accepted or rejected; as many events as are accepted have been added at
  -- the end of the table, each with the synthesised host, the source that is acknowledged, the vendor,
  -- a source address that is not empty and values within the limit; and the source is not empty.
  pub ingest_webhook-Ingested :
      (r : Request) (s : Service) (ack : Ack)
      → (ingest_webhook o w m r s).0 ≡ ok ack
      → Ingested o r s (ingest_webhook o w m r s).1 ack
  unfolding ingest_webhook
  ingest_webhook-Ingested r s ack h = read (read_body o r) refl h
    where
      read :
          (q : Result IngestError Members)
          → read_body o r ≡ q
          → (ingest_read o w m r s q).0 ≡ ok ack
          → Ingested o r s (ingest_read o w m r s q).1 ack
      read (err e) reads h' = cc h'
      read (ok body) reads h' = ingest_body-Ingested r s body ack reads h'

  -- A request that fails otherwise than by a crash outside the endpoint's own `try` statements has
  -- changed neither the tables nor the audit log.
  pub ingest_webhook-err :
      (r : Request) (s : Service) (e : IngestError)
      → (ingest_webhook o w m r s).0 ≡ err e
      → (e ≡ crashed) ⊎ ((ingest_webhook o w m r s).1 ≡ s)
  unfolding ingest_webhook ingest_body
  ingest_webhook-err r s e h = read (read_body o r) h
    where
      unchanged :
          (source vendor : String) (q : Result IngestError Batch × Tables)
          → ((q.0 ≡ err e) → (e ≡ crashed) ⊎ (q.1 ≡ s.tables))
          → (finished w m source vendor s.audit q).0 ≡ err e
          → (e ≡ crashed) ⊎ ((finished w m source vendor s.audit q).1 ≡ s)
      unchanged source vendor q kept h' = elim (finished-err source vendor s.audit q e h') [
        | inl c ↦ inl c
        | inr (was, after) ↦ elim (kept was) [
          | inl c ↦ inl c
          | inr same ↦ inr (after ∙ ap (λ t. record { tables = t; audit = s.audit }) same)
        ]
      ]

      read :
          (q : Result IngestError Members)
          → (ingest_read o w m r s q).0 ≡ err e
          → (e ≡ crashed) ⊎ ((ingest_read o w m r s q).1 ≡ s)
      read (err d) h' = inr refl
      read (ok body) h' =
          let (records, vendor_source) = pick_translator o.library r.vendor r.x_event_source body in
          let source = detect_source r.x_event_source body vendor_source in
          let vendor = vendor_or r.vendor (stripped r.x_event_source) in
          unchanged source vendor (ingest_records o records source vendor s.tables)
            (ingest_records-err o records source vendor s.tables e) h'
