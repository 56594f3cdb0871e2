-- ===== src/Ingest/Batches.antt =====
-- `_ingest_records` of api/v1/ingest_webhook.py: what a batch leaves in the tables.
use zaqorincore.Prelude.{
  ◌+◌, String, Bool, true, false, List, ◌++◌, All, length, Result, ok, err, ◌≡◌, ◌⊎◌, inl, inr,
  refl, sym, ◌∙◌, ap, arith, ok-injective, string_eq,
}
use zaqorincore.Dict.{IsDict}
use zaqorincore.Ingest.Values.{Record}
use zaqorincore.Ingest.Webhook.{
  Tables, Outside, IngestError, crashed, Batch, add_events, ensure_webhook_host, publish_persisted,
  publish_new, published_or, answered, stored_if, empty_batch, ingest_records,
}
use zaqorincore.Ingest.Stored.{IsStored, add_events-IsStored, add_events-IsCounted}

-- What a batch that was stored has done.
pub record Kept (o : Outside) (records : List Record) (source vendor : String) (t after : Tables)
    (b : Batch) : Type 0 where
  pub counted : (b.accepted + b.rejected) ≡ length records
  pub accepted : length b.added ≡ b.accepted
  pub stored : after.events ≡ t.events ++ b.added
  pub well_formed : All (IsStored source vendor) b.added

module _ (o : Outside) where
  publish_new-events :
      (b : Batch) (t : Tables) → (published_or t (publish_new o b t)).events ≡ t.events
  unfolding publish_new publish_persisted
  publish_new-events b t = ground arith

  answered-ok : (b c : Batch) (r : Result IngestError Tables) → answered b r ≡ ok c → b ≡ c
  answered-ok b c (ok t) h = ok-injective h
  answered-ok b c (err e) h = cc h

  -- Only the publication can fail behind a commit, by a crash.
  answered-err :
      (b : Batch) (t : Tables) (e : IngestError)
      → answered b (publish_new o b t) ≡ err e
      → e ≡ crashed
  unfolding publish_new publish_persisted
  answered-err b t e h = ground arith

  stored_if-ok :
      (upserts commits : Bool) (b c : Batch) (t : Tables)
      → (stored_if upserts commits o b t).0 ≡ ok c
      → (b ≡ c) × ((stored_if upserts commits o b t).1.events ≡ t.events ++ b.added)
  unfolding ensure_webhook_host
  stored_if-ok false commits b c t h = cc h
  stored_if-ok true false b c t h = cc h
  stored_if-ok true true b c t h =
      let stored : Tables = record {
        hosts = (ensure_webhook_host o t).hosts;
        events = t.events ++ b.added;
        published = t.published;
      } in
      (answered-ok b c (publish_new o b stored) h, publish_new-events b stored)

  stored_if-err :
      (upserts commits : Bool) (b : Batch) (t : Tables) (e : IngestError)
      → (stored_if upserts commits o b t).0 ≡ err e
      → (e ≡ crashed) ⊎ ((stored_if upserts commits o b t).1 ≡ t)
  unfolding ensure_webhook_host
  stored_if-err false commits b t e h = inr refl
  stored_if-err true false b t e h = inr refl
  stored_if-err true true b t e h =
      let stored : Tables = record {
        hosts = (ensure_webhook_host o t).hosts;
        events = t.events ++ b.added;
        published = t.published;
      } in
      inl (answered-err b stored e h)

  pub ingest_records-Kept :
      (records : List Record) (source vendor : String) (t : Tables) (b : Batch)
      → All IsDict records
      → (ingest_records o records source vendor t).0 ≡ ok b
      → Kept o records source vendor t (ingest_records o records source vendor t).1 b
  unfolding ingest_records
  ingest_records-Kept records source vendor t b d h =
      let batch = add_events o source vendor records empty_batch in
      let counts =
        add_events-IsCounted o source vendor records 0 (length records) empty_batch
          (record { total = refl; held = refl }) (omega arith) in
      let (same, stored) = stored_if-ok o.upserts (o.commits batch.added) batch b t h in
      record {
        counted = ap (λ c. c.accepted + c.rejected) (sym same) ∙ counts.total;
        accepted = ap (λ c. length c.added) (sym same) ∙ counts.held ∙ ap (λ c. c.accepted) same;
        stored = stored ∙ ap (λ c. t.events ++ c.added) same;
        well_formed = rw (sym same) (add_events-IsStored o source vendor records empty_batch d tt);
      }

  -- A batch without a result that is no crash has left the tables as they were.
  pub ingest_records-err :
      (records : List Record) (source vendor : String) (t : Tables) (e : IngestError)
      → (ingest_records o records source vendor t).0 ≡ err e
      → (e ≡ crashed) ⊎ ((ingest_records o records source vendor t).1 ≡ t)
  unfolding ingest_records
  ingest_records-err records source vendor t e h =
      let batch = add_events o source vendor records empty_batch in
      stored_if-err o.upserts (o.commits batch.added) batch t e h
