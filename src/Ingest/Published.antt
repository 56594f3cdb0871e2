-- ===== src/Ingest/Published.antt =====
-- What api/v1/ingest_cloudflare.py publishes of a batch: `_publish_accepted` asks for the newest rows.
use zaqorincore.Prelude.{
  Option, nat_eq, ℕ, suc, ◌<◌, String, true, false, List, [], ◌∷◌, ◌++◌, map, All, length, take,
  keep, keep-append, nat_beq, Result, ok, err, string_eq, ◌≡◌, refl, sym, ◌∙◌, ap, arith,
  append-nil, append_assoc, Bool-cases, inl, inr,
}
use mathlib.Core.Path.{subst}
use mathlib.Core.List.{Perm, reverse_perm}
use mathlib.Core.List.Perm
use zaqorincore.Ingest.Newest.{IsLatestFirst, take-Perm}
use zaqorincore.Ingest.Webhook.{Event, Tables, Batch}
use zaqorincore.Ingest.Cloudflare.{
  Edge, LogpushError, is_logged, newest_logged, publish_each, publish_accepted, ensure_logpush_host,
  admit, ingest_admitted, ingest_ndjson, ingest_signed,
}
use zaqorincore.Ingest.Logged.{IsLogged, with_batch, batch_of, batch_of-Sound, logged_if-ok}

module _ (e : Edge) where
  -- The database gives the rows by their time, the latest first, and neither drops nor repeats any.
  pub record IsByTime (time : Event → ℕ) : Type 0 where
    pub latest_first : (es : List Event) → IsLatestFirst time (e.by_received es)
    pub same_rows : (es : List Event) → Perm (e.by_received es) es

  is_logged-true : (v : Event) → IsLogged v → is_logged e v ≡ true
  is_logged-true v h = rw (h.of_host, h.of_source) refl

  keep-logged : (es : List Event) → All IsLogged es → keep (is_logged e) es ≡ es
  keep-logged [] h = refl
  keep-logged (v ∷ es) h = rw (is_logged-true v h.0, keep-logged es h.1) refl

  publish_each-map :
      (es : List Event) (sent : List ℕ)
      → ((i : ℕ) → e.publishes i ≡ true)
      → publish_each e es sent ≡ sent ++ map (λ v. v.id) es
  unfolding publish_each
  publish_each-map [] sent h = sym (append-nil sent)
  publish_each-map (v ∷ es) sent h = rw (h v.id) (
      publish_each-map es (sent ++ v.id ∷ []) h
      ∙ append_assoc sent (v.id ∷ []) (map (λ v. v.id) es))

  keep-before :
      (time : Event → ℕ) (now : ℕ) (es : List Event)
      → All (λ v. time v < now) es
      → All (λ v. time v < now) (keep (is_logged e) es)
  keep-before time now [] h = tt
  keep-before time now (v ∷ es) h = elim (Bool-cases (is_logged e v)) [
    | inl f ↦ simp f (h.0, keep-before time now es h.1)
    | inr f ↦ simp f (keep-before time now es h.1)
  ]

  newest_logged-Perm :
      (time : Event → ℕ) (now : ℕ) (es added : List Event)
      → IsByTime time
      → All (λ v. time v < now) es
      → All (λ v. time v ≡ now) added
      → All IsLogged added
      → Perm (newest_logged e (length added) (es ++ added)) added
  unfolding newest_logged
  newest_logged-Perm time now es added order before new logged =
      let kept : keep (is_logged e) (es ++ added) ≡ keep (is_logged e) es ++ added =
        keep-append (is_logged e) es added
        ∙ ap (λ l. keep (is_logged e) es ++ l) (keep-logged added logged) in
      let rows = e.by_received (keep (is_logged e) (es ++ added)) in
      Perm.trans (reverse_perm (take (length added) rows)) (
        take-Perm time now rows (keep (is_logged e) es) added
          (order.latest_first (keep (is_logged e) (es ++ added)))
          (subst (λ l. Perm rows l) kept (order.same_rows (keep (is_logged e) (es ++ added))))
          (keep-before time now es before) new)

  publish_accepted-map :
      (n : ℕ) (t : Tables)
      → ((i : ℕ) → e.publishes i ≡ true)
      → (publish_accepted e (suc n) t).0 ≡ ok tt
      → (publish_accepted e (suc n) t).1.published
        ≡ t.published ++ map (λ v. v.id) (newest_logged e (suc n) t.events)
  unfolding publish_accepted
  publish_accepted-map n t publishes went =
      let some_added : nat_beq (suc n) 0 ≡ false = ground arith in
      elim (Bool-cases e.selects) [
        | inl f ↦
            simp (some_added, f)
              (publish_each-map (newest_logged e (suc n) t.events) t.published publishes)
        | inr f ↦ ground (arith, f, went)
      ]

  -- The stream has all of `added` in addition, once each, in some order.
  pub record Published (before after : List ℕ) (added : List Event) : Type 0 where
    pub rows : List Event
    pub same : Perm rows added
    pub appended : after ≡ before ++ map (λ v. v.id) rows

  publish_accepted-Published :
      (time : Event → ℕ) (now : ℕ) (t : Tables) (es added : List Event)
      → IsByTime time
      → All (λ v. time v < now) es
      → All (λ v. time v ≡ now) added
      → t.events ≡ es ++ added
      → All IsLogged added
      → ((i : ℕ) → e.publishes i ≡ true)
      → (publish_accepted e (length added) t).0 ≡ ok tt
      → Published t.published (publish_accepted e (length added) t).1.published added
  publish_accepted-Published time now t es [] order before new stored logged publishes went =
      record {
        rows = [];
        same = Perm.rfl;
        appended = unfold publish_accepted in sym (append-nil t.published);
      }
  publish_accepted-Published time now t es (v ∷ added) order before new stored logged publishes
        went =
      record {
        rows = newest_logged e (suc (length added)) t.events;
        same = rw stored (newest_logged-Perm time now es (v ∷ added) order before new logged);
        appended = publish_accepted-map (length added) t publishes went;
      }

  -- Suppose that the stream takes every entry, that the database keeps its order by time, that the
  -- rows before are of earlier transactions and that those of the batch have the time of theirs. Then
  -- an accepted batch is published as the events that it has added, each of them once and nothing
  -- else, in some order: rows of one transaction have one time.
  pub ingest_signed-Published :
      (content_length signature : Option String) (body : e.Bytes) (t : Tables) (b : Batch)
      (time : Event → ℕ) (now : ℕ)
      → IsByTime time
      → All (λ v. time v < now) t.events
      → All (λ v. time v ≡ now) b.added
      → ((i : ℕ) → e.publishes i ≡ true)
      → (ingest_signed e content_length signature body t).0 ≡ ok b
      → Published t.published (ingest_signed e content_length signature body t).1.published b.added
  unfolding ingest_signed ingest_ndjson ensure_logpush_host
  ingest_signed-Published content_length signature body t b time now order before new publishes h =
      admitted (admit e content_length signature body) h
    where
      admitted :
          (r : Result LogpushError (Unit {0}))
          → (ingest_admitted e body t r).0 ≡ ok b
          → Published t.published (ingest_admitted e body t r).1.published b.added
      admitted (err d) h' = cc h'
      admitted (ok u) h' =
          let batch = batch_of e body in
          let sound = batch_of-Sound e body in
          let (same, stored, went) =
            logged_if-ok e e.upserts (e.commits batch.added) batch b t h' in
          let held = sound.counts.held in
          let counted =
            subst (λ n. (publish_accepted e n (with_batch e batch t)).0 ≡ ok tt) (sym held) went in
          let published =
            publish_accepted-Published time now (with_batch e batch t) t.events batch.added order
              before (subst (λ c. All (λ v. time v ≡ now) c.added) (sym same) new) refl sound.events
              publishes counted in
          subst (λ c. Published t.published (ingest_admitted e body t (ok u)).1.published c.added)
            same
            (subst (λ s. Published t.published s.published batch.added) (sym stored)
              (subst
                (λ n.
                  Published t.published (publish_accepted e n (with_batch e batch t)).1.published
                    batch.added)
                held published))
