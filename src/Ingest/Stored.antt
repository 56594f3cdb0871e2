-- ===== src/Ingest/Stored.antt =====
-- What the events of api/v1/ingest_webhook.py hold: `_build_metadata`, `_truncate` and the loop of
-- `_ingest_records`.
use zaqorincore.Prelude.{
  ℕ, zero, suc, ◌+◌, ◌≤◌, String, false, Option, none, some, List, [], ◌∷◌, All, All-append, length,
  length-append, is_empty, text_length, take_text, string_eq, ◌==◌, ==_iff, ◌≡◌, refl, ◌∙◌, ap,
  arith, Bool-cases, inl, inr,
}
use zaqorincore.Dict.{Dict, get, put, get-put, IsDict}
use zaqorincore.Ingest.Values.{
  Scalar, chars, flag, numeral, Record, scalar_text, truncate, max_metadata_chars,
}
use zaqorincore.Ingest.Webhook.{
  webhook_host_id, Event, Outside, metadata_from, build_metadata, event_metadata, address_of, Batch,
  new_event, add_event, add_events,
}

take_text-length : (n : ℕ) (s : String) → text_length (take_text n s) ≤ n
unfolding take_text
take_text-length zero s = omega arith
take_text-length (suc n) String.[] = omega arith
take_text-length (suc n) (String.◌∷◌ c s) = (let le = take_text-length n s in omega arith)

-- Every value keeps to the limit.
abbrev pub IsShort : Dict String String → Type 0
IsShort m = All (λ e. text_length e.1 ≤ max_metadata_chars) m

pub put-IsShort :
    (k v : String) (m : Dict String String)
    → text_length v ≤ max_metadata_chars
    → IsShort m
    → IsShort (put k v m)
unfolding put
put-IsShort k v [] le h = (le, tt)
put-IsShort k v ((j, w) ∷ m) le h = elim (Bool-cases (j == k)) [
  | inl e ↦ rw e (le, h.1)
  | inr e ↦ rw e (h.0, put-IsShort k v m le h.1)
]

pub truncate-length : (s : String) → text_length (truncate s) ≤ max_metadata_chars
unfolding truncate
truncate-length s = take_text-length max_metadata_chars s

metadata_from-IsShort :
    (r : Record) (out : Dict String String) → IsShort out → IsShort (metadata_from r out)
unfolding metadata_from
metadata_from-IsShort [] out h = h
metadata_from-IsShort ((k, v) ∷ r) out h = elim (Bool-cases (k == "occurred_at")) [
  | inl e ↦ rw e (metadata_from-IsShort r out h)
  | inr e ↦ rw e (
      metadata_from-IsShort r (put k (truncate (scalar_text v)) out)
        (put-IsShort k (truncate (scalar_text v)) out (truncate-length (scalar_text v)) h))
]

abbrev value_or : Option String → Option Scalar → Option String
value_or old none = old
value_or old (some v) = some (truncate (scalar_text v))

-- A record's value stands in its metadata.
get-metadata_from :
    (k : String) (r : Record) (out : Dict String String)
    → (k == "occurred_at") ≡ false
    → IsDict r
    → get k (metadata_from r out) ≡ value_or (get k out) (get k r)
unfolding metadata_from get
get-metadata_from k [] out h d = refl
get-metadata_from k ((j, v) ∷ r) out h d = ground (
  arith,
  ==_iff j k,
  ==_iff j "occurred_at",
  ==_iff k "occurred_at",
  get-metadata_from k r out h d.1,
  get-metadata_from k r (put j (truncate (scalar_text v)) out) h d.1,
  get-put j k (truncate (scalar_text v)) out,
  d.0,
)

-- An event of a batch: it belongs to the synthesised host and the source, names the vendor and the
-- address of its record, which is not empty, and its values keep to the limit.
pub record IsStored (source vendor : String) (e : Event) : Type 0 where
  pub of_host : e.host_id ≡ webhook_host_id
  pub of_source : e.source ≡ source
  pub of_vendor : get "vendor" e.metadata ≡ some (truncate vendor)
  pub address : String
  pub has_address : get "src_ip" e.metadata ≡ some (truncate address)
  pub not_empty : is_empty address ≡ false
  pub short : IsShort e.metadata

address_of-some :
    (v : Option Scalar) (ip : String)
    → address_of v ≡ some ip
    → (v ≡ some (chars ip)) × (is_empty ip ≡ false)
address_of-some none ip h = ground arith
address_of-some (some (flag b)) ip h = ground arith
address_of-some (some (numeral n)) ip h = ground arith
address_of-some (some (chars s)) ip h = ground arith

metadata-address :
    (ip : String) (r : Record)
    → IsDict r
    → get "src_ip" r ≡ some (chars ip)
    → get "src_ip" (build_metadata r) ≡ some (truncate ip)
unfolding build_metadata get
metadata-address ip r d h = get-metadata_from "src_ip" r [] refl d ∙ ap (value_or none) h

new_event-IsStored :
    (o : Outside) (source vendor : String) (n : ℕ) (ip : String) (r : Record)
    → IsDict r
    → get "src_ip" r ≡ some (chars ip)
    → is_empty ip ≡ false
    → IsStored source vendor (new_event o source vendor n ip r)
unfolding event_metadata
new_event-IsStored o source vendor n ip r d h e =
    let m = build_metadata r in
    let found = metadata-address ip r d h in
    record {
      of_host = refl;
      of_source = refl;
      of_vendor = rw found (get-put "vendor" "vendor" (truncate vendor) m);
      address = ip;
      has_address = rw found (get-put "vendor" "src_ip" (truncate vendor) m ∙ found);
      not_empty = e;
      short = rw found (
          put-IsShort "vendor" (truncate vendor) m (truncate-length vendor)
            (unfold build_metadata in metadata_from-IsShort r [] tt));
    }

-- The numbers of a batch go with the records it has seen and the events it holds.
pub record IsCounted (seen : ℕ) (b : Batch) : Type 0 where
  pub total : (b.accepted + b.rejected) ≡ seen
  pub held : length b.added ≡ b.accepted

module _ (o : Outside) (source vendor : String) where
  abbrev IsGood : Batch → Type 0
  IsGood b = All (IsStored source vendor) b.added

  add_event-IsGood :
      (r : Record) (b : Batch) (a : Option String)
      → address_of (get "src_ip" r) ≡ a
      → IsDict r
      → IsGood b
      → IsGood (add_event o source vendor r b a)
  add_event-IsGood r b none h d good = good
  add_event-IsGood r b (some ip) h d good =
      let (found, full) = address_of-some (get "src_ip" r) ip h in
      All-append (IsStored source vendor) b.added (new_event o source vendor b.accepted ip r ∷ [])
        good (new_event-IsStored o source vendor b.accepted ip r d found full, tt)

  pub add_events-IsStored :
      (rs : List Record) (b : Batch)
      → All IsDict rs
      → All (IsStored source vendor) b.added
      → All (IsStored source vendor) (add_events o source vendor rs b).added
  unfolding add_events
  add_events-IsStored [] b d h = h
  add_events-IsStored (r ∷ rs) b d h =
      add_events-IsStored rs (add_event o source vendor r b (address_of (get "src_ip" r))) d.1
        (add_event-IsGood r b (address_of (get "src_ip" r)) refl d.0 h)

  add_event-IsCounted :
      (seen : ℕ) (r : Record) (b : Batch) (a : Option String)
      → IsCounted seen b
      → IsCounted (seen + 1) (add_event o source vendor r b a)
  add_event-IsCounted seen r b none h = record { total = omega (arith, h.total); held = h.held }
  add_event-IsCounted seen r b (some ip) h = record {
    total = omega (arith, h.total);
    held =
        length-append b.added (new_event o source vendor b.accepted ip r ∷ [])
        ∙ omega (arith, h.held);
  }

  pub add_events-IsCounted :
      (rs : List Record) (seen end : ℕ) (b : Batch)
      → IsCounted seen b
      → (seen + length rs) ≡ end
      → IsCounted end (add_events o source vendor rs b)
  unfolding add_events
  add_events-IsCounted [] seen end b h e = record {
    total = omega (arith, h.total, e);
    held = h.held;
  }
  add_events-IsCounted (r ∷ rs) seen end b h e =
      add_events-IsCounted rs (seen + 1) end
        (add_event o source vendor r b (address_of (get "src_ip" r)))
        (add_event-IsCounted seen r b (address_of (get "src_ip" r)) h) (omega (arith, e))
