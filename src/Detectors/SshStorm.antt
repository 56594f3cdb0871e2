-- ===== src/Detectors/SshStorm.antt =====
-- detectors/ssh_bruteforce.py: the cooldown against a storm of failed logins.
use zaqorincore.Prelude.{
  ◌≡◌, refl, sym, ap, ◌∙◌, ◌⊎◌, inl, inr, arith, ◌≤◌, All, append-nil, ℕ, ◌+◌, String, Bool, true,
  false, not, Option, none, some, List, [], ◌∷◌, ◌++◌, length, if◌then◌else◌, string_eq, ◌==◌,
  ==_iff, append, is_empty, text_length, Bool-cases,
}
use mathlib.Core.Path.{subst}
use zaqorincore.Prelude.Int.{ℤ}
use zaqorincore.Sigma.Values.{Event}
use zaqorincore.Detectors.Ssh.{
  or_text, Redis, Settings, Detection, window_key, cooldown_key, cooldown_of, extract_source_ip,
  is_failed_login, on_count, on_ip, on_event,
}

-- What Redis documents of these calls, as long as they succeed and no key expires: SET with NX sets
-- a key unless it exists, the key exists from then on, and the pipeline leaves other keys alone.
pub record Behaves {S : Type 0} (redis : Redis S) : Type 1 where
  pub exists : String → S → Bool
  pub set_nx-answer :
      (k : String) (ttl : ℕ) (s : S) → (redis.set_nx k ttl s).1 ≡ some (not (exists k s))
  pub set_nx-exists : (k : String) (ttl : ℕ) (s : S) → exists k (redis.set_nx k ttl s).0 ≡ true
  pub pipeline-exists :
      (j k m : String) (lo : ℤ) (t ttl : ℕ) (s : S)
      → (k == j) ≡ false
      → exists j (redis.pipeline k lo m t ttl s).0 ≡ exists j s

length-append_text : (s t : String) → text_length (append s t) ≡ text_length s + text_length t
unfolding append
length-append_text String.[] t = omega arith
length-append_text (String.◌∷◌ c s) t = omega (arith, length-append_text s t)

keys_differ : (k : String) → (k == cooldown_key k) ≡ false
unfolding cooldown_key
keys_differ k = elim (Bool-cases (k == append k ":cooldown")) [
  | inl same ↦ absurd (
      omega (
        arith,
        ap text_length ((==_iff k (append k ":cooldown")).0 same),
        length-append_text k ":cooldown",
      ))
  | inr differ ↦ differ
]

-- The key of an event's window.
abbrev pub key_of : Event → String
key_of ev = window_key ev.host_id (or_text (extract_source_ip ev))

-- A sequence of events, each with its time: the last state and all detections.
unfoldable pub storm : {S : Type 0} → Redis S → Settings → List (Event × ℕ) → S → S × List Detection
unfolding on_event
storm redis cfg [] s = (s, [])
storm redis cfg ((ev, now) ∷ evs) s =
    let (s', found) = on_event redis cfg ev now s in
    let (t, more) = storm redis cfg evs s' in (t, found ++ more)

module _ {S : Type 0} (redis : Redis S) (cfg : Settings) (b : Behaves redis) where
  abbrev cold : Event → S → Bool
  cold ev s = b.exists (cooldown_key (key_of ev)) s

  on_count-silent :
      (ev : Event) (ip : String) (count : Option ℕ) (s : S)
      → b.exists (cooldown_key (window_key ev.host_id ip)) s ≡ true
      → ((on_count redis cfg ev ip count s).1 ≡ [])
        × (b.exists (cooldown_key (window_key ev.host_id ip)) (on_count redis cfg ev ip count s).0
            ≡ true)
  unfolding on_count
  on_count-silent ev ip none s e = (refl, e)
  on_count-silent ev ip (some count) s e = ground (
    arith,
    b.set_nx-answer (cooldown_key (window_key ev.host_id ip)) (cooldown_of cfg) s,
    b.set_nx-exists (cooldown_key (window_key ev.host_id ip)) (cooldown_of cfg) s,
  )

  on_count-fired :
      (ev : Event) (ip : String) (count : Option ℕ) (s : S)
      → ((on_count redis cfg ev ip count s).1 ≡ [])
        ⊎ ((length (on_count redis cfg ev ip count s).1 ≡ 1)
            × (b.exists
                  (cooldown_key (window_key ev.host_id ip))
                  (on_count redis cfg ev ip count s).0
                ≡ true))
  unfolding on_count
  on_count-fired ev ip none s = inl refl
  on_count-fired ev ip (some count) s =
      ground (arith, b.set_nx-exists (cooldown_key (window_key ev.host_id ip)) (cooldown_of cfg) s)

  -- The pipeline on an event's window leaves its cooldown alone.
  on_pipeline :
      (ev : Event) (ip m : String) (lo : ℤ) (t ttl : ℕ) (s : S)
      → b.exists
          (cooldown_key (window_key ev.host_id ip))
          (redis.pipeline (window_key ev.host_id ip) lo m t ttl s).0
        ≡ b.exists (cooldown_key (window_key ev.host_id ip)) s
  on_pipeline ev ip m lo t ttl s =
      b.pipeline-exists (cooldown_key (window_key ev.host_id ip)) (window_key ev.host_id ip) m lo t
        ttl s (keys_differ (window_key ev.host_id ip))

  on_ip-silent :
      (ev : Event) (now : ℕ) (ip : String) (s : S)
      → b.exists (cooldown_key (window_key ev.host_id ip)) s ≡ true
      → ((on_ip redis cfg ev now ip s).1 ≡ [])
        × (b.exists (cooldown_key (window_key ev.host_id ip)) (on_ip redis cfg ev now ip s).0
            ≡ true)
  unfolding on_ip
  on_ip-silent ev now ip s e = elim (Bool-cases (is_empty ip)) [
    | inl no_ip ↦ rw no_ip (refl, e)
    | inr some_ip ↦ rw some_ip (on_count-silent ev ip _ _ (on_pipeline ev ip _ _ _ _ s ∙ e))
  ]

  on_ip-fired :
      (ev : Event) (now : ℕ) (ip : String) (s : S)
      → ((on_ip redis cfg ev now ip s).1 ≡ [])
        ⊎ ((length (on_ip redis cfg ev now ip s).1 ≡ 1)
            × (b.exists (cooldown_key (window_key ev.host_id ip)) (on_ip redis cfg ev now ip s).0
                ≡ true))
  unfolding on_ip
  on_ip-fired ev now ip s = elim (Bool-cases (is_empty ip)) [
    | inl no_ip ↦ rw no_ip (inl refl)
    | inr some_ip ↦ rw some_ip (on_count-fired ev ip _ _)
  ]

  on_event-step :
      (ev : Event) (now : ℕ) (s : S)
      → on_event redis cfg ev now s ≡ (
          if is_failed_login ev
          then on_ip redis cfg ev now (or_text (extract_source_ip ev)) s
          else (s, []))
  unfolding on_event
  on_event-step ev now s = refl

  silent :
      (ev : Event) (now : ℕ) (s : S)
      → cold ev s ≡ true
      → ((on_event redis cfg ev now s).1 ≡ []) × (cold ev (on_event redis cfg ev now s).0 ≡ true)
  silent ev now s e = elim (Bool-cases (is_failed_login ev)) [
    | inl failed ↦
        rw (on_event-step ev now s, failed)
          (on_ip-silent ev now (or_text (extract_source_ip ev)) s e)
    | inr other ↦ rw (on_event-step ev now s, other) (refl, e)
  ]

  fired :
      (ev : Event) (now : ℕ) (s : S)
      → ((on_event redis cfg ev now s).1 ≡ [])
        ⊎ ((length (on_event redis cfg ev now s).1 ≡ 1)
            × (cold ev (on_event redis cfg ev now s).0 ≡ true))
  fired ev now s = elim (Bool-cases (is_failed_login ev)) [
    | inl failed ↦
        rw (on_event-step ev now s, failed) (on_ip-fired ev now (or_text (extract_source_ip ev)) s)
    | inr other ↦ rw (on_event-step ev now s, other) (inl refl)
  ]

  storm-silent :
      (key : String) (evs : List (Event × ℕ)) (s : S)
      → All (λ p. key_of p.0 ≡ key) evs
      → b.exists (cooldown_key key) s ≡ true
      → (storm redis cfg evs s).1 ≡ []
  unfolding storm
  storm-silent key [] s same e = refl
  storm-silent key ((ev, now) ∷ evs) s same e =
      let (none_found, still) =
        silent ev now s (subst (λ k. b.exists (cooldown_key k) s ≡ true) (sym same.0) e) in
      rw none_found (
        storm-silent key evs (on_event redis cfg ev now s).0 same.1 (
          subst (λ k. b.exists (cooldown_key k) (on_event redis cfg ev now s).0 ≡ true) same.0
            still))

  -- If the calls of Redis succeed and no key expires, the detector reports at most once over any
  -- sequence of events of one host and source address, whatever its settings.
  pub storm-detects_once :
      (key : String) (evs : List (Event × ℕ)) (s : S)
      → All (λ p. key_of p.0 ≡ key) evs
      → length (storm redis cfg evs s).1 ≤ 1
  unfolding storm
  storm-detects_once key [] s same = omega arith
  storm-detects_once key ((ev, now) ∷ evs) s same = elim (fired ev now s) [
    | inl none_found ↦
        rw none_found (storm-detects_once key evs (on_event redis cfg ev now s).0 same.1)
    | inr (one, cooling) ↦
        rw
          (
            storm-silent key evs (on_event redis cfg ev now s).0 same.1 (
                subst (λ k. b.exists (cooldown_key k) (on_event redis cfg ev now s).0 ≡ true) same.0
                  cooling),
            append-nil,
          )
          (omega (arith, one))
  ]
