-- ===== src/Detectors/WebStorm.antt =====
-- detectors/web_attack.py: the cooldown of each signature against a storm of requests.
use mathlib.Core.Path.{subst}
use zaqorincore.Prelude.{
  ℕ, ◌+◌, ◌≤◌, String, Bool, true, false, not, some, List, [], ◌∷◌, map, length, length-append, All,
  In, All-In_cons, inl, inr, is_empty, string_eq, if◌then◌else◌, ◌≡◌, refl, arith, Bool-cases,
}
use zaqorincore.Dict.{get}
use zaqorincore.Detectors.Ssh.{Redis}
use zaqorincore.Detectors.Runner.{ParsedEvent, Finding}
use zaqorincore.Detectors.Web.{
  patterns, is_http_event, matching, match_patterns, cooldown_key, on_tags, on_source,
  on_http_event, run_web,
}

-- What Redis documents of SET with NX, as long as it succeeds and no key expires: it sets a key unless
-- it exists, and from then on the key exists, as do those that existed.
pub record Holds {S : Type 0} (r : Redis S) : Type 1 where
  pub exists : String → S → Bool
  pub answers : (k : String) (ttl : ℕ) (s : S) → (r.set_nx k ttl s).1 ≡ some (not (exists k s))
  pub sets : (k : String) (ttl : ℕ) (s : S) → exists k (r.set_nx k ttl s).0 ≡ true
  pub keeps :
      (j k : String) (ttl : ℕ) (s : S) → exists j s ≡ true → exists j (r.set_nx k ttl s).0 ≡ true

abbrev tags_of : List String
tags_of = map (λ p. p.0) patterns

module _ {S : Type 0} (search : String → String → Bool) (id_text : ℕ → String) (r : Redis S)
    (b : Holds r) where
  abbrev key : ℕ → String → String → String
  key host ip tag = cooldown_key search id_text r host ip tag

  -- How many of some tags have no key yet.
  abbrev free : ℕ → String → List String → S → ℕ
  free host ip [] s = 0
  free host ip (tag ∷ tags) s =
      let rest = free host ip tags s in if b.exists (key host ip tag) s then rest else rest + 1

  free-le :
      (host : ℕ) (ip : String) (tags : List String) (s : S) → free host ip tags s ≤ length tags
  free-le host ip [] s = omega arith
  free-le host ip (tag ∷ tags) s = ground (arith, free-le host ip tags s)

  free-set_nx :
      (host : ℕ) (ip k : String) (ttl : ℕ) (tags : List String) (s : S)
      → free host ip tags (r.set_nx k ttl s).0 ≤ free host ip tags s
  free-set_nx host ip k ttl [] s = omega arith
  free-set_nx host ip k ttl (tag ∷ tags) s =
      ground (arith, free-set_nx host ip k ttl tags s, b.keeps (key host ip tag) k ttl s)

  free-set_head :
      (host : ℕ) (ip tag : String) (ttl : ℕ) (tags : List String) (s : S)
      → b.exists (key host ip tag) s ≡ false
      → free host ip (tag ∷ tags) (r.set_nx (key host ip tag) ttl s).0 + 1
        ≤ free host ip (tag ∷ tags) s
  free-set_head host ip tag ttl tags s new =
      ground (
        arith,
        new,
        b.sets (key host ip tag) ttl s,
        free-set_nx host ip (key host ip tag) ttl tags s,
      )

  free-set_new :
      (host : ℕ) (ip tag : String) (ttl : ℕ) (tags : List String) (s : S)
      → In tag tags
      → b.exists (key host ip tag) s ≡ false
      → free host ip tags (r.set_nx (key host ip tag) ttl s).0 + 1 ≤ free host ip tags s
  free-set_new host ip tag ttl [] s m new = absurd m
  free-set_new host ip tag ttl (t ∷ tags) s (inl e) new =
      subst
        (λ x.
          free host ip (x ∷ tags) (r.set_nx (key host ip tag) ttl s).0 + 1
          ≤ free host ip (x ∷ tags) s)
        e (free-set_head host ip tag ttl tags s new)
  free-set_new host ip tag ttl (t ∷ tags) s (inr m) new = ground (
    arith,
    free-set_new host ip tag ttl tags s m new,
    b.keeps (key host ip t) (key host ip tag) ttl s,
  )

  -- The findings of a step are paid for by tags that were free.
  abbrev Paid : ℕ → String → S → S × List Finding → Type 0
  Paid host ip s p = length p.1 + free host ip tags_of p.0 ≤ free host ip tags_of s

  on_tags-Paid :
      (ev : ParsedEvent) (cooldown_sec : ℕ) (ip : String) (all tags : List String) (s : S)
      → All (λ tag. In tag tags_of) tags
      → Paid ev.host_id ip s (on_tags search id_text r ev cooldown_sec ip all tags s)
  unfolding on_tags
  on_tags-Paid ev cooldown_sec ip all [] s h = omega arith
  on_tags-Paid ev cooldown_sec ip all (tag ∷ tags) s h =
      let k = key ev.host_id ip tag in
      elim (Bool-cases (b.exists k s)) [
        | inl held ↦
            rw (b.answers k cooldown_sec s, held)
              (omega (
                arith,
                on_tags-Paid ev cooldown_sec ip all tags (r.set_nx k cooldown_sec s).0 h.1,
                free-set_nx ev.host_id ip k cooldown_sec tags_of s,
              ))
        | inr new ↦
            rw (b.answers k cooldown_sec s, new)
              (omega (arith, free-set_new ev.host_id ip tag cooldown_sec tags_of s h.0 new))
      ]

  matching-In :
      (raw : String) (ps : List (String × String))
      → All (λ tag. In tag (map (λ p. p.0) ps)) (matching search id_text r raw ps)
  matching-In raw [] = tt
  matching-In raw ((tag, pattern) ∷ ps) =
      let rest =
        All-In_cons tag (matching search id_text r raw ps) (map (λ p. p.0) ps)
          (matching-In raw ps) in
      elim (Bool-cases (search pattern raw)) [ inl e ↦ rw e (inl refl, rest) | inr e ↦ rw e rest ]

  on_source-Paid :
      (cooldown_sec : ℕ) (ev : ParsedEvent) (ip : String) (s : S)
      → Paid ev.host_id ip s (on_source search id_text r ev cooldown_sec (some ip) s)
  unfolding match_patterns
  on_source-Paid cooldown_sec ev ip s = elim (Bool-cases (is_empty ip)) [
    | inl e ↦ rw e (omega arith)
    | inr e ↦ rw e (
        on_tags-Paid ev cooldown_sec ip (matching search id_text r ev.raw patterns)
          (matching search id_text r ev.raw patterns) s (matching-In ev.raw patterns))
  ]

  on_http_event-Paid :
      (cooldown_sec : ℕ) (ev : ParsedEvent) (ip : String) (s : S)
      → get "source_ip" ev.metadata ≡ some ip
      → Paid ev.host_id ip s (on_http_event search id_text r cooldown_sec ev s)
  unfolding on_http_event
  on_http_event-Paid cooldown_sec ev ip s from = elim (Bool-cases (is_http_event ev)) [
    | inl e ↦ rw (e, from) (on_source-Paid cooldown_sec ev ip s)
    | inr e ↦ rw e (omega arith)
  ]

  run_web-Paid :
      (cooldown_sec host : ℕ) (ip : String) (evs : List ParsedEvent) (s : S)
      → All (λ ev. (ev.host_id ≡ host) × (get "source_ip" ev.metadata ≡ some ip)) evs
      → Paid host ip s (run_web search id_text r cooldown_sec evs s)
  unfolding run_web
  run_web-Paid cooldown_sec host ip [] s h = omega arith
  run_web-Paid cooldown_sec host ip (ev ∷ evs) s h =
      let step = on_http_event search id_text r cooldown_sec ev s in
      let first =
        subst (λ x. Paid x ip s step) h.0.0 (on_http_event-Paid cooldown_sec ev ip s h.0.1) in
      omega (
        arith,
        first,
        run_web-Paid cooldown_sec host ip evs step.0 h.1,
        length-append step.1 (run_web search id_text r cooldown_sec evs step.0).1,
      )

  -- Over events of one host and address, in any order and number, the web-attack detector finds
  -- something at most four times, as it has four signatures, while the calls of Redis succeed and no key
  -- expires.
  pub run_web-le :
      (cooldown_sec host : ℕ) (ip : String) (evs : List ParsedEvent) (s : S)
      → All (λ ev. (ev.host_id ≡ host) × (get "source_ip" ev.metadata ≡ some ip)) evs
      → length (run_web search id_text r cooldown_sec evs s).1 ≤ 4
  run_web-le cooldown_sec host ip evs s h =
      omega (arith, run_web-Paid cooldown_sec host ip evs s h, free-le host ip tags_of s)
