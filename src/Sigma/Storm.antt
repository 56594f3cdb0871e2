-- ===== src/Sigma/Storm.antt =====
-- rule_engine/runner.py: a rule's cooldown against a storm of events.
use zaqorincore.Prelude.{
  ◌≡◌, refl, sym, ◌⊎◌, inl, inr, arith, ◌≤◌, All, append-nil, ◌<◌, ℕ, String, true, List, [], ◌∷◌,
  ◌++◌, length, string_eq, Result, ok, err,
}
use mathlib.Core.Path.{subst}
use zaqorincore.Sigma.Values.{Event, Engine, Raised}
use zaqorincore.Sigma.Rule.{Rule}
use zaqorincore.Sigma.Runner.{
  Redis, Fire, cooldown_key, drop_old, record_event, is_in_cooldown, set_cooldown, evaluate_matched,
  evaluate_rule, dedup_of,
}

abbrev fires_of : Result Raised (List Fire) → List Fire
fires_of (err e) = []
fires_of (ok fires) = fires

-- One rule over a sequence of events, each with its time, as long as no key expires: the last state
-- and all fires.
unfoldable pub storm : {S : Type 0} → Redis S → Engine → Rule → List (Event × ℕ) → S → S × List Fire
storm redis en rule [] s = (s, [])
storm redis en rule ((ev, now) ∷ evs) s =
    let (s', r) = evaluate_rule redis en rule ev now s in
    let (t, more) = storm redis en rule evs s' in (t, fires_of r ++ more)

module _ {S : Type 0} (redis : Redis S) (en : Engine) (rule : Rule) where
  silent :
      (ev : Event) (now : ℕ) (s : S)
      → is_in_cooldown redis en rule (dedup_of rule ev) s ≡ true
      → ((evaluate_rule redis en rule ev now s).0 ≡ s)
        × (fires_of (evaluate_rule redis en rule ev now s).1 ≡ [])
  unfolding evaluate_rule evaluate_matched
  silent ev now s e = ground arith

  storm-silent :
      (dedup : String) (evs : List (Event × ℕ)) (s : S)
      → All (λ p. dedup_of rule p.0 ≡ dedup) evs
      → is_in_cooldown redis en rule dedup s ≡ true
      → (storm redis en rule evs s).1 ≡ []
  unfolding storm
  storm-silent dedup [] s same e = refl
  storm-silent dedup ((ev, now) ∷ evs) s same e =
      let cold = subst (λ d. is_in_cooldown redis en rule d s ≡ true) (sym same.0) e in
      rw ((silent ev now s cold).0, (silent ev now s cold).1) (storm-silent dedup evs s same.1 e)

  module _ (positive : 0 < rule.cooldown_sec)
      (exists-set : (k v : String) (ttl : ℕ) (s : S)
        → 0 < ttl
        → redis.exists k (redis.set_ex k v ttl s) ≡ true) where
    fired :
        (ev : Event) (now : ℕ) (s : S)
        → (fires_of (evaluate_rule redis en rule ev now s).1 ≡ [])
          ⊎ ((length (fires_of (evaluate_rule redis en rule ev now s).1) ≡ 1)
              × (is_in_cooldown redis en rule
                    (dedup_of rule ev)
                    (evaluate_rule redis en rule ev now s).0
                  ≡ true))
    unfolding evaluate_rule evaluate_matched set_cooldown is_in_cooldown
    fired ev now s = ground (
      arith,
      exists-set (cooldown_key rule.id (dedup_of rule ev)) "1" rule.cooldown_sec
          (record_event redis en rule (dedup_of rule ev) now ev.event_id
            (drop_old redis en rule (dedup_of rule ev) now s))
          positive,
    )

    -- If a key that is set with a positive time to live exists right after, then a rule with a
    -- positive cooldown fires at most once over any sequence of events of one deduplication key, as
    -- long as no key expires.
    pub storm-fires_once :
        (dedup : String) (evs : List (Event × ℕ)) (s : S)
        → All (λ p. dedup_of rule p.0 ≡ dedup) evs
        → length (storm redis en rule evs s).1 ≤ 1
    unfolding storm
    storm-fires_once dedup [] s same = omega arith
    storm-fires_once dedup ((ev, now) ∷ evs) s same = elim (fired ev now s) [
      | inl e ↦ rw e (storm-fires_once dedup evs _ same.1)
      | inr (one, cold) ↦
          rw
            (
              storm-silent dedup evs (evaluate_rule redis en rule ev now s).0 same.1 (
                  subst
                    (λ d.
                      is_in_cooldown redis en rule d (evaluate_rule redis en rule ev now s).0
                      ≡ true)
                    same.0 cold),
              append-nil,
            )
            (omega (arith, one))
    ]
