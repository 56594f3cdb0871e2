-- ===== src/Stream/Effects.antt =====
-- What the frames of a connection of api/v1/stream.py do to the tables.
use zaqorincore.Prelude.{
  ℕ, String, Bool, true, false, Option, none, some, List, [], ◌∷◌, ◌++◌, Result, ok, err, any,
  nat_beq, ◌≡◌, refl, arith, inl, inr, Bool-cases, if◌then◌else◌, ◌||◌,
}
use zaqorincore.Depth.{DecodeError, too_deep, malformed, safe_loads}
use zaqorincore.Dispatcher.{Socket, Host, register}
use zaqorincore.Actions.Lifecycle.{
  Continue, Continue-refl, Continue-trans, update, set_applied, set_failed, update-Continue,
}
use zaqorincore.Stream.Frames.{WireEvent, Ack, Parser, Server, Limits}
use zaqorincore.Stream.Session.{
  Ending, closed, left, Refusal, continue, Step, go_on, stop, Window, count_frame, persist_event,
  or_crash, acknowledge, on_event, on_ack, on_mapping, on_loaded, on_frame, drain, handshake, leave,
  after_handshake, ws_agent,
}

-- No two events have the same id.
abbrev pub AreDistinct : List WireEvent → Type 0
AreDistinct [] = Unit
AreDistinct (e ∷ es) = (any (λ d. nat_beq d.id e.id) es ≡ false) × AreDistinct es

any-append :
    (e d : WireEvent) (es : List WireEvent)
    → any (λ x. nat_beq x.id e.id) (es ++ d ∷ [])
      ≡ (any (λ x. nat_beq x.id e.id) es || nat_beq d.id e.id)
any-append e d [] = ground arith
any-append e d (x ∷ es) = ground (arith, any-append e d es)

AreDistinct-append :
    (d : WireEvent) (es : List WireEvent)
    → AreDistinct es
    → any (λ x. nat_beq x.id d.id) es ≡ false
    → AreDistinct (es ++ d ∷ [])
AreDistinct-append d [] h new = (refl, tt)
AreDistinct-append d (e ∷ es) h new =
    (ground (arith, any-append e d es), AreDistinct-append d es h.1 (ground arith))

-- What every handler of a frame keeps.
pub record Keeps (s s' : Server) : Type 0 where
  pub life_cycles : Continue s.actions s'.actions
  pub distinct : AreDistinct s.events → AreDistinct s'.events
  pub same_hosts : s'.hosts ≡ s.hosts
  pub same_registry : s'.registry ≡ s.registry

Keeps-refl : (s : Server) → Keeps s s
Keeps-refl s = record {
  life_cycles = Continue-refl s.actions;
  distinct = λ h. h;
  same_hosts = refl;
  same_registry = refl;
}

Keeps-trans : (s t u : Server) → Keeps s t → Keeps t u → Keeps s u
Keeps-trans s t u k l = record {
  life_cycles = Continue-trans s.actions t.actions u.actions k.life_cycles l.life_cycles;
  distinct = λ h. l.distinct (k.distinct h);
  same_hosts = cc;
  same_registry = cc;
}

acknowledge-Keeps : (now : ℕ) (a : Ack) (s : Server) → Keeps s (acknowledge now a s)
unfolding acknowledge
acknowledge-Keeps now a s = elim (Bool-cases a.applied) [
  | inl applied ↦ rw applied (record {
    life_cycles = unfold update in update-Continue (set_applied now a.id) s.actions;
    distinct = λ h. h;
    same_hosts = refl;
    same_registry = refl;
  })
  | inr failed ↦ rw failed (record {
    life_cycles = unfold update in update-Continue (set_failed now a.id) s.actions;
    distinct = λ h. h;
    same_hosts = refl;
    same_registry = refl;
  })
]

-- Where a step leads, the server has kept what it must.
data StepKeeps (s : Server) : Step → Type 0 where
  on : (t : Server) → Keeps s t → StepKeeps s (go_on t)
  ended : (e : Ending) (t : Server) → Keeps s t → StepKeeps s (stop e t)

StepKeeps-if :
    (s : Server) (b : Bool) (x y : Step)
    → StepKeeps s x
    → StepKeeps s y
    → StepKeeps s (if b then x else y)
StepKeeps-if s true x y h k = h
StepKeeps-if s false x y h k = k

persist_event-StepKeeps :
    (e : WireEvent) (s : Server) → StepKeeps s (or_crash (persist_event e s) s)
unfolding persist_event
persist_event-StepKeeps e s = elim (Bool-cases (any (λ d. nat_beq d.id e.id) s.events)) [
  | inl known ↦ rw known (on s (Keeps-refl s))
  | inr new ↦ elim (Bool-cases (any (λ h. nat_beq h.id e.host_id) s.hosts)) [
    | inl owned ↦
        rw (new, owned)
          (on _ (record {
            life_cycles = Continue-refl s.actions;
            distinct = λ h. AreDistinct-append e s.events h new;
            same_hosts = refl;
            same_registry = refl;
          }))
    | inr orphan ↦ rw (new, orphan) (ended (closed 1011) s (Keeps-refl s))
  ]
]

module _ (p : Parser) (now : ℕ) (s : Server) where
  on_event-StepKeeps : (e : Option WireEvent) → StepKeeps s (on_event p e s)
  on_event-StepKeeps none = on s (Keeps-refl s)
  on_event-StepKeeps (some e) = persist_event-StepKeeps e s

  on_ack-StepKeeps : (a : Option Ack) → StepKeeps s (on_ack p now a s)
  on_ack-StepKeeps none = on s (Keeps-refl s)
  on_ack-StepKeeps (some a) = on (acknowledge now a s) (acknowledge-Keeps now a s)

  on_mapping-StepKeeps : (o : p.Object) → StepKeeps s (on_mapping p now o s)
  unfolding on_mapping
  on_mapping-StepKeeps o = StepKeeps-if s _ _ _ (on_event-StepKeeps (p.event_of o)) (
      StepKeeps-if s _ _ _ (on_ack-StepKeeps (p.ack_of o))
        (StepKeeps-if s _ _ _ (ended left s (Keeps-refl s)) (on s (Keeps-refl s))))

  on_loaded-StepKeeps : (r : Result DecodeError p.Object) → StepKeeps s (on_loaded p now r s)
  on_loaded-StepKeeps (err malformed) = on s (Keeps-refl s)
  on_loaded-StepKeeps (err too_deep) = ended (closed 1011) s (Keeps-refl s)
  on_loaded-StepKeeps (ok o) =
      StepKeeps-if s _ _ _ (on_mapping-StepKeeps o) (ended (closed 1011) s (Keeps-refl s))

  on_frame-StepKeeps :
      (lim : Limits) (raw : String) (w : Window) → StepKeeps s (on_frame p lim raw now w s)
  unfolding on_frame
  on_frame-StepKeeps lim raw w = StepKeeps-if s _ _ _ (ended (closed 1009) s (Keeps-refl s)) (
      StepKeeps-if s _ _ _ (ended (closed 1013) s (Keeps-refl s))
        (on_loaded-StepKeeps (safe_loads p.decode raw)))

continue-Keeps :
    (s : Server) (x : Step) (k : Server → Ending × Server)
    → StepKeeps s x
    → ((t : Server) → Keeps t (k t).1)
    → Keeps s (continue x k).1
continue-Keeps s (go_on t) k (on _ h) keeps = Keeps-trans s t (k t).1 h (keeps t)
continue-Keeps s (stop e t) k (ended _ _ h) keeps = h

-- What a whole connection keeps of the tables.
pub record KeepsTables (s s' : Server) : Type 0 where
  pub life_cycles : Continue s.actions s'.actions
  pub distinct : AreDistinct s.events → AreDistinct s'.events
  pub same_hosts : s'.hosts ≡ s.hosts

leave-KeepsTables : (agent : Option ℕ) (s : Server) → KeepsTables s (leave agent s)
unfolding leave
leave-KeepsTables none s = record {
  life_cycles = Continue-refl s.actions;
  distinct = λ h. h;
  same_hosts = refl;
}
leave-KeepsTables (some agent) s = record {
  life_cycles = Continue-refl s.actions;
  distinct = λ h. h;
  same_hosts = refl;
}

module _ (p : Parser) (lim : Limits) where
  drain-Keeps :
      (frames : List (String × ℕ)) (w : Window) (s : Server) → Keeps s (drain p lim frames w s).1
  unfolding drain
  drain-Keeps [] w s = Keeps-refl s
  drain-Keeps ((raw, now) ∷ frames) w s =
      continue-Keeps s (on_frame p lim raw now (count_frame now w) s) _
        (on_frame-StepKeeps p now s lim raw (count_frame now w))
        (drain-Keeps frames (count_frame now w))

  after_handshake-KeepsTables :
      (ws : Socket) (start : ℕ) (frames : List (String × ℕ)) (s : Server) (r : Result Refusal Host)
      → KeepsTables s (after_handshake p lim ws start frames s r).1
  unfolding after_handshake leave
  after_handshake-KeepsTables ws start frames s (err r) = leave-KeepsTables r.agent_id s
  after_handshake-KeepsTables ws start frames s (ok host) =
      let k =
        drain-Keeps frames (record { window_start = start; msg_in_window = 0 })
          (record s { registry = register host.id ws s.registry }) in
      record { life_cycles = k.life_cycles; distinct = k.distinct; same_hosts = k.same_hosts }

  -- Whatever frames a connection sends, authenticated or not, each action keeps its command and
  -- follows its life cycle, no two stored events come to have the same id and the hosts stay.
  pub ws_agent-KeepsTables :
      (hmac : String → String → String) (ws : Socket) (nonce raw : String) (start : ℕ)
      (frames : List (String × ℕ)) (s : Server)
      → KeepsTables s (ws_agent p hmac lim ws nonce raw start frames s).1
  unfolding ws_agent
  ws_agent-KeepsTables hmac ws nonce raw start frames s =
      after_handshake-KeepsTables ws start frames s (handshake p hmac nonce raw s.hosts)
