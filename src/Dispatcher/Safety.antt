-- ===== src/Dispatcher/Safety.antt =====
-- Which commands a tick of the dispatcher sends.
use zaqorincore.Prelude.{
  ℕ, String, Bool, true, false, Option, none, some, List, [], ◌∷◌, keep, All, All-append, All-take,
  All-keep, All-In, In, ok, leb, if◌then◌else◌, nat_eq, ◌≡◌, inl, inr, refl, arith, Bool-cases,
  Option-cases,
}
use zaqorincore.Dict.{get-remove}
use zaqorincore.Crypto.{sign_command}
use zaqorincore.Actions.Kinds.{is_valid_kind}
use zaqorincore.Actions.Targets.{validate_target}
use zaqorincore.Actions.Deployment.{validate_mode_action}
use zaqorincore.Actions.Store.{Action, pending, has_status}
use zaqorincore.Dispatcher.{
  Socket, Registry, connection, unregister, Host, Frame, World, command_of, signed_frame,
  checked_frame, build_command_frame, State, host_of, insert_by_created, by_created, select_pending,
  send_frame, deliver_to, deliver, deliver_all, tick,
}

-- Why a frame may go to a socket: the action and the host for which it was built.
pub record Authorized (w : World) (s : State) (e : Socket × Frame) : Type 0 where
  pub action : Action
  pub host : Host
  pub stored : In action s.actions
  pub was_pending : has_status action.status pending ≡ true
  pub its_host : host_of s.hosts action ≡ some host
  pub opted_in : host.auto_block ≡ true
  pub connected : connection host.id s.registry ≡ some e.0
  pub known_kind : is_valid_kind action.kind ≡ true
  pub sound_target : validate_target w.allow_dangerous action.kind action.target ≡ ok tt
  pub enabled : validate_mode_action w.deployment_mode action.kind ≡ ok tt
  pub same_kind : e.1.kind ≡ action.kind
  pub same_target : e.1.target ≡ action.target
  pub same_ttl : e.1.ttl_sec ≡ action.ttl_sec
  pub signed :
      (secret : String) × (host.secret ≡ some secret)
      × (e.1.hmac ≡ sign_command w.hmac secret (command_of w action))

-- What a frame that was built says of its action.
record Built (w : World) (a : Action) (h : Host) (f : Frame) : Type 0 where
  known_kind : is_valid_kind a.kind ≡ true
  sound_target : validate_target w.allow_dangerous a.kind a.target ≡ ok tt
  enabled : validate_mode_action w.deployment_mode a.kind ≡ ok tt
  same_kind : f.kind ≡ a.kind
  same_target : f.target ≡ a.target
  same_ttl : f.ttl_sec ≡ a.ttl_sec
  signed :
      (secret : String) × (h.secret ≡ some secret)
      × (f.hmac ≡ sign_command w.hmac secret (command_of w a))

Built-checked_frame :
    (w : World) (a : Action) (h : Host) (secret : String) (f : Frame)
    → h.secret ≡ some secret
    → checked_frame w a h secret ≡ some f
    → Built w a h f
unfolding checked_frame signed_frame
Built-checked_frame w a h secret f own e = record {
  known_kind = ground arith;
  sound_target = ground arith;
  enabled = ground arith;
  same_kind = ground arith;
  same_target = ground arith;
  same_ttl = ground arith;
  signed = (secret, own, ground arith);
}

Built-build_command_frame :
    (w : World) (a : Action) (h : Host) (f : Frame)
    → build_command_frame w a h ≡ some f
    → Built w a h f
unfolding build_command_frame
Built-build_command_frame w a h f e = elim (Option-cases h.secret) [
  | inl no_secret ↦ absurd (ground arith)
  | inr (secret, own) ↦ Built-checked_frame w a h secret f own (ground arith)
]

-- What a tick keeps while it goes through the rows that it has read from `s₀`.
record Carries (w : World) (s₀ s : State) : Type 0 where
  same_hosts : s.hosts ≡ s₀.hosts
  subset :
      (id : ℕ) (ws : Socket)
      → connection id s.registry ≡ some ws
      → connection id s₀.registry ≡ some ws
  authorized : All (Authorized w s₀) s.sent

unregister-connection :
    (gone id : ℕ) (r : Registry) {ws : Socket}
    → connection id (unregister gone r) ≡ some ws
    → connection id r ≡ some ws
unfolding connection unregister
unregister-connection gone id r e = ground (arith, get-remove gone id r)

module _ (w : World) (now : ℕ) (s₀ : State) (a : Action) (stored : In a s₀.actions)
    (waits : has_status a.status pending ≡ true) where
  authorize :
      (h : Host) (ws : Socket) (f : Frame)
      → host_of s₀.hosts a ≡ some h
      → h.auto_block ≡ true
      → connection h.id s₀.registry ≡ some ws
      → build_command_frame w a h ≡ some f
      → Authorized w s₀ (ws, f)
  authorize h ws f its on open_ built =
      let b = Built-build_command_frame w a h f built in
      record {
        action = a;
        host = h;
        stored = stored;
        was_pending = waits;
        its_host = its;
        opted_in = on;
        connected = open_;
        known_kind = b.known_kind;
        sound_target = b.sound_target;
        enabled = b.enabled;
        same_kind = b.same_kind;
        same_target = b.same_target;
        same_ttl = b.same_ttl;
        signed = b.signed;
      }

  send_frame-Carries :
      (h : Host) (ws : Socket) (f : Frame) (s : State)
      → Carries w s₀ s
      → Authorized w s₀ (ws, f)
      → Carries w s₀ (send_frame w now a h ws (some f) s).1
  unfolding send_frame
  send_frame-Carries h ws f s k au = elim (Bool-cases (w.send ws f)) [
    | inl sent_ ↦
        let all_sent = All-append (Authorized w s₀) s.sent ((ws, f) ∷ []) k.authorized (au, tt) in
        elim (Bool-cases (w.updates a.id)) [
          | inl updated ↦
              rw (sent_, updated)
                (record { same_hosts = k.same_hosts; subset = k.subset; authorized = all_sent })
          | inr raised ↦
              rw (sent_, raised)
                (record { same_hosts = k.same_hosts; subset = k.subset; authorized = all_sent })
        ]
    | inr lost ↦ rw lost (record {
      same_hosts = k.same_hosts;
      subset = λ id v e. k.subset id v (unregister-connection h.id id s.registry e);
      authorized = k.authorized;
    })
  ]

  deliver_to-Carries :
      (o : Option Host) (s : State)
      → host_of s₀.hosts a ≡ o
      → Carries w s₀ s
      → Carries w s₀ (deliver_to w now a o s).1
  unfolding deliver_to
  deliver_to-Carries none s its k = k
  deliver_to-Carries (some h) s its k =
      by_opt_in h.auto_block refl (connection h.id s.registry) refl (build_command_frame w a h) refl
    where
      by_opt_in :
          (on : Bool)
          → h.auto_block ≡ on
          → (c : Option Socket) → connection h.id s.registry ≡ c
          → (f : Option Frame) → build_command_frame w a h ≡ f
          → Carries w s₀
              (if◌then◌else◌ {A = Bool × State} on
                (elim c [ none ↦ (true, s) | some ws ↦ send_frame w now a h ws f s ])
                (true, s)).1
      by_opt_in false off c e f b = k
      by_opt_in true on none e f b = k
      by_opt_in true on (some ws) e none b = unfold send_frame in k
      by_opt_in true on (some ws) e (some f) b =
          send_frame-Carries h ws f s k (authorize h ws f its on (k.subset h.id ws e) b)

  deliver-Carries : (s : State) → Carries w s₀ s → Carries w s₀ (deliver w now a s).1
  unfolding deliver
  deliver-Carries s k = deliver_to-Carries (host_of s.hosts a) s (rw k.same_hosts) k

insert_by_created-All :
    (P : Action → Type 0) (a : Action) (rows : List Action)
    → P a
    → All P rows
    → All P (insert_by_created a rows)
unfolding insert_by_created
insert_by_created-All P a [] h k = (h, tt)
insert_by_created-All P a (b ∷ rows) h k = elim (Bool-cases (leb a.created_at b.created_at)) [
  | inl e ↦ rw e (h, k)
  | inr e ↦ rw e (k.0, insert_by_created-All P a rows h k.1)
]

by_created-All : (P : Action → Type 0) (rows : List Action) → All P rows → All P (by_created rows)
unfolding by_created
by_created-All P [] h = tt
by_created-All P (a ∷ rows) h =
    insert_by_created-All P a (by_created rows) h.0 (by_created-All P rows h.1)

-- A row that the tick reads: stored, and pending.
abbrev pub IsRead : State → Action → Type 0
IsRead s a = In a s.actions × (has_status a.status pending ≡ true)

pub select_pending-IsRead : (s : State) → All (IsRead s) (select_pending s)
unfolding select_pending
select_pending-IsRead s =
    All-take (IsRead s) 16 (by_created (keep (λ a. has_status a.status pending) s.actions)) (
      by_created-All (IsRead s) (keep (λ a. has_status a.status pending) s.actions) (
        All-keep (λ a. In a s.actions) (λ a. has_status a.status pending) s.actions
          (All-In s.actions)))

deliver_all-Carries :
    (w : World) (now : ℕ) (s₀ : State) (rows : List Action) (s : State)
    → All (IsRead s₀) rows
    → Carries w s₀ s
    → Carries w s₀ (deliver_all w now rows s)
unfolding deliver_all
deliver_all-Carries w now s₀ [] s h k = k
deliver_all-Carries w now s₀ (a ∷ rows) s h k =
    let s' = (deliver w now a s).1 in
    let carried = deliver-Carries w now s₀ a h.0.0 h.0.1 s k in
    elim (Bool-cases (deliver w now a s).0) [
      | inl goes_on ↦ rw goes_on (deliver_all-Carries w now s₀ rows s' h.1 carried)
      | inr stops ↦ rw stops carried
    ]

-- Every frame that a tick adds to the frames sent was built for a stored, pending action of a host
-- that has opted in and went to the socket registered for that host. Its kind is registered and
-- enabled in the deployment mode, its target was accepted, and its kind, target, TTL and signature
-- are those of the action under the host's secret.
pub tick-Authorized :
    (w : World) (now : ℕ) (s : State) → s.sent ≡ [] → All (Authorized w s) (tick w now s).sent
unfolding tick
tick-Authorized w now s none_yet =
    (deliver_all-Carries w now s (select_pending s) s (select_pending-IsRead s)
      (record { same_hosts = refl; subset = λ id ws e. e; authorized = rw none_yet tt })).authorized
