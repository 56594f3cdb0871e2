-- ===== src/Dispatcher/Progress.antt =====
-- Which pending actions a tick of the dispatcher gets to.
use zaqorincore.Prelude.{
  ℕ, Bool, true, false, Option, none, some, List, [], ◌∷◌, All, In, In-append_left, In-append_last,
  if◌then◌else◌, nat_eq, ◌≡◌, ◌⊎◌, inl, inr, refl, arith,
}
use zaqorincore.Actions.Store.{Action}
use zaqorincore.Dispatcher.{
  Socket, connection, Host, Frame, World, build_command_frame, State, host_of, select_pending,
  send_frame, deliver_to, deliver, deliver_all, tick,
}

-- A row that a tick skips: its host is unknown, has not opted in or is not connected, or the frame
-- is refused.
abbrev pub Blocked : World → State → Action → Type 0
Blocked w s a =
    (host_of s.hosts a ≡ none)
    ⊎ ((h : Host) × (host_of s.hosts a ≡ some h)
        × ((h.auto_block ≡ false)
            ⊎ (connection h.id s.registry ≡ none)
            ⊎ (build_command_frame w a h ≡ none)))

deliver-Blocked :
    (w : World) (now : ℕ) (a : Action) (s : State) → Blocked w s a → deliver w now a s ≡ (true, s)
unfolding deliver deliver_to send_frame
deliver-Blocked w now a s (inl e) = rw e
deliver-Blocked w now a s (inr (h, e, inl off)) = rw (e, off)
deliver-Blocked w now a s (inr (h, e, inr (inl away))) = rw (e, away) (ground arith)
deliver-Blocked w now a s (inr (h, e, inr (inr bad))) = rw e (ground arith)

deliver_all-Blocked :
    (w : World) (now : ℕ) (rows : List Action) (s : State)
    → All (Blocked w s) rows
    → deliver_all w now rows s ≡ s
unfolding deliver_all
deliver_all-Blocked w now [] s h = refl
deliver_all-Blocked w now (a ∷ rows) s h =
    rw (deliver-Blocked w now a s h.0) (deliver_all-Blocked w now rows s h.1)

-- If each of the oldest 16 pending actions is one that a tick skips, the tick changes nothing and
-- sends nothing, whatever newer actions are pending behind them.
pub tick-Blocked :
    (w : World) (now : ℕ) (s : State) → All (Blocked w s) (select_pending s) → tick w now s ≡ s
unfolding tick
tick-Blocked w now s h = deliver_all-Blocked w now (select_pending s) s h

-- A row that a tick can send, with the socket and the frame.
pub record Ready (w : World) (s : State) (a : Action) (e : Socket × Frame) : Type 0 where
  pub host : Host
  pub its_host : host_of s.hosts a ≡ some host
  pub opted_in : host.auto_block ≡ true
  pub connected : connection host.id s.registry ≡ some e.0
  pub built : build_command_frame w a host ≡ some e.1

-- The tick goes on, the hosts and connections stay, and what was sent stays sent.
record Grows (s : State) (end : Bool × State) : Type 0 where
  goes_on : end.0 ≡ true
  same_hosts : end.1.hosts ≡ s.hosts
  same_registry : end.1.registry ≡ s.registry
  keeps : (e : Socket × Frame) → In e s.sent → In e end.1.sent

Grows-refl : (s : State) → Grows s (true, s)
Grows-refl s = record { goes_on = refl; same_hosts = refl; same_registry = refl; keeps = λ e m. m }

Ready-Grows :
    (w : World) (s : State) (end : Bool × State) (a : Action) (e : Socket × Frame)
    → Grows s end
    → Ready w s a e
    → Ready w end.1 a e
Ready-Grows w s end a e g r = record {
  host = r.host;
  its_host = rw g.same_hosts r.its_host;
  opted_in = r.opted_in;
  connected = rw g.same_registry r.connected;
  built = r.built;
}

module _ (w : World) (now : ℕ) (sends : (ws : Socket) (f : Frame) → w.send ws f ≡ true)
    (updates : (id : ℕ) → w.updates id ≡ true) where
  send_frame-Grows :
      (a : Action) (h : Host) (ws : Socket) (o : Option Frame) (s : State)
      → Grows s (send_frame w now a h ws o s)
  unfolding send_frame
  send_frame-Grows a h ws none s = Grows-refl s
  send_frame-Grows a h ws (some f) s =
      rw (sends ws f, updates a.id)
        (record {
          goes_on = refl;
          same_hosts = refl;
          same_registry = refl;
          keeps = λ e m. In-append_left e s.sent ((ws, f) ∷ []) m;
        })

  deliver_to-Grows : (a : Action) (o : Option Host) (s : State) → Grows s (deliver_to w now a o s)
  unfolding deliver_to
  deliver_to-Grows a none s = Grows-refl s
  deliver_to-Grows a (some h) s = by_opt_in h.auto_block (connection h.id s.registry)
    where
      by_opt_in :
          (on : Bool) (c : Option Socket)
          → Grows s (
              if on
              then elim c [
                | none ↦ (true, s)
                | some ws ↦ send_frame w now a h ws (build_command_frame w a h) s
              ]
              else (true, s))
      by_opt_in false c = Grows-refl s
      by_opt_in true none = Grows-refl s
      by_opt_in true (some ws) = send_frame-Grows a h ws (build_command_frame w a h) s

  deliver-Grows : (a : Action) (s : State) → Grows s (deliver w now a s)
  unfolding deliver
  deliver-Grows a s = deliver_to-Grows a (host_of s.hosts a) s

  deliver_all-keeps :
      (rows : List Action) (s : State) (e : Socket × Frame)
      → In e s.sent
      → In e (deliver_all w now rows s).sent
  unfolding deliver_all
  deliver_all-keeps [] s e m = m
  deliver_all-keeps (a ∷ rows) s e m =
      let g = deliver-Grows a s in
      rw g.goes_on (deliver_all-keeps rows (deliver w now a s).1 e (g.keeps e m))

  deliver-Ready :
      (a : Action) (s : State) (e : Socket × Frame)
      → Ready w s a e
      → In e (deliver w now a s).1.sent
  unfolding deliver deliver_to send_frame
  deliver-Ready a s e r =
      rw (r.its_host, r.opted_in, r.connected, r.built, sends e.0 e.1, updates a.id)
        (In-append_last e s.sent)

  deliver_all-Ready :
      (rows : List Action) (a : Action) (s : State) (e : Socket × Frame)
      → In a rows
      → Ready w s a e
      → In e (deliver_all w now rows s).sent
  unfolding deliver_all
  deliver_all-Ready [] a s e m r = absurd m
  deliver_all-Ready (b ∷ rows) a s e (inl same) r =
      rw (deliver-Grows b s).goes_on
        (deliver_all-keeps rows (deliver w now b s).1 e (deliver-Ready b s e (rw same at r)))
  deliver_all-Ready (b ∷ rows) a s e (inr m) r =
      let g = deliver-Grows b s in
      rw g.goes_on (
        deliver_all-Ready rows a (deliver w now b s).1 e m
          (Ready-Grows w s (deliver w now b s) a e g r))

  -- If every send succeeds and every update that follows one commits, a tick sends each of the oldest
  -- 16 pending actions whose host is known, has opted in and is connected and whose frame can be
  -- built, with that frame to that socket.
  pub tick-Ready :
      (a : Action) (s : State) (e : Socket × Frame)
      → In a (select_pending s)
      → Ready w s a e
      → In e (tick w now s).sent
  unfolding tick
  tick-Ready a s e m r = deliver_all-Ready (select_pending s) a s e m r
