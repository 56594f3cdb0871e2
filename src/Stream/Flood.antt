-- ===== src/Stream/Flood.antt =====
-- The rate limit of one connection of api/v1/stream.py.
use zaqorincore.Prelude.{
  ℕ, zero, suc, ◌+◌, ◌<◌, String, List, [], ◌∷◌, take, All, ltb, text_length, ◌≡◌, refl, arith,
  Bool-cases, lt→ltb, inl, inr,
}
use zaqorincore.Stream.Frames.{Parser, Server, Limits}
use zaqorincore.Stream.Session.{Ending, continue, Window, count_frame, on_frame, drain}

module _ (p : Parser) (lim : Limits) where
  count_early :
      (now : ℕ) (w : Window)
      → now < w.window_start + 60000
      → count_frame now w ≡ record w { msg_in_window = w.msg_in_window + 1 }
  unfolding count_frame
  count_early now w early = ground arith

  on_frame-over :
      (raw : String) (now : ℕ) (w : Window) (s : Server) (k k' : Server → Ending × Server)
      → lim.ws_max_msg_per_min < w.msg_in_window
      → continue (on_frame p lim raw now w s) k ≡ continue (on_frame p lim raw now w s) k'
  unfolding on_frame
  on_frame-over raw now w s k k' over =
      elim (Bool-cases (ltb lim.ws_max_msg_bytes (text_length raw))) [
        | inl big ↦ rw big refl
        | inr fits ↦ rw (fits, lt→ltb lim.ws_max_msg_per_min w.msg_in_window over) refl
      ]

  -- Frames within the first minute of a window: the frame that exceeds the limit ends the connection,
  -- and no later frame has any effect.
  pub drain-take :
      (n : ℕ) (frames : List (String × ℕ)) (w : Window) (s : Server)
      → w.msg_in_window + n ≡ lim.ws_max_msg_per_min
      → All (λ f. f.1 < w.window_start + 60000) frames
      → drain p lim frames w s ≡ drain p lim (take (suc n) frames) w s
  unfolding drain
  drain-take n [] w s e early = refl
  drain-take zero ((raw, now) ∷ frames) w s e early =
      rw (count_early now w early.0) (
        on_frame-over raw now (record w { msg_in_window = w.msg_in_window + 1 }) s _ _
          (omega arith))
  drain-take (suc n) ((raw, now) ∷ frames) w s e early =
      let w' : Window = record w { msg_in_window = w.msg_in_window + 1 } in
      rw (count_early now w early.0) (λ i.
        continue (on_frame p lim raw now w' s)
          (λ s'. drain-take n frames w' s' (omega arith) early.1 i))
