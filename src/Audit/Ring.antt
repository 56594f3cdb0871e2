-- ===== src/Audit/Ring.antt =====
-- audit.py: what the bounded log holds and `snapshot` shows.
use mathlib.Core.List.{reverse, reverse-cons, reverse-append}
use zaqorincore.Prelude.{
  ℕ, String, Result, ok, err, zero, suc, ◌-◌, ◌≤◌, ◌<◌, ◌≡◌, refl, sym, ◌∙◌, ap, arith, le→ltb,
  ltb→lt, ltb→le, inl, inr, Option, none, some, List, [], ◌∷◌, ◌++◌, map, length, length-append,
  length-take-le, take, ltb, Bool-cases,
}
use zaqorincore.Audit.Log.{
  audit_max, Item, State, Writer, Moment, Entry, item_of, push, record_entry, reopen, add_line,
  Write, written, refused, call, Call, recorded, cleared, run, handle_in, write_line, AuditError,
  line_of, ensure_persist_open, exported, newest, snapshot, reset, drop, drop_first,
}

module _ {ℓ} {A : Type ℓ} where
  take-all : (n : ℕ) (xs : List A) → length xs ≤ n → take n xs ≡ xs
  take-all zero [] h = refl
  take-all zero (x ∷ xs) h = ground arith
  take-all (suc n) [] h = refl
  take-all (suc n) (x ∷ xs) h = ap (λ ys. x ∷ ys) (take-all n xs (ground arith))

  take-append : (n : ℕ) (xs ys : List A) → n ≤ length xs → take n (xs ++ ys) ≡ take n xs
  take-append zero xs ys h = refl
  take-append (suc n) [] ys h = ground arith
  take-append (suc n) (x ∷ xs) ys h = ap (λ zs. x ∷ zs) (take-append n xs ys (ground arith))

  length-reverse : (xs : List A) → length (reverse xs) ≡ length xs
  length-reverse [] = refl
  length-reverse (x ∷ xs) =
      rw (reverse-cons x xs) (omega (arith, length-append (reverse xs) (x ∷ []), length-reverse xs))

  take-take-suc : (n : ℕ) (xs : List A) → take n (take (suc n) xs) ≡ take n xs
  take-take-suc zero xs = refl
  take-take-suc (suc n) [] = refl
  take-take-suc (suc n) (x ∷ xs) = ap (λ ys. x ∷ ys) (take-take-suc n xs)

sub_zero : (m n : ℕ) → m ≤ n → m - n ≡ 0
sub_zero m n h = omega arith

sub_suc : (m n : ℕ) → n ≤ m → suc m - n ≡ suc (m - n)
sub_suc m n h = omega arith

module _ {J : Type 0} where
  reverse-drop :
      (log : List (Item J)) (n : ℕ)
      → n ≤ length log
      → reverse (drop (length log - n) log) ≡ take n (reverse log)
  reverse-drop [] n h =
      ap (λ k. reverse (drop k [])) (sub_zero 0 n (omega arith)) ∙ sym (take-all n [] (omega arith))
  reverse-drop (x ∷ log) n h = elim (Bool-cases (ltb (length log) n)) [
    | inl all ↦
        ap (λ k. reverse (drop k (x ∷ log)))
          (sub_zero (suc (length log)) n (omega (arith, ltb→lt (length log) n all)))
        ∙ sym (
            take-all n (reverse (x ∷ log))
              (omega (arith, length-reverse (x ∷ log), ltb→lt (length log) n all)))
    | inr part ↦
        ap (λ k. reverse (drop k (x ∷ log))) (sub_suc (length log) n (ltb→le (length log) n part))
        ∙ reverse-drop log n (ltb→le (length log) n part)
        ∙ sym (
            ap (take n) (reverse-cons x log)
            ∙ take-append n (reverse log) (x ∷ [])
                (omega (arith, length-reverse log, ltb→le (length log) n part)))
  ]

  -- The newest items of a log are the first of the reversed one.
  newest-take : (n : ℕ) (log : List (Item J)) → newest n log ≡ take n (reverse log)
  unfolding newest
  newest-take n log = elim (Bool-cases (ltb (length log) n)) [
    | inl all ↦
        ap (λ k. reverse (drop k log))
          (sub_zero (length log) n (omega (arith, ltb→lt (length log) n all)))
        ∙ sym (
            take-all n (reverse log) (omega (arith, length-reverse log, ltb→lt (length log) n all)))
    | inr part ↦ reverse-drop log n (ltb→le (length log) n part)
  ]

  -- `deque.append`, seen from the newest item on.
  push-room :
      (log : List (Item J)) (item : Item J)
      → length log < audit_max
      → reverse (log ++ item ∷ []) ≡ take audit_max (item ∷ reverse log)
  push-room log item room =
      rw (reverse-append log (item ∷ []))
        (sym (take-all audit_max (item ∷ reverse log) (omega (arith, length-reverse log))))

  push-full :
      (n : ℕ) (log : List (Item J)) (item : Item J)
      → length log ≡ suc n
      → reverse (drop_first (log ++ item ∷ [])) ≡ take (suc n) (item ∷ reverse log)
  push-full n [] item full = ground arith
  push-full n (x ∷ log) item full =
      reverse-append log (item ∷ [])
      ∙ ap (λ xs. item ∷ xs)
          (sym (
            ap (take n) (reverse-cons x log)
            ∙ take-append n (reverse log) (x ∷ []) (omega (arith, length-reverse log))
            ∙ take-all n (reverse log) (omega (arith, length-reverse log))))

  reverse-push :
      (log : List (Item J)) (item : Item J)
      → length log ≤ audit_max
      → reverse (push log item) ≡ take audit_max (item ∷ reverse log)
  unfolding push
  reverse-push log item bounded = elim (Bool-cases (ltb (length log) audit_max)) [
    | inl room ↦ rw room (push-room log item (ltb→lt (length log) audit_max room))
    | inr full ↦
        rw full (push-full 1023 log item (omega (arith, ltb→le (length log) audit_max full)))
  ]

  push-bounded :
      (log : List (Item J)) (item : Item J)
      → length log ≤ audit_max
      → length (push log item) ≤ audit_max
  push-bounded log item bounded = omega (
    arith,
    length-reverse (push log item),
    ap length (reverse-push log item bounded),
    length-take-le audit_max (item ∷ reverse log),
  )

  reopen-log : (m : Moment) (dir : String) (s : State J) → (reopen m dir s).1.log ≡ s.log
  unfolding reopen
  reopen-log m dir s = ground arith

  handle_in-log :
      (m : Moment) (s : State J) (dir : Option String) → (handle_in m s dir).1.log ≡ s.log
  handle_in-log m s none = refl
  handle_in-log m s (some dir) = ground (arith, reopen-log m dir s)

  ensure_persist_open-log : (m : Moment) (s : State J) → (ensure_persist_open m s).1.log ≡ s.log
  unfolding ensure_persist_open
  ensure_persist_open-log m s = handle_in-log m s s.persist_dir

  add_line-log :
      (write : Write) (path line : String) (s : State J) → (add_line write path line s).log ≡ s.log
  unfolding add_line
  add_line-log written path line s = refl
  add_line-log (refused left) path line s = refl

  module _ (w : Writer J) where
    write_line-log :
        (m : Moment) (h : Option String) (s : State J) (item : Item J)
        (line : Result AuditError String)
        → (write_line w m h s item line).0.log ≡ s.log
    write_line-log m none s item line = refl
    write_line-log m (some path) s item (err e) = refl
    write_line-log m (some path) s item (ok line) = add_line-log m.write path line s

    record_entry-log :
        (m : Moment) (e : Entry J) (s : State J)
        → (record_entry w m e s).0.log ≡ push s.log (item_of m.now e)
    unfolding record_entry
    record_entry-log m e s =
        let item = item_of m.now e in
        let (h, opened) = ensure_persist_open m (record s { log = push s.log item }) in
        write_line-log m h opened item (line_of w item)
        ∙ ensure_persist_open-log m (record s { log = push s.log item })

    -- The log of a run, newest first, if it were not bounded.
    abbrev pub history : List (Call J) → List (Item J) → List (Item J)
    history [] h = h
    history (recorded m e ∷ cs) h = history cs (item_of m.now e ∷ h)
    history (cleared ∷ cs) h = history cs []

    push-history :
        (log h : List (Item J)) (item : Item J)
        → length log ≤ audit_max
        → reverse log ≡ take audit_max h
        → reverse (push log item) ≡ take audit_max (item ∷ h)
    push-history log h item bounded same =
        reverse-push log item bounded
        ∙ ap (λ xs. item ∷ take 1023 xs) same
        ∙ ap (λ xs. item ∷ xs) (take-take-suc 1023 h)

    run-history :
        (cs : List (Call J)) (h : List (Item J)) (s : State J)
        → length s.log ≤ audit_max
        → reverse s.log ≡ take audit_max h
        → reverse (run w cs s).log ≡ take audit_max (history cs h)
    unfolding run call reset
    run-history [] h s bounded same = same
    run-history (recorded m e ∷ cs) h s bounded same =
        let pushed = record_entry-log m e s in
        run-history cs (item_of m.now e ∷ h) (call w (recorded m e) s)
          (rw pushed (push-bounded s.log (item_of m.now e) bounded))
          (ap reverse pushed ∙ push-history s.log h (item_of m.now e) bounded same)
    run-history (cleared ∷ cs) h s bounded same = run-history cs [] (reset s) (omega arith) refl

    snapshot-take :
        (n : ℕ) (s : State J) → snapshot w n s ≡ map (exported w) (take n (reverse s.log))
    unfolding snapshot
    snapshot-take zero s = refl
    snapshot-take (suc n) s =
        rw (le→ltb (suc n) 1 (omega arith)) (ap (map (exported w)) (newest-take (suc n) s.log))

    -- After any calls from an empty log, whatever the disk does, `snapshot` shows the newest items
    -- recorded since the last reset, newest first: as many as asked for, and at most 1,024.
    pub snapshot-run :
        (cs : List (Call J)) (s : State J) (n : ℕ)
        → s.log ≡ []
        → snapshot w n (run w cs s) ≡ map (exported w) (take n (take audit_max (history cs [])))
    snapshot-run cs s n empty =
        snapshot-take n (run w cs s)
        ∙ ap (λ xs. map (exported w) (take n xs))
            (run-history cs [] s (rw empty (omega arith)) (ap reverse empty))
