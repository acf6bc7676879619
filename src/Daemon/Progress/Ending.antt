-- ===== src/Daemon/Progress/Ending.antt =====
-- The daemon on its way out: what `main` waits for, and who goes on meanwhile.
use tftpcpd.Base.{
  ℕ, suc, ◌+◌, Bool, true, false, not, ◌&&◌, List, [], ◌∷◌, ◌++◌, none, some, ◌≡◌, refl, sym, ap,
  ◌∙◌, inl, inr, arith, ◌==◌, ltb, length, Bool-cases,
}
use tftpcpd.Daemon.Signal.{Signal}
use tftpcpd.Daemon.State.{
  Routine, server, database, logger, Call, Child, Command, send_to, receive_from, close_log, Main,
  selecting, stopping, exited, impossible, System, with_child, is_ended, channel_room,
}
use tftpcpd.Daemon.Step.{
  main_steps, all_ended, command_next, main_next, is_selecting, is_over, alive_next,
}
use tftpcpd.Daemon.Balance.{
  bit, sends, receives, command_sends, command_receives, is_same, main_sends, main_receives,
  child_sends, child_receives,
}
use tftpcpd.Daemon.Invariant.{IsSound, closes, main_closes, is_late, is_late_main}
use tftpcpd.Daemon.Draining.{IsDraining}
use tftpcpd.Daemon.Progress.{GoesOn, empty-or-not, goes, call-GoesOn, loop-GoesOn}

some_left :
    (l : List Signal) (n : ℕ)
    → length l ≡ suc n
    → (sig : Signal) × (rest : List Signal) × (l ≡ sig ∷ rest)
some_left [] n h = absurd (omega (arith, h))
some_left (sig ∷ rest) n h = (sig, rest, refl)

none_left : (l : List Signal) → length l ≡ 0 → l ≡ []
none_left [] h = refl
none_left (sig ∷ rest) h = absurd (omega (arith, h))

same_refl : (r : Routine) → is_same r r ≡ true
same_refl server = refl
same_refl database = refl
same_refl logger = refl

-- A routine that still has something to send has not ended.
sends-is_ended : (c : Child) (n : ℕ) → child_sends c ≡ suc n → is_ended c ≡ false
sends-is_ended c n h = go c.todo c.loops h
  where
    go :
        (todo : List Call) (loops : Bool)
        → bit loops + sends todo ≡ suc n
        → elim todo [ [] ↦ not loops | ◌∷◌ call l ↦ false ] ≡ false
    go [] true h = refl
    go [] false h = absurd (omega (arith, h))
    go (call ∷ l) loops h = refl

module _ (s : System) (i : IsSound s) (d : IsDraining s) (alive : is_over s ≡ false) where
  -- A routine that waits for nothing from `main`.
  child-GoesOn :
      (r : Routine)
      → main_sends r s.main ≡ 0
      → (s.child r).outbox ≡ []
      → is_ended (s.child r) ≡ false
      → GoesOn s
  child-GoesOn r h o running = stands (s.child r).todo (s.child r).loops refl refl running
    where
      told :
          (n : ℕ)
          → child_receives (s.child r) ≡ suc n
          → (sig : Signal) × (rest : List Signal) × ((s.child r).inbox ≡ sig ∷ rest)
      told n k =
          let books = (i.books r).inbox in
          some_left (s.child r).inbox n (omega (arith, books, h, k))

      stands :
          (todo : List Call) (loops : Bool)
          → (s.child r).todo ≡ todo
          → (s.child r).loops ≡ loops
          → elim todo [ [] ↦ not loops | ◌∷◌ call l ↦ false ] ≡ false
          → GoesOn s
      stands [] true e k running =
          let (sig, rest, has) = told 0 (rw (e, k) refl) in
          loop-GoesOn s alive d r sig rest (rw (e, k) refl) has
      stands [] false e k running = absurd (ground arith)
      stands (call ∷ l) loops e k running = call-GoesOn s alive d r call l e o (λ is.
          told (bit (s.child r).loops + receives l)
            (ap (λ t. bit (s.child r).loops + receives t) (e ∙ ap (λ x. x ∷ l) is) ∙ (omega arith)))

  -- `main` waits for a routine.
  receive_from-GoesOn :
      (code : ℕ) (r : Routine) (later : List Command)
      → s.main ≡ stopping code (receive_from r ∷ later)
      → GoesOn s
  unfolding alive_next main_next command_next
  receive_from-GoesOn code r later e = elim (empty-or-not (s.child r).outbox) [
    | inr (sig, rest, has) ↦
        goes s alive d main_steps
          (record (with_child r (record (s.child r) { outbox = rest }) s) {
            main = stopping code later;
          })
          refl
          (ap (λ m. main_next m s) e
            ∙ ap
                (λ out. elim out [
                  | [] ↦ none
                  | ◌∷◌ x l ↦ some (record (with_child r (record (s.child r) { outbox = l }) s) {
                    main = stopping code later;
                  })
                ])
                has)
    | inl o ↦
        child-GoesOn r
          (ap (main_sends r) e
            ∙ told (command_sends r later) (is_late later) (ap is_late_main (sym e) ∙ i.late))
          o
          (sends-is_ended (s.child r) (command_receives r later) (
            let books = (i.books r).outbox in
            let waits =
              ap (main_receives r) e ∙ ap (λ b. bit b + command_receives r later) (same_refl r) in
            let out = ap length o in omega (arith, books, waits, out)))
  ]
    where
      told : (n : ℕ) (b : Bool) → (n == 0) && b ≡ true → n ≡ 0
      told n b h = ground arith

  -- `main` waits for all routines to end.
  wait-GoesOn : (code : ℕ) → s.main ≡ stopping code [] → GoesOn s
  unfolding alive_next main_next command_next all_ended
  wait-GoesOn code e = elim (Bool-cases (all_ended s)) [
    | inl h ↦
        goes s alive d main_steps (record s { main = exited code }) refl
          (ap (λ m. main_next m s) e ∙ (rw h refl))
    | inr h ↦ running (is_ended (s.child server)) (is_ended (s.child database)) refl refl h
  ]
    where
      runs : (r : Routine) → is_ended (s.child r) ≡ false → GoesOn s
      runs r h =
          let books = (i.books r).outbox in
          let waits = ap (main_receives r) e in
          child-GoesOn r (ap (main_sends r) e)
            (none_left (s.child r).outbox (omega (arith, books, waits))) h

      running :
          (a b : Bool)
          → is_ended (s.child server) ≡ a
          → is_ended (s.child database) ≡ b
          → a && b && is_ended (s.child logger) ≡ false
          → GoesOn s
      running false b k m h = runs server k
      running true false k m h = runs database m
      running true true k m h = runs logger h

  command-GoesOn : (code : ℕ) (todo : List Command) → s.main ≡ stopping code todo → GoesOn s
  unfolding alive_next main_next command_next
  command-GoesOn code [] e = wait-GoesOn code e
  command-GoesOn code (receive_from r ∷ later) e = receive_from-GoesOn code r later e
  command-GoesOn code (send_to r sig ∷ later) e =
      goes s alive d main_steps
        (record (with_child r (record (s.child r) { inbox = (s.child r).inbox ++ (sig ∷ []) }) s) {
          main = stopping code later;
        })
        refl (ap (λ m. main_next m s) e ∙ (rw room refl))
    where
      room : ltb (length (s.child r).inbox) channel_room ≡ true
      room =
          let books = (i.books r).inbox in
          let once = (i.books r).once in
          let tells = ap (main_sends r) e ∙ ap (λ b. bit b + command_sends r later) (same_refl r) in
          small (length (s.child r).inbox) (omega (arith, books, once, tells))
        where
          small : (n : ℕ) → n ≡ 0 → ltb n channel_room ≡ true
          small n h = ground arith
  command-GoesOn code (close_log ∷ later) e =
      goes s alive d main_steps (record s { log_open = false; main = stopping code later }) refl
        (ap (λ m. main_next m s) e ∙ (rw (is_open s.log_open (i.closing ∙ ap main_closes e)) refl))
    where
      is_open : (b : Bool) → bit b ≡ suc (closes later) → b ≡ true
      is_open true h = refl
      is_open false h = absurd (omega (arith, h))

  -- As long as `main` is past its `select` and the process has not ended, a goroutine can go on.
  pub stopping-GoesOn : is_selecting s.main ≡ false → GoesOn s
  stopping-GoesOn h = stands s.main refl h (over s.main s.crashed alive)
    where
      is_ending : Main → Bool
      is_ending (exited code) = true
      is_ending impossible = true
      is_ending _ = false

      over :
          (m : Main) (b : Bool)
          → elim m [ exited code ↦ true | impossible ↦ true | _ ↦ b ] ≡ false
          → is_ending m ≡ false
      over selecting b h = refl
      over (stopping code l) b h = refl
      over (exited code) b h = absurd (ground arith)
      over impossible b h = absurd (ground arith)

      stands : (m : Main) → s.main ≡ m → is_selecting m ≡ false → is_ending m ≡ false → GoesOn s
      stands selecting e h k = absurd (ground arith)
      stands (stopping code todo) e h k = command-GoesOn code todo e
      stands (exited code) e h k = absurd (ground arith)
      stands impossible e h k = absurd (ground arith)
