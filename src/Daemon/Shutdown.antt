-- ===== src/Daemon/Shutdown.antt =====
-- The end of the daemon: cmd/tftpcpd/main.go from its `select` to `os.Exit`.
use tftpcpd.Base.{
  ℕ, zero, suc, ◌+◌, ◌≤◌, ◌<◌, Bytes, Bool, true, false, List, Option, none, some, ◌≡◌, ◌≢◌, refl,
  sym, ap, ◌∙◌, ◌⊎◌, inl, inr, arith, Bool-cases,
}
use tftpcpd.Daemon.Signal.{LogEvent}
use tftpcpd.Daemon.State.{Main, selecting, stopping, exited, impossible, System}
use tftpcpd.Daemon.Step.{
  Source, Event, main_selects, is_selecting, is_over, all_ended, act, Reach, begin, later,
  Listening, start,
}
use tftpcpd.Daemon.Balance.{bit}
use tftpcpd.Daemon.Invariant.{IsSound, is_possible, main_closes}
use tftpcpd.Daemon.Invariant.Reached.{act-IsSound, start-IsSound}
use tftpcpd.Daemon.Weight.{is_busy, weight}
use tftpcpd.Daemon.Weight.Falls.{act-Less}
use tftpcpd.Daemon.Draining.Reached.{Reach-IsDraining}
use tftpcpd.Daemon.Progress.{GoesOn}
use tftpcpd.Daemon.Progress.Ending.{stopping-GoesOn}
use tftpcpd.Daemon.Course.{NextMain, same, chosen, commanded, ended, code_for}
use tftpcpd.Daemon.Course.Exit.{source_of, act-Course}

-- The code that `main` ends with, where it has chosen one.
abbrev pub decided : Main → Option ℕ
decided (stopping code todo) = some code
decided (exited code) = some code
decided _ = none

NextMain-selecting :
    (o : Option Source) (m n : Main)
    → NextMain o m n
    → is_selecting m ≡ false
    → is_selecting n ≡ false
NextMain-selecting o m n (same e) h = ap is_selecting e ∙ h
NextMain-selecting o m n (chosen source is s c due) h = absurd (ground arith)
NextMain-selecting o m n (commanded code command rest e k) h = ap is_selecting k
NextMain-selecting o m n (ended code e k) h = ap is_selecting k

-- `main` exits after its routines, and only a send on the closed log panics.
record InCourse (s : System) : Type 0 where
  exits : (code : ℕ) → s.main ≡ exited code → all_ended s ≡ true
  panics : s.crashed ≡ true → s.log_open ≡ false

over-exited : (s : System) (code : ℕ) → s.main ≡ exited code → is_over s ≢ false
over-exited s code e h = absurd (apart s.main s.crashed e h)
  where
    apart :
        (m : Main) (b : Bool)
        → m ≡ exited code
        → elim m [ exited n ↦ true | impossible ↦ true | _ ↦ b ] ≡ false
        → ⊥
    apart selecting b e h = ground arith
    apart (stopping n l) b e h = ground arith
    apart (exited n) b e h = ground arith
    apart impossible b e h = ground arith

pub over-crashed : (s : System) → is_over s ≡ false → s.crashed ≡ false
over-crashed s h = go s.main s.crashed h
  where
    go :
        (m : Main) (b : Bool)
        → elim m [ exited n ↦ true | impossible ↦ true | _ ↦ b ] ≡ false
        → b ≡ false
    go selecting b h = h
    go (stopping n l) b h = h
    go (exited n) b h = absurd (ground arith)
    go impossible b h = absurd (ground arith)

bit-false : (a b : Bool) → bit a ≡ bit b → b ≡ false → a ≡ false
bit-false a b h k = ground arith

act-InCourse : (ev : Event) (s t : System) → IsSound s → InCourse s → act ev s ≡ some t → InCourse t
act-InCourse ev s t i c h =
    let (course, alive) = act-Course ev s t i h in
    record {
      exits = λ code e. elim (course.exits code e) [
        | inl before ↦ absurd (over-exited s code before alive)
        | inr all ↦ all
      ];
      panics = λ e. elim (course.panics e) [
        | inl before ↦ absurd (apart (sym before ∙ over-crashed s alive))
        | inr (closed, stays) ↦
            bit-false t.log_open s.log_open
              ((act-IsSound ev s t i h).closing ∙ (ap main_closes stays ∙ sym i.closing)) closed
      ];
    }
  where
    apart : true ≡ false → ⊥
    apart k = ground arith

module _ (listens : Listening) (files_open : Bool) (path : Bytes) (earlier : List LogEvent) where
  start-InCourse : InCourse (start listens files_open path earlier)
  unfolding start
  start-InCourse = record {
    exits = λ code e. absurd (apart code e);
    panics = λ e. absurd (ground arith);
  }
    where
      apart : (code : ℕ) → selecting ≢ exited code
      apart code k = absurd (ground arith)

  Reach-InCourse :
      (s : System) → Reach (start listens files_open path earlier) s → IsSound s × InCourse s
  Reach-InCourse _ begin = (start-IsSound listens files_open path earlier, start-InCourse)
  Reach-InCourse _ (later {s = u} {t = t} ev r h) =
      let (i, c) = Reach-InCourse u r in (act-IsSound ev u t i h, act-InCourse ev u t i c h)

  -- How the exit code came about: at some point `main` waited in its `select`, and took a case.
  pub record Decides (code : ℕ) : Type 0 where
    pub source : Source
    pub before : System
    pub next : System
    pub reached : Reach (start listens files_open path earlier) before
    pub selects : is_selecting before.main ≡ true
    pub takes : act (main_selects source) before ≡ some next
    pub due : code ≡ code_for source

  -- At any point that the goroutines can reach, main is in none of the panics that the source
  -- calls impossible; and where a channel operation has panicked, the log is closed and main is
  -- past its select.
  pub Reach-Panics :
      (s : System)
      → Reach (start listens files_open path earlier) s
      → (is_possible s.main ≡ true)
        × (s.crashed ≡ true → (s.log_open ≡ false) × (is_selecting s.main ≡ false))
  Reach-Panics s reached =
      let (i, c) = Reach-InCourse s reached in
      (
        i.possible,
        λ e. let closed = c.panics e in (closed, still s.main (sym i.closing ∙ ap bit closed)),
      )
    where
      still : (m : Main) → main_closes m ≡ 0 → is_selecting m ≡ false
      still m h = ground arith

-- So many steps, each of which brings the daemon nearer to its end.
pub data Works : ℕ → System → System → Type 0 where
  rests : {s : System} → Works zero s s
  works :
      {n : ℕ} {s t u : System} (ev : Event)
      → is_busy ev s ≡ true
      → act ev s ≡ some t
      → Works n t u
      → Works (suc n) s u

-- From any point that the goroutines of a daemon can reach, and in whatever order they go on from
-- there: n steps that each do something towards the end (no interrupt, no read without a signal
-- but for one that fails, no look at a log that is open and empty) lower the weight of what is
-- left to do by n at least, so that it bounds their number.
pub Works-bounded :
    (listens : Listening) (files_open : Bool) (path : Bytes) (earlier : List LogEvent) (n : ℕ)
    (s u : System)
    → Reach (start listens files_open path earlier) s
    → Works n s u
    → n + weight u ≤ weight s
Works-bounded listens files_open path earlier n s u reached work =
    go n s u (Reach-InCourse listens files_open path earlier s reached).0 work
  where
    go : (n : ℕ) (s u : System) → IsSound s → Works n s u → n + weight u ≤ weight s
    go _ s _ i rests = omega arith
    go _ s u i (works {n = k} {t = t} ev b h w) =
        let less = act-Less ev s t i b h in
        let rest = go k t u (act-IsSound ev s t i h) w in omega (arith, less, rest)

-- How the process has ended: `main` exits after its routines, or a send on the closed log panics.
abbrev pub HasStopped : System → Type 0
HasStopped s =
    ((code : ℕ) × (s.main ≡ exited code) × (all_ended s ≡ true))
    ⊎ ((s.crashed ≡ true) × (s.log_open ≡ false))

over-HasStopped : (s : System) → IsSound s → InCourse s → is_over s ≡ true → HasStopped s
over-HasStopped s i c h = go s.main refl i.possible (over s.main s.crashed h)
  where
    over :
        (m : Main) (b : Bool)
        → elim m [ exited n ↦ true | impossible ↦ true | _ ↦ b ] ≡ true
        → (b ≡ true) ⊎ ((is_possible m ≡ false) ⊎ ((code : ℕ) × (m ≡ exited code)))
    over selecting b h = inl h
    over (stopping n l) b h = inl h
    over (exited n) b h = inr (inr (n, refl))
    over impossible b h = inr (inl refl)

    go :
        (m : Main)
        → s.main ≡ m
        → is_possible m ≡ true
        → (s.crashed ≡ true) ⊎ ((is_possible m ≡ false) ⊎ ((code : ℕ) × (m ≡ exited code)))
        → HasStopped s
    go m e p (inl crashed) = inr (crashed, c.panics crashed)
    go m e p (inr (inl k)) = absurd (ground arith)
    go m e p (inr (inr (code, k))) = inl (code, e ∙ k, c.exits code (e ∙ k))

module _ (listens : Listening) (path : Bytes) (earlier : List LogEvent) where
  -- Where the logger opened its files, there is no deadlock: at any point that the goroutines can
  -- reach once main has left its select, the process has stopped, or some goroutine can make a
  -- step that does something towards the end.
  pub Reach-GoesOn :
      (s : System)
      → Reach (start listens true path earlier) s
      → is_selecting s.main ≡ false
      → HasStopped s ⊎ GoesOn s
  Reach-GoesOn s reached h =
      let (i, c) = Reach-InCourse listens true path earlier s reached in
      let d = (Reach-IsDraining listens path earlier s reached).1 in
      elim (Bool-cases (is_over s)) [
        | inl over ↦ inl (over-HasStopped s i c over)
        | inr alive ↦ inr (stopping-GoesOn s i d alive h)
      ]

  -- Where the logger opened its files, and at any point that the goroutines can reach once main
  -- has left its select: there is a sequence of steps, each of which does something towards the
  -- end and which are at most as many as the weight of what is left to do, after which the
  -- process has stopped: main exited with its three routines ended, or a send on the closed log
  -- panicked.
  pub Reach-Stops :
      (s : System)
      → Reach (start listens true path earlier) s
      → is_selecting s.main ≡ false
      → (n : ℕ) × (u : System) × (n ≤ weight s) × Works n s u × HasStopped u
  Reach-Stops s reached h =
      let (n, u, work, end) = go (suc (weight s)) s reached h (omega arith) in
      (
        n,
        u,
        (let bound = Works-bounded listens true path earlier n s u reached work in
            omega (arith, bound)),
        work,
        end,
      )
    where
      go :
          (fuel : ℕ) (s : System)
          → Reach (start listens true path earlier) s
          → is_selecting s.main ≡ false
          → weight s < fuel
          → (n : ℕ) × (u : System) × Works n s u × HasStopped u
      go zero s reached h enough = absurd (omega (arith, enough))
      go (suc fuel) s reached h enough = elim (Reach-GoesOn s reached h) [
        | inl end ↦ (zero, s, rests, end)
        | inr (ev, t, busy, step) ↦
            let (i, c) = Reach-InCourse listens true path earlier s reached in
            let less = act-Less ev s t i busy step in
            let (n, u, work, end) =
              go fuel t (later ev reached step)
                (NextMain-selecting (source_of ev) s.main t.main (act-Course ev s t i step).0.main
                  h)
                (omega (arith, less, enough)) in
            (suc n, u, works ev busy step work, end)
      ]
