-- ===== src/Daemon/Keeps.antt =====
-- A property of the daemon after a step, if the goroutine does not have to wait.
use tftpcpd.Base.{
  Bool, true, false, List, [], ◌∷◌, Option, none, some, ◌≡◌, refl, subst, arith, if◌then◌else◌,
}
use tftpcpd.Daemon.Signal.{Signal}
use tftpcpd.Daemon.State.{System}
use tftpcpd.Daemon.Step.{Event, is_over, alive_next, act}

abbrev pub Keeps : (System → Type 0) → Option System → Type 0
Keeps P none = Unit
Keeps P (some t) = P t

module _ (P : System → Type 0) where
  -- A step that waits for a condition.
  pub if-Keeps :
      (b : Bool) (o : Option System) → (b ≡ true → Keeps P o) → Keeps P (if b then o else none)
  if-Keeps true o k = k refl
  if-Keeps false o k = tt

  -- A step that takes a signal from a channel.
  pub taken-Keeps :
      (channel : List Signal) (next : Signal → List Signal → System)
      → ((sig : Signal) (rest : List Signal) → P (next sig rest))
      → Keeps P (elim channel [ [] ↦ none | ◌∷◌ sig rest ↦ some (next sig rest) ])
  taken-Keeps [] next k = tt
  taken-Keeps (sig ∷ rest) next k = k sig rest

  -- A step of a process that has not ended.
  pub act-Keeps :
      (ev : Event) (s t : System)
      → Keeps P (alive_next ev s)
      → act ev s ≡ some t
      → P t × (is_over s ≡ false)
  unfolding act
  act-Keeps ev s t kept h = stays (is_over s) refl (alive_next ev s) kept h
    where
      stays :
          (d : Bool)
          → is_over s ≡ d
          → (o : Option System) → Keeps P o
          → (if d then none else o) ≡ some t
          → P t × (is_over s ≡ false)
      stays true e o k h = absurd (ground arith)
      stays false e none k h = absurd (ground arith)
      stays false e (some u) k h = (subst (Keeps P) h k, e)
