-- ===== src/Session/SendLoop/Total.antt =====
-- The fuel of the loop of `SendDataLoop`, and how many passes it makes.
use tftpcpd.Base.{ℕ, ◌+◌, ◌≤◌, Bool, true, false, arith}
use tftpcpd.Session.State.{Session, Runtime}
use tftpcpd.Session.Io.{receive}
use tftpcpd.Session.Io.Total.{left_in, Below, >>=-Below, receive-Below}
use tftpcpd.Session.SendLoop.{next_message}

module _ (rt : Runtime) where
  -- What `holding` adds to the messages that are left.
  abbrev pub spare_message : Bool → ℕ
  spare_message true = 1
  spare_message false = 0

  pub next_message-Below :
      (n : ℕ) (holding : Bool) (s : Session)
      → spare_message holding + left_in s ≤ n
      → Below n (next_message rt holding s)
  unfolding next_message
  next_message-Below n true s h = omega (arith, h)
  next_message-Below n false s h =
      >>=-Below n n (receive rt s) _ (receive-Below rt n s (omega (arith, h))) (λ _ t k. k)
