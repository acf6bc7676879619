-- ===== src/Session/SendLoop/Heard.antt =====
-- What listening to the connection leaves of a session.
use tftpcpd.Base.{ℕ, Bool, true, false, List, ◌≡◌, refl, ap, ◌∙◌, arith}
use tftpcpd.Wire.{Message}
use tftpcpd.Session.Slice.{Slice}
use tftpcpd.Session.State.{
  Arrival, Session, Outcome, done, failed, panic, out_of_fuel, ◌>>=◌, Runtime,
}
use tftpcpd.Session.Io.{receive}
use tftpcpd.Session.Io.Laws.{received, receive-done}
use tftpcpd.Session.SendLoop.{next_message}

-- Inversion of a call that succeeds.
pub >>=-eq-done :
    {A B : Type 0} (o : Outcome A) (f : A → Session → Outcome B) {b : B} {t : Session}
    → (o >>= f) ≡ done b t
    → (a : A) × (s : Session) × (o ≡ done a s) × (f a s ≡ done b t)
>>=-eq-done (done a s) f h = (a, s, refl, h)
>>=-eq-done (failed e s) f h = absurd (ground arith)
>>=-eq-done panic f h = absurd (ground arith)
>>=-eq-done out_of_fuel f h = absurd (ground arith)

pub done-injective :
    (x y : Bool) (s t : Session) → ◌≡◌ {A = Outcome Bool} (done x s) (done y t) → (y ≡ x) × (s ≡ t)
done-injective x y s t h = ground arith

-- The session after any number of reads from the connection.
pub record Heard (s t : Session) : Type 0 where
  pub later : List Arrival
  pub buffer : Slice
  pub message : Message
  pub result : t ≡ received s later buffer message

pub Heard-trans : {s t u : Session} → Heard s t → Heard t u → Heard s u
Heard-trans {s} h k = record {
  later = k.later;
  buffer = k.buffer;
  message = k.message;
  result = k.result ∙ ap (λ x. received x k.later k.buffer k.message) h.result;
}

pub Heard-refl : (s : Session) → Heard s s
Heard-refl s = record {
  later = s.destination.incoming;
  buffer = s.receive_buf;
  message = s.most_recent_message;
  result = refl;
}

module _ (rt : Runtime) where
  pub next_message-done :
      (holding : Bool) (s t : Session) → next_message rt holding s ≡ done tt t → Heard s t
  unfolding next_message
  next_message-done true s t h = rw (← ended) (Heard-refl s)
    where
      ended : s ≡ t
      ended = ground arith
  next_message-done false s t h =
      let (a, u, got, e) = >>=-eq-done (receive rt s) (λ _ v. done tt v) h in
      let r = receive-done rt s u a got in
      record {
        later = r.later;
        buffer = r.buffer;
        message = r.message;
        result = (ground arith) ∙ r.result;
      }

  -- A read that succeeds is the next message.
  pub next_message-receive :
      (s t : Session) (a : ℕ) → receive rt s ≡ done a t → next_message rt false s ≡ done tt t
  unfolding next_message
  next_message-receive s t a h = rw h
