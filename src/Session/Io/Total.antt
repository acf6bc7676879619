-- ===== src/Session/Io/Total.antt =====
-- How many messages the methods leave to be read: only `Receive` takes one, and it takes one
-- whenever it returns no error.
use tftpcpd.Base.{
  ℕ, suc, ◌≤◌, ◌<◌, Bool, true, false, List, [], ◌∷◌, Option, none, some, ◌≢◌, arith, length, leb,
  if◌then◌else◌,
}
use tftpcpd.Wire.{Message}
use tftpcpd.Session.Slice.{Slice, reslice, len}
use tftpcpd.Session.State.{
  Arrival, cancelled, read_failed, datagram, Session, Outcome, done, failed, panic,
  buffer_too_small, out_of_fuel, ◌>>=◌, Runtime, data_preamble_length,
}
use tftpcpd.Session.Io.{
  read_file, read_block, send, receive, receive_from, take_arrival, decoded, store, stored,
  packet_size,
}

abbrev pub left_in : Session → ℕ
left_in s = length s.destination.incoming

-- The outcome is not the model's own, and if it is a value less than `n` messages are left.
abbrev pub Below {ℓ} : {A : Type ℓ} → ℕ → Outcome A → Type 0
Below n (done _ s) = left_in s < n
Below n (failed _ s) = Unit
Below n panic = Unit
Below n out_of_fuel = ⊥

pub >>=-Below :
    {A B : Type 0} (n m : ℕ) (o : Outcome A) (f : A → Session → Outcome B)
    → Below n o
    → ((a : A) (s : Session) → left_in s < n → Below m (f a s))
    → Below m (o >>= f)
>>=-Below n m (done a s) f h k = k a s h
>>=-Below n m (failed e s) f h k = tt
>>=-Below n m panic f h k = tt
>>=-Below n m out_of_fuel f h k = h

pub Below-ne-out_of_fuel : {A : Type 0} (n : ℕ) (o : Outcome A) → Below n o → o ≢ out_of_fuel
Below-ne-out_of_fuel n o h e = rw e at h

pub Below-more : {A : Type 0} (n : ℕ) (o : Outcome A) → Below n o → Below (suc n) o
Below-more n (done _ s) h = omega (arith, h)
Below-more n (failed e s) h = tt
Below-more n panic h = tt
Below-more n out_of_fuel h = h

pub branch-Below :
    {A : Type 0} (n : ℕ) (b : Bool) (o p : Outcome A)
    → Below n o
    → Below n p
    → Below n (elim b [ true ↦ o | false ↦ p ])
branch-Below n true o p h k = h
branch-Below n false o p h k = k

-- The outcome is not the model's own, and at most `n` messages are left, also after an error.
abbrev pub Keeps {ℓ} : {A : Type ℓ} → ℕ → Outcome A → Type 0
Keeps n (done _ s) = left_in s ≤ n
Keeps n (failed _ s) = left_in s ≤ n
Keeps n panic = Unit
Keeps n out_of_fuel = ⊥

pub Keeps-Below : {A : Type 0} (n : ℕ) (o : Outcome A) → Keeps n o → Below (suc n) o
Keeps-Below n (done _ s) h = omega (arith, h)
Keeps-Below n (failed e s) h = tt
Keeps-Below n panic h = tt
Keeps-Below n out_of_fuel h = h

>>=-Keeps :
    {A B : Type 0} (n : ℕ) (o : Outcome A) (f : A → Session → Outcome B)
    → Keeps n o
    → ((a : A) (s : Session) → left_in s ≤ n → Keeps n (f a s))
    → Keeps n (o >>= f)
>>=-Keeps n (done a s) f h k = k a s h
>>=-Keeps n (failed e s) f h k = h
>>=-Keeps n panic f h k = tt
>>=-Keeps n out_of_fuel f h k = h

pub send-Keeps : (n : ℕ) (s : Session) → left_in s ≤ n → Keeps n (send none s)
unfolding send
send-Keeps n s h = ground arith

read_block-Keeps : (n : ℕ) (w : Slice) (s : Session) → left_in s ≤ n → Keeps n (read_block w s)
unfolding read_block
read_block-Keeps n w s h = ground arith

module _ (rt : Runtime) where
  store-Keeps : (n : ℕ) (m : Message) (s : Session) → left_in s ≤ n → Keeps n (store rt m s)
  unfolding store stored
  store-Keeps n m s h = ground arith

  take_arrival-Below :
      (n : ℕ) (w : Slice) (s : Session) (arrivals : List Arrival)
      → length arrivals ≤ n
      → Below n (take_arrival rt w s arrivals)
  unfolding take_arrival decoded
  take_arrival-Below n w s [] h = tt
  take_arrival-Below n w s (datagram addr bytes ∷ later) h = ground arith
  take_arrival-Below n w s (cancelled ∷ later) h = tt
  take_arrival-Below n w s (read_failed ∷ later) h = tt

  window_taken :
      (n : ℕ) (o : Option Slice) (s : Session) (arrivals : List Arrival)
      → length arrivals ≤ n
      → Below {A = ℕ} n (elim o [ none ↦ panic | some w ↦ take_arrival rt w s arrivals ])
  window_taken n none s arrivals h = tt
  window_taken n (some w) s arrivals h = take_arrival-Below n w s arrivals h

  receive_from-Below :
      (n : ℕ) (s : Session) (arrivals : List Arrival)
      → length arrivals ≤ n
      → Below n (receive_from rt s arrivals)
  unfolding receive_from
  receive_from-Below n s [] h = window_taken n (reslice (packet_size s) s.receive_buf) s [] h
  receive_from-Below n s (cancelled ∷ later) h = tt
  receive_from-Below n s (read_failed ∷ later) h =
      window_taken n (reslice (packet_size s) s.receive_buf) s (read_failed ∷ later) h
  receive_from-Below n s (datagram addr bytes ∷ later) h =
      window_taken n (reslice (packet_size s) s.receive_buf) s (datagram addr bytes ∷ later) h

  pub receive-Below : (n : ℕ) (s : Session) → left_in s ≤ n → Below n (receive rt s)
  unfolding receive
  receive-Below n s h = receive_from-Below n s s.destination.incoming h

  read_window-Keeps :
      (n : ℕ) (o : Option Slice) (s : Session)
      → left_in s ≤ n
      → Keeps {A = Unit {0}} n (elim o [ none ↦ panic | some w ↦ read_block w s ])
  read_window-Keeps n none s h = tt
  read_window-Keeps n (some w) s h = read_block-Keeps n w s h

  checked-Keeps :
      (n : ℕ) (b : Bool) (o p : Outcome (Unit {0}))
      → Keeps n o
      → Keeps n p
      → Keeps n (if b then o else p)
  checked-Keeps n true o p h k = h
  checked-Keeps n false o p h k = k

  pub read_file-Keeps : (n : ℕ) (s : Session) → left_in s ≤ n → Keeps n (read_file rt s)
  unfolding read_file
  read_file-Keeps n s h =
      checked-Keeps n (leb (len s.send_buf) data_preamble_length) (failed buffer_too_small s) _ h (
        >>=-Keeps n (store rt _ s) _ (store-Keeps n _ s h)
          (λ _ t k. read_window-Keeps n (reslice (packet_size t) t.send_buf) t k))
