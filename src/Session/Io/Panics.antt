-- ===== src/Session/Io/Panics.antt =====
-- When `Receive` panics.
use tftpcpd.Base.{ℕ, Bool, true, false, ◌&&◌, not, List, [], ◌∷◌, none, some, ◌≡◌, refl, arith, ltb}
use tftpcpd.Session.Slice.{Slice, capacity, reslice}
use tftpcpd.Session.Slice.Laws.{window}
use tftpcpd.Session.State.{
  Arrival, cancelled, read_failed, datagram, Session, Outcome, panic, Runtime,
}
use tftpcpd.Session.Io.{receive, receive_from, take_arrival, decoded, packet_size}

abbrev pub is_panic {ℓ} : {A : Type ℓ} → Outcome A → Bool
is_panic panic = true
is_panic _ = false

-- Is the session's context found cancelled?
abbrev pub is_cancelled : List Arrival → Bool
is_cancelled (cancelled ∷ later) = true
is_cancelled _ = false

module _ (rt : Runtime) where
  is_panic-take_arrival :
      (w : Slice) (s : Session) (l : List Arrival) → is_panic (take_arrival rt w s l) ≡ false
  unfolding take_arrival decoded
  is_panic-take_arrival w s [] = refl
  is_panic-take_arrival w s (datagram addr bytes ∷ later) = ground arith
  is_panic-take_arrival w s (cancelled ∷ later) = refl
  is_panic-take_arrival w s (read_failed ∷ later) = refl

  is_panic-windowed :
      (n : ℕ) (b : Slice) (s : Session) (l : List Arrival)
      → is_panic (elim (reslice n b) [ none ↦ panic | some w ↦ take_arrival rt w s l ])
        ≡ ltb (capacity b) n
  unfolding reslice
  is_panic-windowed n b s l = ground (arith, is_panic-take_arrival (window n b) s l)

  -- `Receive` panics exactly if the context is not found cancelled and `ReceiveBuf` has not the
  -- room for a packet of the session's block size.
  pub is_panic-receive :
      (s : Session)
      → is_panic (receive rt s) ≡ (
          not (is_cancelled s.destination.incoming) && ltb (capacity s.receive_buf) (packet_size s))
  unfolding receive receive_from
  is_panic-receive s = go s.destination.incoming
    where
      go :
          (l : List Arrival)
          → is_panic (receive_from rt s l)
            ≡ (not (is_cancelled l) && ltb (capacity s.receive_buf) (packet_size s))
      go [] = is_panic-windowed (packet_size s) s.receive_buf s []
      go (cancelled ∷ later) = refl
      go (read_failed ∷ later) =
          is_panic-windowed (packet_size s) s.receive_buf s (read_failed ∷ later)
      go (datagram addr bytes ∷ later) =
          is_panic-windowed (packet_size s) s.receive_buf s (datagram addr bytes ∷ later)
