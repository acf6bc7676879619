-- ===== src/Session/Opening/Buffers.antt =====
-- What becomes of the buffers of a new session.
use tftpcpd.Base.{ℕ, ◌+◌, ◌≤◌, not, ◌&&◌, ◌≡◌, refl, ◌∙◌, arith, ltb}
use tftpcpd.Wire.{Options}
use tftpcpd.Session.Slice.{make, capacity}
use tftpcpd.Session.State.{Connection, Session, done, Runtime, u16}
use tftpcpd.Session.Io.{receive}
use tftpcpd.Session.Io.Panics.{is_panic, is_cancelled, is_panic-receive}
use tftpcpd.Session.Options.{Lstat, update_options}
use tftpcpd.Session.Options.Laws.{IsNegotiated, update_options-IsNegotiated}
use tftpcpd.Session.Options.Buffers.{update_options-SameEnds}
use tftpcpd.Session.Opening.{new_tftp_session}

new_tftp_session-IsNegotiated : (c : Connection) → IsNegotiated (new_tftp_session c)
unfolding new_tftp_session
new_tftp_session-IsNegotiated c = record {
  size_low = omega arith;
  size_high = omega arith;
  timeout_low = omega arith;
  timeout_high = omega arith;
}

capacity-new_tftp_session : (c : Connection) → capacity ((new_tftp_session c).receive_buf) ≡ 516
unfolding new_tftp_session make
capacity-new_tftp_session c = refl

ltb_packet : (n : ℕ) → n ≤ 65464 → ltb 516 (u16 (n + 4)) ≡ ltb 512 n
ltb_packet n h = ground arith

module _ (rt : Runtime) (lstat : Lstat) where
  -- Where a new session negotiates its options without error, the next `Receive` panics exactly if
  -- the context is not found cancelled and the block size became more than 512: `ReceiveBuf` still
  -- has the room of a new session.
  pub is_panic-receive-update_options :
      (options : Options) (c : Connection) (t : Session)
      → update_options rt lstat options (new_tftp_session c) ≡ done tt t
      → is_panic (receive rt t) ≡ (not (is_cancelled c.incoming) && ltb 512 t.block_size)
  is_panic-receive-update_options options c t h =
      let i =
        update_options-IsNegotiated rt lstat options (new_tftp_session c) t
          (new_tftp_session-IsNegotiated c) h in
      let e = update_options-SameEnds rt lstat options (new_tftp_session c) t h in
      is_panic-receive rt t
      ∙ rw
          (e.connection, e.buffer, capacity-new_tftp_session c, ltb_packet t.block_size i.size_high)
          (unfold new_tftp_session in refl)
