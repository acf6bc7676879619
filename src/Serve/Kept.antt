-- ===== src/Serve/Kept.antt =====
-- What the steps before the first block keep of the session.
use tftpcpd.Base.{
  ℕ, ◌≤◌, Bool, true, false, none, ◌≡◌, ◌≢◌, refl, sym, ap, subst, ◌∙◌, arith, ◌==◌, if◌then◌else◌,
}
use tftpcpd.Wire.{Options, option_acknowledge_message, opcode_option_acknowledge_byte}
use tftpcpd.Session.State.{
  Session, Fault, unable_to_acknowledge, Outcome, done, failed, panic, out_of_fuel, Runtime,
}
use tftpcpd.Session.Io.{receive, acknowledge, acknowledge_options, store}
use tftpcpd.Session.Io.Laws.{written_to, send-done, receive-done}
use tftpcpd.Session.Io.Blocks.{store_lem, acknowledge-Acknowledges}
use tftpcpd.Session.SendLoop.Heard.{>>=-eq-done}
use tftpcpd.Session.Options.{Lstat, update_options}
use tftpcpd.Session.Options.Laws.{IsNegotiated, update_options-IsNegotiated}
use tftpcpd.Session.Options.Buffers.{update_options-SameEnds}
use tftpcpd.Session.Opening.{last_sent_message_type}
use tftpcpd.Serve.{
  reported, blamed, is_none, options_checked, judge_option_ack, await_option_ack, open_read,
  open_write, resized,
}

-- The same file, name and block size.
pub record IsSame (s t : Session) : Type 0 where
  pub file : t.file ≡ s.file
  pub filename : t.filename ≡ s.filename
  pub block_size : t.block_size ≡ s.block_size

IsSame-refl : (s : Session) → IsSame s s
IsSame-refl s = record { file = refl; filename = refl; block_size = refl }

pub IsSame-trans : {s t u : Session} → IsSame s t → IsSame t u → IsSame s u
IsSame-trans h k = record {
  file = k.file ∙ h.file;
  filename = k.filename ∙ h.filename;
  block_size = k.block_size ∙ h.block_size;
}

IsSame-eq : (s t u : Session) → t ≡ u → IsSame s u → IsSame s t
IsSame-eq s t u e h = subst (IsSame s) (sym e) h

pub reported-ne-done :
    (fault : Fault) (o : Outcome (Unit {0})) (a : Unit {0}) (t : Session)
    → reported fault o ≢ done a t
reported-ne-done fault (done _ s) a t h = ground arith
reported-ne-done fault (failed _ s) a t h = ground arith
reported-ne-done fault panic a t h = ground arith
reported-ne-done fault out_of_fuel a t h = ground arith

pub blamed-done :
    (fault : Fault) (o : Outcome (Unit {0})) (t : Session)
    → blamed fault o ≡ done tt t
    → o ≡ done tt t
blamed-done fault (done _ s) t h = h
blamed-done fault (failed _ s) t h = absurd (ground arith)
blamed-done fault panic t h = h
blamed-done fault out_of_fuel t h = h

done-eq : (x y : Session) → ◌≡◌ {A = Outcome (Unit {0})} (done tt x) (done tt y) → x ≡ y
done-eq x y e = ground arith

sent_of :
    (b : Bool) (f : Fault) (x : Session) (o : Outcome (Unit {0})) (y : Session)
    → (if b then failed f x else o) ≡ done tt y
    → o ≡ done tt y
sent_of true f x o y e = absurd (ground arith)
sent_of false f x o y e = e

module _ (rt : Runtime) where
  pub options_checked-done :
      (o : Outcome (Unit {0})) (t : Session) → options_checked rt o ≡ done tt t → o ≡ done tt t
  unfolding options_checked
  options_checked-done (done _ s) t h = h
  options_checked-done (failed f s) t h = absurd (reported-ne-done _ _ tt t h)
  options_checked-done panic t h = h
  options_checked-done out_of_fuel t h = h

  pub acknowledge-IsSame : (s t : Session) → acknowledge rt s ≡ done tt t → IsSame s t
  acknowledge-IsSame s t h =
      let a = acknowledge-Acknowledges rt s t h in
      IsSame-eq s t _ a.result (record { file = refl; filename = refl; block_size = refl })

  acknowledge_options-IsSame : (s t : Session) → acknowledge_options rt s ≡ done tt t → IsSame s t
  unfolding acknowledge_options
  acknowledge_options-IsSame s t h =
      let m = option_acknowledge_message (record { options = s.options }) in
      let (_, u, stored, k) = >>=-eq-done (store rt m s) _ h in
      let is : record s { send_buf = _ } ≡ u =
        done-eq _ u (sym (store_lem rt m s (λ e. cc)) ∙ stored) in
      let (later, sent) = send-done none u t (sent_of _ _ _ _ t k) in
      IsSame-eq s t _ sent (
        IsSame-trans
          (subst (IsSame s) is (record { file = refl; filename = refl; block_size = refl }))
          (record { file = refl; filename = refl; block_size = refl }))

  pub acknowledge-incoming :
      (s t : Session)
      → acknowledge rt s ≡ done tt t
      → t.destination.incoming ≡ s.destination.incoming
  acknowledge-incoming s t h =
      ap (λ (x : Session). x.destination.incoming) (acknowledge-Acknowledges rt s t h).result

  pub acknowledge_options-incoming :
      (s t : Session)
      → acknowledge_options rt s ≡ done tt t
      → t.destination.incoming ≡ s.destination.incoming
  unfolding acknowledge_options
  acknowledge_options-incoming s t h =
      let m = option_acknowledge_message (record { options = s.options }) in
      let (_, u, stored, k) = >>=-eq-done (store rt m s) _ h in
      let is : record s { send_buf = _ } ≡ u =
        done-eq _ u (sym (store_lem rt m s (λ e. cc)) ∙ stored) in
      let (later, sent) = send-done none u t (sent_of _ _ _ _ t k) in
      ap (λ (x : Session). x.destination.incoming)
        (sent ∙ ap (λ x. written_to x none later) (sym is))

  receive-IsSame : (s t : Session) (a : ℕ) → receive rt s ≡ done a t → IsSame s t
  receive-IsSame s t a h =
      let r = receive-done rt s t a h in
      IsSame-eq s t _ r.result (record { file = refl; filename = refl; block_size = refl })

  judge_option_ack-IsSame : (s t : Session) → judge_option_ack rt s ≡ done tt t → IsSame s t
  unfolding judge_option_ack
  judge_option_ack-IsSame s t h = record {
    file = ground arith;
    filename = ground arith;
    block_size = ground arith;
  }

  await_option_ack-IsSame : (s t : Session) → await_option_ack rt s ≡ done tt t → IsSame s t
  unfolding await_option_ack
  await_option_ack-IsSame s t h =
      let (a, u, got, k) = >>=-eq-done (receive rt _) _ h in
      IsSame-trans
        (IsSame-trans (record { file = refl; filename = refl; block_size = refl })
          (receive-IsSame _ u a got))
        (judge_option_ack-IsSame u t k)

  -- What is left before the first block: the same file and name, and a block size in range.
  pub record IsPrepared (s t : Session) : Type 0 where
    pub file : t.file ≡ s.file
    pub filename : t.filename ≡ s.filename
    pub size_low : 8 ≤ t.block_size
    pub size_high : t.block_size ≤ 65464

  pub same-IsPrepared : (s t u : Session) → IsPrepared s t → IsSame t u → IsPrepared s u
  same-IsPrepared s t u p h = record {
    file = h.file ∙ p.file;
    filename = h.filename ∙ p.filename;
    size_low = omega (arith, p.size_low, h.block_size);
    size_high = omega (arith, p.size_high, h.block_size);
  }

  module _ (lstat : Lstat) where
    pub options-IsPrepared :
        (options : Options) (s t : Session)
        → IsNegotiated s
        → options_checked rt (update_options rt lstat options s) ≡ done tt t
        → IsPrepared s t
    options-IsPrepared options s t n h =
        let done_options = options_checked-done (update_options rt lstat options s) t h in
        let ends = update_options-SameEnds rt lstat options s t done_options in
        let m = update_options-IsNegotiated rt lstat options s t n done_options in
        record {
          file = ends.file;
          filename = ends.filename;
          size_low = m.size_low;
          size_high = m.size_high;
        }

    answered-IsSame :
        (b : Bool) (o : Outcome (Unit {0})) (s t : Session)
        → (o ≡ done tt t → IsSame s t)
        → (if b then done tt s else blamed unable_to_acknowledge o) ≡ done tt t
        → IsSame s t
    answered-IsSame true o s t k h = IsSame-eq s t s (sym (done-eq s t h)) (IsSame-refl s)
    answered-IsSame false o s t k h = k (blamed-done unable_to_acknowledge o t h)

    awaited-IsSame :
        (b : Bool) (s t : Session)
        → (if b then await_option_ack rt s else done tt s) ≡ done tt t
        → IsSame s t
    awaited-IsSame true s t h = await_option_ack-IsSame s t h
    awaited-IsSame false s t h = IsSame-eq s t s (sym (done-eq s t h)) (IsSame-refl s)

    pub open_read-IsPrepared :
        (options : Options) (s t : Session)
        → IsNegotiated s
        → open_read rt lstat options s ≡ done tt t
        → IsPrepared s t
    unfolding open_read
    open_read-IsPrepared options s t n h =
        let (_, u, opened, answered) =
          >>=-eq-done (options_checked rt (update_options rt lstat options s)) _ h in
        let (_, v, j, k) = >>=-eq-done _ _ answered in
        same-IsPrepared s v t
          (same-IsPrepared s u v (options-IsPrepared options s u n opened) (
            answered-IsSame (is_none u.options) (acknowledge_options rt u) u v
              (acknowledge_options-IsSame u v) j))
          (awaited-IsSame (last_sent_message_type v == opcode_option_acknowledge_byte) v t k)

    pub open_write-IsPrepared :
        (options : Options) (s t : Session)
        → IsNegotiated s
        → open_write rt lstat options s ≡ done tt t
        → IsPrepared s t
    unfolding open_write resized
    open_write-IsPrepared options s t n h =
        let (_, u, opened, answered) =
          >>=-eq-done (options_checked rt (update_options rt lstat options s)) _ h in
        let (_, v, j, k) = >>=-eq-done _ _ answered in
        let acked = blamed-done unable_to_acknowledge _ v j in
        same-IsPrepared s v t
          (same-IsPrepared s u v (options-IsPrepared options s u n opened) (
            IsSame-trans (record { file = refl; filename = refl; block_size = refl })
              (answer (is_none u.options) (record u { block_number = 0 }) v acked)))
          (record { file = ground arith; filename = ground arith; block_size = ground arith })
      where
        answer :
            (b : Bool) (x y : Session)
            → (if b then acknowledge rt x else acknowledge_options rt x) ≡ done tt y
            → IsSame x y
        answer true x y e = acknowledge-IsSame x y e
        answer false x y e = acknowledge_options-IsSame x y e
