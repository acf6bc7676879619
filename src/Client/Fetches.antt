-- ===== src/Client/Fetches.antt =====
-- What a client that downloads has at the end.
use tftpcpd.Base.{
  ℕ, ◌+◌, ◌≤◌, Bytes, Bool, true, false, List, [], ◌∷◌, ◌++◌, Option, none, some, ◌≡◌, ◌≢◌, refl,
  sym, ap, subst, ◌∙◌, ◌⊎◌, inl, inr, arith,
}
use tftpcpd.Wire.{
  Options, Message, DataMessage, OptionAcknowledgeMessage, data_message, option_acknowledge_message,
  read_message,
}
use tftpcpd.Wire.Decode.{new_read_message}
use tftpcpd.Session.State.{
  read_as_client, Arrival, data_preamble_length, u16, Connection, Session, Fault,
  unable_to_acknowledge, Outcome, done, failed, panic, out_of_fuel, ◌>>=◌, Runtime,
}
use tftpcpd.Session.Io.{receive, acknowledge, store}
use tftpcpd.Session.Io.Laws.{receive-done, send-done}
use tftpcpd.Session.Io.Blocks.{store_lem}
use tftpcpd.Session.SendLoop.Heard.{>>=-eq-done}
use tftpcpd.Session.ReceiveLoop.Written.{receive_data_loop-WritesFile}
use tftpcpd.Session.Brings.{Reads, Brings, held}
use tftpcpd.Session.Transfer.{AreSized, acks, unaddressed, concat}
use tftpcpd.Session.Options.{Lstat, update_options}
use tftpcpd.Session.Options.Buffers.{update_options-SameEnds}
use tftpcpd.Session.Options.Laws.{IsNegotiated}
use tftpcpd.Session.Opening.{new_tftp_session}
use tftpcpd.Session.Requesting.{request_read, client_mode}
use tftpcpd.Files.Methods.{opened}
use tftpcpd.Serve.{options_checked, blamed}
use tftpcpd.Serve.Kept.{
  same-IsPrepared, options-IsPrepared, acknowledge-IsSame, blamed-done, reported-ne-done,
  options_checked-done, acknowledge-incoming,
}
use tftpcpd.Client.{dialled, requested, without_file, answer_read, fetch, do_read_as_client}

-- The answer is neither a block nor an acknowledgement of options.
pub record IsStrange (m : Message) : Type 0 where
  pub no_block : (d : DataMessage) → m ≢ data_message d
  pub no_options : (o : OptionAcknowledgeMessage) → m ≢ option_acknowledge_message o

-- The block that an answer brings already.
abbrev begun : Message → List Message
begun (data_message d) = data_message d ∷ []
begun _ = []

module _ (rt : Runtime) where
  -- The file that was downloaded: the messages `first`, and those read from the front of
  -- `arrivals`, bring its blocks from number 1 on, and the blocks were acknowledged.
  pub record HasFile (first : List Message) (arrivals : List Arrival) (t : Session) : Type 0 where
    pub size : ℕ
    pub size_low : 8 ≤ size
    pub messages : List Message
    pub reads :
        Reads rt.map_lower
          (u16 (size + data_preamble_length))
          arrivals
          messages
          t.destination.incoming
    pub blocks : List Bytes
    pub brings : Brings 1 blocks (first ++ messages)
    pub sized : AreSized size blocks
    pub written : t.file ≡ some (record (opened []) { written = concat blocks })
    pub before : List (Option ℕ × Bytes)
    pub acknowledged : t.destination.sent ≡ before ++ unaddressed (acks 1 blocks)

  IsNegotiated-eq : (s t : Session) → t ≡ s → IsNegotiated s → IsNegotiated t
  IsNegotiated-eq s t e n = subst IsNegotiated (sym e) n

  request_read-IsNegotiated :
      (server : Option ℕ) (filename : Bytes) (options : Options) (s t : Session)
      → IsNegotiated s
      → request_read rt server filename options s ≡ done tt t
      → IsNegotiated t
  unfolding request_read
  request_read-IsNegotiated none filename options s t n h = absurd (ground arith)
  request_read-IsNegotiated (some addr) filename options s t n h =
      let m = read_message (new_read_message filename client_mode options) in
      let (_, u, stored, k) = >>=-eq-done (store rt m s) _ h in
      let is : record s { send_buf = _ } ≡ u =
        done-eq _ u (sym (store_lem rt m s (λ e. cc)) ∙ stored) in
      let (later, sent) = send-done (some addr) _ t k in
      let kept = IsNegotiated-eq _ u (sym is) (record {
        size_low = n.size_low;
        size_high = n.size_high;
        timeout_low = n.timeout_low;
        timeout_high = n.timeout_high;
      }) in
      IsNegotiated-eq _ t sent (record {
        size_low = kept.size_low;
        size_high = kept.size_high;
        timeout_low = kept.timeout_low;
        timeout_high = kept.timeout_high;
      })
    where
      done-eq : (x y : Session) → ◌≡◌ {A = Outcome (Unit {0})} (done tt x) (done tt y) → x ≡ y
      done-eq x y e = ground arith

  pub requested-done :
      (describe : Fault → Bytes) (o : Outcome (Unit {0})) (t : Session)
      → requested rt describe o ≡ done tt t
      → o ≡ done tt t
  unfolding requested
  requested-done describe (done a s) t h = h
  requested-done describe (failed f s) t h = absurd (reported-ne-done _ _ tt t h)
  requested-done describe panic t h = h
  requested-done describe out_of_fuel t h = h

  dialled-IsNegotiated :
      (dial : Option Connection) (s t : Session)
      → IsNegotiated s
      → dialled dial s ≡ done tt t
      → IsNegotiated t
  unfolding dialled
  dialled-IsNegotiated none s t n h = absurd (ground arith)
  dialled-IsNegotiated (some c) s t n h = record {
    size_low = ground arith;
    size_high = ground arith;
    timeout_low = ground arith;
    timeout_high = ground arith;
  }

  dialled-connection :
      (dial : Option Connection) (s t : Session)
      → dialled dial s ≡ done tt t
      → (c : Connection) × (dial ≡ some c) × (t.destination ≡ c)
  unfolding dialled
  dialled-connection none s t h = absurd (ground arith)
  dialled-connection (some c) s t h = (c, refl, ground arith)

  pub dialled-message :
      (dial : Option Connection) (s t : Session)
      → dialled dial s ≡ done tt t
      → t.most_recent_message ≡ s.most_recent_message
  unfolding dialled
  dialled-message none s t h = absurd (ground arith)
  dialled-message (some c) s t h = ground arith

  receive-IsNegotiated :
      (s t : Session) (a : ℕ) → IsNegotiated s → receive rt s ≡ done a t → IsNegotiated t
  receive-IsNegotiated s t a n h =
      let r = receive-done rt s t a h in
      IsNegotiated-eq _ t r.result (record {
        size_low = n.size_low;
        size_high = n.size_high;
        timeout_low = n.timeout_low;
        timeout_high = n.timeout_high;
      })

  held-append :
      (holding : Bool) (m : Message) (messages : List Message)
      → held holding m messages ≡ held holding m [] ++ messages
  held-append true m messages = refl
  held-append false m messages = refl

  fetch-HasFile :
      (creates holding : Bool) (s t : Session)
      → 8 ≤ s.block_size
      → fetch rt creates (some holding) s ≡ done tt t
      → HasFile (held holding s.most_recent_message []) s.destination.incoming t
  unfolding fetch without_file
  fetch-HasFile false holding s t low h = absurd (reported-ne-done _ _ tt t h)
  fetch-HasFile true holding s t low h =
      let f = opened [] in
      let u = record s {
        last_valid_message = s.most_recent_message;
        file = some f;
        block_number = 1;
      } in
      let w =
        receive_data_loop-WritesFile rt holding u t f
          (record { size_low = low; opened = refl; writable = refl }) h in
      record {
        size = s.block_size;
        size_low = low;
        messages = w.messages;
        reads = w.reads;
        blocks = w.blocks;
        brings =
            subst (Brings 1 w.blocks) (held-append holding s.most_recent_message w.messages)
              w.brings;
        sized = w.sized;
        written = w.written;
        before = s.destination.sent;
        acknowledged = w.acknowledged;
      }

  -- How a routine that returns no error went: it asked, it heard an answer, and then it has the
  -- file, or the answer was a strange one.
  pub record Asked (listening : Connection) (server : Option ℕ) (filename : Bytes)
      (options : Options) (dial : Option Connection) (t : Session) : Type 0 where
    pub asked : Session
    pub asks :
        request_read rt server filename options
          (record (new_tftp_session listening) { operation = read_as_client })
        ≡ done tt asked
    pub heard : Session
    pub address : ℕ
    pub hears : receive rt asked ≡ done address heard
    pub connection : Connection
    pub dials : dial ≡ some connection
    pub ends :
        IsStrange heard.most_recent_message
        ⊎ HasFile (begun heard.most_recent_message) connection.incoming t

  module _ (lstat : Lstat) where
    answered-HasFile :
        (creates : Bool) (m : Message) (s t : Session)
        → IsNegotiated s
        → (answer_read rt lstat m s >>= λ a v. fetch rt creates a v) ≡ done tt t
        → s.most_recent_message ≡ m
        → IsStrange m ⊎ HasFile (begun m) s.destination.incoming t
    unfolding answer_read
    answered-HasFile creates (option_acknowledge_message m) s t n h e =
        let (a, v, answer, k) =
          >>=-eq-done (answer_read rt lstat (option_acknowledge_message m) s) _ h in
        let (b, u, checked, acked) =
          >>=-eq-done (options_checked rt (update_options rt lstat m.options s)) _ answer in
        let (c, x, sent, ends) =
          >>=-eq-done (blamed unable_to_acknowledge (acknowledge rt u)) _ acked in
        let p = same-IsPrepared rt s u x (options-IsPrepared rt lstat m.options s u n checked) (
          acknowledge-IsSame rt u x
            (blamed-done unable_to_acknowledge (acknowledge rt u) x sent)) in
        let same = done-eq (some false) a x v ends in
        let options_done =
          options_checked-done rt (update_options rt lstat m.options s) u checked in
        let arrivals : v.destination.incoming ≡ s.destination.incoming =
          ap (λ (y : Session). y.destination.incoming) (sym same.1)
          ∙ (acknowledge-incoming rt u x
                (blamed-done unable_to_acknowledge (acknowledge rt u) x sent)
              ∙ ap (λ (d : Connection). d.incoming)
                  (update_options-SameEnds rt lstat m.options s u options_done).connection) in
        inr (
          subst (λ l. HasFile [] l t) arrivals
            (fetch-HasFile creates false v t
              (subst (λ (y : Session). 8 ≤ y.block_size) same.1 p.size_low)
              (ap (λ b. fetch rt creates b v) same.0 ∙ k)))
      where
        done-eq :
            (b c : Option Bool) (x y : Session)
            → ◌≡◌ {A = Outcome (Option Bool)} (done b x) (done c y)
            → (b ≡ c) × (x ≡ y)
        done-eq b c x y e = (ground arith, ground arith)
    answered-HasFile creates (data_message m) s t n h e = inr (
        subst (λ l. HasFile (l ∷ []) s.destination.incoming t) e
          (fetch-HasFile creates true s t n.size_low h))
    answered-HasFile creates _ s t n h e =
        inl (record { no_block = λ d e. cc; no_options = λ o e. cc })

    -- Where DoReadAsClient returns no error, it sent its request and heard an answer. If that is
    -- a block or an acknowledgement of options, the session's file holds exactly the bodies that
    -- the messages of the server bring, which are the answer, if that is a block, and then those
    -- at the front of what arrived on the connection that was dialled: for each uint16 number
    -- from 1 on the body of the first data message that has it, where any other message before it
    -- is a block of a lesser number or a write request. These blocks were acknowledged last, in
    -- order; all but the last are full and the last is short.
    pub do_read_as_client-Asked :
        (describe : Fault → Bytes) (listening : Connection) (server : Option ℕ) (filename : Bytes)
        (options : Options) (dial : Option Connection) (creates : Bool) (t : Session)
        → do_read_as_client rt lstat describe listening server filename options dial creates
          ≡ done tt t
        → Asked listening server filename options dial t
    unfolding do_read_as_client new_tftp_session
    do_read_as_client-Asked describe listening server filename options dial creates t h =
        let s = record (new_tftp_session listening) { operation = read_as_client } in
        let (_, asked, k1, h1) =
          >>=-eq-done (requested rt describe (request_read rt server filename options s)) _ h in
        let (a, heard, k2, h2) = >>=-eq-done (receive rt asked) _ h1 in
        let (_, u, k3, h3) = >>=-eq-done (dialled dial heard) _ h2 in
        let (c, dials, connected) = dialled-connection dial heard u k3 in
        let n0 : IsNegotiated s = record {
          size_low = omega arith;
          size_high = omega arith;
          timeout_low = omega arith;
          timeout_high = omega arith;
        } in
        let asks = requested-done describe (request_read rt server filename options s) asked k1 in
        let n1 = request_read-IsNegotiated server filename options s asked n0 asks in
        let n2 = receive-IsNegotiated asked heard a n1 k2 in
        let n3 = dialled-IsNegotiated dial heard u n2 k3 in
        record {
          asked = asked;
          asks = asks;
          heard = heard;
          address = a;
          hears = k2;
          connection = c;
          dials = dials;
          ends =
              subst
                (λ (d : Connection).
                  IsStrange heard.most_recent_message
                  ⊎ HasFile (begun heard.most_recent_message) d.incoming t)
                connected
                (subst (λ m. IsStrange m ⊎ HasFile (begun m) u.destination.incoming t)
                  (dialled-message dial heard u k3)
                  (answered-HasFile creates u.most_recent_message u t n3 h3 refl));
        }
