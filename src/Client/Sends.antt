-- ===== src/Client/Sends.antt =====
-- What a client that uploads has sent at the end.
use tftpcpd.Base.{
  ℕ, ◌+◌, ◌≤◌, ◌<◌, Bytes, Bool, true, false, List, ◌∷◌, ◌++◌, Option, none, some, ◌≡◌, ◌≢◌, refl,
  sym, ap, subst, ◌∙◌, ◌⊎◌, inl, inr, arith, codes, file_of, length, length-append, ◌==◌,
  if◌then◌else◌,
}
use tftpcpd.Wire.{
  Options, Message, AcknowledgeMessage, OptionAcknowledgeMessage, acknowledge_message,
  option_acknowledge_message, write_message,
}
use tftpcpd.Wire.Decode.{new_write_message}
use tftpcpd.Wire.Encode.Layout.{layout, option_bytes}
use tftpcpd.Session.Slice.{Slice, len, capacity, make}
use tftpcpd.Session.State.{
  write_as_client, Connection, Session, Fault, u16, data_preamble_length, Outcome, done, failed,
  panic, out_of_fuel, ◌>>=◌, Runtime,
}
use tftpcpd.Session.Io.{receive, report_error, send}
use tftpcpd.Session.Io.Laws.{receive-done}
use tftpcpd.Session.Io.Blocks.{store_lem}
use tftpcpd.Session.Io.Room.{
  Leaves, Fits, Fits-connection, overwrite-Fits, send-Leaves, report_error-Leaves, receive-room,
}
use tftpcpd.Session.SendLoop.Heard.{>>=-eq-done}
use tftpcpd.Session.SendLoop.Room.{send_data_loop-room}
use tftpcpd.Session.SendLoop.Sent.{send_data_loop-SendsFile}
use tftpcpd.Session.Transfer.{Blocks, packets, unaddressed}
use tftpcpd.Session.Options.{Lstat, update_options}
use tftpcpd.Session.Options.Laws.{update_options-IsNegotiated}
use tftpcpd.Session.Options.Buffers.{update_options-SameEnds}
use tftpcpd.Session.Opening.{new_tftp_session}
use tftpcpd.Session.Requesting.{request_write, client_mode}
use tftpcpd.Files.Methods.{opened}
use tftpcpd.Serve.{options_checked, error_code_undefined}
use tftpcpd.Serve.Kept.{options_checked-done, reported-ne-done}
use tftpcpd.Client.Fetches.{requested-done, dialled-message}
use tftpcpd.Client.{
  dialled, requested, whatever, without_file, answer_write, put, do_write_as_client,
}

-- The file's blocks were sent, numbered from 1 on.
pub record HasSent (bytes : Bytes) (t : Session) : Type 0 where
  pub size : ℕ
  pub size_low : 8 ≤ size
  pub size_high : size ≤ 512
  pub blocks : List Bytes
  pub divides : Blocks size bytes blocks
  pub before : List (Option ℕ × Bytes)
  pub sent : t.destination.sent ≡ before ++ unaddressed (packets 1 blocks)

-- The answer is neither an acknowledgement of a block nor one of options.
pub record IsForeign (m : Message) : Type 0 where
  pub no_block : (a : AcknowledgeMessage) → m ≢ acknowledge_message a
  pub no_options : (o : OptionAcknowledgeMessage) → m ≢ option_acknowledge_message o

-- The answer was a foreign one, or the file was there and its blocks were sent.
abbrev pub Ends : Option Bytes → Message → Session → Type 0
Ends file m t = IsForeign m ⊎ ((bytes : Bytes) × (file ≡ some bytes) × HasSent bytes t)

new_tftp_session-Fits :
    (c : Connection) → Fits (record (new_tftp_session c) { operation = write_as_client })
unfolding new_tftp_session make
new_tftp_session-Fits c = record {
  size_low = omega arith;
  size_high = omega arith;
  timeout_low = omega arith;
  timeout_high = omega arith;
  used = omega arith;
  room = omega arith;
  hears = refl;
}

dialled-Fits :
    (dial : Option Connection) (s t : Session) → Fits s → dialled dial s ≡ done tt t → Fits t
unfolding dialled
dialled-Fits none s t f h = absurd (ground arith)
dialled-Fits (some c) s t f h =
    let same : record s { destination = c } ≡ t = ground arith in
    subst Fits same (Fits-connection s c f)

small_size : (n : ℕ) → n ≤ 65464 → u16 (n + data_preamble_length) ≤ 516 → n ≤ 512
small_size n h k = ground arith

done-eq :
    (b c : Bool) (x y : Session) → ◌≡◌ {A = Outcome Bool} (done b x) (done c y) → (b ≡ c) × (x ≡ y)
done-eq b c x y e = (ground arith, ground arith)

long_request :
    (name rest : Bytes) → 4 < length (0 ∷ 2 ∷ (name ++ (0 ∷ (client_mode ++ (0 ∷ rest)))))
long_request name rest =
    let outer = length-append name (0 ∷ (client_mode ++ (0 ∷ rest))) in
    let inner = length-append client_mode (0 ∷ rest) in omega (arith, outer, inner)

module _ (rt : Runtime) where
  request_write-Leaves :
      (server : Option ℕ) (filename : Bytes) (options : Options) (s : Session)
      → Fits s
      → Leaves Fits (request_write rt server filename options s)
  unfolding request_write new_write_message
  request_write-Leaves none filename options s f = f
  request_write-Leaves (some addr) filename options s f =
      let m = write_message (new_write_message filename client_mode options) in
      let long : 4 < length (layout rt.map_lower m) =
        long_request (file_of filename) (option_bytes rt.map_lower options) in
      let g = overwrite-Fits rt (layout rt.map_lower m) s long f in
      subst (Leaves Fits)
        (ap
          (λ o. o >>= λ _ t. send (some addr) (record t { filename = filename; options = options }))
          (sym (store_lem rt m s (λ e. cc))))
        (send-Leaves rt (some addr) _ (record {
          size_low = g.size_low;
          size_high = g.size_high;
          timeout_low = g.timeout_low;
          timeout_high = g.timeout_high;
          used = g.used;
          room = g.room;
          hears = g.hears;
        }))

  receive-Fits : (s t : Session) (a : ℕ) → Fits s → receive rt s ≡ done a t → Fits t
  receive-Fits s t a f h =
      let r = receive-done rt s t a h in
      let room = (receive-room rt s t a h).1 in
      subst Fits (sym r.result) (record {
        size_low = f.size_low;
        size_high = f.size_high;
        timeout_low = f.timeout_low;
        timeout_high = f.timeout_high;
        used = f.used;
        room = f.room;
        hears = sym (ap (λ (x : Session). capacity x.receive_buf) r.result) ∙ room ∙ f.hears;
      })

  put-HasSent :
      (file : Option Bytes) (s t : Session)
      → Fits s
      → put rt file true s ≡ done tt t
      → (bytes : Bytes) × (file ≡ some bytes) × HasSent bytes t
  unfolding put without_file
  put-HasSent none s t f h = absurd (reported-ne-done _ _ tt t h)
  put-HasSent (some bytes) s t f h =
      let u = record s {
        last_valid_message = s.most_recent_message;
        file = some (opened bytes);
        block_number = 1;
      } in
      let fits = send_data_loop-room rt u t h in
      let hears = f.hears in
      let high = f.size_high in
      let small : s.block_size ≤ 512 = small_size s.block_size high (omega (arith, fits, hears)) in
      let room = f.room in
      let sends =
        send_data_loop-SendsFile rt false u t (opened bytes)
          (record {
            size_low = f.size_low;
            size_high = f.size_high;
            buffer_used = f.used;
            buffer_room = omega (arith, room, small);
            opened = refl;
            readable = refl;
          })
          h in
      (
        bytes,
        refl,
        record {
          size = s.block_size;
          size_low = f.size_low;
          size_high = small;
          blocks = sends.blocks;
          divides = sends.divides;
          before = s.destination.sent;
          sent = sends.sent;
        },
      )

  -- How an upload that returns no error went: the client asked, it heard an answer, and then it sent
  -- the file, or the answer was a foreign one.
  pub record Sends (listening : Connection) (server : Option ℕ) (filename : Bytes)
      (options : Options) (file : Option Bytes) (t : Session) : Type 0 where
    pub asked : Session
    pub asks :
        request_write rt server filename options
          (record (new_tftp_session listening) { operation = write_as_client })
        ≡ done tt asked
    pub heard : Session
    pub address : ℕ
    pub hears : receive rt asked ≡ done address heard
    pub ends : Ends file heard.most_recent_message t

  module _ (lstat : Lstat) where
    options-Fits :
        (options : Options) (s t : Session)
        → Fits s
        → options_checked rt (update_options rt lstat options s) ≡ done tt t
        → Fits t
    options-Fits options s t f h =
        let given = options_checked-done rt (update_options rt lstat options s) t h in
        let ends = update_options-SameEnds rt lstat options s t given in
        let n =
          update_options-IsNegotiated rt lstat options s t
            (record {
              size_low = f.size_low;
              size_high = f.size_high;
              timeout_low = f.timeout_low;
              timeout_high = f.timeout_high;
            })
            given in
        record {
          size_low = n.size_low;
          size_high = n.size_high;
          timeout_low = n.timeout_low;
          timeout_high = n.timeout_high;
          used = subst (λ (b : Slice). 4 < len b) (sym ends.send_buffer) f.used;
          room = subst (λ (b : Slice). 516 ≤ capacity b) (sym ends.send_buffer) f.room;
          hears = ap capacity ends.buffer ∙ f.hears;
        }

    whatever-Fits :
        (b c : Bool) (o : Outcome (Unit {0})) (t : Session)
        → Leaves Fits o
        → whatever b o ≡ done c t
        → (c ≡ b) × Fits t
    unfolding whatever
    whatever-Fits b c (done a s) t f h = (ground arith, subst Fits (ground arith) f)
    whatever-Fits b c (failed e s) t f h = (ground arith, subst Fits (ground arith) f)
    whatever-Fits b c panic t f h = absurd (ground arith)
    whatever-Fits b c out_of_fuel t f h = absurd (ground arith)

    answered-HasSent :
        (file : Option Bytes) (m : Message) (s t : Session)
        → Fits s
        → (answer_write rt lstat m s >>= λ a v. put rt file a v) ≡ done tt t
        → Ends file m t
    unfolding answer_write
    answered-HasSent file (option_acknowledge_message m) s t f h =
        let (a, v, answer, k) =
          >>=-eq-done (answer_write rt lstat (option_acknowledge_message m) s) _ h in
        let (_, u, checked, goes_on) =
          >>=-eq-done (options_checked rt (update_options rt lstat m.options s)) _ answer in
        let fits = options-Fits m.options s u f checked in
        let (is, same) = done-eq true a u v goes_on in
        inr (put-HasSent file v t (subst Fits same fits) (ap (λ b. put rt file b v) is ∙ k))
    answered-HasSent file (acknowledge_message m) s t f h =
        let (a, v, answer, k) = >>=-eq-done (answer_write rt lstat (acknowledge_message m) s) _ h in
        let (is, fits) = judged (m.block_number == 0) a v answer in
        inr (put-HasSent file v t fits (ap (λ b. put rt file b v) (sym is) ∙ k))
      where
        judged :
            (b a : Bool) (v : Session)
            → (if b
                then done true s
                else whatever true (
                    report_error rt error_code_undefined
                      (codes "Server did not properly acknowledge client write request")
                      s))
              ≡ done a v
            → (a ≡ true) × Fits v
        judged true a v e = (ground arith, subst Fits (ground arith) f)
        judged false a v e =
            whatever-Fits true a
              (report_error rt error_code_undefined
                (codes "Server did not properly acknowledge client write request") s)
              v (report_error-Leaves rt error_code_undefined _ s f) e
    answered-HasSent file _ s t f h = inl (record { no_block = λ a e. cc; no_options = λ o e. cc })

    -- Where DoWriteAsClient returns no error, it sent its request and heard an answer; if that is
    -- an acknowledgement of a block or of options, the file was opened, and the last datagrams
    -- that were sent are exactly its blocks, in order and each once, with consecutive uint16
    -- numbers from 1 on and a block size between 8 and 512.
    pub do_write_as_client-Sends :
        (describe : Fault → Bytes) (listening : Connection) (server : Option ℕ) (filename : Bytes)
        (options : Options) (dial : Option Connection) (file : Option Bytes) (t : Session)
        → do_write_as_client rt lstat describe listening server filename options dial file
          ≡ done tt t
        → Sends listening server filename options file t
    unfolding do_write_as_client
    do_write_as_client-Sends describe listening server filename options dial file t h =
        let s = record (new_tftp_session listening) { operation = write_as_client } in
        let (_, asked, k1, h1) =
          >>=-eq-done (requested rt describe (request_write rt server filename options s)) _ h in
        let (a, heard, k2, h2) = >>=-eq-done (receive rt asked) _ h1 in
        let (_, u, k3, h3) = >>=-eq-done (dialled dial heard) _ h2 in
        let asks =
          requested-done rt describe (request_write rt server filename options s) asked k1 in
        let f1 : Fits asked =
          subst (Leaves Fits) asks
            (request_write-Leaves server filename options s (new_tftp_session-Fits listening)) in
        let f2 = receive-Fits asked heard a f1 k2 in
        let f3 = dialled-Fits dial heard u f2 k3 in
        record {
          asked = asked;
          asks = asks;
          heard = heard;
          address = a;
          hears = k2;
          ends =
              subst (λ m. Ends file m t) (dialled-message rt dial heard u k3)
                (answered-HasSent file u.most_recent_message u t f3 h3);
        }
