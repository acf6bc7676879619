-- ===== src/Session/Tests/Requests.antt =====
-- Runs of `Accept` and `UpdateOptions`, and the theorems about them at concrete inputs.
use tftpcpd.Base.{
  Bytes, true, [], ◌∷◌, ◌++◌, some, ◌≡◌, ◌≢◌, refl, arith, codes, to_lower, equal, file_of,
}
use tftpcpd.Wire.{Options}
use tftpcpd.Wire.Decode.{decoding, insert}
use tftpcpd.Session.State.{Session, Outcome, done, failed, panic, read_as_server}
use tftpcpd.Session.State.{write_as_server}
use tftpcpd.Wire.{read_message, write_message}
use tftpcpd.Wire.Decode.{new_read_message, new_write_message}
use tftpcpd.Wire.Decode.RoundTrip.{IsRequest}
use tftpcpd.Wire.Decode.OptionMap.{has_key}
use tftpcpd.Base.{not, ◌&&◌, ltb, lacks}
use tftpcpd.Session.Number.{parse_int, format_int}
use tftpcpd.Session.Options.{Lstat, update_options}
use tftpcpd.Session.Options.Laws.{
  IsNegotiated, unparsed, update_options-IsNegotiated, update_options-unparsed,
}
use tftpcpd.Session.Options.Keys.{keys, AreLower, keys-update_options}
use tftpcpd.Session.Opening.{new_tftp_session, accept}
use tftpcpd.Session.Opening.Laws.{IsAdmitted, accept-IsAdmitted}
use tftpcpd.Session.Io.{receive}
use tftpcpd.Session.Io.Panics.{is_panic, is_cancelled}
use tftpcpd.Session.Opening.Buffers.{is_panic-receive-update_options}
use tftpcpd.Session.Requesting.{client_mode, request_read, request_write}
use tftpcpd.Session.Requesting.Laws.{IsAnswered, request_read-IsAnswered, request_write-IsAnswered}
use tftpcpd.Session.Tests.{plain}

abbrev fresh : Session
fresh = new_tftp_session (record { incoming = []; sent = []; deliveries = [] })

-- A read request for "../a", in mode "octet".
abbrev opening_bytes : Bytes
opening_bytes = 0 ∷ 1 ∷ (codes "../a" ++ (0 ∷ (codes "OCTET" ++ (0 ∷ []))))

abbrev final_of {ℓ} : {A : Type ℓ} → Outcome A → Session → Session
final_of (done _ s) t = s
final_of (failed _ s) t = s
final_of _ t = t

abbrev admitted : Session
admitted = final_of (accept plain opening_bytes fresh) fresh

accept_opening : accept plain opening_bytes fresh ≡ done read_as_server admitted
unfolding accept decoding to_lower file_of equal new_tftp_session
accept_opening = refl

accept-IsAdmitted_example : IsAdmitted plain opening_bytes read_as_server fresh admitted
accept-IsAdmitted_example =
    accept-IsAdmitted plain opening_bytes read_as_server fresh admitted accept_opening

-- A served directory that holds one file of 300 bytes for any name.
abbrev served : Lstat
served name = some 300

abbrev asked : Options
asked =
    (codes "blksize", codes "1024")
    ∷ (codes "windowsize", codes "4")
    ∷ (codes "timeout", codes "3")
    ∷ (codes "tsize", codes "0")
    ∷ []

abbrev negotiated : Session
negotiated = final_of (update_options plain served asked admitted) admitted

asked_ends : update_options plain served asked admitted ≡ done tt negotiated
unfolding update_options accept decoding to_lower file_of equal new_tftp_session parse_int
    format_int insert
asked_ends = refl

asked_options :
    negotiated.options
    ≡ (codes "blksize", codes "1024")
      ∷ (codes "windowsize", codes "4")
      ∷ (codes "timeout", codes "3")
      ∷ (codes "tsize", codes "300")
      ∷ []
unfolding update_options accept decoding to_lower file_of equal new_tftp_session parse_int
    format_int insert
asked_options = refl

admitted-IsNegotiated : IsNegotiated admitted
unfolding accept decoding to_lower file_of equal new_tftp_session
admitted-IsNegotiated = record {
  size_low = omega arith;
  size_high = omega arith;
  timeout_low = omega arith;
  timeout_high = omega arith;
}

update_options-IsNegotiated_example : IsNegotiated negotiated
update_options-IsNegotiated_example =
    update_options-IsNegotiated plain served asked admitted negotiated admitted-IsNegotiated
      asked_ends

asked-AreLower : AreLower (λ s. s) asked
unfolding to_lower
asked-AreLower = (refl, (refl, (refl, (refl, tt))))

keys-update_options_example : keys negotiated.options ≡ keys asked
keys-update_options_example =
    keys-update_options plain served asked admitted negotiated asked-AreLower asked_ends

-- An option that no server has to know, with a value that is no number.
abbrev unknown : Options
unknown = (codes "x-note", codes "hi") ∷ []

unknown_panics : update_options plain served unknown fresh ≡ panic
unfolding update_options to_lower equal parse_int
unknown_panics = refl

unknown-unparsed : unparsed unknown ≡ true
unfolding unparsed parse_int
unknown-unparsed = refl

update_options-unparsed_example : update_options plain served unknown fresh ≢ done tt fresh
update_options-unparsed_example =
    update_options-unparsed plain served unknown fresh fresh unknown-unparsed

-- A request for blocks of 1024 bytes on a new session, before the first `Receive`.
abbrev large_blocks : Options
large_blocks = (codes "blksize", codes "1024") ∷ []

abbrev enlarged : Session
enlarged = final_of (update_options plain served large_blocks fresh) fresh

large_blocks_ends : update_options plain served large_blocks fresh ≡ done tt enlarged
unfolding update_options to_lower equal parse_int insert
large_blocks_ends = refl

is_panic-receive-update_options_example :
    is_panic (receive plain enlarged) ≡ (not (is_cancelled []) && ltb 512 enlarged.block_size)
is_panic-receive-update_options_example =
    is_panic-receive-update_options plain served large_blocks
      (record { incoming = []; sent = []; deliveries = [] }) enlarged large_blocks_ends

enlarged_panics : is_panic (receive plain enlarged) ≡ true
unfolding update_options to_lower equal parse_int insert new_tftp_session
enlarged_panics = is_panic-receive-update_options_example

asked-IsRequest : IsRequest (λ s. s) (file_of (codes "dir/boot.img")) client_mode asked
unfolding to_lower lacks has_key equal file_of
asked-IsRequest = record {
  filename_text = refl;
  filename_base = refl;
  mode_text = refl;
  mode_lower = refl;
  options_text = (
    refl,
    refl,
    refl,
    refl,
    (refl, refl, refl, refl, (refl, refl, refl, refl, (refl, refl, refl, refl, tt))),
  );
  long_enough = omega arith;
}

request_read-IsAnswered_example :
    IsAnswered plain
      (request_read plain (some 69) (codes "dir/boot.img") asked fresh)
      fresh
      fresh
      69
      read_as_server
      (file_of (codes "dir/boot.img"))
      (read_message (new_read_message (codes "dir/boot.img") client_mode asked))
unfolding new_tftp_session
request_read-IsAnswered_example =
    request_read-IsAnswered plain 69 (codes "dir/boot.img") asked fresh fresh asked-IsRequest refl

request_write-IsAnswered_example :
    IsAnswered plain
      (request_write plain (some 69) (codes "dir/boot.img") asked fresh)
      fresh
      fresh
      69
      write_as_server
      (file_of (codes "dir/boot.img"))
      (write_message (new_write_message (codes "dir/boot.img") client_mode asked))
unfolding new_tftp_session
request_write-IsAnswered_example =
    request_write-IsAnswered plain 69 (codes "dir/boot.img") asked fresh fresh asked-IsRequest refl
