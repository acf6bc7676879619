-- ===== src/Session/Requesting.antt =====
-- internal/session.go: the methods `ReadMessage` and `WriteMessage` of the session, with which a
-- client asks for a transfer.
pub mod Laws
use tftpcpd.Base.{ℕ, Bytes, Option, none, some, codes}
use tftpcpd.Wire.{Options, read_message, write_message}
use tftpcpd.Wire.Decode.{new_read_message, new_write_message}
use tftpcpd.Session.State.{Session, address_unresolved, Outcome, failed, ◌>>=◌, Runtime}
use tftpcpd.Session.Io.{store, send}

-- The mode that both requests carry.
abbrev pub client_mode : Bytes
client_mode = codes "octal"

module _ (rt : Runtime) where
  -- `session.ReadMessage`; the address is what `net.ResolveUDPAddr` gives, `none` an error.
  unfoldable pub request_read : Option ℕ → Bytes → Options → Session → Outcome (Unit {0})
  request_read none filename options s = failed address_unresolved s
  request_read (some addr) filename options s =
      store rt (read_message (new_read_message filename client_mode options)) s >>= λ _ t.
      send (some addr) (record t { filename = filename; options = options })

  -- `session.WriteMessage`
  unfoldable pub request_write : Option ℕ → Bytes → Options → Session → Outcome (Unit {0})
  request_write none filename options s = failed address_unresolved s
  request_write (some addr) filename options s =
      store rt (write_message (new_write_message filename client_mode options)) s >>= λ _ t.
      send (some addr) (record t { filename = filename; options = options })
