-- ===== src/Serve/Delivery.antt =====
-- An upload and a later download of the same file.
use tftpcpd.Base.{ℕ, ◌<◌, Bytes, List, ◌≡◌, ◌≢◌, ap, ◌∙◌, All}
use tftpcpd.Session.State.{Arrival, Session, done, Runtime}
use tftpcpd.Session.Transfer.{concat}
use tftpcpd.Session.Options.Laws.{IsNegotiated}
use tftpcpd.Files.Table.{Engine, IsEngine}
use tftpcpd.Files.World.{World}
use tftpcpd.Serve.{read_as_server_of, write_as_server_of}
use tftpcpd.Serve.Downloads.{Downloads, read_as_server_of-Downloads}
use tftpcpd.Serve.Uploads.{Uploads, write_as_server_of-Uploads}
use tftpcpd.Serve.Served.{write_as_server_of-Holds}

-- What the arrivals brought to the session `t` is what the session `u` sends.
pub record Delivers (rt : Runtime) (name : Bytes) (arrivals : List Arrival) (w : World)
    (t u : Session) : Type 0 where
  pub uploaded : Uploads rt name arrivals w t
  pub downloaded : Downloads (concat uploaded.blocks) u

module _ (rt : Runtime) (e : Engine) (law : IsEngine e) where
  -- Where the engine obeys IsEngine: if WriteAsServer returns no error, at a time after those at
  -- which the other versions of the file were complete, then another client uploads another file,
  -- however that ends, and then ReadAsServer of the first file returns no error, the last
  -- datagrams of that read are exactly the blocks of the bytes that the first client's messages
  -- brought: for each uint16 number from 1 on the body of the first data message that has it,
  -- where any other message before it is a block of a lesser number or a write request, as these
  -- arrived at WriteAsServer. The blocks were acknowledged there. Block sizes and timeouts of the
  -- three sessions are in range, and the column keeps the first name as it is.
  pub upload-Delivers :
      (now completed now_other completed_other : ℕ) (s t other r u : Session) (w : World)
      → IsNegotiated s
      → IsNegotiated other
      → IsNegotiated r
      → e.column s.filename ≡ s.filename
      → 0 < completed
      → All (λ q. q.filename ≡ s.filename → q.time_completed < completed) w.rows
      → (write_as_server_of rt e now completed s w).0 ≡ done tt t
      → s.filename ≢ e.column other.filename
      → r.filename ≡ s.filename
      → (read_as_server_of rt e r
          (write_as_server_of rt e now_other completed_other other
            (write_as_server_of rt e now completed s w).1).1).0
        ≡ done tt u
      → Delivers rt s.filename s.destination.incoming
          (write_as_server_of rt e now completed s w).1
          t
          u
  upload-Delivers now completed now_other completed_other s t other r u w n m k c positive late
        wrote apart name got =
      let up = write_as_server_of-Uploads rt e law now completed s t w n c positive late wrote in
      record {
        uploaded = up;
        downloaded =
            read_as_server_of-Downloads rt e law r u s.filename (concat up.blocks) _ k
              (ap e.column name ∙ c)
              (write_as_server_of-Holds rt e law now_other completed_other other s.filename
                (concat up.blocks) _ m apart up.holds)
              got;
      }
