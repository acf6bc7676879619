-- ===== src/Files/Methods.antt =====
-- internal/session.go: `Reserve`, `Release`, `Prepare`, `OverwriteSuccess` and
-- `OverwriteFailure`. Each transaction works on the rows as they were when it began. What
-- `time.Now` gives is an argument.
pub mod Atomic
pub mod Holds
pub mod Serves
pub mod Prepared
use tftpcpd.Base.{ℕ, Bytes, Bool, true, false, [], Option, none, some}
use tftpcpd.Session.State.{File, Session}
use tftpcpd.Session.Options.{path_of}
use tftpcpd.Files.Table.{
  FileModel, Table, Engine, reserve_select, reserve_update, release_update, obsolete_select,
  obsolete_delete, prepare_insert, failure_delete, success_update,
}
use tftpcpd.Files.World.{
  World, Task, ◌>>=◌, pure, refuse, gets, the, call, commit, create_file, open_file, close_file,
  path, delete_files,
}

-- A file that was opened, with its bytes.
abbrev pub opened : Bytes → File
opened bytes = record { unread = bytes; written = []; refuses = false }

-- The bytes that were written to the session's file.
abbrev pub written_of : Option File → Bytes
written_of none = []
written_of (some f) = f.written

module _ (e : Engine) where
  reserve_rows : Session → Table → Task (ℕ × Session)
  reserve_rows s rows = do
    r ← the (reserve_select e s.filename rows)
    _ ← call
    _ ← commit (reserve_update e s.filename rows)
    bytes ← open_file (path r)
    pure (r.time_started, record s { file = some (opened bytes) })

  -- `Reserve`: the time of the version that was reserved, and the session with its file.
  unfoldable pub reserve : Session → Task (ℕ × Session)
  unfolding reserve_rows
  reserve s = do _ ← call; _ ← call; rows ← gets (λ w. w.rows); reserve_rows s rows

  -- The transactions of `Release` and `OverwriteSuccess` after the update: the obsolete versions
  -- lose their files and then their rows.
  unfoldable pub clear_obsolete : Bytes → Table → Task (Unit {0})
  clear_obsolete name rows = do
    _ ← call
    _ ← delete_files (obsolete_select e name rows)
    _ ← call
    commit (obsolete_delete e name rows)

  release_rows : ℕ → Bytes → Table → Task (Unit {0})
  release_rows started name rows = clear_obsolete name (release_update e name started rows)

  -- What `Release` does once a file was opened.
  unfoldable pub release_file : ℕ → Bytes → Task (Unit {0})
  unfolding release_rows
  release_file started name = do
    _ ← call
    _ ← call
    rows ← gets (λ w. w.rows)
    release_rows started name rows

  -- `Release`; where the session has no file nothing was ever opened.
  unfoldable pub release : ℕ → Session → Task (Unit {0})
  release started s = elim s.file [ none ↦ pure tt | some f ↦ release_file started s.filename ]

  prepare_rows : ℕ → Session → Table → Task (ℕ × Session)
  prepare_rows now s rows = do
    inserted ← the (prepare_insert e s.filename now rows)
    _ ← commit inserted
    _ ← create_file (path_of s.filename now)
    pure (now, record s { file = some (opened []) })

  -- `Prepare`: the time of the new version, and the session with its file.
  unfoldable pub prepare : ℕ → Session → Task (ℕ × Session)
  unfolding prepare_rows
  prepare now s = do _ ← call; _ ← call; rows ← gets (λ w. w.rows); prepare_rows now s rows

  success_rows : ℕ → ℕ → Bytes → Table → Task (Unit {0})
  success_rows completed started name rows =
      clear_obsolete name (success_update e completed name started rows)

  -- `OverwriteSuccess`, at the time `completed`
  unfoldable pub overwrite_success : ℕ → ℕ → Session → Task (Unit {0})
  unfolding success_rows
  overwrite_success completed started s = do
    _ ← close_file (path_of s.filename started) (written_of s.file)
    _ ← call
    _ ← call
    rows ← gets (λ w. w.rows)
    success_rows completed started s.filename rows

  failure_rows : ℕ → Bytes → Table → Task (Unit {0})
  failure_rows started name rows = commit (failure_delete e name started rows)

  -- `OverwriteFailure`; `closed` says that `OverwriteSuccess` has closed the file before.
  unfoldable pub overwrite_failure : Bool → ℕ → Session → Task (Unit {0})
  unfolding failure_rows
  overwrite_failure true started s = pure tt
  overwrite_failure false started s = do
    _ ← close_file (path_of s.filename started) (written_of s.file)
    _ ← call
    _ ← call
    rows ← gets (λ w. w.rows)
    failure_rows started s.filename rows
