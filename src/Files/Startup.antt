-- ===== src/Files/Startup.antt =====
-- internal/database.go: `deleteOutOfDateGlobally`, and what `DatabaseInit` does on the table once
-- the database was opened.

pub mod Clean
pub mod Kept
use tftpcpd.Base.{Option, none, some}
use tftpcpd.Files.Table.{
  Table, Engine, global_select, global_delete, unfinished_select, unfinished_delete, zero_consumers,
}
use tftpcpd.Files.World.{World, Task, ◌>>=◌, pure, gets, call, commit, delete_files}

unfinished_rows : Table → Task (Unit {0})
unfinished_rows rows = do
  _ ← delete_files (unfinished_select rows)
  _ ← call
  _ ← call
  commit (zero_consumers (unfinished_delete rows))

-- The second transaction of `DatabaseInit`.
unfoldable pub clear_failed_uploads : Task (Unit {0})
unfolding unfinished_rows
clear_failed_uploads = do _ ← call; _ ← call; rows ← gets (λ w. w.rows); unfinished_rows rows

module _ (e : Engine) where
  global_rows : Table → Task (Unit {0})
  global_rows rows = do
    _ ← delete_files (global_select e rows)
    _ ← call
    commit (global_delete e rows)

  -- `deleteOutOfDateGlobally`. Where its last statement is refused, the transaction is rolled back
  -- and the commit that follows is refused.
  unfoldable pub delete_out_of_date_globally : Task (Unit {0})
  unfolding global_rows
  delete_out_of_date_globally = do _ ← call; _ ← call; rows ← gets (λ w. w.rows); global_rows rows

  -- `DatabaseInit` with the table there: the ping, the transaction that creates the table and its
  -- index where they are missing (begun, two statements, committed), the clearing, and the out-of-date files.
  unfoldable pub database_init : Task (Unit {0})
  database_init = do
    _ ← call
    _ ← call
    _ ← call
    _ ← call
    _ ← call
    _ ← clear_failed_uploads
    delete_out_of_date_globally
