-- ===== src/Files/Tests/Start.antt =====
-- The start of the daemon on a table with an old version, a newer one and an unfinished upload.
use tftpcpd.Base.{[], ◌∷◌, some, ◌≡◌, refl, codes, equal}
use tftpcpd.Session.Number.{format_int}
use tftpcpd.Session.Options.{path_of}
use tftpcpd.Files.Table.{
  global_select, global_delete, unfinished_select, unfinished_delete, zero_consumers,
}
use tftpcpd.Files.World.{World, call, commit, delete_files, remove_file}
use tftpcpd.Files.Startup.{database_init, clear_failed_uploads, delete_out_of_date_globally}
use tftpcpd.Files.Tests.{new_row, sqlite, two_versions}

abbrev started : World
started = record {
  rows = new_row ∷ [];
  disk = (codes "a.7", codes "hello world") ∷ [];
  refusals = [];
}

database_init_run : database_init sqlite two_versions ≡ (some tt, started)
unfolding database_init clear_failed_uploads delete_out_of_date_globally global_select global_delete
    unfinished_select unfinished_delete zero_consumers call commit delete_files remove_file path_of
    format_int equal
database_init_run = refl
