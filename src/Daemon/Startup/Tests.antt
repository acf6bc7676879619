-- ===== src/Daemon/Startup/Tests.antt =====
-- A start of the daemon on a table with an unfinished upload.
use tftpcpd.Base.{Bool, true, false, [], ◌∷◌, some, ◌≡◌, refl, codes, equal}
use tftpcpd.Session.Number.{format_int}
use tftpcpd.Session.Options.{path_of}
use tftpcpd.Files.Table.{
  global_select, global_delete, unfinished_select, unfinished_delete, zero_consumers,
}
use tftpcpd.Files.World.{World, call, commit, delete_files, remove_file}
use tftpcpd.Files.Startup.{database_init, clear_failed_uploads, delete_out_of_date_globally}
use tftpcpd.Files.Tests.{new_row, sqlite, two_versions}
use tftpcpd.Daemon.Signal.{new_normal_event}
use tftpcpd.Daemon.State.{System}
use tftpcpd.Daemon.Step.{bound, start}
use tftpcpd.CommandLine.{DaemonFlags, daemon_arguments, open_directory, daemon_process_flags}
use tftpcpd.Daemon.Startup.{Statement, stops, runs, Surroundings, server_init, boot}
use tftpcpd.Daemon.Startup.Booted.{IsBooted, boot-IsBooted}

abbrev flags : DaemonFlags
flags = record {
  debug = false;
  help = false;
  directory = codes ".";
  sqlite3_db = codes "tftpcpd.db";
  normal_log = [];
  debug_log = [];
  error_log = [];
  args = [];
}

abbrev around : (Statement → Bool) → Surroundings
around prepares = record {
  absolute = λ d. some (codes "/srv");
  opens = λ d. true;
  prepares = prepares;
  listens = λ address. bound address;
  files_open = true;
}

abbrev first_system : System
first_system =
    start (bound (codes "127.0.0.1:8173")) true (codes "tftpcpd.db")
      (new_normal_event (codes "CONFIG") (codes "Ready to serve as root directory: /srv") ∷ [])

abbrev first_world : World
first_world = record {
  rows = new_row ∷ [];
  disk = (codes "a.7", codes "hello world") ∷ [];
  refusals = [];
}

boot_run : boot sqlite (around (λ x. true)) flags two_versions ≡ runs first_system first_world
unfolding boot server_init daemon_process_flags open_directory daemon_arguments start database_init
    clear_failed_uploads delete_out_of_date_globally global_select global_delete unfinished_select
    unfinished_delete zero_consumers call commit delete_files remove_file path_of format_int equal
boot_run = refl

boot-IsBooted_example : IsBooted sqlite (around (λ x. true)) flags first_system first_world
boot-IsBooted_example =
    boot-IsBooted sqlite (around (λ x. true)) flags two_versions first_world first_system boot_run

-- No statement is prepared: exit code 4.
unprepared_run : boot sqlite (around (λ x. false)) flags two_versions ≡ stops 4 first_world
unfolding boot server_init daemon_process_flags open_directory daemon_arguments database_init
    clear_failed_uploads delete_out_of_date_globally global_select global_delete unfinished_select
    unfinished_delete zero_consumers call commit delete_files remove_file path_of format_int equal
unprepared_run = refl
