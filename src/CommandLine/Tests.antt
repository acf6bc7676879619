-- ===== src/CommandLine/Tests.antt =====
-- Runs of `processFlags`, and the theorem about it at a concrete input.
use mathlib.Core.Logic.{◌↔◌}
use tftpcpd.Base.{
  Bytes, true, false, List, [], ◌∷◌, ◌++◌, none, some, ◌≡◌, refl, codes, lacks, equal,
}
use tftpcpd.Daemon.Signal.{new_normal_event}
use tftpcpd.CommandLine.{
  Config, no_config, exits, configured, ClientFlags, DaemonFlags, client_arguments,
  client_process_flags, open_directory, daemon_arguments, daemon_process_flags,
}
use tftpcpd.CommandLine.Target.{client_process_flags-Download}

abbrev download_flags : Bytes → ClientFlags
download_flags arg = record { debug = false; help = false; write = []; args = arg ∷ [] }

client_process_flags-Download_example :
    (client_process_flags (download_flags (codes "10.0.0.1:69/a.txt")) no_config
      ≡ configured
          (record no_config {
            debug = false;
            write = [];
            address = codes "10.0.0.1:69";
            filename = codes "a.txt";
          })
          [])
    ↔ (((codes "10.0.0.1:69/a.txt" ∷ []) ≡ (codes "10.0.0.1:69" ++ (b'/' ∷ codes "a.txt")) ∷ [])
        × (lacks b'/' (codes "10.0.0.1:69") ≡ true)
        × (lacks b'/' (codes "a.txt") ≡ true))
client_process_flags-Download_example =
    client_process_flags-Download (download_flags (codes "10.0.0.1:69/a.txt")) no_config
      (codes "10.0.0.1:69") (codes "a.txt") refl refl

-- A file in a directory, or no file at all: the usage is printed.
nested_exits :
    client_process_flags (download_flags (codes "10.0.0.1:69/a/b")) no_config ≡ exits 1 none
unfolding client_process_flags client_arguments equal
nested_exits = refl

no_file_exits : client_process_flags (download_flags (codes "10.0.0.1:69")) no_config ≡ exits 1 none
unfolding client_process_flags client_arguments equal
no_file_exits = refl

abbrev daemon_flags : List Bytes → DaemonFlags
daemon_flags args = record {
  debug = false;
  help = false;
  directory = codes ".";
  sqlite3_db = codes "tftpcpd.db";
  normal_log = [];
  debug_log = [];
  error_log = [];
  args = args;
}

abbrev served_config : Config
served_config = record no_config { directory = codes "/srv"; sqlite3_db_path = codes "tftpcpd.db" }

default_address :
    daemon_process_flags (λ d. some (codes "/srv")) (λ d. true) (daemon_flags []) no_config
    ≡ configured
        (record served_config { address = codes "127.0.0.1:8173" })
        (new_normal_event (codes "CONFIG") (codes "Ready to serve as root directory: /srv") ∷ [])
unfolding daemon_process_flags open_directory daemon_arguments
default_address = refl
