-- ===== src/CommandLine.antt =====
-- `processFlags` of cmd/tftpcpd/main.go and of cmd/tftpcpc/main.go, from what `flag.Parse` gives.
pub mod Target
mod Tests
use tftpcpd.Base.{
  ℕ, Bytes, Bool, true, false, List, [], ◌∷◌, ◌++◌, Option, none, some, codes, equal, ◌==◌,
  if◌then◌else◌,
}
use tftpcpd.Daemon.Signal.{LogEvent, new_normal_event, new_error_event}

-- `Config`, without what only the tests set; `directory` is the path of the open root.
pub record Config : Type 0 where
  pub debug : Bool
  pub directory : Bytes
  pub sqlite3_db_path : Bytes
  pub normal_log_file : Bytes
  pub debug_log_file : Bytes
  pub error_log_file : Bytes
  pub write : Bytes
  pub address : Bytes
  pub filename : Bytes

-- `Config{}`
abbrev pub no_config : Config
no_config = record {
  debug = false;
  directory = [];
  sqlite3_db_path = [];
  normal_log_file = [];
  debug_log_file = [];
  error_log_file = [];
  write = [];
  address = [];
  filename = [];
}

-- The process exits, after printing an event or the usage, or goes on with what it logged.
pub data Parsed : Type 0 where
  exits : ℕ → Option LogEvent → Parsed
  configured : Config → List LogEvent → Parsed

-- `strings.Split(s, "/")`
abbrev pub prepend : ℕ → List Bytes → List Bytes
prepend c [] = (c ∷ []) ∷ []
prepend c (piece ∷ pieces) = (c ∷ piece) ∷ pieces

abbrev pub split : Bytes → List Bytes
split [] = [] ∷ []
split (c ∷ cs) = if c == b'/' then [] ∷ split cs else prepend c (split cs)

-- The flags of the client, and its arguments.
pub record ClientFlags : Type 0 where
  pub debug : Bool
  pub help : Bool
  pub write : Bytes
  pub args : List Bytes

-- A download: the address and the name of the file.
abbrev pub download_target : List Bytes → Config → Parsed
download_target (address ∷ filename ∷ []) cfg =
    configured (record cfg { address = address; filename = filename }) []
download_target _ cfg = exits 1 none

unfoldable pub client_arguments : List Bytes → Config → Parsed
client_arguments (arg ∷ []) cfg =
    if equal cfg.write []
    then download_target (split arg) cfg
    else configured (record cfg { address = arg; filename = cfg.write }) []
client_arguments _ cfg = exits 1 none

unfoldable pub client_process_flags : ClientFlags → Config → Parsed
unfolding client_arguments
client_process_flags flags cfg =
    if flags.help
    then exits 0 none
    else client_arguments flags.args (record cfg { debug = flags.debug; write = flags.write })

-- The flags of the daemon, and its arguments.
pub record DaemonFlags : Type 0 where
  pub debug : Bool
  pub help : Bool
  pub directory : Bytes
  pub sqlite3_db : Bytes
  pub normal_log : Bytes
  pub debug_log : Bytes
  pub error_log : Bytes
  pub args : List Bytes

unfoldable pub daemon_arguments : List Bytes → Config → List LogEvent → Parsed
daemon_arguments [] cfg logged = configured (record cfg { address = codes "127.0.0.1:8173" }) logged
daemon_arguments (arg ∷ []) cfg logged = configured (record cfg { address = arg }) logged
daemon_arguments _ cfg logged = exits 1 none

-- The directory: `filepath.Abs` gives a path or fails, `os.OpenRoot` opens it or fails.
unfoldable pub open_directory :
    (Bytes → Option Bytes) → (Bytes → Bool) → DaemonFlags → Config → Parsed
unfolding daemon_arguments
open_directory absolute opens flags cfg = elim (absolute flags.directory) [
  | none ↦ exits 1 (
      some (
        new_error_event (codes "CONFIG") (
          codes "Unable to open root directory as absolute path: "
          ++ flags.directory
          ++ codes " ")))
  | some path ↦
      if opens path
      then daemon_arguments flags.args
          (record cfg {
            directory = path;
            debug = flags.debug;
            sqlite3_db_path = flags.sqlite3_db;
            normal_log_file = flags.normal_log;
            debug_log_file = flags.debug_log;
            error_log_file = flags.error_log;
          })
          (new_normal_event (codes "CONFIG") (codes "Ready to serve as root directory: " ++ path)
            ∷ [])
      else exits 1 (
          some (new_error_event (codes "CONFIG") (codes "Unable to open root directory: " ++ path)))
]

unfoldable pub daemon_process_flags :
    (Bytes → Option Bytes) → (Bytes → Bool) → DaemonFlags → Config → Parsed
unfolding open_directory
daemon_process_flags absolute opens flags cfg =
    if flags.help then exits 0 none else open_directory absolute opens flags cfg
