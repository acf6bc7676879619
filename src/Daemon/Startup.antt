-- ===== src/Daemon/Startup.antt =====
-- `main` of cmd/tftpcpd/main.go up to the start of its goroutines, and `ServerInit` of
-- internal/server.go.
pub mod Booted
mod Tests
use tftpcpd.Base.{
  ℕ, Bytes, Bool, true, false, List, [], ◌∷◌, ◌++◌, Option, none, some, codes, ◌≡◌, refl, sym, ap,
  subst, ◌∙◌, arith, All, if◌then◌else◌,
}
use tftpcpd.Files.Table.{Engine}
use tftpcpd.Files.World.{World}
use tftpcpd.Files.Startup.{database_init}
use tftpcpd.Files.Startup.Clean.{IsClean, database_init-IsClean}
use tftpcpd.Daemon.Signal.{LogEvent, new_normal_event, new_error_event}
use tftpcpd.Daemon.State.{System}
use tftpcpd.Daemon.Step.{Listening, start}
use tftpcpd.CommandLine.{
  Config, no_config, Parsed, exits, configured, DaemonFlags, daemon_arguments, open_directory,
  daemon_process_flags,
}

-- The statements that are prepared.
pub data Statement : Type 0 where
  reserve_statement_select reserve_statement_update : Statement
  release_statement_select release_statement_update release_statement_delete : Statement
  prepare_statement overwrite_failure_statement : Statement
  overwrite_success_select overwrite_success_update overwrite_success_delete : Statement

abbrev pub statements : List Statement
statements =
    reserve_statement_select ∷ reserve_statement_update ∷ release_statement_select
    ∷ release_statement_update ∷ release_statement_delete ∷ prepare_statement
    ∷ overwrite_failure_statement ∷ overwrite_success_select ∷ overwrite_success_update
    ∷ overwrite_success_delete ∷ []

-- `DB.Prepare` of each, until one fails; the event that is logged then.
abbrev pub prepare_each : (Statement → Bool) → Bytes → List Statement → Option LogEvent
prepare_each prepares address [] = none
prepare_each prepares address (x ∷ l) =
    let rest = prepare_each prepares address l in
    if prepares x
    then rest
    else some (
        new_error_event (codes "SERVER")
          (codes "Failed setup to talk to internal database: " ++ address))

unfoldable pub server_init : (Statement → Bool) → Bytes → Option LogEvent
server_init prepares address = prepare_each prepares address statements

-- The process exits with a code, or starts its goroutines on a table.
pub data Boot : Type 0 where
  stops : ℕ → World → Boot
  runs : System → World → Boot

-- What the process finds: `filepath.Abs`, `os.OpenRoot`, the results of `DB.Prepare`, how the
-- server listens on an address, and whether the log files open.
pub record Surroundings : Type 0 where
  pub absolute : Bytes → Option Bytes
  pub opens : Bytes → Bool
  pub prepares : Statement → Bool
  pub listens : Bytes → Listening
  pub files_open : Bool

module _ (e : Engine) (around : Surroundings) where
  -- After `ServerInit`.
  abbrev pub after_server : Option LogEvent → Config → List LogEvent → World → Boot
  after_server (some event) cfg logged w = stops 4 w
  after_server none cfg logged w =
      runs (start (around.listens cfg.address) around.files_open cfg.sqlite3_db_path logged) w

  -- After `DatabaseInit`.
  abbrev pub after_database : Config → List LogEvent → Option (Unit {0}) × World → Boot
  after_database cfg logged (none, w) = stops 3 w
  after_database cfg logged (some u, w) =
      after_server (server_init around.prepares cfg.address) cfg logged w

  abbrev pub after_flags : Parsed → World → Boot
  after_flags (exits code event) w = stops code w
  after_flags (configured cfg logged) w = after_database cfg logged (database_init e w)

  -- `main` up to its goroutines; `LoggerInit` returns no error.
  unfoldable pub boot : DaemonFlags → World → Boot
  boot flags w = after_flags (daemon_process_flags around.absolute around.opens flags no_config) w
