-- ===== src/Daemon/Startup/Booted.antt =====
-- What the goroutines of the daemon start on.
use tftpcpd.Base.{
  Bytes, Bool, true, false, List, [], ◌∷◌, ◌++◌, Option, none, some, codes, ◌≡◌, refl, sym, ap,
  subst, ◌∙◌, arith, All, if◌then◌else◌,
}
use tftpcpd.Files.Table.{Engine}
use tftpcpd.Files.World.{World}
use tftpcpd.Files.Startup.{database_init}
use tftpcpd.Files.Startup.Clean.{IsClean, database_init-IsClean}
use tftpcpd.Daemon.Signal.{LogEvent, new_normal_event, new_error_event}
use tftpcpd.Daemon.State.{System}
use tftpcpd.Daemon.Step.{start}
use tftpcpd.CommandLine.{
  Config, no_config, Parsed, exits, configured, DaemonFlags, daemon_arguments, open_directory,
  daemon_process_flags,
}
use tftpcpd.Daemon.Startup.{
  Statement, statements, prepare_each, server_init, runs, Surroundings, after_server,
  after_database, after_flags, boot,
}

module _ (e : Engine) (around : Surroundings) where
  -- Clean tables, prepared statements, an open directory, and one event in the log.
  pub record IsBooted (flags : DaemonFlags) (s : System) (w : World) : Type 0 where
    pub clean : IsClean w.rows
    pub prepared : All (λ x. around.prepares x ≡ true) statements
    pub directory : Bytes
    pub found : around.absolute flags.directory ≡ some directory
    pub open_root : around.opens directory ≡ true
    pub address : Bytes
    pub starts :
        s
        ≡ start (around.listens address) around.files_open flags.sqlite3_db (
            new_normal_event
              (codes "CONFIG")
              (codes "Ready to serve as root directory: " ++ directory)
            ∷ [])

  -- What the flags and the arguments gave.
  record IsConfigured (flags : DaemonFlags) (cfg : Config) (logged : List LogEvent) : Type 0 where
    directory : Bytes
    found : around.absolute flags.directory ≡ some directory
    open_root : around.opens directory ≡ true
    database : cfg.sqlite3_db_path ≡ flags.sqlite3_db
    ready :
        logged
        ≡ new_normal_event
            (codes "CONFIG")
            (codes "Ready to serve as root directory: " ++ directory)
          ∷ []

  path_of_parsed : Parsed → Bytes
  path_of_parsed (exits code event) = []
  path_of_parsed (configured cfg logged) = cfg.sqlite3_db_path

  logged_of : Parsed → List LogEvent
  logged_of (exits code event) = []
  logged_of (configured cfg logged) = logged

  arguments-kept :
      (args : List Bytes) (base cfg : Config) (logged events : List LogEvent)
      → daemon_arguments args base logged ≡ configured cfg events
      → (cfg.sqlite3_db_path ≡ base.sqlite3_db_path) × (events ≡ logged)
  unfolding daemon_arguments path_of_parsed logged_of
  arguments-kept [] base cfg logged events h = (sym (ap path_of_parsed h), sym (ap logged_of h))
  arguments-kept (x ∷ []) base cfg logged events h =
      (sym (ap path_of_parsed h), sym (ap logged_of h))
  arguments-kept (x ∷ y ∷ l) base cfg logged events h = absurd (ground arith)

  directory-IsConfigured :
      (flags : DaemonFlags) (cfg : Config) (logged : List LogEvent)
      → open_directory around.absolute around.opens flags no_config ≡ configured cfg logged
      → IsConfigured flags cfg logged
  unfolding open_directory
  directory-IsConfigured flags cfg logged h = go (around.absolute flags.directory) refl h
    where
      base : Bytes → Config
      base path = record no_config {
        directory = path;
        debug = flags.debug;
        sqlite3_db_path = flags.sqlite3_db;
        normal_log_file = flags.normal_log;
        debug_log_file = flags.debug_log;
        error_log_file = flags.error_log;
      }

      ready : Bytes → List LogEvent
      ready path =
          new_normal_event (codes "CONFIG") (codes "Ready to serve as root directory: " ++ path)
          ∷ []

      opened :
          (path : Bytes) (b : Bool) (event : LogEvent)
          → around.absolute flags.directory ≡ some path
          → around.opens path ≡ b
          → (if b
              then daemon_arguments flags.args (base path) (ready path)
              else exits 1 (some event))
            ≡ configured cfg logged
          → IsConfigured flags cfg logged
      opened path true event e k h =
          let (database, same) = arguments-kept flags.args (base path) cfg (ready path) logged h in
          record { directory = path; found = e; open_root = k; database = database; ready = same }
      opened path false event e k h = absurd (ground arith)

      go :
          (o : Option Bytes)
          → around.absolute flags.directory ≡ o
          → elim o [
            | none ↦ exits 1 (
                some (
                  new_error_event (codes "CONFIG") (
                    codes "Unable to open root directory as absolute path: "
                    ++ flags.directory
                    ++ codes " ")))
            | some path ↦
                if around.opens path
                then daemon_arguments flags.args (base path) (ready path)
                else exits 1 (
                    some (
                      new_error_event
                        (codes "CONFIG")
                        (codes "Unable to open root directory: " ++ path)))
          ]
            ≡ configured cfg logged
          → IsConfigured flags cfg logged
      go none e h = absurd (ground arith)
      go (some path) e h = opened path (around.opens path) _ e refl h

  prepare_each-All :
      (address : Bytes) (l : List Statement)
      → prepare_each around.prepares address l ≡ none
      → All (λ x. around.prepares x ≡ true) l
  prepare_each-All address [] h = tt
  prepare_each-All address (x ∷ l) h = go (around.prepares x) refl h (prepare_each-All address l)
    where
      go :
          (b : Bool)
          → around.prepares x ≡ b
          → (if b
              then prepare_each around.prepares address l
              else some (
                  new_error_event
                    (codes "SERVER")
                    (codes "Failed setup to talk to internal database: " ++ address)))
            ≡ none
          → (prepare_each around.prepares address l ≡ none → All (λ y. around.prepares y ≡ true) l)
          → All (λ y. around.prepares y ≡ true) (x ∷ l)
      go true k h ih = (k, ih h)
      go false k h ih = absurd (ground arith)

  flags-IsConfigured :
      (flags : DaemonFlags) (cfg : Config) (logged : List LogEvent)
      → daemon_process_flags around.absolute around.opens flags no_config ≡ configured cfg logged
      → IsConfigured flags cfg logged
  unfolding daemon_process_flags
  flags-IsConfigured flags cfg logged h = go flags.help h
    where
      go :
          (b : Bool)
          → (if b
              then exits 0 none
              else open_directory around.absolute around.opens flags no_config)
            ≡ configured cfg logged
          → IsConfigured flags cfg logged
      go true h = absurd (ground arith)
      go false h = directory-IsConfigured flags cfg logged h

  runs-injective : (t s : System) (v w : World) → runs t v ≡ runs s w → (v ≡ w) × (s ≡ t)
  runs-injective t s v w h = (ground arith, ground arith)

  after_server-runs :
      (o : Option LogEvent) (cfg : Config) (logged : List LogEvent) (v w : World) (s : System)
      → after_server e around o cfg logged v ≡ runs s w
      → (o ≡ none)
        × (v ≡ w)
        × (s ≡ start (around.listens cfg.address) around.files_open cfg.sqlite3_db_path logged)
  after_server-runs none cfg logged v w s h =
      let (same, starts) = runs-injective _ s v w h in (refl, same, starts)
  after_server-runs (some event) cfg logged v w s h = absurd (ground arith)

  -- Where main starts its goroutines: every version in the table is complete, none has consumers,
  -- and no name has two versions; every statement was prepared; the directory of the flags was
  -- found and opened, and Log holds exactly the event that tells of it; and the goroutines start
  -- with the database path of the flags.
  pub boot-IsBooted :
      (flags : DaemonFlags) (w v : World) (s : System)
      → boot e around flags w ≡ runs s v
      → IsBooted flags s v
  unfolding boot server_init
  boot-IsBooted flags w v s h =
      go (daemon_process_flags around.absolute around.opens flags no_config) refl h
    where
      tables :
          (cfg : Config) (logged : List LogEvent) (r : Option (Unit {0}) × World)
          → database_init e w ≡ r
          → IsConfigured flags cfg logged
          → after_database e around cfg logged r ≡ runs s v
          → IsBooted flags s v
      tables cfg logged (none, u) k c h = absurd (ground arith)
      tables cfg logged (some unit, u) k c h =
          let (fine, same, starts) =
            after_server-runs (server_init around.prepares cfg.address) cfg logged u v s h in
          record {
            clean = subst (λ (x : World). IsClean x.rows) same (database_init-IsClean e w u k);
            prepared = prepare_each-All cfg.address statements fine;
            directory = c.directory;
            found = c.found;
            open_root = c.open_root;
            address = cfg.address;
            starts =
                starts
                ∙ ap (λ x. start (around.listens cfg.address) around.files_open x logged) c.database
                ∙ ap (λ x. start (around.listens cfg.address) around.files_open flags.sqlite3_db x)
                    c.ready;
          }

      go :
          (p : Parsed)
          → daemon_process_flags around.absolute around.opens flags no_config ≡ p
          → after_flags e around p w ≡ runs s v
          → IsBooted flags s v
      go (exits code event) k h = absurd (ground arith)
      go (configured cfg logged) k h =
          tables cfg logged (database_init e w) refl (flags-IsConfigured flags cfg logged k) h
