-- ===== src/Files/Interleaving.antt =====
-- The methods on the files in any order, as sessions that run at once call them. A method's
-- transaction is serializable, and its calls on files come before or after it.
use tftpcpd.Base.{ℕ, Bytes, Bool, ◌≡◌, ◌≢◌, ap, ◌∙◌, some, All}
use tftpcpd.Session.State.{Session}
use tftpcpd.Files.Table.{Engine, IsEngine}
use tftpcpd.Files.World.{World}
use tftpcpd.Files.Methods.{
  written_of, reserve, release, prepare, overwrite_success, overwrite_failure,
}
use tftpcpd.Files.Methods.Holds.{
  Holds, reserve-Holds, release-Holds, prepare-Holds, overwrite_failure-Holds,
  overwrite_success-Holds,
}
use tftpcpd.Files.Methods.Serves.{served, IsUploading, overwrite_success-Serves, reserve-Serves}
use tftpcpd.Files.Startup.{database_init}
use tftpcpd.Files.Startup.Kept.{database_init-Holds}

-- No version of that time is complete.
abbrev pub IsOngoing : ℕ → World → Type 0
IsOngoing started w = All (λ q. q.time_started ≡ started → q.time_completed ≡ 0) w.rows

module _ (e : Engine) (name : Bytes) where
  -- A call of one of the methods, by any session and however it ends, or a start of the daemon;
  -- but for the end of an upload of `name`.
  pub data Step : World → World → Type 0 where
    reserved : (s : Session) (w : World) → Step w (reserve e s w).1
    released : (started : ℕ) (s : Session) (w : World) → Step w (release e started s w).1
    prepared : (now : ℕ) (s : Session) (w : World) → Step w (prepare e now s w).1
    failed :
        (closed : Bool) (started : ℕ) (s : Session) (w : World)
        → IsOngoing started w
        → Step w (overwrite_failure e closed started s w).1
    succeeded :
        (completed started : ℕ) (s : Session) (w : World)
        → name ≢ e.column s.filename
        → IsOngoing started w
        → Step w (overwrite_success e completed started s w).1
    restarted : (w : World) → Step w (database_init e w).1

  pub data Steps : World → World → Type 0 where
    stay : (w : World) → Steps w w
    step : (u v w : World) → Step u v → Steps v w → Steps u w

module _ (e : Engine) (law : IsEngine e) where
  -- Where the engine obeys IsEngine: a call of Reserve, Release, Prepare, OverwriteFailure or
  -- OverwriteSuccess by any session, or a start of the daemon, however it ends and whatever is
  -- refused, leaves the newest complete version of a name, with its bytes. The call is no
  -- OverwriteSuccess of that name, and it ends an upload only while that is not complete.
  pub Step-Holds :
      (name bytes : Bytes) (u v : World) → Step e name u v → Holds u name bytes → Holds v name bytes
  Step-Holds name bytes _ _ (reserved s u) h = reserve-Holds e law s name bytes u h
  Step-Holds name bytes _ _ (released started s u) h = release-Holds e law started s name bytes u h
  Step-Holds name bytes _ _ (prepared now s u) h = prepare-Holds e law now s name bytes u h
  Step-Holds name bytes _ _ (failed closed started s u i) h =
      overwrite_failure-Holds e law closed started s name bytes u i h
  Step-Holds name bytes _ _ (succeeded completed started s u other i) h =
      overwrite_success-Holds e law completed started s name bytes u other i h
  Step-Holds name bytes _ _ (restarted u) h = database_init-Holds e law name bytes u h

  Steps-Holds :
      (name bytes : Bytes) (u v : World)
      → Steps e name u v
      → Holds u name bytes
      → Holds v name bytes
  Steps-Holds name bytes _ _ (stay w) h = h
  Steps-Holds name bytes _ _ (step u w v one more) h =
      Steps-Holds name bytes w v more (Step-Holds name bytes u w one h)

  -- Where the engine obeys IsEngine, and OverwriteSuccess of an upload returns no error: after
  -- any sequence of calls of Reserve, Release, Prepare, OverwriteFailure and OverwriteSuccess by
  -- any sessions and of starts of the daemon, however each ends, a Reserve of that name that
  -- returns no error opens exactly the bytes that were uploaded. The sequence ends no upload of
  -- that name with OverwriteSuccess, and ends uploads only while they are not complete. The first
  -- upload has its row and its file, completes after the other versions of the name, and the
  -- column keeps the name as it is.
  pub Steps-Serves :
      (completed started : ℕ) (s r : Session) (w u v : World) (a : ℕ × Session)
      → IsUploading e w s.filename started completed
      → (overwrite_success e completed started s w).0 ≡ some tt
      → Steps e s.filename (overwrite_success e completed started s w).1 u
      → r.filename ≡ s.filename
      → reserve e r u ≡ (some a, v)
      → (t : ℕ) × (a ≡ served r t (written_of s.file))
  Steps-Serves completed started s r w u v a up done later same got =
      let h =
        Steps-Holds s.filename (written_of s.file) _ u later
          (overwrite_success-Serves e law completed started s w up done) in
      (
        h.version.time_started,
        reserve-Serves e law r s.filename (written_of s.file) u v a
            (ap e.column same ∙ up.kept_name) h got,
      )
