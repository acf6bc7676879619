-- ===== src/Files/Methods/Holds.antt =====
-- What a reader is served: the newest complete version of a name, before and after each method of
-- internal/session.go.
use tftpcpd.Base.{
  ℕ, ◌+◌, ◌-◌, Bytes, Bool, true, false, not, ◌&&◌, Option, none, some, ◌≡◌, ◌≢◌, refl, sym, ap,
  subst, ◌∙◌, inl, inr, arith, equal_iff, ◌==◌, keep, change, All, All-In,
}
use tftpcpd.Session.State.{File, Session}
use tftpcpd.Session.Options.{path_of}
use tftpcpd.Files.Table.{
  FileModel, Table, Engine, IsEngine, has_name, is_newest_version, is_upload, reserve_select,
  reserve_update, release_update, obsolete_select, obsolete_delete, prepare_insert, failure_delete,
  success_update, with_upload, add_consumer, drop_consumer, complete_upload,
}
use tftpcpd.Files.Table.Newest.{
  IsNewest, IsMild, if-IsMild, prepare_insert-cases, keep-IsNewest, change-IsNewest,
  append-IsNewest,
}
use tftpcpd.Files.World.{World, Task, path, find_file}
use tftpcpd.Files.World.Moves.{
  Open, Closed, Moves, then-rows, then-call, then-the, commit-Moves, then-commit, then-commit_of,
  then-close_file, then-create_file, then-open_file,
}
use tftpcpd.Files.Methods.{
  reserve, reserve_rows, release, release_rows, release_file, prepare_rows, success_rows,
  failure_rows, prepare, overwrite_success, overwrite_failure, written_of,
}
use tftpcpd.Files.Methods.Atomic.{
  path_of-ne, obsolete_select-apart, obsolete_delete-IsNewest, clear_obsolete-Moves,
}

-- `name` has a newest complete version, and its file has these bytes.
pub record Holds (w : World) (name bytes : Bytes) : Type 0 where
  pub version : FileModel
  pub newest : IsNewest w.rows name version
  pub stored : find_file (path version) w.disk ≡ some bytes

module _ (old new : Table) (name bytes : Bytes) (r s : FileModel) where
  Open-Holds :
      (w : World) → IsNewest old name r → Open old new (path r) bytes w → Holds w name bytes
  Open-Holds w n o = record {
    version = r;
    newest = subst (λ t. IsNewest t name r) (sym o.rows) n;
    stored = o.stored;
  }

  Closed-Holds :
      (w : World)
      → IsNewest new name s
      → path s ≡ path r
      → Closed old new (path r) bytes w
      → Holds w name bytes
  Closed-Holds w n same o = record {
    version = s;
    newest = subst (λ t. IsNewest t name s) (sym o.rows) n;
    stored = ap (λ p. find_file p w.disk) same ∙ o.stored;
  }

  pub Moves-Holds :
      {A : Type 0} (o : Option A × World)
      → IsNewest old name r
      → IsNewest new name s
      → path s ≡ path r
      → Moves old new (path r) bytes o
      → Holds o.1 name bytes
  Moves-Holds (none, w) n m same (inl o) = Open-Holds w n o
  Moves-Holds (none, w) n m same (inr o) = Closed-Holds w m same o
  Moves-Holds (some a, w) n m same o = Closed-Holds w m same o

pub path-change :
    (g : FileModel → FileModel) (name : Bytes) (r : FileModel) → IsMild name g → path (g r) ≡ path r
path-change g name r m =
    ap (λ f. path_of f (g r).time_started) (m.filename r) ∙ ap (path_of r.filename) (m.started r)

-- A complete version is none of an upload that is not.
incomplete-apart :
    (started : ℕ) (name : Bytes) (r : FileModel) (t : Table)
    → All (λ q. q.time_started ≡ started → q.time_completed ≡ 0) t
    → IsNewest t name r
    → r.time_started ≢ started
incomplete-apart started name r t h n same =
    let zero_time : r.time_completed ≡ 0 =
      All-In (λ q. q.time_started ≡ started → q.time_completed ≡ 0) r t h n.listed same in
    absurd (omega (arith, n.complete, zero_time))

other_upload :
    (name : Bytes) (started : ℕ) (q : FileModel)
    → q.time_started ≢ started
    → not (is_upload name started q) ≡ true
other_upload name started q h = ground arith

upload_name :
    (name : Bytes) (started : ℕ) (q : FileModel)
    → is_upload name started q ≡ true
    → q.filename ≡ name
upload_name name started q h = (equal_iff q.filename name).0 (ground arith)

module _ (e : Engine) (law : IsEngine e) where
  release_file-Holds :
      (started : ℕ) (other name bytes : Bytes) (w : World)
      → Holds w name bytes
      → Holds (release_file e started other w).1 name bytes
  unfolding release_file release_rows release_update
  release_file-Holds started other name bytes w h =
      let g = drop_consumer e other started in
      let mild : IsMild name g =
        if-IsMild name (λ q. not (q.consumers == 0) && is_upload (e.column other) started q)
          (λ q. record q { consumers = q.consumers - 1 }) (λ q. refl) (λ q. refl) (λ q k n. refl) in
      let r = h.version in
      let middle = change-IsNewest g w.rows name r mild h.newest in
      let same = path-change g name r mild in
      Moves-Holds w.rows (obsolete_delete e other (change g w.rows)) name bytes r (g r) _ h.newest
        (obsolete_delete-IsNewest e law other (change g w.rows) name (g r) middle) same
        (then-rows w.rows (obsolete_delete e other (change g w.rows)) (path r) bytes
          (release_rows e started other) w (record { rows = refl; stored = h.stored })
          (λ v b.
            clear_obsolete-Moves e law w.rows (change g w.rows) other (path r) bytes v
              (subst (λ p. All (λ q. p ≢ path q) (obsolete_select e other (change g w.rows))) same
                (obsolete_select-apart e law other (change g w.rows) name (g r) middle))
              b))

  -- Where the engine obeys IsEngine, and whatever is refused: Release leaves the newest complete
  -- version of every name, with its bytes.
  pub release-Holds :
      (started : ℕ) (s : Session) (name bytes : Bytes) (w : World)
      → Holds w name bytes
      → Holds (release e started s w).1 name bytes
  unfolding release
  release-Holds started s name bytes w h = go s.file
    where
      go :
          (f : Option File)
          → Holds
              ((elim f as (λ x. Task (Unit {0})) [
                | none ↦ (λ v. (some tt, v))
                | some x ↦ release_file e started s.filename
              ])
                w).1
              name
              bytes
      go none = h
      go (some f) = release_file-Holds started s.filename name bytes w h

  -- Where the engine obeys IsEngine, and whatever is refused: Reserve leaves the newest complete
  -- version of every name, with its bytes.
  pub reserve-Holds :
      (s : Session) (name bytes : Bytes) (w : World)
      → Holds w name bytes
      → Holds (reserve e s w).1 name bytes
  unfolding reserve reserve_rows reserve_update
  reserve-Holds s name bytes w h =
      let r = h.version in
      let g = add_consumer e s.filename w.rows in
      let mild : IsMild name g =
        if-IsMild name (λ q. has_name (e.column s.filename) q && is_newest_version e w.rows q)
          (λ q. record q { consumers = q.consumers + 1 }) (λ q. refl) (λ q. refl) (λ q k n. refl) in
      let new = change g w.rows in
      let p = path r in
      Moves-Holds w.rows new name bytes r (g r) _ h.newest
        (change-IsNewest g w.rows name r mild h.newest) (path-change g name r mild)
        (then-rows w.rows new p bytes (reserve_rows e s) w
          (record { rows = refl; stored = h.stored })
          (λ v b. then-the w.rows new p bytes (reserve_select e s.filename w.rows) _ v b (λ x found.
            then-call w.rows new p bytes _ v b (λ y c.
              then-commit w.rows new p bytes _ y c (λ z d.
                then-open_file w.rows new p bytes (path x) _ z d (λ text k i found_it. i))))))

  -- Where the engine obeys IsEngine, and whatever is refused: Prepare leaves the newest complete
  -- version of every name, with its bytes.
  pub prepare-Holds :
      (now : ℕ) (s : Session) (name bytes : Bytes) (w : World)
      → Holds w name bytes
      → Holds (prepare e now s w).1 name bytes
  unfolding prepare prepare_rows
  prepare-Holds now s name bytes w h = elim (prepare_insert-cases e s.filename now w.rows) [
    | inl taken ↦ Moves-Holds w.rows w.rows name bytes r r _ h.newest h.newest refl (
        then-rows w.rows w.rows p bytes (prepare_rows e now s) w o (λ v b.
          then-the w.rows w.rows p bytes (prepare_insert e s.filename now w.rows) _ v b
            (λ t found. absurd (none-ne-some (sym taken ∙ found)))))
    | inr (inserted, free) ↦
        let new = with_upload e s.filename now w.rows in
        let apart : now ≢ r.time_started =
          λ k. All-In (λ q. q.time_started ≢ now) r w.rows free h.newest.listed (sym k) in
        Moves-Holds w.rows new name bytes r r _ h.newest
          (append-IsNewest w.rows name r _ refl apart h.newest) refl
          (then-rows w.rows new p bytes (prepare_rows e now s) w o (λ v b.
            then-the w.rows new p bytes (prepare_insert e s.filename now w.rows) _ v b (λ t found.
              let is : new ≡ t = some-eq (sym inserted ∙ found) in
              then-commit_of w.rows new p bytes t _ v is b (λ z d.
                then-create_file w.rows new p bytes (path_of s.filename now) _ z
                  (path_of-ne r.filename s.filename r.time_started now (λ k. apart (sym k))) d
                  (λ x c. c)))))
  ]
    where
      r : FileModel
      r = h.version

      p : Bytes
      p = path h.version

      o : {new : Table} → Open w.rows new p bytes w
      o = record { rows = refl; stored = h.stored }

      none-ne-some : {A : Type 0} {a : A} → none ≡ some a → ⊥
      none-ne-some k = cc

      some-eq : {A : Type 0} {a b : A} → some a ≡ some b → a ≡ b
      some-eq k = ground arith

  -- Where the engine obeys IsEngine, and whatever is refused: OverwriteFailure of an upload that
  -- is not complete leaves the newest complete version of every name, with its bytes.
  pub overwrite_failure-Holds :
      (closed : Bool) (started : ℕ) (s : Session) (name bytes : Bytes) (w : World)
      → All (λ q. q.time_started ≡ started → q.time_completed ≡ 0) w.rows
      → Holds w name bytes
      → Holds (overwrite_failure e closed started s w).1 name bytes
  unfolding overwrite_failure failure_rows failure_delete
  overwrite_failure-Holds true started s name bytes w incomplete h = h
  overwrite_failure-Holds false started s name bytes w incomplete h =
      let r = h.version in
      let p = path r in
      let apart = incomplete-apart started name r w.rows incomplete h.newest in
      let f = λ (q : FileModel). not (is_upload (e.column s.filename) started q) in
      let new = keep f w.rows in
      Moves-Holds w.rows new name bytes r r _ h.newest
        (keep-IsNewest f w.rows name r (other_upload (e.column s.filename) started r apart)
          h.newest)
        refl
        (then-close_file w.rows new p bytes (path_of s.filename started) (written_of s.file) _ w
          (path_of-ne r.filename s.filename r.time_started started apart)
          (record { rows = refl; stored = h.stored })
          (λ u a.
            then-rows w.rows new p bytes (failure_rows e started s.filename) u a
              (λ v b. commit-Moves w.rows new p bytes v b)))

  -- Where the engine obeys IsEngine, and whatever is refused: OverwriteSuccess of an upload that
  -- is not complete leaves the newest complete version of every other name, with its bytes.
  pub overwrite_success-Holds :
      (completed started : ℕ) (s : Session) (name bytes : Bytes) (w : World)
      → name ≢ e.column s.filename
      → All (λ q. q.time_started ≡ started → q.time_completed ≡ 0) w.rows
      → Holds w name bytes
      → Holds (overwrite_success e completed started s w).1 name bytes
  unfolding overwrite_success success_rows success_update
  overwrite_success-Holds completed started s name bytes w other incomplete h =
      let r = h.version in
      let p = path r in
      let apart = incomplete-apart started name r w.rows incomplete h.newest in
      let g = complete_upload e completed s.filename started in
      let mild : IsMild name g =
        if-IsMild name (is_upload (e.column s.filename) started)
          (λ q. record q { time_completed = completed }) (λ q. refl) (λ q. refl)
          (λ q k n. absurd (other (sym n ∙ upload_name (e.column s.filename) started q k))) in
      let t = change g w.rows in
      let same = path-change g name r mild in
      let middle = change-IsNewest g w.rows name r mild h.newest in
      let new = obsolete_delete e s.filename t in
      Moves-Holds w.rows new name bytes r (g r) _ h.newest
        (obsolete_delete-IsNewest e law s.filename t name (g r) middle) same
        (then-close_file w.rows new p bytes (path_of s.filename started) (written_of s.file) _ w
          (path_of-ne r.filename s.filename r.time_started started apart)
          (record { rows = refl; stored = h.stored })
          (λ u a.
            then-rows w.rows new p bytes (success_rows e completed started s.filename) u a (λ v b.
              clear_obsolete-Moves e law w.rows t s.filename p bytes v
                (subst (λ x. All (λ q. x ≢ path q) (obsolete_select e s.filename t)) same
                  (obsolete_select-apart e law s.filename t name (g r) middle))
                b)))
