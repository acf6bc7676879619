-- ===== src/Files/Methods/Serves.antt =====
-- `OverwriteSuccess` and `Reserve` where they return no error.
use tftpcpd.Base.{
  ℕ, ◌<◌, Bytes, Bool, true, false, ◌&&◌, [], ◌∷◌, Option, none, some, ◌≡◌, ◌≢◌, refl, sym, ap,
  subst, ◌∙◌, inl, inr, arith, equal_iff, ◌==◌, ==-refl, if◌then◌else◌, keep, change, All, In,
  All-In, In-All, keep-In, In-keep, Bool-cases,
}
use tftpcpd.Session.State.{Session}
use tftpcpd.Session.Options.{path_of}
use tftpcpd.Files.Table.{
  FileModel, Table, Engine, IsEngine, has_name, is_newest_version, newest_of, is_upload,
  reserve_select, reserve_update, obsolete_select, obsolete_delete, success_update, first_row,
  complete_upload,
}
use tftpcpd.Files.Table.Newest.{
  IsNewest, Single, Older, newest_of-IsNewest, is_newest_version-IsNewest, change-IsNewest_latest,
}
use tftpcpd.Files.World.{
  World, call, commit, the, open_file, path, find_file, write_back, close_file,
}
use tftpcpd.Files.World.Disk.{find_file-write_back}
use tftpcpd.Files.World.Moves.{Moves, then-rows, then-call}
use tftpcpd.Files.World.Granted.{
  >>=-eq-some, the-eq-some, call-rows, call-disk, commit-disk, open_file-found,
}
use tftpcpd.Files.Methods.{
  reserve, reserve_rows, success_rows, overwrite_success, opened, written_of,
}
use tftpcpd.Files.Methods.Atomic.{
  obsolete_select-apart, obsolete_delete-IsNewest, clear_obsolete-Moves,
}
use tftpcpd.Files.Methods.Holds.{Holds}

-- What a reader is given: the time of the version, and the session with a file of these bytes.
abbrev pub served : Session → ℕ → Bytes → ℕ × Session
served s started bytes = (started, record s { file = some (opened bytes) })

module _ (e : Engine) where
  -- An upload that goes on: its row, its file, and that it will complete after the other versions
  -- of its name. The column keeps the name as it is.
  pub record IsUploading (w : World) (name : Bytes) (started completed : ℕ) : Type 0 where
    pub kept_name : e.column name ≡ name
    pub row : FileModel
    pub listed : In row w.rows
    pub named : row.filename ≡ name
    pub began : row.time_started ≡ started
    pub single : All (Single row) w.rows
    pub old : Bytes
    pub file : find_file (path_of name started) w.disk ≡ some old
    pub positive : 0 < completed
    pub latest :
        All
          (λ q. q.filename ≡ name → q.time_started ≢ started → q.time_completed < completed)
          w.rows

module _ (e : Engine) (law : IsEngine e) where
  uploaded :
      (name : Bytes) (completed started : ℕ) (q : FileModel) (b : Bool)
      → is_upload (e.column name) started q ≡ b
      → complete_upload e completed name started q
        ≡ (if b then record q { time_completed = completed } else q)
  uploaded name completed started q b h =
      ap (λ c. if c then record q { time_completed = completed } else q) h

  started_kept :
      (name : Bytes) (completed started : ℕ) (q : FileModel) (b : Bool)
      → is_upload (e.column name) started q ≡ b
      → (complete_upload e completed name started q).time_started ≡ q.time_started
  started_kept name completed started q true h =
      ap (λ (x : FileModel). x.time_started) (uploaded name completed started q true h)
  started_kept name completed started q false h =
      ap (λ (x : FileModel). x.time_started) (uploaded name completed started q false h)

  -- The row of the upload, once it is complete, is the newest complete version.
  success_update-IsNewest :
      (w : World) (name : Bytes) (started completed : ℕ)
      (u : IsUploading e w name started completed)
      → IsNewest
          (change (complete_upload e completed name started) w.rows)
          name
          (complete_upload e completed name started u.row)
  success_update-IsNewest w name started completed u =
      let g = complete_upload e completed name started in
      let mine : is_upload (e.column name) started u.row ≡ true =
        rw (u.kept_name) (is_mine u.row u.named u.began) in
      let done_row = uploaded name completed started u.row true mine in
      change-IsNewest_latest g w.rows name u.row u.listed u.single
        (ap (λ (q : FileModel). q.filename) done_row ∙ u.named)
        (subst (λ n. 0 < n) (sym (ap (λ (q : FileModel). q.time_completed) done_row)) u.positive)
        (λ q. started_kept name completed started q (is_upload (e.column name) started q) refl)
        (In-All
          (λ q.
            (g q).filename ≡ name
            → q.time_started ≢ u.row.time_started
            → (g q).time_completed < (g u.row).time_completed)
          w.rows
          (λ q i n s.
            subst (λ m. (g q).time_completed < m)
              (sym (ap (λ (x : FileModel). x.time_completed) done_row))
              (later q i (is_upload (e.column name) started q) refl n s)))
    where
      started_of :
          (n : Bytes) (q : FileModel) → is_upload n started q ≡ true → q.time_started ≡ started
      started_of n q h = ground arith

      later :
          (q : FileModel)
          → In q w.rows
          → (b : Bool) → is_upload (e.column name) started q ≡ b
          → (complete_upload e completed name started q).filename ≡ name
          → q.time_started ≢ u.row.time_started
          → (complete_upload e completed name started q).time_completed < completed
      later q i true h n s = absurd (s (started_of (e.column name) q h ∙ sym u.began))
      later q i false h n s =
          let same = uploaded name completed started q false h in
          subst (λ (x : FileModel). x.time_completed < completed) (sym same)
            (All-In
              (λ x. x.filename ≡ name → x.time_started ≢ started → x.time_completed < completed) q
              w.rows u.latest i (sym (ap (λ (x : FileModel). x.filename) same) ∙ n)
              (λ k. s (k ∙ sym u.began)))

      is_mine :
          (q : FileModel)
          → q.filename ≡ name
          → q.time_started ≡ started
          → is_upload name started q ≡ true
      is_mine q n b = rw ((equal_iff q.filename name).1 n, b) (==-refl started)

  -- Where the engine obeys IsEngine, and OverwriteSuccess of an upload returns no error: the
  -- newest complete version of its name has exactly the bytes that were written. The upload has
  -- its row and its file, completes after the other versions of the name, and the column keeps
  -- the name as it is.
  pub overwrite_success-Serves :
      (completed started : ℕ) (s : Session) (w : World)
      → IsUploading e w s.filename started completed
      → (overwrite_success e completed started s w).0 ≡ some tt
      → Holds (overwrite_success e completed started s w).1 s.filename (written_of s.file)
  unfolding overwrite_success success_rows success_update close_file
  overwrite_success-Serves completed started s w u h =
      finish (overwrite_success e completed started s w) h (
        then-call w.rows new p bytes _ closed
          (record { rows = refl; stored = find_file-write_back p bytes u.old w.disk u.file })
          (λ z a.
            then-rows w.rows new p bytes (success_rows e completed started s.filename) z a (λ v b.
              clear_obsolete-Moves e law w.rows t s.filename p bytes v
                (subst (λ x. All (λ q. x ≢ path q) (obsolete_select e s.filename t)) same
                  (obsolete_select-apart e law s.filename t s.filename r n))
                b)))
    where
      t : Table
      t = change (complete_upload e completed s.filename started) w.rows

      r : FileModel
      r = complete_upload e completed s.filename started u.row

      n : IsNewest t s.filename r
      n = success_update-IsNewest w s.filename started completed u

      new : Table
      new = obsolete_delete e s.filename t

      p : Bytes
      p = path_of s.filename started

      bytes : Bytes
      bytes = written_of s.file

      closed : World
      closed = record w { disk = write_back p bytes w.disk }

      same : path r ≡ p
      same =
          ap (λ f. path_of f r.time_started) n.named
          ∙ ap (path_of s.filename) (
              started_kept s.filename completed started u.row
                (is_upload (e.column s.filename) started u.row) refl
              ∙ u.began)

      finish :
          (o : Option (Unit {0}) × World)
          → o.0 ≡ some tt
          → Moves w.rows new p bytes o
          → Holds o.1 s.filename bytes
      finish (none, v) k m = absurd (ground arith)
      finish (some a, v) k m = record {
        version = r;
        newest =
            subst (λ l. IsNewest l s.filename r) (sym m.rows)
              (obsolete_delete-IsNewest e law s.filename t s.filename r n);
        stored = ap (λ x. find_file x v.disk) same ∙ m.stored;
      }

  -- `ReserveStatementSelect` finds the newest complete version.
  reserve_select-IsNewest :
      (fname name : Bytes) (t : Table) (r : FileModel)
      → e.column fname ≡ name
      → IsNewest t name r
      → reserve_select e fname t ≡ some r
  unfolding reserve_select
  reserve_select-IsNewest fname name t r c n = go (keep f t) (In-keep f r t kept n.listed) only
    where
      f : FileModel → Bool
      f q = has_name (e.column fname) q && is_newest_version e t q

      kept : f r ≡ true
      kept =
          both (has_name (e.column fname) r) (is_newest_version e t r)
            ((equal_iff r.filename (e.column fname)).1 (n.named ∙ sym c))
            (is_newest_version-IsNewest e law t name r n)
        where
          both : (a b : Bool) → a ≡ true → b ≡ true → a && b ≡ true
          both a b h k = ground arith

      as_late :
          (q : FileModel) (o : Option FileModel)
          → o ≡ some r
          → elim o [
            | none ↦ false
            | some x ↦ x.time_completed == q.time_completed && x.consumers == q.consumers
          ]
            ≡ true
          → r.time_completed ≡ q.time_completed
      as_late q o h k = ground arith

      left_of : (a b : Bool) → a && b ≡ true → a ≡ true
      left_of a b h = ground arith

      right_of : (a b : Bool) → a && b ≡ true → b ≡ true
      right_of a b h = ground arith

      only : (q : FileModel) → In q (keep f t) → q ≡ r
      only q i =
          let (j, k) = keep-In f q t i in
          let named : q.filename ≡ name =
            (equal_iff q.filename (e.column fname)).0
              (left_of (has_name (e.column fname) q) (is_newest_version e t q) k)
            ∙ c in
          let late : r.time_completed ≡ q.time_completed =
            as_late q (newest_of e q.filename t)
              (ap (λ m. newest_of e m t) named ∙ newest_of-IsNewest e law t name r n)
              (right_of (has_name (e.column fname) q) (is_newest_version e t q) k) in
          elim (Bool-cases (q.time_started == r.time_started)) [
            | inl same ↦ All-In (Single r) q t n.single j (ground arith)
            | inr apart ↦
                let less : q.time_completed < r.time_completed =
                  All-In (Older name r) q t n.older j named (ground arith) in
                absurd (omega (arith, less, late))
          ]

      go : (l : Table) → In r l → ((q : FileModel) → In q l → q ≡ r) → first_row l ≡ some r
      go [] i o = elim i [ ]
      go (x ∷ l) i o = ap some (o x (inl refl))

  -- Where the engine obeys IsEngine, a name has a newest complete version with these bytes, and
  -- Reserve returns no error for a session whose file name is that name in the column: it gives
  -- that version's time and has opened exactly these bytes.
  pub reserve-Serves :
      (s : Session) (name bytes : Bytes) (w v : World) (a : ℕ × Session)
      → e.column s.filename ≡ name
      → (h : Holds w name bytes) → reserve e s w ≡ (some a, v)
      → a ≡ served s h.version.time_started bytes
  unfolding reserve reserve_rows
  reserve-Serves s name bytes w v a c h k =
      let (b1, w1, c1, k1) = >>=-eq-some call _ w v a k in
      let (b2, w2, c2, k2) = >>=-eq-some call _ w1 v a k1 in
      let (b3, w3, c3, k3) = >>=-eq-some (the (reserve_select e s.filename w2.rows)) _ w2 v a k2 in
      let (b4, w4, c4, k4) = >>=-eq-some call _ w3 v a k3 in
      let (b5, w5, c5, k5) =
        >>=-eq-some (commit (reserve_update e s.filename w2.rows)) _ w4 v a k4 in
      let (b6, w6, c6, k6) = >>=-eq-some (open_file (path b3)) _ w5 v a k5 in
      let rows : w2.rows ≡ w.rows = call-rows w1 w2 b2 c2 ∙ call-rows w w1 b1 c1 in
      let (found, stays) = the-eq-some (reserve_select e s.filename w2.rows) w2 w3 b3 c3 in
      let is : b3 ≡ h.version = some-eq (
        sym found
        ∙ (ap (reserve_select e s.filename) rows
            ∙ reserve_select-IsNewest s.filename name w.rows h.version c h.newest)) in
      let disk : w5.disk ≡ w.disk =
        commit-disk _ w4 w5 b5 c5
        ∙ (call-disk w3 w4 b4 c4
            ∙ (ap (λ (x : World). x.disk) stays
                ∙ (call-disk w1 w2 b2 c2 ∙ call-disk w w1 b1 c1))) in
      let text : b6 ≡ bytes = some-eq (
        sym (open_file-found (path b3) b6 w5 w6 c6)
        ∙ (ap (find_file (path b3)) disk ∙ (ap (λ q. find_file (path q) w.disk) is ∙ h.stored))) in
      pure-eq k6
      ∙ (ap (λ (q : FileModel). served s q.time_started b6) is
          ∙ ap (served s h.version.time_started) text)
    where
      some-eq : {A : Type 0} {x y : A} → some x ≡ some y → x ≡ y
      some-eq k = ground arith

      pure-eq :
          {A : Type 0} {x y : A} {t u : World}
          → ◌≡◌ {A = Option A × World} (some x, t) (some y, u)
          → y ≡ x
      pure-eq k = ground arith
