-- ===== src/Files/Table.antt =====
-- internal/database.go and `ServerInit` of internal/server.go: the rows of the table `files`, and
-- what the SQL statements do on them. A statement's subquery is read before the statement writes.
pub mod Newest
use tftpcpd.Base.{
  ℕ, suc, ◌+◌, ◌-◌, ◌≤◌, Bytes, Bool, true, false, not, ◌&&◌, List, [], ◌∷◌, ◌++◌, Option, none,
  some, equal, ◌==◌, if◌then◌else◌, keep, change, All, In,
}

-- `fileModel`, a row of the table: `uploadStarted` and `uploadCompleted` are in microseconds, and
-- `uploadCompleted` is 0 during the upload.
pub record FileModel : Type 0 where
  pub filename : Bytes
  pub time_started : ℕ
  pub time_completed : ℕ
  pub consumers : ℕ

abbrev pub Table : Type 0
Table = List FileModel

-- What SQLite leaves open or is not part of the code. `column` is what the column `filename` makes
-- of a text that is stored in it or compared with it. `pick` is the row of a group from which
-- `MAX` takes the other columns.
pub record Engine : Type 0 where
  pub column : Bytes → Bytes
  pub pick : FileModel → Table → FileModel

-- `MAX` takes the other columns from a row of the group that has the maximum.
pub record IsEngine (e : Engine) : Type 0 where
  pub picks : (x : FileModel) (l : Table) → In (e.pick x l) (x ∷ l)
  pub maximal :
      (x : FileModel) (l : Table)
      → All (λ q. q.time_completed ≤ (e.pick x l).time_completed) (x ∷ l)

abbrev pub has_name : Bytes → FileModel → Bool
has_name name q = equal q.filename name

abbrev pub pick_of : Engine → Table → Option FileModel
pick_of e [] = none
pick_of e (x ∷ l) = some (e.pick x l)

-- The row that `GROUP BY filename` with `MAX(uploadCompleted)` gives for a name.
abbrev pub newest_of : Engine → Bytes → Table → Option FileModel
newest_of e name t = pick_of e (keep (has_name name) t)

-- `(rowid, filename, uploadCompleted) IN` the subquery. `uploadStarted` is unique, and tells the
-- rows apart as `rowid` does.
abbrev pub is_newest_row : Engine → Table → FileModel → Bool
is_newest_row e t q = elim (newest_of e q.filename t) [
  | none ↦ false
  | some r ↦ r.time_started == q.time_started
]

-- `(filename, uploadCompleted, consumers) IN` the subquery.
abbrev pub is_newest_version : Engine → Table → FileModel → Bool
is_newest_version e t q = elim (newest_of e q.filename t) [
  | none ↦ false
  | some r ↦ r.time_completed == q.time_completed && r.consumers == q.consumers
]

abbrev pub first_row : Table → Option FileModel
first_row [] = none
first_row (q ∷ t) = some q

-- `consumers = 0 AND uploadCompleted != 0`
abbrev pub is_idle : FileModel → Bool
is_idle q = q.consumers == 0 && not (q.time_completed == 0)

abbrev pub is_upload : Bytes → ℕ → FileModel → Bool
is_upload name started q = has_name name q && q.time_started == started

module _ (e : Engine) where
  -- `ReserveStatementSelect`; of several rows `LIMIT 1` gives the first of the table.
  unfoldable pub reserve_select : Bytes → Table → Option FileModel
  reserve_select name t =
      first_row (keep (λ q. has_name (e.column name) q && is_newest_version e t q) t)

  -- What the updates make of a row; `t` is the table that the subquery reads.
  abbrev pub add_consumer : Bytes → Table → FileModel → FileModel
  add_consumer name t q =
      if has_name (e.column name) q && is_newest_version e t q
      then record q { consumers = q.consumers + 1 }
      else q

  abbrev pub drop_consumer : Bytes → ℕ → FileModel → FileModel
  drop_consumer name started q =
      if not (q.consumers == 0) && is_upload (e.column name) started q
      then record q { consumers = q.consumers - 1 }
      else q

  abbrev pub complete_upload : ℕ → Bytes → ℕ → FileModel → FileModel
  complete_upload completed name started q =
      if is_upload (e.column name) started q then record q { time_completed = completed } else q

  -- `ReserveStatementUpdate`
  unfoldable pub reserve_update : Bytes → Table → Table
  reserve_update name t = change (add_consumer name t) t

  -- `ReleaseStatementUpdate`
  unfoldable pub release_update : Bytes → ℕ → Table → Table
  release_update name started t = change (drop_consumer name started) t

  -- `ReleaseStatementSelect`, and the same text `OverwriteSuccessSelect`
  unfoldable pub obsolete_select : Bytes → Table → Table
  obsolete_select name t =
      keep (λ q. has_name (e.column name) q && is_idle q && not (is_newest_row e t q)) t

  -- `ReleaseStatementDelete`, and the same text `OverwriteSuccessDelete`
  unfoldable pub obsolete_delete : Bytes → Table → Table
  obsolete_delete name t =
      keep (λ q. not (is_idle q && has_name (e.column name) q && not (is_newest_version e t q))) t

  -- `PrepareStatement`; `uploadStarted` is unique.
  abbrev pub with_upload : Bytes → ℕ → Table → Table
  with_upload name now t =
      t
      ++ (record { filename = e.column name; time_started = now; time_completed = 0; consumers = 0 }
          ∷ [])

  unfoldable pub prepare_insert : Bytes → ℕ → Table → Option Table
  prepare_insert name now t = elim (first_row (keep (λ q. q.time_started == now) t)) [
    | some q ↦ none
    | none ↦ some (with_upload name now t)
  ]

  -- `OverwriteFailureStatement`
  unfoldable pub failure_delete : Bytes → ℕ → Table → Table
  failure_delete name started t = keep (λ q. not (is_upload (e.column name) started q)) t

  -- `OverwriteSuccessUpdate`
  unfoldable pub success_update : ℕ → Bytes → ℕ → Table → Table
  success_update completed name started t = change (complete_upload completed name started) t

  -- The two statements of `deleteOutOfDateGlobally`
  unfoldable pub global_select : Table → Table
  global_select t = keep (λ q. is_idle q && not (is_newest_row e t q)) t

  unfoldable pub global_delete : Table → Table
  global_delete t = keep (λ q. not (is_idle q && not (is_newest_row e t q))) t

-- The statements of `DatabaseInit`: the uploads that were cut short, and the consumers.
unfoldable pub unfinished_select : Table → Table
unfinished_select t = keep (λ q. q.time_completed == 0) t

unfoldable pub unfinished_delete : Table → Table
unfinished_delete t = keep (λ q. not (q.time_completed == 0)) t

unfoldable pub zero_consumers : Table → Table
zero_consumers t = change (λ q. record q { consumers = 0 }) t
