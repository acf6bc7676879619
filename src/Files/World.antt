-- ===== src/Files/World.antt =====
-- What the methods on the served files work on: the table, the served directory, and how the next
-- calls of the database and of the file system end. A task returns a value or an error (`none`);
-- no caller looks at which.
pub mod Disk
pub mod Moves
pub mod Granted
use tftpcpd.Base.{
  ℕ, Bytes, Bool, true, false, not, List, [], ◌∷◌, Option, none, some, ◌≡◌, equal, if◌then◌else◌,
  keep,
}
use tftpcpd.Session.Options.{path_of}
use tftpcpd.Files.Table.{FileModel, Table}

-- The files of the served directory. One that is open for writing shows what was written once it is
-- closed.
abbrev pub Disk : Type 0
Disk = List (Bytes × Bytes)

abbrev pub find_file : Bytes → Disk → Option Bytes
find_file path [] = none
find_file path ((p, bytes) ∷ d) = if equal p path then some bytes else find_file path d

unfoldable pub remove_file : Bytes → Disk → Disk
remove_file path d = keep (λ f. not (equal f.0 path)) d

-- The end of writing to a file; one that was removed meanwhile has no name any more.
unfoldable pub write_back : Bytes → Bytes → Disk → Disk
write_back path bytes [] = []
write_back path bytes ((p, old) ∷ d) =
    (p, if equal p path then bytes else old) ∷ write_back path bytes d

-- `refusals` says of each later call whether it is refused (a cancelled context, a lock, the
-- operating system); where it is used up, calls are granted.
pub record World : Type 0 where
  pub rows : Table
  pub disk : Disk
  pub refusals : List Bool

abbrev pub Task : Type 0 → Type 0
Task A = World → Option A × World

abbrev pub continue : {A B : Type 0} → (A → Task B) → Option A × World → Option B × World
continue f (none, w) = (none, w)
continue f (some a, w) = f a w

infixl 5 ◌>>=◌
abbrev pub ◌>>=◌ : {A B : Type 0} → Task A → (A → Task B) → Task B
◌>>=◌ m f w = continue f (m w)

abbrev pub pure : {A : Type 0} → A → Task A
pure a w = (some a, w)

abbrev pub refuse : {A : Type 0} → Task A
refuse w = (none, w)

abbrev pub gets : {A : Type 0} → (World → A) → Task A
gets f w = (some (f w), w)

abbrev pub the : {A : Type 0} → Option A → Task A
the none = refuse
the (some a) = pure a

granted : List Bool → World → Option (Unit {0}) × World
granted [] w = (some tt, w)
granted (true ∷ later) w = (none, record w { refusals = later })
granted (false ∷ later) w = (some tt, record w { refusals = later })

-- One call that may be refused.
unfoldable pub call : Task (Unit {0})
unfolding granted
call w = granted w.refusals w

-- `tx.Commit()`; where it is refused, or is not reached, the rows are as before.
unfoldable pub commit : Table → Task (Unit {0})
commit t = call >>= λ _ w. (some tt, record w { rows = t })

-- `Directory.Create`, with no bytes
unfoldable pub create_file : Bytes → Task (Unit {0})
create_file path =
    call >>= λ _ w. (some tt, record w { disk = (path, []) ∷ remove_file path w.disk })

-- `Directory.Open`, with the file's bytes
unfoldable pub open_file : Bytes → Task Bytes
open_file path = call >>= λ _ w. the (find_file path w.disk) w

-- `File.Close` on a file that was open for writing
unfoldable pub close_file : Bytes → Bytes → Task (Unit {0})
close_file path bytes w = call (record w { disk = write_back path bytes w.disk })

-- `fileModel.Path`
abbrev pub path : FileModel → Bytes
path q = path_of q.filename q.time_started

-- `rows.Next()`: where it is refused the loop ends early and without an error, since nothing asks
-- `rows.Err()`; else `more` goes on with the row.
next_row : Task (Unit {0}) → Option (Unit {0}) × World → Option (Unit {0}) × World
next_row more (none, w) = (some tt, w)
next_row more (some a, w) = more w

-- `fileModel.deleteFiles`, on the rows that the query gives. The second refusal of a row is that
-- the context is done, or that the row is not read or the file not removed; a file that is not
-- there is none.
unfoldable pub delete_files : Table → Task (Unit {0})
unfolding next_row
delete_files [] w = pure tt w
delete_files (q ∷ later) w =
    next_row (call >>= λ _ v. delete_files later (record v { disk = remove_file (path q) v.disk }))
      (call w)
