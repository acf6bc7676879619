-- ===== src/Files/Tests.antt =====
-- Runs of the methods on the served files, and the theorems about them at concrete inputs.
mod Start
mod Order
use tftpcpd.Base.{
  ℕ, ◌≤◌, ◌<◌, Bytes, Bool, true, false, List, [], ◌∷◌, ◌++◌, Option, none, some, ◌≡◌, ◌≢◌, refl,
  sym, ap, subst, ◌∙◌, inl, inr, ◌⊎◌, arith, codes, equal, leb, if◌then◌else◌, All, In, Bool-cases,
}
use tftpcpd.Session.State.{File, Session, Connection}
use tftpcpd.Session.Opening.{new_tftp_session}
use tftpcpd.Session.Number.{format_int}
use tftpcpd.Session.Options.{path_of}
use tftpcpd.Files.Table.{
  FileModel, Table, Engine, IsEngine, reserve_select, reserve_update, release_update,
  obsolete_select, obsolete_delete, prepare_insert, failure_delete, success_update,
}
use tftpcpd.Files.World.{
  World, Disk, path, find_file, write_back, call, commit, create_file, open_file, close_file,
  delete_files, remove_file,
}
use tftpcpd.Files.Methods.{
  opened, reserve, release, release_file, prepare, overwrite_success, overwrite_failure,
  clear_obsolete,
}
use tftpcpd.Files.Methods.Atomic.{path_of-injective}
use tftpcpd.Files.Methods.Holds.{
  Holds, reserve-Holds, release-Holds, prepare-Holds, overwrite_failure-Holds,
  overwrite_success-Holds,
}
use tftpcpd.Files.Methods.Serves.{served, IsUploading, overwrite_success-Serves, reserve-Serves}
use tftpcpd.Files.Methods.Prepared.{IsPrepared, prepare-IsPrepared}

-- `MAX` with the first of the rows that have the maximum.
abbrev later_of : FileModel → FileModel → FileModel
later_of x y = if leb y.time_completed x.time_completed then x else y

abbrev greatest : FileModel → Table → FileModel
greatest x [] = x
greatest x (y ∷ l) = later_of x (greatest y l)

later_of-cases :
    (x y : FileModel)
    → ((later_of x y ≡ x) × (y.time_completed ≤ x.time_completed))
      ⊎ ((later_of x y ≡ y) × (x.time_completed ≤ y.time_completed))
later_of-cases x y = elim (Bool-cases (leb y.time_completed x.time_completed)) [
  | inl low ↦ inl (ground arith, ground arith)
  | inr high ↦ inr (ground arith, ground arith)
]

greatest-picks : (x : FileModel) (l : Table) → In (greatest x l) (x ∷ l)
greatest-picks x [] = inl refl
greatest-picks x (y ∷ l) = elim (later_of-cases x (greatest y l)) [
  | inl (is, order) ↦ inl (sym is)
  | inr (is, order) ↦ inr (subst (λ r. In r (y ∷ l)) (sym is) (greatest-picks y l))
]

at_most-All :
    (a b : ℕ) (l : Table)
    → a ≤ b
    → All (λ q. q.time_completed ≤ a) l
    → All (λ q. q.time_completed ≤ b) l
at_most-All a b [] h k = tt
at_most-All a b (q ∷ l) h k = let first = k.0 in (omega (arith, h, first), at_most-All a b l h k.1)

greatest-maximal :
    (x : FileModel) (l : Table)
    → All (λ q. q.time_completed ≤ (greatest x l).time_completed) (x ∷ l)
greatest-maximal x [] = (omega arith, tt)
greatest-maximal x (y ∷ l) = elim (later_of-cases x (greatest y l)) [
  | inl (is, order) ↦
      subst (λ (r : FileModel). All (λ q. q.time_completed ≤ r.time_completed) (x ∷ y ∷ l)) (sym is)
        (
          omega arith,
          at_most-All (greatest y l).time_completed x.time_completed (y ∷ l) order
              (greatest-maximal y l),
        )
  | inr (is, order) ↦
      subst (λ (r : FileModel). All (λ q. q.time_completed ≤ r.time_completed) (x ∷ y ∷ l)) (sym is)
        (order, greatest-maximal y l)
]

-- An engine whose column takes texts as they are.
abbrev pub sqlite : Engine
sqlite = record { column = λ s. s; pick = greatest }

pub sqlite-IsEngine : IsEngine sqlite
sqlite-IsEngine = record { picks = greatest-picks; maximal = greatest-maximal }

-- Two versions of one file, the older of which one reader still has, and an upload.
abbrev pub name : Bytes
name = codes "a"

abbrev old_row : FileModel
old_row = record { filename = name; time_started = 3; time_completed = 5; consumers = 1 }

abbrev pub new_row : FileModel
new_row = record { filename = name; time_started = 7; time_completed = 9; consumers = 0 }

abbrev upload_row : FileModel
upload_row = record { filename = name; time_started = 8; time_completed = 0; consumers = 0 }

abbrev pub two_versions : World
two_versions = record {
  rows = old_row ∷ new_row ∷ upload_row ∷ [];
  disk = (codes "a.3", codes "old") ∷ (codes "a.7", codes "hello world") ∷ (codes "a.8", []) ∷ [];
  refusals = [];
}

abbrev pub reader : Bytes → Session
reader filename = record (new_tftp_session (record { incoming = []; sent = []; deliveries = [] })) {
  filename = filename;
}

-- The path of a version is its name, a point and its time in decimal digits.
paths_run : path new_row ≡ codes "a.7"
unfolding path_of format_int
paths_run = refl

pub two_versions-Holds : Holds two_versions name (codes "hello world")
unfolding path_of format_int equal
two_versions-Holds = record {
  version = new_row;
  newest = record {
    listed = inr (inl refl);
    named = refl;
    complete = omega arith;
    older = ((λ n d. omega arith), ((λ n d. absurd (d refl)), ((λ n d. omega arith), tt)));
    single =
        ((λ e. absurd (omega (arith, e))), ((λ e. refl), ((λ e. absurd (omega (arith, e))), tt)));
  };
  stored = refl;
}

pub upload_incomplete : All (λ q. q.time_started ≡ 8 → q.time_completed ≡ 0) two_versions.rows
upload_incomplete =
    ((λ e. absurd (omega (arith, e))), ((λ e. absurd (omega (arith, e))), ((λ e. refl), tt)))

pub two_versions-IsUploading : IsUploading sqlite two_versions name 8 12
unfolding path_of format_int equal
two_versions-IsUploading = record {
  kept_name = refl;
  row = upload_row;
  listed = inr (inr (inl refl));
  named = refl;
  began = refl;
  single =
      ((λ e. absurd (omega (arith, e))), ((λ e. absurd (omega (arith, e))), ((λ e. refl), tt)));
  old = [];
  file = refl;
  positive = omega arith;
  latest = ((λ n d. omega arith), ((λ n d. omega arith), ((λ n d. absurd (d refl)), tt)));
}

-- A reader of the old version ends: the transaction removes that version only.
abbrev pub old_reader : Session
old_reader = record (reader name) { file = some (opened (codes "old")) }

release_run : (release sqlite 3 old_reader two_versions) ≡ (
  some tt,
  record two_versions {
    rows = new_row ∷ upload_row ∷ [];
    disk = (codes "a.7", codes "hello world") ∷ (codes "a.8", []) ∷ [];
  },
)
unfolding release release_file clear_obsolete release_update obsolete_select obsolete_delete call
    commit delete_files remove_file path_of format_int equal new_tftp_session
release_run = refl

-- The row of an upload that fails goes, and its file stays.
overwrite_failure_run :
    (overwrite_failure sqlite false 8 (reader name) two_versions).1
    ≡ record two_versions { rows = old_row ∷ new_row ∷ [] }
unfolding overwrite_failure failure_delete close_file write_back call commit path_of format_int
    equal new_tftp_session
overwrite_failure_run = refl

-- The upload ends with these bytes.
abbrev pub writer : Session
writer = record (reader name) {
  file = some (record { unread = []; written = codes "new"; refuses = false });
}

pub overwrite_success_run : (overwrite_success sqlite 12 8 writer two_versions).0 ≡ some tt
unfolding overwrite_success clear_obsolete success_update obsolete_select obsolete_delete close_file
    write_back call commit delete_files remove_file path_of format_int equal new_tftp_session
overwrite_success_run = refl

overwrite_success-Serves_example :
    Holds (overwrite_success sqlite 12 8 writer two_versions).1 name (codes "new")
unfolding new_tftp_session
overwrite_success-Serves_example =
    overwrite_success-Serves sqlite sqlite-IsEngine 12 8 writer two_versions
      two_versions-IsUploading overwrite_success_run

abbrev reserved : World
reserved = record two_versions {
  rows = old_row ∷ record new_row { consumers = 1 } ∷ upload_row ∷ [];
}

reserve_run :
    reserve sqlite (reader name) two_versions
    ≡ (some (served (reader name) 7 (codes "hello world")), reserved)
unfolding reserve reserve_select reserve_update call commit open_file path_of format_int equal
    new_tftp_session
reserve_run = refl

path_of-injective_example : (codes "a.7" ≡ codes "a" ++ codes ".7") × (◌≡◌ {A = ℕ} 12 12)
path_of-injective_example = path_of-injective (codes "a.7") (codes "a" ++ codes ".7") 12 12 refl
