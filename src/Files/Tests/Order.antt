-- ===== src/Files/Tests/Order.antt =====
-- The end of an upload, then methods of other sessions, then a reader.
use tftpcpd.Base.{ℕ, some, ◌≡◌, refl, arith, codes, equal}
use tftpcpd.Session.Number.{format_int}
use tftpcpd.Session.Options.{path_of}
use tftpcpd.Session.Opening.{new_tftp_session}
use tftpcpd.Files.Table.{
  reserve_select, reserve_update, release_update, obsolete_select, obsolete_delete, prepare_insert,
  success_update,
}
use tftpcpd.Files.World.{
  World, call, commit, create_file, open_file, close_file, delete_files, remove_file, write_back,
}
use tftpcpd.Files.Methods.{
  reserve, release, release_file, prepare, overwrite_success, clear_obsolete,
}
use tftpcpd.Files.Methods.Serves.{served}
use tftpcpd.Files.Methods.Holds.{Holds}
use tftpcpd.Files.Interleaving.{
  Steps, stay, step, released, prepared, succeeded, Step-Holds, Steps-Serves,
}
use tftpcpd.Files.Tests.{
  name, sqlite, sqlite-IsEngine, two_versions, two_versions-Holds, upload_incomplete,
  two_versions-IsUploading, reader, writer, old_reader, overwrite_success_run,
}

abbrev uploaded : World
uploaded = (overwrite_success sqlite 12 8 writer two_versions).1

abbrev next_upload : World
next_upload = (prepare sqlite 14 (reader name) uploaded).1

abbrev later : World
later = (release sqlite 3 old_reader next_upload).1

later-Steps : Steps sqlite name uploaded later
later-Steps =
    step uploaded next_upload later (prepared 14 (reader name) uploaded)
      (step next_upload later later (released 3 old_reader next_upload) (stay later))

abbrev final : World
final = (reserve sqlite (reader name) later).1

later_run :
    reserve sqlite (reader name) later ≡ (some (served (reader name) 8 (codes "new")), final)
unfolding reserve reserve_select reserve_update open_file release release_file release_update
    prepare prepare_insert create_file overwrite_success clear_obsolete success_update
    obsolete_select obsolete_delete close_file write_back call commit delete_files remove_file
    path_of format_int equal new_tftp_session
later_run = refl

Steps-Serves_example :
    (t : ℕ) × (served (reader name) 8 (codes "new") ≡ served (reader name) t (codes "new"))
unfolding new_tftp_session
Steps-Serves_example =
    Steps-Serves sqlite sqlite-IsEngine 12 8 writer (reader name) two_versions later final
      (served (reader name) 8 (codes "new")) two_versions-IsUploading overwrite_success_run
      later-Steps refl later_run

-- The end of an upload of another name.
abbrev after_another : World
after_another = (overwrite_success sqlite 12 8 (reader (codes "b")) two_versions).1

Step-Holds_example : Holds after_another name (codes "hello world")
unfolding new_tftp_session
Step-Holds_example =
    Step-Holds sqlite sqlite-IsEngine name (codes "hello world") two_versions after_another
      (succeeded 12 8 (reader (codes "b")) two_versions (λ e. ground arith) upload_incomplete)
      two_versions-Holds
