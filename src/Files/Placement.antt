-- ===== src/Files/Placement.antt =====
-- backend/src/files/files.service.ts: renaming, moving, restoring and copying a file.
pub mod Copies
use https_github_com_sv3t0v.Common.{
  ℕ, suc, ◌+◌, String, Bool, true, false, not, ◌&&◌, ◌||◌, Option, none, some, List, [], ◌∷◌, ltb,
  leb, ◌==◌, if◌then◌else◌, find_row, str_eq,
}
use https_github_com_sv3t0v.Http.{
  HttpError, Result, ok, err, ◌>>=◌, ◌>>◌, throw_if, bad_request, forbidden, not_found,
  parse_database_size,
}
use https_github_com_sv3t0v.Text.{Text, text_eq}
use https_github_com_sv3t0v.Uploads.{Folder, FileRow, Db, Disk, World, Bytes, find_user}
use https_github_com_sv3t0v.Uploads.Create.{or_throw}
use https_github_com_sv3t0v.Uploads.Chunk.{internal_error}
use https_github_com_sv3t0v.Uploads.Complete.{remove_object, link_object}
use https_github_com_sv3t0v.Namespace.{allocate_namespace_name, same_parent}
use https_github_com_sv3t0v.Namespace
use https_github_com_sv3t0v.Users.{update_storage_used}
use https_github_com_sv3t0v.Files.{
  owned_file, file_not_found, folder_not_found, save_file, validate_display_name,
  assert_folder_ownership, find_one, plain_file,
}
use https_github_com_sv3t0v.Files.Folders.{
  Target, keep, top, into, target_of, FolderChange, update_folder, live_parent,
}

abbrev pub differs : Option Text → Text → Bool
differs none current = false
differs (some name) current = not (text_eq name current)

abbrev pub name_or : Option Text → Text → Text
name_or none current = current
name_or (some name) current = name

-- A restored file goes to the top level where its folder is not live.
abbrev pub destination_of : ℕ → Target → Bool → FileRow → Db → Option ℕ
destination_of user_id target restore f db =
    let wanted = target_of target f.parent_id in
    if restore && not (live_parent user_id wanted db) then none else wanted

abbrev pub placed_file : Text → Option ℕ → Bool → FileRow → FileRow
placed_file name destination restore f = record f {
  name = name;
  parent_id = destination;
  is_deleted = if restore then false else f.is_deleted;
}

unfoldable pub change_file_placement :
    ℕ → ℕ → Option Text → Target → Bool → Db → Result (Db × FileRow)
unfolding owned_file
change_file_placement user_id id name target restore db = do
  f ← or_throw (owned_file user_id id db) file_not_found
  throw_if f.is_folder (bad_request "Cannot update folder via files endpoint")
  let destination = destination_of user_id target restore f db
  chosen ←
      if (restore && f.is_deleted)
        || differs name f.name
        || not (same_parent destination f.parent_id)
      then allocate_namespace_name db user_id destination (name_or name f.name) Namespace.file
          (some id) none
      else ok f.name
  let f' = placed_file chosen destination restore f
  ok (save_file f' db, f')

abbrev pub display_name : Option Text → Result (Option Text)
display_name none = ok none
display_name (some name) = validate_display_name name >>= λ trimmed. ok (some trimmed)

abbrev pub owned_target : ℕ → Target → Db → Result (Unit {0})
owned_target user_id (into id) db = assert_folder_ownership user_id (some id) db
owned_target user_id keep db = ok tt
owned_target user_id top db = ok tt

unfoldable pub update_file : ℕ → ℕ → Option Text → Target → Db → Result (Db × FileRow)
unfolding change_file_placement validate_display_name assert_folder_ownership
update_file user_id id name target db = do
  display ← display_name name
  owned_target user_id target db
  change_file_placement user_id id display target false db

unfoldable pub restore_file : ℕ → ℕ → Db → Result (Db × FileRow)
unfolding change_file_placement
restore_file user_id id db = change_file_placement user_id id none keep true db

abbrev pub to_target : Option ℕ → Target
to_target none = top
to_target (some id) = into id

abbrev pub move_found : ℕ → ℕ → Option ℕ → Db → FileRow → Option ℕ → Result (Db × FileRow)
move_found user_id id target db f none =
    if f.is_folder
    then err folder_not_found
    else change_file_placement user_id id none (to_target target) false db
move_found user_id id target db f (some folder_id) =
    if f.is_folder
    then update_folder user_id folder_id (record { name = none; parent = to_target target }) db
    else change_file_placement user_id id none (to_target target) false db

unfoldable pub move_file : ℕ → ℕ → Option ℕ → Db → Result (Db × FileRow)
unfolding find_one assert_folder_ownership update_folder change_file_placement
move_file user_id id target db = do
  assert_folder_ownership user_id target db
  f ← find_one user_id id db
  move_found user_id id target db f f.folder_id

-- The outside of a copy: the path that the storage service makes up, whether the bytes are copied,
-- and whether the COMMIT is done, done with its answer lost, or not done.
pub data Commit : Type 0 where
  acknowledged unacknowledged undone : Commit

pub record Outside : Type 0 where
  pub path : String
  pub copy_ok : Bool
  pub commit : Commit

-- What is checked before the bytes are copied.
unfoldable pub check_copy : ℕ → ℕ → Option ℕ → Db → Result (FileRow × ℕ × Text)
unfolding find_one find_user assert_folder_ownership parse_database_size validate_display_name
check_copy user_id id target db = do
  source ← find_one user_id id db
  user ← or_throw (find_user user_id db) (forbidden "User not found")
  assert_folder_ownership user_id target db
  size ← parse_database_size source.size
  name ← validate_display_name source.name
  ok (source, size, name)

-- The transaction.
unfoldable pub insert_copy : String → ℕ → Option ℕ → FileRow → ℕ → Text → Db → Result (Db × FileRow)
insert_copy path user_id target source size name db = do
  db1 ← update_storage_used user_id size db
  chosen ← allocate_namespace_name db1 user_id target name Namespace.file none none
  let f = plain_file db1.next_id chosen (some path) size source.mime_type target user_id
  ok (record db1 { files = f ∷ db1.files; next_id = suc db1.next_id }, f)

abbrev pub object_of : Option String → Disk → Option Bytes
object_of none d = none
object_of (some path) d = d.object path

-- After an error the destination is removed, but not where the row was committed.
abbrev pub settle_copy :
    Commit → String → World → Disk → Result (Db × FileRow) → World × Result FileRow
settle_copy c path w d (err e) = (record w { disk = remove_object path d }, err e)
settle_copy acknowledged path w d (ok (db, f)) = (record { db = db; disk = d }, ok f)
settle_copy unacknowledged path w d (ok (db, f)) =
    (record { db = db; disk = d }, err internal_error)
settle_copy undone path w d (ok (db, f)) =
    (record w { disk = remove_object path d }, err internal_error)

abbrev pub copy_bytes :
    Outside → ℕ → Option ℕ → World → FileRow × ℕ × Text → Option Bytes → World × Result FileRow
copy_bytes o user_id target w found none = (w, err internal_error)
copy_bytes o user_id target w (source, size, name) (some bytes) =
    if o.copy_ok
    then settle_copy o.commit o.path w (link_object o.path bytes w.disk)
        (insert_copy o.path user_id target source size name w.db)
    else (w, err internal_error)

abbrev pub copy_checked :
    Outside → ℕ → Option ℕ → World → Result (FileRow × ℕ × Text) → World × Result FileRow
copy_checked o user_id target w (err e) = (w, err e)
copy_checked o user_id target w (ok (source, size, name)) =
    copy_bytes o user_id target w (source, size, name) (object_of source.storage_path w.disk)

unfoldable pub copy_file : Outside → ℕ → ℕ → Option ℕ → World → World × Result FileRow
unfolding check_copy insert_copy
copy_file o user_id id target w =
    copy_checked o user_id target w (check_copy user_id id target w.db)
