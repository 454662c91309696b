-- ===== src/Files.antt =====
-- backend/src/files/files.service.ts: the files and folders of a user. A folder is a row of its own
-- and a row among the files, its mirror. A transaction under the lock of the user's row is one step.
-- Left out: the listings with their order and search patterns, and the time stamps.
pub mod Placement
pub mod Folders
pub mod Subtree
pub mod Deletion
pub mod Accounts
mod Examples
use https_github_com_sv3t0v.Common.{
  ℕ, suc, ◌+◌, String, Bool, true, false, not, ◌&&◌, ◌||◌, Option, none, some, List, [], ◌∷◌, ltb,
  leb, ◌==◌, if◌then◌else◌, find_row, set_row, length,
}
use https_github_com_sv3t0v.Http.{
  HttpError, Result, ok, err, ◌>>=◌, ◌>>◌, throw_if, bad_request, forbidden, not_found,
  parse_database_size,
}
use https_github_com_sv3t0v.Text.{Text, units, text_eq, some_unit, is_blank, trim}
use https_github_com_sv3t0v.Uploads.{User, Folder, FileRow, Db, find_user}
use https_github_com_sv3t0v.Uploads.Create.{or_throw}
use https_github_com_sv3t0v.Namespace.{allocate_namespace_name}
use https_github_com_sv3t0v.Namespace
use https_github_com_sv3t0v.Users.{update_storage_used}

abbrev pub has_file_id : ℕ → FileRow → Bool
has_file_id id f = f.id == id

abbrev pub has_folder_id : ℕ → Folder → Bool
has_folder_id id f = f.id == id

-- `{ id, userId }`. The id is the primary key: its row is the answer if the rest holds of it.
abbrev pub file_if_owned : ℕ → Option FileRow → Option FileRow
file_if_owned user_id none = none
file_if_owned user_id (some f) = if f.user_id == user_id then some f else none

abbrev pub folder_if_owned : ℕ → Option Folder → Option Folder
folder_if_owned user_id none = none
folder_if_owned user_id (some f) = if f.user_id == user_id then some f else none

unfoldable pub owned_file : ℕ → ℕ → Db → Option FileRow
owned_file user_id id db = file_if_owned user_id (find_row (has_file_id id) db.files)

unfoldable pub owned_folder : ℕ → ℕ → Db → Option Folder
owned_folder user_id id db = folder_if_owned user_id (find_row (has_folder_id id) db.folders)

-- `{ folderId: id, userId, isFolder: true }`
abbrev pub is_mirror_of : ℕ → ℕ → FileRow → Bool
is_mirror_of id user_id f =
    elim f.folder_id [ none ↦ false | some d ↦ d == id ] && f.user_id == user_id && f.is_folder

abbrev pub file_not_found : HttpError
file_not_found = not_found "File not found"

abbrev pub folder_not_found : HttpError
folder_not_found = not_found "Folder not found"

abbrev pub mirror_not_found : HttpError
mirror_not_found = not_found "Folder mirror not found"

abbrev pub save_file : FileRow → Db → Db
save_file f db = record db { files = set_row (has_file_id f.id) f db.files }

abbrev pub save_folder : Folder → Db → Db
save_folder f db = record db { folders = set_row (has_folder_id f.id) f db.folders }

-- A mirror is written where it was found.
abbrev pub save_mirror : ℕ → ℕ → FileRow → Db → Db
save_mirror id user_id m db = record db { files = set_row (is_mirror_of id user_id) m db.files }

abbrev pub is_slash : ℕ → Bool
is_slash c = c == b'/' || c == b'\\'

unfoldable pub validate_display_name : Text → Result Text
unfolding trim text_eq some_unit units
validate_display_name name =
    let trimmed = trim name in
    throw_if
      (length trimmed == 0
        || ltb 255 (length trimmed)
        || some_unit is_slash trimmed
        || some_unit (λ c. ltb c 32 || c == 127) trimmed
        || text_eq trimmed (units ".")
        || text_eq trimmed (units ".."))
      (bad_request "Invalid file name")
    >> ok trimmed

-- `if (!folderId) return`: no folder, or folder 0. A deleted folder passes.
unfoldable pub assert_folder_ownership : ℕ → Option ℕ → Db → Result (Unit {0})
unfolding owned_folder
assert_folder_ownership user_id none db = ok tt
assert_folder_ownership user_id (some id) db =
    if id == 0
    then ok tt
    else or_throw (owned_folder user_id id db)
        (forbidden "Target folder not found or access denied")
      >>= λ f. ok tt

unfoldable pub find_one : ℕ → ℕ → Db → Result FileRow
unfolding owned_file
find_one user_id id db = or_throw (owned_file user_id id db) file_not_found

abbrev pub plain_file : ℕ → Text → Option String → ℕ → Option String → Option ℕ → ℕ → FileRow
plain_file id name path size mime parent_id user_id = record {
  id = id;
  name = name;
  storage_path = path;
  size = size;
  mime_type = mime;
  checksum = none;
  is_folder = false;
  is_deleted = false;
  parent_id = parent_id;
  folder_id = none;
  upload_id = none;
  user_id = user_id;
}

-- `path` is what the storage service makes up for the object.
unfoldable pub create_file : String → ℕ → Text → ℕ → String → Option ℕ → Db → Result (Db × FileRow)
unfolding validate_display_name assert_folder_ownership find_user
create_file path user_id name size mime parent_id db = do
  display_name ← validate_display_name name
  user ← or_throw (find_user user_id db) (forbidden "User not found")
  assert_folder_ownership user_id parent_id db
  chosen ← allocate_namespace_name db user_id parent_id display_name Namespace.file none none
  let f = plain_file db.next_id chosen (some path) size (some mime) parent_id user_id
  db' ←
      update_storage_used user_id size
        (record db { files = f ∷ db.files; next_id = suc db.next_id })
  ok (db', f)

abbrev pub new_folder : ℕ → Text → Option ℕ → ℕ → Folder
new_folder id name parent_id user_id = record {
  id = id;
  name = name;
  parent_id = parent_id;
  is_deleted = false;
  user_id = user_id;
}

abbrev pub new_mirror : ℕ → ℕ → Text → Option ℕ → ℕ → FileRow
new_mirror id folder_id name parent_id user_id = record {
  id = id;
  name = name;
  storage_path = none;
  size = 0;
  mime_type = none;
  checksum = none;
  is_folder = true;
  is_deleted = false;
  parent_id = parent_id;
  folder_id = some folder_id;
  upload_id = none;
  user_id = user_id;
}

unfoldable pub create_folder : ℕ → Text → Option ℕ → Db → Result (Db × FileRow)
unfolding is_blank assert_folder_ownership
create_folder user_id name parent_id db = do
  throw_if (is_blank name) (bad_request "Folder name must not be empty")
  assert_folder_ownership user_id parent_id db
  chosen ← allocate_namespace_name db user_id parent_id name Namespace.folder none none
  let f = new_folder db.next_id chosen parent_id user_id
  let m = new_mirror (suc db.next_id) f.id chosen parent_id user_id
  ok (
    record db { folders = f ∷ db.folders; files = m ∷ db.files; next_id = suc (suc db.next_id) },
    m,
  )

-- To the trash.
unfoldable pub remove_file : ℕ → ℕ → Db → Result Db
unfolding find_one
remove_file user_id id db = do
  file ← find_one user_id id db
  throw_if file.is_folder (bad_request "Cannot delete folder via files endpoint")
  ok (save_file (record file { is_deleted = true }) db)
