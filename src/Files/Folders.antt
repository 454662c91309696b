-- ===== src/Files/Folders.antt =====
-- backend/src/files/files.service.ts: renaming, moving, trashing and restoring a folder.
pub mod Forest
pub mod Steps
pub mod Writes
pub mod Creation
pub mod Runs
use https_github_com_sv3t0v.Common.{
  ℕ, suc, ◌+◌, String, Bool, true, false, not, ◌&&◌, ◌||◌, Option, none, some, List, [], ◌∷◌, ltb,
  leb, ◌==◌, if◌then◌else◌, find_row, set_row, length,
}
use https_github_com_sv3t0v.Http.{
  HttpError, Result, ok, err, ◌>>=◌, ◌>>◌, throw_if, bad_request, not_found,
}
use https_github_com_sv3t0v.Text.{Text, text_eq, is_blank}
use https_github_com_sv3t0v.Uploads.{Folder, FileRow, Db}
use https_github_com_sv3t0v.Uploads.Create.{or_throw}
use https_github_com_sv3t0v.Namespace.{allocate_namespace_name, same_parent, is_live_folder}
use https_github_com_sv3t0v.Namespace
use https_github_com_sv3t0v.Files.{
  has_folder_id, owned_folder, is_mirror_of, folder_not_found, mirror_not_found, save_folder,
  save_mirror, assert_folder_ownership,
}
use https_github_com_sv3t0v.Files.Subtree.{has, descendants}

abbrev pub any_folder : Folder → Bool
any_folder f = true

-- `SELECT id FROM folders WHERE id = $1 AND …`, the start of the recursive query.
abbrev pub base_of : Option Folder → List ℕ
base_of none = []
base_of (some f) = f.id ∷ []

unfoldable pub assert_no_cycle : ℕ → ℕ → Db → Result (Unit {0})
unfolding descendants has
assert_no_cycle folder_id target db =
    throw_if
      (has target (
        descendants any_folder db.folders
          (base_of (find_row (has_folder_id folder_id) db.folders))))
      (bad_request "Cannot move folder into its own subtree")

-- What a request may say of the new parent: nothing, the top level, or a folder.
pub data Target : Type 0 where
  keep top : Target
  into : ℕ → Target

pub record FolderChange : Type 0 where
  pub name : Option Text
  pub parent : Target

abbrev pub target_of : Target → Option ℕ → Option ℕ
target_of keep current = current
target_of top current = none
target_of (into id) current = some id

abbrev pub check_target : ℕ → ℕ → Target → Db → Result (Unit {0})
check_target user_id id keep db = ok tt
check_target user_id id top db = ok tt
check_target user_id id (into target) db =
    assert_folder_ownership user_id (some target) db >> assert_no_cycle id target db

abbrev pub no_cycle_to : ℕ → Target → Db → Result (Unit {0})
no_cycle_to id keep db = ok tt
no_cycle_to id top db = ok tt
no_cycle_to id (into target) db = assert_no_cycle id target db

abbrev pub is_blank_name : Option Text → Bool
is_blank_name none = false
is_blank_name (some name) = is_blank name

-- `data.name && data.name.trim() ? data.name : folder.name`
abbrev pub requested_name : Option Text → Text → Text
requested_name none current = current
requested_name (some name) current = if is_blank name then current else name

abbrev pub placed_folder : Text → Option ℕ → Folder → Folder
placed_folder name parent f = record f { name = name; parent_id = parent }

abbrev pub placed_mirror : Text → Option ℕ → FileRow → FileRow
placed_mirror name parent m = record m { name = name; parent_id = parent }

abbrev pub save_both : ℕ → ℕ → Folder → FileRow → Db → Db
save_both user_id id f m db = save_mirror id user_id m (save_folder f db)

-- The folder and its mirror, both locked.
unfoldable pub folder_and_mirror : ℕ → ℕ → Db → Result (Folder × FileRow)
unfolding owned_folder
folder_and_mirror user_id id db = do
  f ← or_throw (owned_folder user_id id db) folder_not_found
  m ← or_throw (find_row (is_mirror_of id user_id) db.files) mirror_not_found
  ok (f, m)

unfoldable pub place_folder :
    ℕ → ℕ → Text → Option ℕ → Folder → FileRow → Db → Result (Db × FileRow)
place_folder user_id id requested destination f m db =
    if text_eq requested f.name && same_parent destination f.parent_id
    then ok (save_both user_id id f m db, m)
    else (do
      name ←
          allocate_namespace_name db user_id destination requested Namespace.folder (some m.id)
            (some id)
      ok (
        save_both user_id id (placed_folder name destination f) (placed_mirror name destination m)
            db,
        placed_mirror name destination m,
      ))

unfoldable pub update_folder : ℕ → ℕ → FolderChange → Db → Result (Db × FileRow)
unfolding is_blank assert_folder_ownership assert_no_cycle folder_and_mirror place_folder
update_folder user_id id c db = do
  throw_if (is_blank_name c.name) (bad_request "Folder name must not be empty")
  check_target user_id id c.parent db
  (f, m) ← folder_and_mirror user_id id db
  no_cycle_to id c.parent db
  place_folder user_id id (requested_name c.name f.name) (target_of c.parent f.parent_id) f m db

-- To the trash: the folder and its mirror only, not what is in it.
unfoldable pub remove_folder : ℕ → ℕ → Db → Result Db
unfolding folder_and_mirror
remove_folder user_id id db = do
  (f, m) ← folder_and_mirror user_id id db
  ok (save_both user_id id (record f { is_deleted = true }) (record m { is_deleted = true }) db)

-- A restored folder goes to the top level where its parent is not live.
abbrev pub live_parent : ℕ → Option ℕ → Db → Bool
live_parent user_id none db = true
live_parent user_id (some p) db = elim (find_row (is_live_folder p user_id) db.folders) [
  | none ↦ false
  | some g ↦ true
]

abbrev pub revived : ℕ → ℕ → Folder → FileRow → Db → Db
revived user_id id f m db =
    save_both user_id id (record f { is_deleted = false }) (record m { is_deleted = false }) db

unfoldable pub restore_in : ℕ → ℕ → Folder → FileRow → Db → Result Db
restore_in user_id id f m db =
    if f.is_deleted
    then (do
      name ←
          allocate_namespace_name db user_id f.parent_id f.name Namespace.folder (some m.id)
            (some id)
      ok (revived user_id id (record f { name = name }) (record m { name = name }) db))
    else ok (revived user_id id f m db)

unfoldable pub restore_folder : ℕ → ℕ → Db → Result Db
unfolding folder_and_mirror restore_in
restore_folder user_id id db = folder_and_mirror user_id id db >>= λ (f, m).
    if live_parent user_id f.parent_id db
    then restore_in user_id id f m db
    else restore_in user_id id (record f { parent_id = none }) (record m { parent_id = none }) db
