-- ===== src/Files/Deletion.antt =====
-- backend/src/files/files.service.ts: deleting for good, a file, a folder with all below it, or the
-- trash. The rows go in a transaction that gives their bytes back to the user; the objects are
-- removed behind the commit.
pub mod Charges
pub mod Sweeps
pub mod Mirrors
use https_github_com_sv3t0v.Common.{
  ℕ, suc, ◌+◌, ◌-◌, String, Bool, true, false, not, ◌&&◌, ◌||◌, Option, none, some, List, [], ◌∷◌,
  ◌++◌, map, ltb, leb, ◌==◌, if◌then◌else◌, find_row, keep_rows, remove_row, length,
}
use https_github_com_sv3t0v.Http.{
  HttpError, Result, ok, err, ◌>>=◌, ◌>>◌, throw_if, bad_request, forbidden, not_found, max_safe,
  parse_database_size,
}
use https_github_com_sv3t0v.Uploads.{Folder, FileRow, Db, Disk, World}
use https_github_com_sv3t0v.Uploads.Create.{or_throw}
use https_github_com_sv3t0v.Uploads.Complete.{remove_object}
use https_github_com_sv3t0v.Users.{decrement_storage_used}
use https_github_com_sv3t0v.Files.{
  has_file_id, has_folder_id, owned_file, owned_folder, file_not_found, folder_not_found,
  mirror_not_found,
}
use https_github_com_sv3t0v.Files.Subtree.{has, descendants, folder_id}

-- The removal of an object; a failure is logged and passed over.
abbrev pub unlink : (String → Bool) → FileRow → Disk → Disk
unlink can_delete f d = elim f.storage_path [
  | none ↦ d
  | some path ↦ if can_delete path then remove_object path d else d
]

unfoldable pub unlink_all : (String → Bool) → List FileRow → Disk → Disk
unlink_all can_delete [] d = d
unlink_all can_delete (f ∷ fs) d = unlink_all can_delete fs (unlink can_delete f d)

-- The rows, and the files whose objects go.
abbrev pub Deleted : Type 0
Deleted = Db × List FileRow

unfoldable pub delete_file_row : ℕ → ℕ → Db → Result Deleted
unfolding owned_file decrement_storage_used
delete_file_row user_id id db = do
  f ← or_throw (owned_file user_id id db) file_not_found
  db1 ← decrement_storage_used user_id f.size db
  ok (record db1 { files = remove_row (has_file_id id) db1.files }, f ∷ [])

-- `sumFileSizes`
unfoldable pub sum_file_sizes : ℕ → List FileRow → Result ℕ
sum_file_sizes total [] = ok total
sum_file_sizes total (f ∷ fs) =
    throw_if (ltb max_safe f.size || ltb max_safe (total + f.size))
      (bad_request "Invalid file size metadata")
    >> sum_file_sizes (total + f.size) fs

abbrev pub is_user_folder : ℕ → Folder → Bool
is_user_folder user_id f = f.user_id == user_id

-- `In(ids)` of a column that may be null.
abbrev pub in_ids : Option ℕ → List ℕ → Bool
in_ids none ids = false
in_ids (some id) ids = has id ids

abbrev pub is_locked_folder : ℕ → List ℕ → Folder → Bool
is_locked_folder user_id ids f = has f.id ids && f.user_id == user_id

abbrev pub is_file_in : ℕ → List ℕ → FileRow → Bool
is_file_in user_id ids f = f.user_id == user_id && in_ids f.parent_id ids && not f.is_folder

abbrev pub is_mirror_in : ℕ → List ℕ → FileRow → Bool
is_mirror_in user_id ids f = f.user_id == user_id && in_ids f.folder_id ids && f.is_folder

abbrev pub mirrors_folder : ℕ → FileRow → Bool
mirrors_folder id f = in_ids f.folder_id (id ∷ [])

-- Every folder has its mirror.
unfoldable pub all_mirrored : List ℕ → List FileRow → Bool
all_mirrored [] mirrors = true
all_mirrored (id ∷ ids) mirrors = elim (find_row (mirrors_folder id) mirrors) [
  | none ↦ false
  | some m ↦ all_mirrored ids mirrors
]

-- The transaction that deletes folders with the files and mirrors that two conditions pick out.
unfoldable pub delete_rows : ℕ → List ℕ → (FileRow → Bool) → String → Db → Result Deleted
unfolding all_mirrored sum_file_sizes decrement_storage_used
delete_rows user_id ids is_doomed inconsistent db = do
  throw_if (not (length (keep_rows (is_locked_folder user_id ids) db.folders) == length ids))
      (not_found inconsistent)
  let files = keep_rows is_doomed db.files
  let mirrors = keep_rows (is_mirror_in user_id ids) db.files
  throw_if (not (length mirrors == length ids) || not (all_mirrored ids mirrors)) mirror_not_found
  total ← sum_file_sizes 0 files
  db1 ← decrement_storage_used user_id total db
  ok (
    record db1 {
      files = keep_rows (λ f. not (is_doomed f || is_mirror_in user_id ids f)) db1.files;
      folders = keep_rows (λ f. not (has f.id ids)) db1.folders;
    },
    files,
  )

unfoldable pub delete_folder_rows : ℕ → ℕ → Db → Result Deleted
unfolding owned_folder descendants delete_rows
delete_folder_rows user_id id db = do
  f ← or_throw (owned_folder user_id id db) folder_not_found
  let ids = descendants (is_user_folder user_id) db.folders (f.id ∷ [])
  delete_rows user_id ids (is_file_in user_id ids) "Folder subtree is inconsistent" db

abbrev pub is_trashed_folder : ℕ → Folder → Bool
is_trashed_folder user_id f = f.user_id == user_id && f.is_deleted

abbrev pub is_trashed_file : ℕ → FileRow → Bool
is_trashed_file user_id f = f.user_id == user_id && f.is_deleted && not f.is_folder

unfoldable pub empty_trash_rows : ℕ → Db → Result Deleted
unfolding descendants delete_rows
empty_trash_rows user_id db =
    let ids =
      descendants (is_user_folder user_id) db.folders
        (map folder_id (keep_rows (is_trashed_folder user_id) db.folders)) in
    delete_rows user_id ids (λ f. is_trashed_file user_id f || is_file_in user_id ids f)
      "Trash folder subtree is inconsistent" db

-- The objects go after the commit.
abbrev pub finish_delete : (String → Bool) → World → Result Deleted → World × Result (Unit {0})
finish_delete can_delete w (err e) = (w, err e)
finish_delete can_delete w (ok (db, files)) =
    (record { db = db; disk = unlink_all can_delete files w.disk }, ok tt)

unfoldable pub delete_file_permanently : (String → Bool) → ℕ → ℕ → World → World × Result (Unit {0})
unfolding delete_file_row unlink_all
delete_file_permanently can_delete user_id id w =
    finish_delete can_delete w (delete_file_row user_id id w.db)

unfoldable pub delete_folder_permanently :
    (String → Bool) → ℕ → ℕ → World → World × Result (Unit {0})
unfolding delete_folder_rows unlink_all
delete_folder_permanently can_delete user_id id w =
    finish_delete can_delete w (delete_folder_rows user_id id w.db)

unfoldable pub empty_trash : (String → Bool) → ℕ → World → World × Result (Unit {0})
unfolding empty_trash_rows unlink_all
empty_trash can_delete user_id w = finish_delete can_delete w (empty_trash_rows user_id w.db)
