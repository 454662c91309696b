-- ===== src/Sharing/Folders.antt =====
-- backend/src/sharing/sharing.service.ts: what a link to a folder opens, `folderSubtreeSql` and the
-- statements around it.
use https_github_com_sv3t0v.Common.{
  ℕ, zero, suc, String, Bool, true, false, not, ◌&&◌, ◌||◌, Option, none, some, List, [], ◌∷◌, ◌==◌,
  if◌then◌else◌, find_row, length,
}
use https_github_com_sv3t0v.Http.{Result, ok, err, ◌>>◌, throw_if, not_found}
use https_github_com_sv3t0v.Uploads.{User, Folder, FileRow, Db, find_user}
use https_github_com_sv3t0v.Files.{has_file_id, has_folder_id, owned_file, is_mirror_of}
use https_github_com_sv3t0v.Files.Subtree.{has, descendants}
use https_github_com_sv3t0v.Sharing.{ShareLink, has_token, admit}

abbrev pub is_live_mirror : ℕ → ℕ → FileRow → Bool
is_live_mirror user_id id f = is_mirror_of id user_id f && not f.is_deleted

-- A folder of the user that is not in the trash and has a mirror that is not.
abbrev pub is_open_folder : ℕ → List FileRow → Folder → Bool
is_open_folder user_id files f =
    f.user_id == user_id
    && not f.is_deleted
    && elim (find_row (is_live_mirror user_id f.id) files) [ none ↦ false | some m ↦ true ]

-- `valid_root`: the folder and all above it are open, up to the top level. A chain is no longer than
-- there are folders.
unfoldable pub is_open_root : ℕ → ℕ → List FileRow → List Folder → ℕ → Bool
is_open_root zero user_id files folders id = false
is_open_root (suc rounds) user_id files folders id = elim (find_row (has_folder_id id) folders) [
  | none ↦ false
  | some f ↦
      is_open_folder user_id files f
      && elim f.parent_id [ none ↦ true | some p ↦ is_open_root rounds user_id files folders p ]
]

-- `subtree`
unfoldable pub shared_subtree : ℕ → ℕ → Db → List ℕ
unfolding is_open_root descendants
shared_subtree user_id id db =
    if is_open_root (length db.folders) user_id db.files db.folders id
    then descendants (is_open_folder user_id db.files) db.folders (id ∷ [])
    else []

abbrev pub is_shared_file : ℕ → List ℕ → FileRow → Bool
is_shared_file user_id ids f =
    f.user_id == user_id
    && not f.is_deleted
    && not f.is_folder
    && elim f.parent_id [ none ↦ false | some p ↦ has p ids ]

abbrev pub file_in : ℕ → Db → Option FileRow → Option ℕ → Result FileRow
file_in user_id db f none = err (not_found "Shared file not found")
file_in user_id db none (some root) = err (not_found "Shared file not found")
file_in user_id db (some f) (some root) =
    if is_shared_file user_id (shared_subtree user_id root db) f
    then ok f
    else err (not_found "Shared file not found")

-- `root` is the file that the link names. Folder 0 is none.
unfoldable pub resolve_shared_folder_file : ShareLink → FileRow → ℕ → Db → Result FileRow
unfolding shared_subtree owned_file
resolve_shared_folder_file s root id db = do
  throw_if (not root.is_folder || elim root.folder_id [ none ↦ true | some d ↦ d == 0 ])
      (not_found "Shared file not found")
  file_in s.user_id db (owned_file s.user_id id db) root.folder_id

-- `share_context`: the folder that the link opens.
abbrev pub root_of : ShareLink → Option FileRow → Option User → Option ℕ
root_of s none u = none
root_of s (some f) none = none
root_of s (some f) (some u) =
    if f.user_id == s.user_id && f.is_folder && not f.is_deleted && u.is_active
    then f.folder_id
    else none

unfoldable pub shared_root : Db → ShareLink → Option ℕ
unfolding find_user
shared_root db s = root_of s (find_row (has_file_id s.file_id) db.files) (find_user s.user_id db)

abbrev pub file_allowed : ℕ → Db → ShareLink → Bool
file_allowed id db s = elim (shared_root db s) [
  | none ↦ false
  | some root ↦ elim (find_row (has_file_id id) db.files) [
    | none ↦ false
    | some f ↦ is_shared_file s.user_id (shared_subtree s.user_id root db) f
  ]
]

unfoldable pub increment_folder_download_count :
    ℕ → String → ℕ → Db → List ShareLink → List ShareLink × Result ℕ
unfolding shared_root shared_subtree
increment_folder_download_count now token id db shares =
    admit (file_allowed id db) now token (find_row (has_token token) shares) shares

abbrev pub archive_allowed : Db → ShareLink → Bool
archive_allowed db s = elim (shared_root db s) [
  | none ↦ false
  | some root ↦ is_open_root (length db.folders) s.user_id db.files db.folders root
]

unfoldable pub increment_folder_archive_download_count :
    ℕ → String → Db → List ShareLink → List ShareLink × Result ℕ
unfolding shared_root is_open_root
increment_folder_archive_download_count now token db shares =
    admit (archive_allowed db) now token (find_row (has_token token) shares) shares
