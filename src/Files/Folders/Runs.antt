-- ===== src/Files/Folders/Runs.antt =====
-- The forest over runs of the operations on folders.
use https_github_com_sv3t0v.Common.{ℕ, ◌≡◌, Option}
use https_github_com_sv3t0v.Http.{ok}
use https_github_com_sv3t0v.Text.{Text}
use https_github_com_sv3t0v.Uploads.{FileRow, Db}
use https_github_com_sv3t0v.Files.{create_folder}
use https_github_com_sv3t0v.Files.Folders.{
  FolderChange, update_folder, remove_folder, restore_folder,
}
use https_github_com_sv3t0v.Files.Folders.Writes.{
  IsSound, update_folder-IsSound, remove_folder-IsSound, restore_folder-IsSound,
}
use https_github_com_sv3t0v.Files.Folders.Creation.{create_folder-IsSound}

-- The commit of an operation on folders.
pub data FolderStep (db db' : Db) : Type 0 where
  created :
      (user_id : ℕ) (name : Text) (parent_id : Option ℕ) (m : FileRow)
      → create_folder user_id name parent_id db ≡ ok (db', m)
      → FolderStep db db'
  updated :
      (user_id id : ℕ) (change : FolderChange) (m : FileRow)
      → update_folder user_id id change db ≡ ok (db', m)
      → FolderStep db db'
  trashed : (user_id id : ℕ) → remove_folder user_id id db ≡ ok db' → FolderStep db db'
  restored : (user_id id : ℕ) → restore_folder user_id id db ≡ ok db' → FolderStep db db'

pub data FolderRun (db : Db) : Db → Type 0 where
  start : FolderRun db db
  next : {db1 db' : Db} → FolderRun db db1 → FolderStep db1 db' → FolderRun db db'

FolderStep-IsSound : (db db' : Db) → IsSound db → FolderStep db db' → IsSound db'
FolderStep-IsSound db db' s (FolderStep.created user_id name parent_id m e) =
    create_folder-IsSound user_id name parent_id db db' m s e
FolderStep-IsSound db db' s (FolderStep.updated user_id id change m e) =
    update_folder-IsSound user_id id change db db' m s e
FolderStep-IsSound db db' s (FolderStep.trashed user_id id e) =
    remove_folder-IsSound user_id id db db' s e
FolderStep-IsSound db db' s (FolderStep.restored user_id id e) =
    restore_folder-IsSound user_id id db db' s e

-- Where the parents of every folder lead to the top level and no folder has an id that is still to be
-- given, that is so after any run in which folders are made, renamed, moved, put in the trash and
-- restored: no folder ever comes to lie below itself.
pub FolderRun-IsSound : (db db' : Db) → IsSound db → FolderRun db db' → IsSound db'
FolderRun-IsSound db db' s FolderRun.start = s
FolderRun-IsSound db db' s (FolderRun.next run step) =
    FolderStep-IsSound _ db' (FolderRun-IsSound db _ s run) step
