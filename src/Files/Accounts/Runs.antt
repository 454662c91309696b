-- ===== src/Files/Accounts/Runs.antt =====
-- The operations on files and folders, and the publication of uploads, one after the other.
use https_github_com_sv3t0v.Common.{
  ℕ, ◌≡◌, inl, inr, String, true, false, Option, none, some, List, ◌∷◌, arith, Bool-cases, sum_rows,
}
use https_github_com_sv3t0v.Http.{Result, ok, err, ◌>>=◌, ◌>>◌}
use https_github_com_sv3t0v.Text.{Text}
use https_github_com_sv3t0v.Uploads.{Session, FileRow, Db}
use https_github_com_sv3t0v.Uploads.Complete
use https_github_com_sv3t0v.Uploads.Complete.Publication.{publish, publish-IsPublished}
use https_github_com_sv3t0v.Files.{
  create_file, create_folder, remove_file, find_one, assert_folder_ownership, folder_not_found,
}
use https_github_com_sv3t0v.Files.Folders.{
  Target, keep, FolderChange, update_folder, remove_folder, restore_folder,
}
use https_github_com_sv3t0v.Files.Placement.{
  change_file_placement, display_name, owned_target, update_file, restore_file, to_target,
  move_found, move_file, insert_copy,
}
use https_github_com_sv3t0v.Files.Deletion.{delete_file_row, delete_folder_rows, empty_trash_rows}
use https_github_com_sv3t0v.Files.Deletion.Charges.{IsCharged, charge-IsCharged}
use https_github_com_sv3t0v.Files.Deletion.Sweeps.{
  delete_file_row-IsCharged, delete_folder_rows-IsCharged, empty_trash_rows-IsCharged,
}
use https_github_com_sv3t0v.Files.Accounts.Rewrites.{
  change_file_placement-IsCharged, remove_file-IsCharged,
}
use https_github_com_sv3t0v.Files.Accounts.Inserts.{
  insert_copy-IsCharged, create_file-IsCharged, create_folder-IsCharged,
}
use https_github_com_sv3t0v.Files.Accounts.Mirrors.{
  update_folder-IsCharged, remove_folder-IsCharged, restore_folder-IsCharged,
}

-- The commit of an operation.
pub data Step (db db' : Db) : Type 0 where
  created :
      (path : String) (user_id : ℕ) (name : Text) (size : ℕ) (mime : String) (parent_id : Option ℕ)
      (f : FileRow)
      → create_file path user_id name size mime parent_id db ≡ ok (db', f)
      → Step db db'
  folder_created :
      (user_id : ℕ) (name : Text) (parent_id : Option ℕ) (m : FileRow)
      → create_folder user_id name parent_id db ≡ ok (db', m)
      → Step db db'
  file_updated :
      (user_id id : ℕ) (name : Option Text) (target : Target) (f : FileRow)
      → update_file user_id id name target db ≡ ok (db', f)
      → Step db db'
  folder_updated :
      (user_id id : ℕ) (change : FolderChange) (m : FileRow)
      → update_folder user_id id change db ≡ ok (db', m)
      → Step db db'
  moved :
      (user_id id : ℕ) (target : Option ℕ) (f : FileRow)
      → move_file user_id id target db ≡ ok (db', f)
      → Step db db'
  copied :
      (path : String) (user_id : ℕ) (target : Option ℕ) (source : FileRow) (size : ℕ) (name : Text)
      (f : FileRow)
      → insert_copy path user_id target source size name db ≡ ok (db', f)
      → Step db db'
  file_trashed : (user_id id : ℕ) → remove_file user_id id db ≡ ok db' → Step db db'
  folder_trashed : (user_id id : ℕ) → remove_folder user_id id db ≡ ok db' → Step db db'
  file_restored :
      (user_id id : ℕ) (f : FileRow) → restore_file user_id id db ≡ ok (db', f) → Step db db'
  folder_restored : (user_id id : ℕ) → restore_folder user_id id db ≡ ok db' → Step db db'
  file_deleted :
      (user_id id : ℕ) (gone : List FileRow)
      → delete_file_row user_id id db ≡ ok (db', gone)
      → Step db db'
  folder_deleted :
      (user_id id : ℕ) (gone : List FileRow)
      → delete_folder_rows user_id id db ≡ ok (db', gone)
      → Step db db'
  trash_emptied :
      (user_id : ℕ) (gone : List FileRow)
      → empty_trash_rows user_id db ≡ ok (db', gone)
      → Step db db'
  published :
      (o : Complete.Outside) (s : Session) (path : String) (size : ℕ) (digest : String)
      (f : FileRow)
      → publish o s path size digest db ≡ ok (db', f)
      → Step db db'

pub data Run (db : Db) : Db → Type 0 where
  start : Run db db
  next : {db1 db' : Db} → Run db db1 → Step db1 db' → Run db db'

update_file-IsCharged :
    (user_id id : ℕ) (name : Option Text) (target : Target) (db db' : Db) (f : FileRow)
    → IsCharged db
    → update_file user_id id name target db ≡ ok (db', f)
    → IsCharged db'
unfolding update_file
update_file-IsCharged user_id id name target db db' f c =
    go (display_name name) (owned_target user_id target db)
  where
    go :
        (x : Result (Option Text)) (y : Result (Unit {0}))
        → (x >>= λ display. y >> change_file_placement user_id id display target false db)
          ≡ ok (db', f)
        → IsCharged db'
    go (err a) y e = cc
    go (ok a) (err b) e = cc
    go (ok a) (ok b) e = change_file_placement-IsCharged user_id id a target false db db' f c e

move_found-IsCharged :
    (user_id id : ℕ) (target : Option ℕ) (db db' : Db) (f f' : FileRow) (folder : Option ℕ)
    → IsCharged db
    → move_found user_id id target db f folder ≡ ok (db', f')
    → IsCharged db'
move_found-IsCharged user_id id target db db' f f' none c e = elim (Bool-cases f.is_folder) [
  | inl yes_folder ↦ let clash : err folder_not_found ≡ ok (db', f') = rw yes_folder at e in cc
  | inr plain ↦
      change_file_placement-IsCharged user_id id none (to_target target) false db db' f' c
        (rw plain at e)
]
move_found-IsCharged user_id id target db db' f f' (some d) c e = elim (Bool-cases f.is_folder) [
  | inl yes_folder ↦ update_folder-IsCharged user_id d _ db db' f' c (rw yes_folder at e)
  | inr plain ↦
      change_file_placement-IsCharged user_id id none (to_target target) false db db' f' c
        (rw plain at e)
]

move_file-IsCharged :
    (user_id id : ℕ) (target : Option ℕ) (db db' : Db) (f' : FileRow)
    → IsCharged db
    → move_file user_id id target db ≡ ok (db', f')
    → IsCharged db'
unfolding move_file
move_file-IsCharged user_id id target db db' f' c =
    go (assert_folder_ownership user_id target db) (find_one user_id id db)
  where
    go :
        (x : Result (Unit {0})) (y : Result FileRow)
        → (x >> (y >>= λ f. move_found user_id id target db f f.folder_id)) ≡ ok (db', f')
        → IsCharged db'
    go (err a) y e = cc
    go (ok a) (err b) e = cc
    go (ok a) (ok f) e = move_found-IsCharged user_id id target db db' f f' f.folder_id c e

publish-IsCharged :
    (o : Complete.Outside) (s : Session) (path : String) (size : ℕ) (digest : String) (db db' : Db)
    (f : FileRow)
    → IsCharged db
    → publish o s path size digest db ≡ ok (db', f)
    → IsCharged db'
unfolding sum_rows
publish-IsCharged o s path size digest db db' f c e =
    let p = publish-IsPublished o s path size digest db db' f e in
    charge-IsCharged p.current.user_id size db db' (f ∷ db.files) c (λ id. ground (arith, p.file))
      (ground (arith, p.file, c.no_folder_bytes))
      (elim p.charged [ inl free ↦ inl free | inr (u, found, room, same) ↦ inr (u, found, same) ])
      p.files

Step-IsCharged : (db db' : Db) → IsCharged db → Step db db' → IsCharged db'
unfolding restore_file
Step-IsCharged db db' c (Step.created path user_id name size mime parent_id f e) =
    create_file-IsCharged path user_id name size mime parent_id db db' f c e
Step-IsCharged db db' c (Step.folder_created user_id name parent_id m e) =
    create_folder-IsCharged user_id name parent_id db db' m c e
Step-IsCharged db db' c (Step.file_updated user_id id name target f e) =
    update_file-IsCharged user_id id name target db db' f c e
Step-IsCharged db db' c (Step.folder_updated user_id id change m e) =
    update_folder-IsCharged user_id id change db db' m c e
Step-IsCharged db db' c (Step.moved user_id id target f e) =
    move_file-IsCharged user_id id target db db' f c e
Step-IsCharged db db' c (Step.copied path user_id target source size name f e) =
    insert_copy-IsCharged path user_id target source size name db db' f c e
Step-IsCharged db db' c (Step.file_trashed user_id id e) =
    remove_file-IsCharged user_id id db db' c e
Step-IsCharged db db' c (Step.folder_trashed user_id id e) =
    remove_folder-IsCharged user_id id db db' c e
Step-IsCharged db db' c (Step.file_restored user_id id f e) =
    change_file_placement-IsCharged user_id id none keep true db db' f c e
Step-IsCharged db db' c (Step.folder_restored user_id id e) =
    restore_folder-IsCharged user_id id db db' c e
Step-IsCharged db db' c (Step.file_deleted user_id id gone e) =
    delete_file_row-IsCharged user_id id db db' gone c e
Step-IsCharged db db' c (Step.folder_deleted user_id id gone e) =
    delete_folder_rows-IsCharged user_id id db db' gone c e
Step-IsCharged db db' c (Step.trash_emptied user_id gone e) =
    empty_trash_rows-IsCharged user_id db db' gone c e
Step-IsCharged db db' c (Step.published o s path size digest f e) =
    publish-IsCharged o s path size digest db db' f c e

-- Where every user is charged for the sizes of the user's files, in the trash or not, and mirrors have
-- no bytes, that is so after any run: of creations, copies, publications of uploads, renamings, moves,
-- removals to the trash, restorations, deletions of files and of whole folders, and emptied trashes.
pub Run-IsCharged : (db db' : Db) → IsCharged db → Run db db' → IsCharged db'
Run-IsCharged db db' c Run.start = c
Run-IsCharged db db' c (Run.next run step) = Step-IsCharged _ db' (Run-IsCharged db _ c run) step
