-- ===== src/Files/Examples.antt =====
-- Runs of the operations on files and folders, and instances of the theorems on them.
use https_github_com_sv3t0v.Common.{
  ◌≡◌, ◌↔◌, refl, true, false, not, none, some, [], ◌∷◌, arith, find_row, set_row, keep_rows,
  remove_row, sum_rows,
}
use https_github_com_sv3t0v.Http.{err, ok, parse_database_size}
use https_github_com_sv3t0v.Text.{
  Text, text_eq, some_unit, is_blank, is_space, trim, trim_start, trim_end,
}
use https_github_com_sv3t0v.Uploads.{User, Folder, FileRow, Db, Disk, World, find_user}
use https_github_com_sv3t0v.Namespace.{
  allocate_namespace_name, choose_name, names_in, is_occupied, lock_parent,
}
use https_github_com_sv3t0v.Users.{update_storage_used, decrement_storage_used}
use https_github_com_sv3t0v.Files.{
  is_mirror_of, mirror_not_found, validate_display_name, assert_folder_ownership, owned_file,
  owned_folder, find_one, plain_file, create_file, new_folder, new_mirror, create_folder,
  remove_file,
}
use https_github_com_sv3t0v.Files.Subtree.{has, grow, descendants, Below, descendants-Below}
use https_github_com_sv3t0v.Files.Folders.{
  assert_no_cycle, into, folder_and_mirror, place_folder, update_folder, remove_folder,
  restore_folder,
}
use https_github_com_sv3t0v.Files.Folders.Forest.{root}
use https_github_com_sv3t0v.Files.Folders.Writes.{IsSound}
use https_github_com_sv3t0v.Files.Folders.Runs.{
  FolderRun, updated, trashed as trashed_folder, FolderRun-IsSound,
}
use https_github_com_sv3t0v.Files.Placement.{acknowledged, Outside}
use https_github_com_sv3t0v.Files.Deletion.{
  delete_file_row, sum_file_sizes, all_mirrored, delete_rows, delete_folder_rows, empty_trash_rows,
}
use https_github_com_sv3t0v.Files.Deletion.Charges.{IsCharged}
use https_github_com_sv3t0v.Files.Deletion.Mirrors.{delete_file_row-strands}
use https_github_com_sv3t0v.Files.Accounts.Runs.{
  folder_created, created, file_trashed, folder_deleted, start, next, Run-IsCharged,
}

abbrev user : User
user = record { id = 1; is_active = true; storage_quota = 100; storage_used = 0 }

abbrev empty : Db
empty = record {
  users = user ∷ [];
  sessions = [];
  chunks = [];
  folders = [];
  files = [];
  next_id = 7;
}

abbrev folder_name : Text
folder_name = 97 ∷ []

abbrev file_name : Text
file_name = 98 ∷ []

abbrev folder : Folder
folder = new_folder 7 folder_name none 1

abbrev mirror : FileRow
mirror = new_mirror 8 7 folder_name none 1

abbrev with_folder : Db
with_folder = record empty { folders = folder ∷ []; files = mirror ∷ []; next_id = 9 }

abbrev note : FileRow
note = plain_file 9 file_name (some "p") 6 (some "text/plain") (some 7) 1

abbrev with_file : Db
with_file = record with_folder {
  users = record user { storage_used = 6 } ∷ [];
  files = note ∷ mirror ∷ [];
  next_id = 10;
}

abbrev trashed : Db
trashed = record with_file { files = record note { is_deleted = true } ∷ mirror ∷ [] }

abbrev swept : Db
swept = record empty { next_id = 10 }

test_create_folder : create_folder 1 folder_name none empty ≡ ok (with_folder, mirror)
unfolding create_folder is_blank is_space assert_folder_ownership allocate_namespace_name
    choose_name names_in is_occupied lock_parent keep_rows text_eq find_row
test_create_folder = refl

test_create_file :
    create_file "p" 1 file_name 6 "text/plain" (some 7) with_folder ≡ ok (with_file, note)
unfolding create_file validate_display_name trim trim_start trim_end is_space some_unit text_eq
    assert_folder_ownership owned_folder find_user allocate_namespace_name choose_name names_in
    is_occupied lock_parent keep_rows find_row set_row update_storage_used parse_database_size
test_create_file = refl

test_remove_file : remove_file 1 9 with_file ≡ ok trashed
unfolding remove_file find_one owned_file find_row set_row
test_remove_file = refl

test_delete_folder :
    delete_folder_rows 1 7 trashed ≡ ok (swept, record note { is_deleted = true } ∷ [])
unfolding delete_folder_rows delete_rows owned_folder find_row set_row keep_rows descendants grow
    has all_mirrored sum_file_sizes decrement_storage_used parse_database_size find_user
test_delete_folder = refl

empty-IsCharged : IsCharged empty
unfolding find_user find_row sum_rows
empty-IsCharged = record { no_folder_bytes = refl; charged = λ id u e. ground (arith, e) }

Run-IsCharged_example : IsCharged swept
Run-IsCharged_example = Run-IsCharged empty swept empty-IsCharged (
    next
      (next
        (next (next start (folder_created 1 folder_name none mirror test_create_folder))
          (created "p" 1 file_name 6 "text/plain" (some 7) note test_create_file))
        (file_trashed 1 9 test_remove_file))
      (folder_deleted 1 7 (record note { is_deleted = true } ∷ []) test_delete_folder))

-- A folder in a folder.
abbrev second : Folder
second = new_folder 11 file_name none 1

abbrev second_mirror : FileRow
second_mirror = new_mirror 12 11 file_name none 1

abbrev two_folders : Db
two_folders = record empty {
  folders = second ∷ folder ∷ [];
  files = second_mirror ∷ mirror ∷ [];
  next_id = 13;
}

abbrev nested : Db
nested = record two_folders {
  folders = record second { parent_id = some 7 } ∷ folder ∷ [];
  files = record second_mirror { parent_id = some 7 } ∷ mirror ∷ [];
}

test_update_folder :
    update_folder 1 11 (record { name = none; parent = into 7 }) two_folders
    ≡ ok (nested, record second_mirror { parent_id = some 7 })
unfolding update_folder assert_folder_ownership assert_no_cycle descendants grow has owned_folder
    folder_and_mirror place_folder allocate_namespace_name choose_name names_in is_occupied
    lock_parent keep_rows find_row set_row text_eq is_blank
test_update_folder = refl

two_folders-IsSound : IsSound two_folders
unfolding find_row
two_folders-IsSound = record {
  forest = λ id f e. root f e (ground (arith, e));
  fresh = λ n le. ground (arith, le);
}

abbrev nested_trashed : Db
nested_trashed = record nested {
  folders = record second { parent_id = some 7; is_deleted = true } ∷ folder ∷ [];
  files = record second_mirror { parent_id = some 7; is_deleted = true } ∷ mirror ∷ [];
}

test_remove_folder : remove_folder 1 11 nested ≡ ok nested_trashed
unfolding remove_folder folder_and_mirror owned_folder find_row set_row
test_remove_folder = refl

FolderRun-IsSound_example : IsSound nested_trashed
FolderRun-IsSound_example = FolderRun-IsSound two_folders nested_trashed two_folders-IsSound (
    FolderRun.next
      (FolderRun.next FolderRun.start (
        updated 1 11 (record { name = none; parent = into 7 })
          (record second_mirror { parent_id = some 7 }) test_update_folder))
      (trashed_folder 1 11 test_remove_folder))

descendants-Below_example :
    (has 11 (descendants (λ f. not f.is_deleted) nested.folders (7 ∷ [])) ≡ true)
    ↔ Below (λ f. not f.is_deleted) nested.folders (7 ∷ []) 11
descendants-Below_example = descendants-Below (λ f. not f.is_deleted) nested.folders (7 ∷ []) 11

-- A trashed folder in a trashed folder: each is deleted once.
abbrev both_trashed : Db
both_trashed = record nested {
  folders =
      record second { parent_id = some 7; is_deleted = true }
      ∷ record folder { is_deleted = true }
      ∷ [];
}

test_empty_trash : empty_trash_rows 1 both_trashed ≡ ok (record empty { next_id = 13 }, [])
unfolding empty_trash_rows delete_rows find_row set_row keep_rows descendants grow has all_mirrored
    sum_file_sizes decrement_storage_used parse_database_size find_user
test_empty_trash = refl

abbrev disk : Disk
disk = record {
  has_dir = λ u. false;
  part = λ u i. none;
  attempts = λ u. [];
  object = λ p. some (1 ∷ 2 ∷ []);
}

abbrev copying : Outside
copying = record { path = "q"; copy_ok = true; commit = acknowledged }

abbrev before_copy : World
before_copy = record { db = with_file; disk = disk }

-- The mirror of a folder is deleted.
abbrev stranded : Db
stranded = record with_folder { files = [] }

test_owned : owned_file 1 8 with_folder ≡ some mirror
unfolding owned_file find_row
test_owned = refl

test_only : keep_rows (is_mirror_of 7 1) with_folder.files ≡ mirror ∷ []
unfolding keep_rows
test_only = refl

test_folder : owned_folder 1 7 with_folder ≡ some folder
unfolding owned_folder find_row
test_folder = refl

test_delete_mirror : delete_file_row 1 8 with_folder ≡ ok (stranded, mirror ∷ [])
unfolding delete_file_row owned_file decrement_storage_used parse_database_size find_row remove_row
    find_user
test_delete_mirror = refl

delete_file_row-strands_example :
    (db' : Db) × (delete_file_row 1 8 with_folder ≡ ok (db', mirror ∷ []))
    × (owned_folder 1 7 db' ≡ some folder)
    × (remove_folder 1 7 db' ≡ err mirror_not_found)
    × (restore_folder 1 7 db' ≡ err mirror_not_found)
delete_file_row-strands_example =
    delete_file_row-strands 1 8 7 mirror folder with_folder test_owned refl test_only test_folder
