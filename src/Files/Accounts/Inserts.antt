-- ===== src/Files/Accounts/Inserts.antt =====
-- New files, folders and copies, and uploads that are published, keep what users are charged for.
use https_github_com_sv3t0v.Common.{
  ℕ, suc, ◌≡◌, refl, inl, String, Option, none, some, ◌∷◌, arith, sum_rows,
}
use https_github_com_sv3t0v.Http.{Result, ok, err, ◌>>=◌, ◌>>◌, forbidden}
use https_github_com_sv3t0v.Text.{Text}
use https_github_com_sv3t0v.Uploads.{User, FileRow, Db, find_user}
use https_github_com_sv3t0v.Uploads.Create.{or_throw}
use https_github_com_sv3t0v.Namespace.{allocate_namespace_name, same_parent}
use https_github_com_sv3t0v.Namespace
use https_github_com_sv3t0v.Users.{update_storage_used}
use https_github_com_sv3t0v.Files.{
  validate_display_name, assert_folder_ownership, plain_file, create_file, create_folder,
  new_folder, new_mirror,
}
use https_github_com_sv3t0v.Files.Placement.{insert_copy}
use https_github_com_sv3t0v.Files.Deletion.Charges.{IsCharged, charge-IsCharged}
use https_github_com_sv3t0v.Files.Accounts.{insert-IsCharged, charge-files}

pub insert_copy-IsCharged :
    (path : String) (user_id : ℕ) (target : Option ℕ) (source : FileRow) (size : ℕ) (name : Text)
    (db db' : Db) (f : FileRow)
    → IsCharged db
    → insert_copy path user_id target source size name db ≡ ok (db', f)
    → IsCharged db'
unfolding insert_copy
insert_copy-IsCharged path user_id target source size name db db' f c = go _ refl
  where
    named :
        (db1 : Db) (x : Result Text)
        → update_storage_used user_id size db ≡ ok db1
        → ◌>>=◌ {T = Db × FileRow} x (λ chosen.
          let g = plain_file db1.next_id chosen (some path) size source.mime_type target user_id in
          ok (record db1 { files = g ∷ db1.files; next_id = suc db1.next_id }, g))
          ≡ ok (db', f)
        → IsCharged db'
    named db1 (err e) h k = cc
    named db1 (ok chosen) h k =
        let g = plain_file db1.next_id chosen (some path) size source.mime_type target user_id in
        insert-IsCharged g db db db1 db' c refl refl h (ground (arith, k))
          (ground (arith, k, charge-files user_id size db db1 h))

    go :
        (r : Result Db)
        → update_storage_used user_id size db ≡ r
        → ◌>>=◌ {T = Db × FileRow} r (λ db1.
          allocate_namespace_name db1 user_id target name Namespace.file none none >>= λ chosen.
          let g = plain_file db1.next_id chosen (some path) size source.mime_type target user_id in
          ok (record db1 { files = g ∷ db1.files; next_id = suc db1.next_id }, g))
          ≡ ok (db', f)
        → IsCharged db'
    go (err e) h k = cc
    go (ok db1) h k = named db1 _ h k

pub create_file-IsCharged :
    (path : String) (user_id : ℕ) (name : Text) (size : ℕ) (mime : String) (parent_id : Option ℕ)
    (db db' : Db) (f : FileRow)
    → IsCharged db
    → create_file path user_id name size mime parent_id db ≡ ok (db', f)
    → IsCharged db'
unfolding create_file
create_file-IsCharged path user_id name size mime parent_id db db' f c =
    go (validate_display_name name) (or_throw (find_user user_id db) (forbidden "User not found"))
      (assert_folder_ownership user_id parent_id db)
      (λ display_name.
        allocate_namespace_name db user_id parent_id display_name Namespace.file none none)
  where
    insertion : Text → Db
    insertion chosen = record db {
      files =
          plain_file db.next_id chosen (some path) size (some mime) parent_id user_id ∷ db.files;
      next_id = suc db.next_id;
    }

    paid :
        (chosen : Text) (r : Result Db)
        → update_storage_used user_id size (insertion chosen) ≡ r
        → ◌>>=◌ {T = Db × FileRow} r (λ db1.
          ok (db1, plain_file db.next_id chosen (some path) size (some mime) parent_id user_id))
          ≡ ok (db', f)
        → IsCharged db'
    paid chosen (err x) h k = cc
    paid chosen (ok db1) h k =
        insert-IsCharged
          (plain_file db.next_id chosen (some path) size (some mime) parent_id user_id) db
          (insertion chosen) db1 db' c refl refl h (ground (arith, k))
          (ground (arith, k, charge-files user_id size (insertion chosen) db1 h))

    go :
        (x : Result Text) (y : Result User) (z : Result (Unit {0})) (w : Text → Result Text)
        → ◌>>=◌ {T = Db × FileRow} x (λ display_name. y >>= λ u.
            z
            >> (w display_name >>= λ chosen.
                update_storage_used user_id size (insertion chosen) >>= λ db1.
                ok (
                  db1,
                  plain_file db.next_id chosen (some path) size (some mime) parent_id user_id,
                )))
          ≡ ok (db', f)
        → IsCharged db'
    go (err a) y z w e = cc
    go (ok a) (err b) z w e = cc
    go (ok a) (ok b) (err d) w e = cc
    go (ok a) (ok b) (ok d) w e = chosen_of (w a) e
      where
        chosen_of :
            (x : Result Text)
            → ◌>>=◌ {T = Db × FileRow} x (λ chosen.
              update_storage_used user_id size (insertion chosen) >>= λ db1.
              ok (db1, plain_file db.next_id chosen (some path) size (some mime) parent_id user_id))
              ≡ ok (db', f)
            → IsCharged db'
        chosen_of (err x) k = cc
        chosen_of (ok chosen) k = paid chosen _ refl k

pub create_folder-IsCharged :
    (user_id : ℕ) (name : Text) (parent_id : Option ℕ) (db db' : Db) (m : FileRow)
    → IsCharged db
    → create_folder user_id name parent_id db ≡ ok (db', m)
    → IsCharged db'
unfolding create_folder sum_rows
create_folder-IsCharged user_id name parent_id db db' m c =
    go _ _ (allocate_namespace_name db user_id parent_id name Namespace.folder none none)
  where
    go :
        (x y : Result (Unit {0})) (z : Result Text)
        → ◌>>◌ {T = Db × FileRow} x (
            y
            >> (z >>= λ chosen.
                let f = new_folder db.next_id chosen parent_id user_id in
                let n = new_mirror (suc db.next_id) f.id chosen parent_id user_id in
                ok (
                  record db {
                    folders = f ∷ db.folders;
                    files = n ∷ db.files;
                    next_id = suc (suc db.next_id);
                  },
                  n,
                )))
          ≡ ok (db', m)
        → IsCharged db'
    go (err a) y z e = cc
    go (ok a) (err b) z e = cc
    go (ok a) (ok b) (err d) e = cc
    go (ok a) (ok b) (ok chosen) e =
        let rows : db'.files
            ≡ new_mirror (suc db.next_id) db.next_id chosen parent_id user_id ∷ db.files =
          ground (arith, e) in
        let users : db'.users ≡ db.users = ground (arith, e) in
        charge-IsCharged user_id 0 db db'
          (new_mirror (suc db.next_id) db.next_id chosen parent_id user_id ∷ db.files) c
          (λ id. ground arith) (ground (arith, c.no_folder_bytes)) (inl (refl, users)) rows
