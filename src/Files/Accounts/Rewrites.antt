-- ===== src/Files/Accounts/Rewrites.antt =====
-- Renaming, moving, trashing and restoring keep what users are charged for.
use https_github_com_sv3t0v.Common.{
  ℕ, ◌≡◌, refl, subst, inl, inr, Bool, true, not, ◌&&◌, ◌||◌, Option, none, some, arith,
  if◌then◌else◌, find_row, Bool-cases, find_row-holds,
}
use https_github_com_sv3t0v.Http.{Result, ok, err, ◌>>=◌, ◌>>◌, throw_if, bad_request}
use https_github_com_sv3t0v.Text.{Text}
use https_github_com_sv3t0v.Uploads.{FileRow, Db}
use https_github_com_sv3t0v.Uploads.Create.{or_throw}
use https_github_com_sv3t0v.Namespace.{allocate_namespace_name, same_parent}
use https_github_com_sv3t0v.Namespace
use https_github_com_sv3t0v.Files.{
  has_file_id, owned_file, file_not_found, save_file, find_one, remove_file,
}
use https_github_com_sv3t0v.Files.Folders.{Target}
use https_github_com_sv3t0v.Files.Placement.{
  differs, name_or, destination_of, placed_file, change_file_placement,
}
use https_github_com_sv3t0v.Files.Deletion.Charges.{IsCharged}
use https_github_com_sv3t0v.Files.Deletion.Sweeps.{owned_file-found}
use https_github_com_sv3t0v.Files.Accounts.{rewrite-IsCharged}

pub change_file_placement-IsCharged :
    (user_id id : ℕ) (name : Option Text) (target : Target) (restore : Bool) (db db' : Db)
    (f' : FileRow)
    → IsCharged db
    → change_file_placement user_id id name target restore db ≡ ok (db', f')
    → IsCharged db'
unfolding change_file_placement
change_file_placement-IsCharged user_id id name target restore db db' f' c = go _ refl
  where
    written :
        (f : FileRow) (x : Result Text)
        → owned_file user_id id db ≡ some f
        → ◌>>=◌ {T = Db × FileRow} x (λ chosen.
          let g = placed_file chosen (destination_of user_id target restore f db) restore f in
          ok (save_file g db, g))
          ≡ ok (db', f')
        → IsCharged db'
    written f (err e) h k = cc
    written f (ok chosen) h k =
        let (found, mine) = owned_file-found user_id id db f h in
        let key = find_row-holds (has_file_id id) f db.files found in
        let at_key : find_row (has_file_id f.id) db.files ≡ some f =
          subst (λ i. find_row (has_file_id i) db.files ≡ some f) (ground (arith, key)) found in
        rewrite-IsCharged (has_file_id f.id) f
          (placed_file chosen (destination_of user_id target restore f db) restore f) db db' c
          at_key (record { size = refl; user = refl; kind = refl }) (ground (arith, k))
          (ground (arith, k))

    checked :
        (f : FileRow) (y : Result (Unit {0})) (x : Result Text)
        → owned_file user_id id db ≡ some f
        → ◌>>◌ {T = Db × FileRow} y (
            x >>= λ chosen.
            let g = placed_file chosen (destination_of user_id target restore f db) restore f in
            ok (save_file g db, g))
          ≡ ok (db', f')
        → IsCharged db'
    checked f (err e) x h k = cc
    checked f (ok t) x h k = written f x h k

    go :
        (o : Option FileRow)
        → owned_file user_id id db ≡ o
        → ◌>>=◌ {T = Db × FileRow} (or_throw o file_not_found) (λ f.
          throw_if f.is_folder (bad_request "Cannot update folder via files endpoint")
          >> ((if (restore && f.is_deleted)
                  || differs name f.name
                  || not (same_parent (destination_of user_id target restore f db) f.parent_id)
                then allocate_namespace_name db user_id
                    (destination_of user_id target restore f db)
                    (name_or name f.name)
                    Namespace.file
                    (some id)
                    none
                else ok f.name)
              >>= λ chosen.
                  let g =
                    placed_file chosen (destination_of user_id target restore f db) restore f in
                  ok (save_file g db, g)))
          ≡ ok (db', f')
        → IsCharged db'
    go none h e = cc
    go (some f) h e = checked f _ _ h e

pub remove_file-IsCharged :
    (user_id id : ℕ) (db db' : Db)
    → IsCharged db
    → remove_file user_id id db ≡ ok db'
    → IsCharged db'
unfolding remove_file find_one
remove_file-IsCharged user_id id db db' c = go _ refl
  where
    go :
        (o : Option FileRow)
        → owned_file user_id id db ≡ o
        → ◌>>=◌ {T = Db} (or_throw o file_not_found) (λ f.
          throw_if f.is_folder (bad_request "Cannot delete folder via files endpoint")
          >> ok (save_file (record f { is_deleted = true }) db))
          ≡ ok db'
        → IsCharged db'
    go none h e = cc
    go (some f) h e =
        let (found, mine) = owned_file-found user_id id db f h in
        let key = find_row-holds (has_file_id id) f db.files found in
        let at_key : find_row (has_file_id f.id) db.files ≡ some f =
          subst (λ i. find_row (has_file_id i) db.files ≡ some f) (ground (arith, key)) found in
        elim (Bool-cases f.is_folder) [
          | inl folder ↦ ground (arith, folder, e)
          | inr plain ↦
              rewrite-IsCharged (has_file_id f.id) f (record f { is_deleted = true }) db db' c
                at_key (record { size = refl; user = refl; kind = refl }) (ground (arith, e, plain))
                (ground (arith, e, plain))
        ]
