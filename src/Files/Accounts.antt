-- ===== src/Files/Accounts.antt =====
-- Rows that are written anew, and rows that are put in front, keep what users are charged for.
pub mod Rewrites
pub mod Inserts
pub mod Mirrors
pub mod Runs
use https_github_com_sv3t0v.Common.{
  ℕ, suc, ◌+◌, ◌≤◌, ◌≡◌, ◌⊎◌, refl, sym, ap, subst, ◌∙◌, inl, inr, String, Bool, true, false, not,
  ◌&&◌, ◌||◌, Option, none, some, List, [], ◌∷◌, arith, ltb, leb, ◌==◌, if◌then◌else◌, find_row,
  set_row, sum_rows, Bool-cases, find_row-holds, sum_rows-set_row,
}
use https_github_com_sv3t0v.Http.{
  HttpError, Result, ok, err, ◌>>=◌, ◌>>◌, throw_if, bad_request, forbidden, parse_database_size,
}
use https_github_com_sv3t0v.Text.{Text, text_eq}
use https_github_com_sv3t0v.Uploads.{User, Folder, FileRow, Db, has_id, find_user}
use https_github_com_sv3t0v.Uploads.Create.{or_throw}
use https_github_com_sv3t0v.Namespace.{allocate_namespace_name, same_parent}
use https_github_com_sv3t0v.Namespace
use https_github_com_sv3t0v.Users.{update_storage_used, set_user}
use https_github_com_sv3t0v.Users.Storage.{Charged, update_storage_used-Charged}
use https_github_com_sv3t0v.Files.{
  has_file_id, owned_file, is_mirror_of, file_not_found, save_file, validate_display_name,
  assert_folder_ownership, find_one, plain_file, create_file, create_folder, new_mirror,
  remove_file,
}
use https_github_com_sv3t0v.Files.Folders.{
  Target, save_both, folder_and_mirror, placed_folder, placed_mirror, place_folder, remove_folder,
  revived, restore_in, restore_folder, live_parent,
}
use https_github_com_sv3t0v.Files.Folders.Steps.{IsPair, folder_and_mirror-IsPair}
use https_github_com_sv3t0v.Files.Placement.{
  differs, name_or, destination_of, placed_file, change_file_placement, check_copy, insert_copy,
}
use https_github_com_sv3t0v.Files.Deletion.Charges.{
  charge_of, folder_bytes, IsCharged, Costs, charge-IsCharged,
}
use https_github_com_sv3t0v.Files.Deletion.Sweeps.{owned_file-found}

-- A row that is written anew costs what it cost.
pub record Recosts (f f' : FileRow) : Type 0 where
  pub size : f'.size ≡ f.size
  pub user : f'.user_id ≡ f.user_id
  pub kind : f'.is_folder ≡ f.is_folder

pub rewrite-IsCharged :
    (p : FileRow → Bool) (f f' : FileRow) (db db' : Db)
    → IsCharged db
    → find_row p db.files ≡ some f
    → Recosts f f'
    → db'.users ≡ db.users
    → db'.files ≡ set_row p f' db.files
    → IsCharged db'
unfolding find_user
rewrite-IsCharged p f f' db db' c found same users rows = record {
  no_folder_bytes =
      let sum = sum_rows-set_row folder_bytes p f f' db.files found in
      ground (arith, sum, same.size, same.kind, c.no_folder_bytes, rows);
  charged = λ id u there.
      let before = subst (λ us. find_row (has_id id) us ≡ some u) users there in
      let sum = sum_rows-set_row (charge_of id) p f f' db.files found in
      ground (arith, sum, same.size, same.user, same.kind, c.charged id u before, rows);
}

-- A file that is put in front of the others costs its user what the user is charged.
pub insert-IsCharged :
    (f : FileRow) (db db1 db2 db' : Db)
    → IsCharged db
    → f.is_folder ≡ false
    → db1.users ≡ db.users
    → update_storage_used f.user_id f.size db1 ≡ ok db2
    → db'.users ≡ db2.users
    → db'.files ≡ f ∷ db.files
    → IsCharged db'
unfolding sum_rows find_user
insert-IsCharged f db db1 db2 db' c plain same paid users rows =
    charge-IsCharged f.user_id f.size db db' (f ∷ db.files) c (λ id. ground (arith, plain))
      (ground (arith, plain, c.no_folder_bytes))
      (elim (update_storage_used-Charged f.user_id f.size db1 db2 paid) [
        | inl (free, stays) ↦ inl (free, users ∙ ap (λ (d : Db). d.users) stays ∙ same)
        | inr h ↦ inr (
          h.user,
          subst (λ us. find_row (has_id f.user_id) us ≡ some h.user) same h.found,
          users
              ∙ ap (λ (d : Db). d.users) h.written
              ∙ ap
                  (set_row (has_id f.user_id)
                    (record (h.user) { storage_used = h.user.storage_used + f.size }))
                  same,
        )
      ])
      rows

pub charge-files :
    (id n : ℕ) (db db1 : Db) → update_storage_used id n db ≡ ok db1 → db1.files ≡ db.files
charge-files id n db db1 e = elim (update_storage_used-Charged id n db db1 e) [
  | inl (free, same) ↦ ap (λ (d : Db). d.files) same
  | inr h ↦ ap (λ (d : Db). d.files) h.written
]
