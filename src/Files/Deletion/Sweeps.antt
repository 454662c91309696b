-- ===== src/Files/Deletion/Sweeps.antt =====
-- What is deleted for good is given back, byte for byte.
use https_github_com_sv3t0v.Common.{
  ℕ, ◌+◌, ◌≡◌, refl, ap, inl, inr, Bool, true, false, not, ◌||◌, Option, none, some, List, [], ◌∷◌,
  arith, ltb, ◌==◌, if◌then◌else◌, find_row, keep_rows, sum_rows, remove_row, length, Bool-cases,
  sum_rows-keep_rows-le, sum_rows-remove_row, String,
}
use https_github_com_sv3t0v.Http.{Result, ok, err, ◌>>=◌, ◌>>◌, throw_if, not_found, max_safe}
use https_github_com_sv3t0v.Uploads.{Folder, FileRow, Db}
use https_github_com_sv3t0v.Uploads.Create.{or_throw}
use https_github_com_sv3t0v.Users.{decrement_storage_used}
use https_github_com_sv3t0v.Users.Storage.{decrement_storage_used-Discharged}
use https_github_com_sv3t0v.Files.{
  has_file_id, file_if_owned, owned_file, file_not_found, folder_not_found, mirror_not_found,
}
use https_github_com_sv3t0v.Files.Subtree.{has, descendants}
use https_github_com_sv3t0v.Files.Deletion.{
  Deleted, delete_file_row, sum_file_sizes, is_locked_folder, is_user_folder, is_file_in,
  is_mirror_in, all_mirrored, delete_rows, delete_folder_rows, empty_trash_rows,
}
use https_github_com_sv3t0v.Files.Deletion.Charges.{
  size_of, charge_of, folder_bytes, IsCharged, discharge-IsCharged,
}

pub decrement-folders :
    (id n : ℕ) (db db1 : Db) → decrement_storage_used id n db ≡ ok db1 → db1.folders ≡ db.folders
decrement-folders id n db db1 e = elim (decrement_storage_used-Discharged id n db db1 e) [
  | inl (free, same) ↦ ap (λ (d : Db). d.folders) same
  | inr d ↦ ap (λ (d : Db). d.folders) d.written
]

pub decrement-files :
    (id n : ℕ) (db db1 : Db) → decrement_storage_used id n db ≡ ok db1 → db1.files ≡ db.files
decrement-files id n db db1 e = elim (decrement_storage_used-Discharged id n db db1 e) [
  | inl (free, same) ↦ ap (λ (d : Db). d.files) same
  | inr d ↦ ap (λ (d : Db). d.files) d.written
]

pub owned_file-found :
    (user_id id : ℕ) (db : Db) (f : FileRow)
    → owned_file user_id id db ≡ some f
    → (find_row (has_file_id id) db.files ≡ some f) × (f.user_id ≡ user_id)
unfolding owned_file
owned_file-found user_id id db f = go _ refl
  where
    go :
        (o : Option FileRow)
        → find_row (has_file_id id) db.files ≡ o
        → file_if_owned user_id o ≡ some f
        → (find_row (has_file_id id) db.files ≡ some f) × (f.user_id ≡ user_id)
    go none h e = cc
    go (some g) h e = (ground (arith, h, e), ground (arith, e))

-- What the deletion of a file for good has done.
pub record IsDeleted (user_id id : ℕ) (db db' : Db) (gone : List FileRow) : Type 0 where
  pub file : FileRow
  pub owned : owned_file user_id id db ≡ some file
  pub paid : Db
  pub discharge : decrement_storage_used user_id file.size db ≡ ok paid
  pub result : db' ≡ record paid { files = remove_row (has_file_id id) paid.files }
  pub deleted : gone ≡ file ∷ []

pub delete_file_row-IsDeleted :
    (user_id id : ℕ) (db db' : Db) (gone : List FileRow)
    → delete_file_row user_id id db ≡ ok (db', gone)
    → IsDeleted user_id id db db' gone
unfolding delete_file_row
delete_file_row-IsDeleted user_id id db db' gone = go _ refl
  where
    paid :
        (f : FileRow) (x : Result Db)
        → owned_file user_id id db ≡ some f
        → decrement_storage_used user_id f.size db ≡ x
        → ◌>>=◌ {T = Deleted} x
            (λ db1. ok (record db1 { files = remove_row (has_file_id id) db1.files }, f ∷ []))
          ≡ ok (db', gone)
        → IsDeleted user_id id db db' gone
    paid f (err x) h p q = cc
    paid f (ok db1) h p q = record {
      file = f;
      owned = h;
      paid = db1;
      discharge = p;
      result = ground (arith, q);
      deleted = ground (arith, q);
    }

    go :
        (o : Option FileRow)
        → owned_file user_id id db ≡ o
        → ◌>>=◌ {T = Deleted} (or_throw o file_not_found) (λ f.
          decrement_storage_used user_id f.size db >>= λ db1.
          ok (record db1 { files = remove_row (has_file_id id) db1.files }, f ∷ []))
          ≡ ok (db', gone)
        → IsDeleted user_id id db db' gone
    go none h e = cc
    go (some f) h e = paid f _ h refl e

pub delete_file_row-IsCharged :
    (user_id id : ℕ) (db db' : Db) (gone : List FileRow)
    → IsCharged db
    → delete_file_row user_id id db ≡ ok (db', gone)
    → IsCharged db'
delete_file_row-IsCharged user_id id db db' gone c e =
    let d = delete_file_row-IsDeleted user_id id db db' gone e in
    let (there, mine) = owned_file-found user_id id db d.file d.owned in
    let empty = sum_rows-remove_row folder_bytes (has_file_id id) d.file db.files there in
    let rows = decrement-files user_id d.file.size db d.paid d.discharge in
    discharge-IsCharged user_id d.file.size db d.paid db' (remove_row (has_file_id id) db.files) c
      (λ id'. ground (
        arith,
        sum_rows-remove_row (charge_of id') (has_file_id id) d.file db.files there,
        mine,
        empty,
        c.no_folder_bytes,
      ))
      (ground (arith, empty, c.no_folder_bytes)) d.discharge (ap (λ (x : Db). x.users) d.result)
      (ground (arith, d.result, rows))

sum_file_sizes-eq :
    (total : ℕ) (fs : List FileRow) (n : ℕ)
    → sum_file_sizes total fs ≡ ok n
    → n ≡ total + sum_rows size_of fs
unfolding sum_file_sizes sum_rows
sum_file_sizes-eq total [] n e = ground (arith, e)
sum_file_sizes-eq total (f ∷ fs) n e =
    elim (Bool-cases (ltb max_safe f.size || ltb max_safe (total + f.size))) [
      | inl big ↦ let e' = rw (sum_file_sizes, big) at e in cc
      | inr fits ↦
          let ih = sum_file_sizes-eq (total + f.size) fs n (rw (sum_file_sizes, fits) at e) in
          omega arith
    ]

-- The rows that a sweep deletes: files of the user, and mirrors.
module _ (user_id : ℕ) (doomed mirror : FileRow → Bool)
    (files : (f : FileRow) → doomed f ≡ true → (f.user_id ≡ user_id) × (f.is_folder ≡ false))
    (mirrors : (f : FileRow) → mirror f ≡ true → f.is_folder ≡ true) where
  sweep-Costs :
      (id : ℕ) (fs : List FileRow)
      → sum_rows folder_bytes fs ≡ 0
      → sum_rows (charge_of id) fs
        ≡ sum_rows (charge_of id) (keep_rows (λ f. not (doomed f || mirror f)) fs)
          + (if user_id == id then sum_rows size_of (keep_rows doomed fs) else 0)
  unfolding sum_rows keep_rows
  sweep-Costs id [] h = ground arith
  sweep-Costs id (f ∷ fs) h =
      let ih = sweep-Costs id fs (omega (arith, h)) in
      elim (Bool-cases (doomed f)) [
        | inl hit ↦ let (mine, plain) = files f hit in rw hit (ground (arith, ih, mine, plain))
        | inr miss ↦ rw miss (elim (Bool-cases (mirror f)) [
          | inl hit ↦ rw hit (ground (arith, ih, h, mirrors f hit))
          | inr free ↦ rw free (ground (arith, ih))
        ])
      ]

delete_rows-IsCharged :
    (user_id : ℕ) (ids : List ℕ) (doomed : FileRow → Bool) (inconsistent : String) (db db' : Db)
    (gone : List FileRow)
    → ((f : FileRow) → doomed f ≡ true → (f.user_id ≡ user_id) × (f.is_folder ≡ false))
    → IsCharged db
    → delete_rows user_id ids doomed inconsistent db ≡ ok (db', gone)
    → IsCharged db'
unfolding delete_rows
delete_rows-IsCharged user_id ids doomed inconsistent db db' gone own c =
    go
      (throw_if (not (length (keep_rows (is_locked_folder user_id ids) db.folders) == length ids))
        (not_found inconsistent))
      (throw_if
        (not (length (keep_rows (is_mirror_in user_id ids) db.files) == length ids)
          || not (all_mirrored ids (keep_rows (is_mirror_in user_id ids) db.files)))
        mirror_not_found)
      _ refl
  where
    spared : FileRow → Bool
    spared f = not (doomed f || is_mirror_in user_id ids f)

    go :
        (x y : Result (Unit {0})) (z : Result ℕ)
        → sum_file_sizes 0 (keep_rows doomed db.files) ≡ z
        → ◌>>◌ {T = Deleted} x (
            y
            >> (z >>= λ total. decrement_storage_used user_id total db >>= λ db1. ok (
              record db1 {
                files = keep_rows spared db1.files;
                folders = keep_rows (λ f. not (has f.id ids)) db1.folders;
              },
              keep_rows doomed db.files,
            )))
          ≡ ok (db', gone)
        → IsCharged db'
    go (err x) y z h e = cc
    go (ok x) (err y) z h e = cc
    go (ok x) (ok y) (err z) h e = cc
    go (ok x) (ok y) (ok total) h e = paid _ refl e
      where
        paid :
            (r : Result Db)
            → decrement_storage_used user_id total db ≡ r
            → ◌>>=◌ {T = Deleted} r (λ db1. ok (
              record db1 {
                files = keep_rows spared db1.files;
                folders = keep_rows (λ f. not (has f.id ids)) db1.folders;
              },
              keep_rows doomed db.files,
            ))
              ≡ ok (db', gone)
            → IsCharged db'
        paid (err x) p q = cc
        paid (ok db1) p q =
            let rows = decrement-files user_id total db db1 p in
            let sum = sum_file_sizes-eq 0 (keep_rows doomed db.files) total h in
            discharge-IsCharged user_id total db db1 db' (keep_rows spared db.files) c
              (λ id. ground (
                arith,
                sum,
                sweep-Costs user_id doomed (is_mirror_in user_id ids) own (λ f m. ground (arith, m))
                    id db.files c.no_folder_bytes,
              ))
              (let le = sum_rows-keep_rows-le folder_bytes spared db.files in
                omega (arith, c.no_folder_bytes))
              p (ground (arith, q)) (ground (arith, q, rows))

pub delete_folder_rows-IsCharged :
    (user_id id : ℕ) (db db' : Db) (gone : List FileRow)
    → IsCharged db
    → delete_folder_rows user_id id db ≡ ok (db', gone)
    → IsCharged db'
unfolding delete_folder_rows
delete_folder_rows-IsCharged user_id id db db' gone c = go _
  where
    go :
        (o : Option Folder)
        → ◌>>=◌ {T = Deleted} (or_throw o folder_not_found) (λ f.
          delete_rows user_id
            (descendants (is_user_folder user_id) db.folders (f.id ∷ []))
            (is_file_in user_id (descendants (is_user_folder user_id) db.folders (f.id ∷ [])))
            "Folder subtree is inconsistent"
            db)
          ≡ ok (db', gone)
        → IsCharged db'
    go none e = cc
    go (some f) e =
        delete_rows-IsCharged user_id _ _ _ db db' gone
          (λ g m. (ground (arith, m), ground (arith, m))) c e

pub empty_trash_rows-IsCharged :
    (user_id : ℕ) (db db' : Db) (gone : List FileRow)
    → IsCharged db
    → empty_trash_rows user_id db ≡ ok (db', gone)
    → IsCharged db'
unfolding empty_trash_rows
empty_trash_rows-IsCharged user_id db db' gone c e =
    delete_rows-IsCharged user_id _ _ _ db db' gone (λ g m. (ground (arith, m), ground (arith, m)))
      c e
