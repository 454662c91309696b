-- ===== src/Files/Deletion/Charges.antt =====
-- The bytes that a user is charged for are the bytes of the user's files.
use https_github_com_sv3t0v.Common.{
  ℕ, ◌+◌, ◌-◌, ◌≡◌, ◌⊎◌, refl, ap, subst, ◌∙◌, inl, inr, not, ◌&&◌, some, List, arith, ◌==◌,
  if◌then◌else◌, find_row, sum_rows,
}
use https_github_com_sv3t0v.Http.{ok}
use https_github_com_sv3t0v.Uploads.{User, FileRow, Db, has_id, find_user}
use https_github_com_sv3t0v.Users.{decrement_storage_used, set_user}
use https_github_com_sv3t0v.Users.Storage.{decrement_storage_used-Discharged, find-set_user}

abbrev pub size_of : FileRow → ℕ
size_of f = f.size

abbrev pub charge_of : ℕ → FileRow → ℕ
charge_of id f = if f.user_id == id && not f.is_folder then f.size else 0

abbrev pub folder_bytes : FileRow → ℕ
folder_bytes f = if f.is_folder then f.size else 0

-- Mirrors have no bytes, and a user is charged for the sizes of the files, in the trash or not.
pub record IsCharged (db : Db) : Type 0 where
  pub no_folder_bytes : sum_rows folder_bytes db.files ≡ 0
  pub charged :
      (id : ℕ) (u : User)
      → find_user id db ≡ some u
      → u.storage_used ≡ sum_rows (charge_of id) db.files

-- Rows that cost a user `n` bytes more, or less, and the user's charge with them.
abbrev pub Costs : ℕ → ℕ → List FileRow → List FileRow → Type 0
Costs user_id n more less =
    (id : ℕ)
    → sum_rows (charge_of id) more ≡ sum_rows (charge_of id) less + (if user_id == id then n else 0)

pub charge-IsCharged :
    (user_id n : ℕ) (db db' : Db) (files : List FileRow)
    → IsCharged db
    → Costs user_id n files db.files
    → sum_rows folder_bytes files ≡ 0
    → ((n ≡ 0) × (db'.users ≡ db.users))
      ⊎ ((u : User) × (find_user user_id db ≡ some u)
          × (db'.users
              ≡ (set_user user_id (record u { storage_used = u.storage_used + n }) db).users))
    → db'.files ≡ files
    → IsCharged db'
unfolding find_user
charge-IsCharged user_id n db db' files c cost empty how rows = record {
  no_folder_bytes = rw rows empty;
  charged = λ id u found. elim how [
    | inl (free, same) ↦
        let before = subst (λ us. find_row (has_id id) us ≡ some u) same found in
        ground (arith, c.charged id u before, cost id, free, rows)
    | inr (v, there, same) ↦
        let after = subst (λ us. find_row (has_id id) us ≡ some u) same found in
        elim (find-set_user user_id id v (record v { storage_used = v.storage_used + n }) u db.users
          refl there after) [
            | inl (mine, new, before) ↦
                ground (arith, c.charged id v before, cost id, mine, new, rows)
            | inr (other, before) ↦ ground (arith, c.charged id u before, cost id, other, rows)
          ]
  ];
}

pub discharge-IsCharged :
    (user_id n : ℕ) (db db1 db' : Db) (files : List FileRow)
    → IsCharged db
    → Costs user_id n db.files files
    → sum_rows folder_bytes files ≡ 0
    → decrement_storage_used user_id n db ≡ ok db1
    → db'.users ≡ db1.users
    → db'.files ≡ files
    → IsCharged db'
unfolding find_user
discharge-IsCharged user_id n db db1 db' files c cost empty paid users rows = record {
  no_folder_bytes = rw rows empty;
  charged = λ id u found. elim (decrement_storage_used-Discharged user_id n db db1 paid) [
    | inl (free, same) ↦
        let before =
          subst (λ us. find_row (has_id id) us ≡ some u) (users ∙ ap (λ (d : Db). d.users) same)
            found in
        ground (arith, c.charged id u before, cost id, free, rows)
    | inr d ↦
        let after =
          subst (λ us. find_row (has_id id) us ≡ some u)
            (users ∙ ap (λ (x : Db). x.users) d.written) found in
        elim (find-set_user user_id id d.user
          (record (d.user) { storage_used = d.user.storage_used - n }) u db.users refl d.found
          after) [
            | inl (mine, new, before) ↦
                ground (arith, c.charged id d.user before, cost id, mine, new, rows, d.enough)
            | inr (other, before) ↦ ground (arith, c.charged id u before, cost id, other, rows)
          ]
  ];
}
