-- ===== src/Files/Deletion/Mirrors.antt =====
-- The mirror of a folder can be deleted for good by itself, and its folder stays.
use https_github_com_sv3t0v.Common.{
  ℕ, ◌≡◌, ◌≢◌, refl, sym, subst, Bool, true, none, some, List, [], ◌∷◌, arith, inl, inr, find_row,
  keep_rows, remove_row, Bool-cases,
}
use https_github_com_sv3t0v.Http.{parse_database_size, ok, err}
use https_github_com_sv3t0v.Uploads.{Folder, FileRow, Db}
use https_github_com_sv3t0v.Users.{decrement_storage_used}
use https_github_com_sv3t0v.Files.{
  has_file_id, is_mirror_of, owned_file, owned_folder, mirror_not_found,
}
use https_github_com_sv3t0v.Files.Folders.{folder_and_mirror, remove_folder, restore_folder}
use https_github_com_sv3t0v.Files.Deletion.{delete_file_row}
use https_github_com_sv3t0v.Files.Deletion.Sweeps.{owned_file-found}

find_row-none :
    (p : FileRow → Bool) (xs : List FileRow) → keep_rows p xs ≡ [] → find_row p xs ≡ none
unfolding keep_rows find_row
find_row-none p [] e = refl
find_row-none p (x ∷ xs) e = elim (Bool-cases (p x)) [
  | inl hit ↦ let clash : x ∷ keep_rows p xs ≡ [] = rw (keep_rows, hit) at e in cc
  | inr miss ↦ rw miss (find_row-none p xs (rw (keep_rows, miss) at e))
]

keep_rows-found :
    (p q : FileRow → Bool) (f : FileRow) (xs : List FileRow)
    → find_row q xs ≡ some f
    → p f ≡ true
    → keep_rows p xs ≢ []
unfolding keep_rows find_row
keep_rows-found p q f [] e h = cc
keep_rows-found p q f (x ∷ xs) e h = elim (Bool-cases (p x)) [
  | inl hit ↦ λ k. let clash : x ∷ keep_rows p xs ≡ [] = rw (keep_rows, hit) at k in cc
  | inr miss ↦ elim (Bool-cases (q x)) [
    | inl found ↦ λ k. ground (arith, found, e, h, miss)
    | inr later ↦
        λ k. keep_rows-found p q f xs (rw (find_row, later) at e) h (rw (keep_rows, miss) at k)
  ]
]

keep_rows-head :
    (p : FileRow → Bool) (f : FileRow) (xs rest : List FileRow)
    → keep_rows p xs ≡ f ∷ rest
    → p f ≡ true
unfolding keep_rows
keep_rows-head p f [] rest e = cc
keep_rows-head p f (x ∷ xs) rest e = elim (Bool-cases (p x)) [
  | inl hit ↦
      let first : x ∷ keep_rows p xs ≡ f ∷ rest = rw (keep_rows, hit) at e in
      let same : x ≡ f = cc in subst (λ y. p y ≡ true) same hit
  | inr miss ↦ keep_rows-head p f xs rest (rw (keep_rows, miss) at e)
]

-- The only row that a condition holds of is taken out.
find_row-remove_row :
    (p q : FileRow → Bool) (f : FileRow) (xs : List FileRow)
    → find_row q xs ≡ some f
    → p f ≡ true
    → keep_rows p xs ≡ f ∷ []
    → find_row p (remove_row q xs) ≡ none
unfolding keep_rows find_row remove_row
find_row-remove_row p q f [] e h only = refl
find_row-remove_row p q f (x ∷ xs) e h only = elim (Bool-cases (q x)) [
  | inl found ↦
      let same : x ≡ f = ground (arith, found, e) in
      let holds : p x ≡ true = subst (λ y. p y ≡ true) (sym same) h in
      let alone : x ∷ keep_rows p xs ≡ f ∷ [] = rw (keep_rows, holds) at only in
      rw found (find_row-none p xs (let rest : keep_rows p xs ≡ [] = cc in rest))
  | inr later ↦ elim (Bool-cases (p x)) [
    | inl hit ↦
        let alone : x ∷ keep_rows p xs ≡ f ∷ [] = rw (keep_rows, hit) at only in
        absurd (
          keep_rows-found p q f xs (rw (find_row, later) at e) h
            (let rest : keep_rows p xs ≡ [] = cc in rest))
    | inr miss ↦ rw later (
        rw miss (
          find_row-remove_row p q f xs (rw (find_row, later) at e) h
            (rw (keep_rows, miss) at only)))
  ]
]

-- A mirror has no bytes, so nothing is to be given back.
decrement-zero : (id n : ℕ) (db : Db) → n ≡ 0 → decrement_storage_used id n db ≡ ok db
unfolding decrement_storage_used parse_database_size
decrement-zero id n db empty = rw empty refl

-- A mirror without bytes that is the one mirror of a folder of the same user can be deleted for good
-- as a file: the deletion goes through, the folder's row stays, and in the database that it leaves a
-- request to move the folder to the trash fails, as does one to restore it, with the answer that its
-- mirror is not found.
pub delete_file_row-strands :
    (user_id id folder_id : ℕ) (f : FileRow) (g : Folder) (db : Db)
    → owned_file user_id id db ≡ some f
    → f.size ≡ 0
    → keep_rows (is_mirror_of folder_id user_id) db.files ≡ f ∷ []
    → owned_folder user_id folder_id db ≡ some g
    → (db' : Db) × (delete_file_row user_id id db ≡ ok (db', f ∷ []))
      × (owned_folder user_id folder_id db' ≡ some g)
      × (remove_folder user_id folder_id db' ≡ err mirror_not_found)
      × (restore_folder user_id folder_id db' ≡ err mirror_not_found)
unfolding delete_file_row owned_folder remove_folder restore_folder folder_and_mirror
delete_file_row-strands user_id id folder_id f g db found empty only folder =
    let (there, mine) = owned_file-found user_id id db f found in
    let lost =
      find_row-remove_row (is_mirror_of folder_id user_id) (has_file_id id) f db.files there
        (keep_rows-head (is_mirror_of folder_id user_id) f db.files [] only) only in
    let db' : Db = record db { files = remove_row (has_file_id id) db.files } in
    let none_left : find_row (is_mirror_of folder_id user_id) db'.files ≡ none = lost in
    let stays : owned_folder user_id folder_id db' ≡ some g = folder in
    (
      db',
      rw found (rw (decrement-zero user_id f.size db empty) refl),
      stays,
      rw (stays, none_left) refl,
      rw (stays, none_left) refl,
    )
