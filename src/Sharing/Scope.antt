-- ===== src/Sharing/Scope.antt =====
-- What a link to a folder gives out lies in that folder.
use https_github_com_sv3t0v.Common.{
  ℕ, zero, suc, ◌≡◌, refl, inl, inr, true, false, Bool, Option, none, some, List, [], ◌∷◌, arith,
  length, Bool-cases, Option-cases, find_row, find_row-holds, subst,
}
use https_github_com_sv3t0v.Http.{Result, ok, err, ◌>>◌}
use https_github_com_sv3t0v.Uploads.{Folder, FileRow, Db}
use https_github_com_sv3t0v.Files.{has_folder_id}
use https_github_com_sv3t0v.Files.Subtree.{
  IsRow, here, there, has, descendants, Below, descendants-Below,
}
use https_github_com_sv3t0v.Sharing.{ShareLink}
use https_github_com_sv3t0v.Sharing.Folders.{
  is_live_mirror, is_open_folder, is_open_root, shared_subtree, is_shared_file, file_in,
  resolve_shared_folder_file,
}

-- A folder of a user that is not in the trash, with a mirror of that user that is not.
pub record IsOpen (user_id : ℕ) (files : List FileRow) (f : Folder) : Type 0 where
  pub owner : f.user_id ≡ user_id
  pub kept : f.is_deleted ≡ false
  pub mirror : FileRow
  pub mirror_stored : IsRow mirror files
  pub mirror_of : mirror.folder_id ≡ some f.id
  pub mirror_owner : mirror.user_id ≡ user_id
  pub mirror_folder : mirror.is_folder ≡ true
  pub mirror_kept : mirror.is_deleted ≡ false

-- A folder that is open, as are all above it, up to one at the top level.
pub data Ancestry (user_id : ℕ) (db : Db) : ℕ → Type 0 where
  top_level :
      (f : Folder)
      → IsRow f db.folders
      → IsOpen user_id db.files f
      → f.parent_id ≡ none
      → Ancestry user_id db f.id
  nested :
      (f : Folder) (p : ℕ)
      → IsRow f db.folders
      → IsOpen user_id db.files f
      → f.parent_id ≡ some p
      → Ancestry user_id db p
      → Ancestry user_id db f.id

-- A folder that open folders lead down to from another.
pub data Descent (user_id : ℕ) (db : Db) (root : ℕ) : ℕ → Type 0 where
  start : Descent user_id db root root
  child :
      (f : Folder) (p : ℕ)
      → IsRow f db.folders
      → IsOpen user_id db.files f
      → f.parent_id ≡ some p
      → Descent user_id db root p
      → Descent user_id db root f.id

-- A file of the user of a link, not in the trash, in the shared folder or in a folder below it: all
-- of them folders of that user with live mirrors and not in the trash, as are those above the shared
-- one, up to the top level.
pub record IsInScope (s : ShareLink) (root f : FileRow) (db : Db) : Type 0 where
  pub shared : ℕ
  pub parent : ℕ
  pub folder : root.folder_id ≡ some shared
  pub inside : f.parent_id ≡ some parent
  pub path : Descent s.user_id db shared parent
  pub top : Ancestry s.user_id db shared
  pub owner : f.user_id ≡ s.user_id
  pub live : f.is_deleted ≡ false
  pub plain : f.is_folder ≡ false

find_row-IsRow :
    {A : Type 0} (p : A → Bool) (x : A) (xs : List A) → find_row p xs ≡ some x → IsRow x xs
unfolding find_row
find_row-IsRow p x [] e = cc
find_row-IsRow p x (y ∷ ys) e = elim (Bool-cases (p y)) [
  | inl hit ↦ let same : y ≡ x = ground (arith, hit, e) in subst (λ z. IsRow z (y ∷ ys)) same here
  | inr miss ↦ there (find_row-IsRow p x ys (rw miss at e))
]

is_live_mirror-folder :
    (user_id id : ℕ) (m : FileRow) → is_live_mirror user_id id m ≡ true → m.folder_id ≡ some id
is_live_mirror-folder user_id id m h = elim (Option-cases m.folder_id) [
  | inl no_folder ↦ ground (arith, no_folder, h)
  | inr (d, e) ↦
      let same : d ≡ id = ground (arith, e, h) in subst (λ x. m.folder_id ≡ some x) same e
]

is_open_folder-IsOpen :
    (user_id : ℕ) (files : List FileRow) (f : Folder)
    → is_open_folder user_id files f ≡ true
    → IsOpen user_id files f
is_open_folder-IsOpen user_id files f h =
    elim (Option-cases (find_row (is_live_mirror user_id f.id) files)) [
      | inl lost ↦ ground (arith, lost, h)
      | inr (m, e) ↦
          let holds = find_row-holds (is_live_mirror user_id f.id) m files e in
          record {
            owner = ground (arith, h);
            kept = ground (arith, h);
            mirror = m;
            mirror_stored = find_row-IsRow (is_live_mirror user_id f.id) m files e;
            mirror_of = is_live_mirror-folder user_id f.id m holds;
            mirror_owner = ground (arith, holds);
            mirror_folder = ground (arith, holds);
            mirror_kept = ground (arith, holds);
          }
    ]

is_open_root-Ancestry :
    (rounds user_id : ℕ) (db : Db) (id : ℕ)
    → is_open_root rounds user_id db.files db.folders id ≡ true
    → Ancestry user_id db id
unfolding is_open_root
is_open_root-Ancestry zero user_id db id h = cc
is_open_root-Ancestry (suc rounds) user_id db id h =
    elim (Option-cases (find_row (has_folder_id id) db.folders)) [
      | inl lost ↦ ground (arith, lost, h)
      | inr (f, e) ↦
          let holds = find_row-holds (has_folder_id id) f db.folders e in
          let same : f.id ≡ id = ground (arith, holds) in
          let row = find_row-IsRow (has_folder_id id) f db.folders e in
          elim (Option-cases f.parent_id) [
            | inl none_above ↦
                let is_open : is_open_folder user_id db.files f ≡ true =
                  ground (arith, e, none_above, h) in
                subst (Ancestry user_id db) same (
                  Ancestry.top_level f row (is_open_folder-IsOpen user_id db.files f is_open)
                    none_above)
            | inr (p, above) ↦
                let is_open : is_open_folder user_id db.files f ≡ true =
                  ground (arith, e, above, h) in
                let rest : is_open_root rounds user_id db.files db.folders p ≡ true =
                  ground (arith, e, above, h) in
                subst (Ancestry user_id db) same (
                  Ancestry.nested f p row (is_open_folder-IsOpen user_id db.files f is_open) above
                    (is_open_root-Ancestry rounds user_id db p rest))
          ]
    ]

Below-Descent :
    (user_id : ℕ) (db : Db) (root id : ℕ)
    → Below (is_open_folder user_id db.files) db.folders (root ∷ []) id
    → Descent user_id db root id
unfolding has
Below-Descent user_id db root id (Below.at h) =
    let same : root ≡ id = ground (arith, h) in subst (Descent user_id db root) same Descent.start
Below-Descent user_id db root id (Below.under f row among same above b) =
    subst (Descent user_id db root) same (
      Descent.child f _ row (is_open_folder-IsOpen user_id db.files f among) above
        (Below-Descent user_id db root _ b))

is_shared_file-IsInScope :
    (s : ShareLink) (root f : FileRow) (db : Db) (d : ℕ)
    → root.folder_id ≡ some d
    → is_shared_file s.user_id (shared_subtree s.user_id d db) f ≡ true
    → IsInScope s root f db
unfolding shared_subtree has
is_shared_file-IsInScope s root f db d folder h = elim (Option-cases f.parent_id) [
  | inl outside ↦ ground (arith, outside, h)
  | inr (p, e) ↦
      elim (Bool-cases (is_open_root (length db.folders) s.user_id db.files db.folders d)) [
        | inl top ↦
            let inside : has p (descendants (is_open_folder s.user_id db.files) db.folders (d ∷ []))
                ≡ true =
              ground (arith, e, top, h) in
            record {
              shared = d;
              parent = p;
              folder = folder;
              inside = e;
              path = Below-Descent s.user_id db d p (
                  (descendants-Below (is_open_folder s.user_id db.files) db.folders (d ∷ []) p).0
                    inside);
              top = is_open_root-Ancestry (length db.folders) s.user_id db d top;
              owner = ground (arith, h);
              live = ground (arith, h);
              plain = ground (arith, h);
            }
        | inr shut ↦ ground (arith, e, shut, h)
      ]
]

-- A file that a link to a folder resolves is a file of the user of the link, neither in the trash nor
-- a folder, and lies in the shared folder or below it. The folders on the way, the shared one, and
-- those above it up to the top level are rows of that user, none in the trash, and each has a mirror
-- row of that user that is a folder and not in the trash.
pub resolve-IsInScope :
    (s : ShareLink) (root f : FileRow) (id : ℕ) (db : Db)
    → resolve_shared_folder_file s root id db ≡ ok f
    → IsInScope s root f db
unfolding resolve_shared_folder_file
resolve-IsInScope s root f id db = go _ _ _ refl
  where
    go :
        (x : Result (Unit {0})) (o : Option FileRow) (r : Option ℕ)
        → root.folder_id ≡ r
        → (x >> file_in s.user_id db o r) ≡ ok f
        → IsInScope s root f db
    go (err x) o r h e = cc
    go (ok u) o none h e = ground (arith, e)
    go (ok u) none (some d) h e = cc
    go (ok u) (some g) (some d) h e =
        elim (Bool-cases (is_shared_file s.user_id (shared_subtree s.user_id d db) g)) [
          | inr out ↦ ground (arith, out, e)
          | inl within ↦ is_shared_file-IsInScope s root f db d h (ground (arith, within, e))
        ]
