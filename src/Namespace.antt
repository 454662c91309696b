-- ===== src/Namespace.antt =====
-- backend/src/folders/namespace-name.ts: the name that a new file or folder gets in its parent.
pub mod Allocation
mod Examples
use https_github_com_sv3t0v.Common.{
  ℕ, zero, suc, ◌+◌, ◌-◌, ◌/◌, ◌%◌, max, Bool, true, false, not, ◌&&◌, ◌||◌, Option, none, some,
  List, [], ◌∷◌, ◌++◌, map, ltb, leb, ◌==◌, if◌then◌else◌, find_row, keep_rows, length,
}
use https_github_com_sv3t0v.Http.{Result, ok, err, ◌>>=◌, not_found, conflict}
use https_github_com_sv3t0v.Text.{Text, text_eq}
use https_github_com_sv3t0v.Uploads.{Db, FileRow, Folder}

pub data Kind : Type 0 where
  file folder : Kind

-- `occupied.has(name)`
unfoldable pub is_occupied : List Text → Text → Bool
is_occupied [] name = false
is_occupied (n ∷ ns) name = text_eq n name || is_occupied ns name

-- `text.slice(0, n)`
unfoldable pub slice_to : ℕ → Text → Text
slice_to zero s = []
slice_to (suc n) [] = []
slice_to (suc n) (c ∷ s) = c ∷ slice_to n s

-- `text.slice(n)`
unfoldable pub slice_from : ℕ → Text → Text
slice_from zero s = s
slice_from (suc n) [] = []
slice_from (suc n) (c ∷ s) = slice_from n s

-- `text.lastIndexOf(c)`, where it is positive.
unfoldable pub last_index_of : ℕ → Text → Option ℕ
last_index_of c [] = none
last_index_of c (d ∷ s) = elim (last_index_of c s) [
  | some i ↦ some (suc i)
  | none ↦ if d == c then some 0 else none
]

-- The decimal digits of a number below `10 ^ fuel`.
unfoldable pub digits : ℕ → ℕ → Text
digits zero n = []
digits (suc f) n =
    let rest = digits f (n / 10) in (if ltb n 10 then [] else rest) ++ ((b'0' + n % 10) ∷ [])

-- `lastIndexOf(".") > 0` for a file.
abbrev pub dot_of : Kind → Text → Option ℕ
dot_of folder requested = none
dot_of file requested = elim (last_index_of b'.' requested) [
  | some (suc i) ↦ some (suc i)
  | other ↦ none
]

abbrev pub extension_of : Kind → Text → Text
extension_of k requested = elim (dot_of k requested) [
  | some dot ↦ slice_from dot requested
  | none ↦ []
]

abbrev pub stem_of : Kind → Text → Text
stem_of k requested = elim (dot_of k requested) [
  | some dot ↦ slice_to dot requested
  | none ↦ requested
]

-- An index has five digits at most.
abbrev pub suffix : ℕ → Text
suffix index = b' ' ∷ b'(' ∷ (digits 5 index ++ (b')' ∷ []))

unfoldable pub candidate : Text → Text → ℕ → Text
unfolding slice_to digits
candidate stem extension index =
    let budget = 255 - length (suffix index) in
    let safe_extension = slice_to (max 0 (budget - 1)) extension in
    slice_to (budget - length safe_extension) stem ++ (suffix index ++ safe_extension)

-- The loop over the indices, with the rounds that are left.
unfoldable pub try_names : List Text → Text → Text → ℕ → ℕ → Result Text
unfolding is_occupied candidate
try_names occupied stem extension zero index = err (conflict "Destination name space exhausted")
try_names occupied stem extension (suc rounds) index =
    elim (is_occupied occupied (candidate stem extension index)) [
      | false ↦ ok (candidate stem extension index)
      | true ↦ try_names occupied stem extension rounds (index + 1)
    ]

abbrev pub same_parent : Option ℕ → Option ℕ → Bool
same_parent none none = true
same_parent (some a) (some b) = a == b
same_parent _ _ = false

abbrev pub is_excluded : Option ℕ → ℕ → Bool
is_excluded none id = false
is_excluded (some x) id = id == x

abbrev pub file_name : FileRow → Text
file_name f = f.name

abbrev pub folder_name : Folder → Text
folder_name f = f.name

-- The names of the live files and folders of a user in one place.
unfoldable pub names_in : Db → ℕ → Option ℕ → Option ℕ → Option ℕ → List Text
names_in db user_id parent_id exclude_file exclude_folder =
    map file_name (
      keep_rows
        (λ f.
          f.user_id == user_id
          && same_parent f.parent_id parent_id
          && not f.is_deleted
          && not (is_excluded exclude_file f.id))
        db.files)
    ++ map folder_name (
        keep_rows
          (λ f.
            f.user_id == user_id
            && same_parent f.parent_id parent_id
            && not f.is_deleted
            && not (is_excluded exclude_folder f.id))
          db.folders)

abbrev pub is_live_folder : ℕ → ℕ → Folder → Bool
is_live_folder id user_id f = f.id == id && f.user_id == user_id && not f.is_deleted

-- The name, in a place whose names are known.
unfoldable pub choose_name : Kind → List Text → Text → Result Text
unfolding is_occupied try_names last_index_of slice_to slice_from
choose_name k occupied requested =
    if is_occupied occupied requested
    then try_names occupied (stem_of k requested) (extension_of k requested) 10000 1
    else ok requested

unfoldable pub lock_parent : Db → ℕ → Option ℕ → Result (Unit {0})
lock_parent db user_id none = ok tt
lock_parent db user_id (some id) = elim (find_row (is_live_folder id user_id) db.folders) [
  | none ↦ err (not_found "Destination folder unavailable")
  | some f ↦ ok tt
]

unfoldable pub allocate_namespace_name :
    Db → ℕ → Option ℕ → Text → Kind → Option ℕ → Option ℕ → Result Text
unfolding lock_parent choose_name names_in
allocate_namespace_name db user_id parent_id requested kind exclude_file exclude_folder =
    lock_parent db user_id parent_id >>= λ _.
    choose_name kind (names_in db user_id parent_id exclude_file exclude_folder) requested
