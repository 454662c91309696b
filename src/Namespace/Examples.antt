-- ===== src/Namespace/Examples.antt =====
-- Names allocated in a small folder.
use https_github_com_sv3t0v.Common.{◌≡◌, refl, false, none, [], ◌∷◌, arith, keep_rows}
use https_github_com_sv3t0v.Http.{ok}
use https_github_com_sv3t0v.Text.{Text, text_eq}
use https_github_com_sv3t0v.Uploads.{FileRow, Db}
use https_github_com_sv3t0v.Namespace.{
  file, allocate_namespace_name, choose_name, names_in, is_occupied, lock_parent, try_names,
  candidate, slice_to, slice_from, digits, last_index_of,
}
use https_github_com_sv3t0v.Namespace.Allocation.{IsFree, allocate-IsFree}

abbrev requested : Text
requested = 97 ∷ 46 ∷ 98 ∷ []

abbrev allocated : Text
allocated = 97 ∷ 32 ∷ 40 ∷ 49 ∷ 41 ∷ 46 ∷ 98 ∷ []

abbrev entry : FileRow
entry = record {
  id = 3;
  name = requested;
  storage_path = none;
  size = 0;
  mime_type = none;
  checksum = none;
  is_folder = false;
  is_deleted = false;
  parent_id = none;
  folder_id = none;
  upload_id = none;
  user_id = 1;
}

abbrev db : Db
db = record {
  users = [];
  sessions = [];
  chunks = [];
  folders = [];
  files = entry ∷ [];
  next_id = 4;
}

test_allocate : allocate_namespace_name db 1 none requested file none none ≡ ok allocated
unfolding allocate_namespace_name choose_name names_in is_occupied lock_parent try_names candidate
    slice_to slice_from digits last_index_of keep_rows text_eq
test_allocate = refl

allocate-IsFree_example : IsFree (names_in db 1 none none none) allocated
allocate-IsFree_example =
    allocate-IsFree db 1 none requested file none none allocated (omega arith) test_allocate
