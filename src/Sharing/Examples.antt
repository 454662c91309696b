-- ===== src/Sharing/Examples.antt =====
-- Links on small data, and instances of the theorems on them.
use https_github_com_sv3t0v.Common.{
  ℕ, ◌+◌, ◌*◌, ◌≤◌, ◌≡◌, refl, String, Bool, true, false, none, some, List, [], ◌∷◌, All, arith,
  find_row, set_row, keep_rows,
}
use https_github_com_sv3t0v.Http.{ok}
use https_github_com_sv3t0v.Text.{Text, text_eq}
use https_github_com_sv3t0v.Uploads.{User, FileRow, Db, find_user}
use https_github_com_sv3t0v.Files.{new_folder, new_mirror, plain_file, owned_file}
use https_github_com_sv3t0v.Files.Subtree.{has, grow, descendants}
use https_github_com_sv3t0v.Sharing.{
  ShareLink, has_token, has_share_id, find_share_by_token, revoke_share,
}
use https_github_com_sv3t0v.Sharing.Passwords.{verify_share_password}
use https_github_com_sv3t0v.Sharing.Folders.{
  is_open_root, shared_subtree, resolve_shared_folder_file,
}
use https_github_com_sv3t0v.Sharing.Downloads.{
  Call, download, folder_download, downloads, downloads-le, revoke-downloads,
}
use https_github_com_sv3t0v.Sharing.Guesses.{Attempt, wrong_guesses, wrong_guesses-le}
use https_github_com_sv3t0v.Sharing.Archive.{
  split_slash, join_slash, keep_parts, safe_archive_path, IsEntry, safe_archive_path-Parts,
}
use https_github_com_sv3t0v.Sharing.Scope.{IsInScope, resolve-IsInScope}

abbrev user : User
user = record { id = 1; is_active = true; storage_quota = 100; storage_used = 6 }

abbrev folder_name : Text
folder_name = 97 ∷ []

abbrev file_name : Text
file_name = 98 ∷ []

abbrev mirror : FileRow
mirror = new_mirror 8 7 folder_name none 1

abbrev note : FileRow
note = plain_file 9 file_name (some "p") 6 (some "text/plain") (some 7) 1

abbrev db : Db
db = record {
  users = user ∷ [];
  sessions = [];
  chunks = [];
  folders = new_folder 7 folder_name none 1 ∷ [];
  files = note ∷ mirror ∷ [];
  next_id = 10;
}

abbrev link : ShareLink
link = record {
  id = 1;
  token = "t";
  password = some "b";
  expires_at = none;
  locked_until = none;
  is_active = true;
  failed_attempts = 0;
  download_count = 1;
  max_downloads = some 2;
  is_folder = true;
  allow_upload = false;
  user_id = 1;
  file_id = 8;
}

abbrev links : List ShareLink
links = link ∷ []

test_found : find_row (has_token "t") links ≡ some link
unfolding find_row
test_found = refl

abbrev calls : List Call
calls = folder_download 5 "t" 9 db ∷ download 6 "t" ∷ []

downloads-le_example : 1 + downloads "t" calls links ≤ 2
downloads-le_example = downloads-le "t" calls link links 2 test_found refl (omega arith)

abbrev revoked : List ShareLink
revoked = record link { is_active = false } ∷ []

test_key : find_row (has_share_id 1) links ≡ some link
unfolding find_row
test_key = refl

test_revoke : revoke_share 1 1 links ≡ ok revoked
unfolding revoke_share find_row set_row
test_revoke = refl

revoke-downloads_example : downloads "t" calls revoked ≡ 0
revoke-downloads_example =
    revoke-downloads 1 "t" calls link links revoked test_found test_key test_revoke

-- A stand-in for the comparison with a hash.
abbrev compare : Text → String → Bool
compare password hash = text_eq password (98 ∷ [])

abbrev guess : ℕ → Attempt
guess now = record { now = now; password = 97 ∷ []; db = db }

abbrev guesses : List Attempt
guesses = guess 1 ∷ guess 2 ∷ guess 3 ∷ guess 4 ∷ guess 5 ∷ guess 6 ∷ guess 7 ∷ []

-- Of seven attempts in a row only four are told that the password is wrong.
test_guesses : wrong_guesses true compare "t" guesses links ≡ 4
unfolding wrong_guesses verify_share_password find_share_by_token find_row set_row find_user text_eq
test_guesses = refl

wrong_guesses-le_example : wrong_guesses true compare "t" guesses links ≤ 5 * 1
wrong_guesses-le_example =
    wrong_guesses-le true compare "t" guesses link links 0 8 1 test_found refl (omega arith)
      (
        omega arith,
        (
          omega arith,
          (omega arith, (omega arith, (omega arith, (omega arith, (omega arith, omega arith))))),
        ),
      )
      (omega arith)

-- `a\./b`
abbrev entry : Text
entry = 97 ∷ 92 ∷ 46 ∷ 47 ∷ 98 ∷ []

abbrev safe_entry : Text
safe_entry = 97 ∷ 47 ∷ 98 ∷ []

test_entry : safe_archive_path entry ≡ ok safe_entry
unfolding safe_archive_path split_slash keep_parts join_slash
test_entry = refl

safe_archive_path-Parts_example :
    All IsEntry (split_slash safe_entry) × (safe_archive_path safe_entry ≡ ok safe_entry)
safe_archive_path-Parts_example =
    safe_archive_path-Parts 97 (92 ∷ 46 ∷ 47 ∷ 98 ∷ []) safe_entry test_entry

test_resolve : resolve_shared_folder_file link mirror 9 db ≡ ok note
unfolding resolve_shared_folder_file owned_file shared_subtree is_open_root descendants grow has
    find_row keep_rows
test_resolve = refl

resolve-IsInScope_example : IsInScope link mirror note db
resolve-IsInScope_example = resolve-IsInScope link mirror note 9 db test_resolve
