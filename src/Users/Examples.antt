-- ===== src/Users/Examples.antt =====
-- A user that is charged and given back.
use https_github_com_sv3t0v.Common.{ℕ, ◌≡◌, refl, true, [], ◌∷◌, find_row, set_row}
use https_github_com_sv3t0v.Http.{ok, parse_database_size}
use https_github_com_sv3t0v.Uploads.{Db, find_user}
use https_github_com_sv3t0v.Users.{update_storage_used, decrement_storage_used}
use https_github_com_sv3t0v.Users.Storage.{decrement-update}

abbrev db_with : ℕ → Db
db_with used = record {
  users = record { id = 1; is_active = true; storage_quota = 100; storage_used = used } ∷ [];
  sessions = [];
  chunks = [];
  folders = [];
  files = [];
  next_id = 2;
}

test_update : update_storage_used 1 30 (db_with 10) ≡ ok (db_with 40)
unfolding update_storage_used parse_database_size find_user find_row set_row
test_update = refl

decrement-update_example : decrement_storage_used 1 30 (db_with 40) ≡ ok (db_with 10)
decrement-update_example = decrement-update 1 30 (db_with 10) (db_with 40) test_update
