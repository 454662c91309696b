-- ===== src/Users.antt =====
-- backend/src/users/users.service.ts: the bytes that a user is charged for.
pub mod Storage
mod Examples
use https_github_com_sv3t0v.Common.{
  ℕ, ◌+◌, ◌-◌, Bool, true, false, Option, none, some, List, ltb, leb, ◌==◌, if◌then◌else◌, set_row,
}
use https_github_com_sv3t0v.Http.{
  Result, ok, err, ◌>>=◌, ◌>>◌, throw_if, bad_request, forbidden, not_found, parse_database_size,
}
use https_github_com_sv3t0v.Uploads.{User, Db, has_id, find_user}

abbrev pub set_user : ℕ → User → Db → Db
set_user id u db = record db { users = set_row (has_id id) u db.users }

-- `storageUsed + bytes` where the quota has room; otherwise the error that says why not.
abbrev charge : ℕ → ℕ → Db → Option User → Result Db
charge id bytes db none = err (not_found "User not found")
charge id bytes db (some u) =
    if leb (u.storage_used + bytes) u.storage_quota
    then ok (set_user id (record u { storage_used = u.storage_used + bytes }) db)
    else (do
      used ← parse_database_size u.storage_used
      quota ← parse_database_size u.storage_quota
      sum ← parse_database_size (used + bytes)
      throw_if (ltb quota sum) (forbidden "Storage quota exceeded")
      err (bad_request "Storage quota update failed"))

unfoldable pub update_storage_used : ℕ → ℕ → Db → Result Db
unfolding parse_database_size find_user
update_storage_used id n db = parse_database_size n >>= λ bytes.
    if bytes == 0 then ok db else charge id bytes db (find_user id db)

abbrev discharge : ℕ → ℕ → Db → Option User → Result Db
discharge id bytes db none = err (not_found "User not found")
discharge id bytes db (some u) =
    if leb bytes u.storage_used
    then ok (set_user id (record u { storage_used = u.storage_used - bytes }) db)
    else (do
      used ← parse_database_size u.storage_used
      throw_if (ltb used bytes)
          (bad_request "Storage used would go negative — data inconsistency detected")
      err (bad_request "Concurrent storage modification — please retry"))

unfoldable pub decrement_storage_used : ℕ → ℕ → Db → Result Db
unfolding parse_database_size find_user
decrement_storage_used id n db = parse_database_size n >>= λ bytes.
    if bytes == 0 then ok db else discharge id bytes db (find_user id db)
