-- ===== src/Uploads/Create.antt =====
-- backend/src/uploads/uploads.service.ts: `createUploadSession`, and the checks that it shares.
use Prim.Native.String
use https_github_com_sv3t0v.Common.{
  ℕ, suc, ◌+◌, ◌-◌, ◌/◌, String, Bool, true, false, not, ◌&&◌, ◌||◌, Option, none, some, ◌∷◌, ltb,
  ◌==◌, str_eq, if◌then◌else◌, find_row, keep_rows, length,
}
use https_github_com_sv3t0v.Http.{
  HttpError, Result, ok, err, ◌>>=◌, ◌>>◌, throw_if, bad_request, forbidden, unavailable, JsNumber,
  nat, negative, fractional, non_finite, not_number, max_safe, parse_database_size,
}
use https_github_com_sv3t0v.Text.{Text, units, text_eq, some_unit, is_blank, is_control, is_sha256}
use https_github_com_sv3t0v.Uploads.{
  pending, Session, Folder, Db, World, Config, find_user, active_total,
}

-- `!Number.isSafeInteger(n) || n <= 0`
abbrev pub is_not_positive : JsNumber → Bool
is_not_positive (nat n) = n == 0 || ltb max_safe n
is_not_positive _ = true

-- The messages leave out the value that they quote.
abbrev labelled : String → String → HttpError
labelled label rest = bad_request (String.◌++◌ label rest)

unfoldable pub validate_safe_positive_integer : JsNumber → String → Result ℕ
validate_safe_positive_integer not_number label = err (labelled label " must be a finite number")
validate_safe_positive_integer non_finite label = err (labelled label " must be a finite number")
validate_safe_positive_integer fractional label = err (labelled label " must be a safe integer")
validate_safe_positive_integer negative label = err (labelled label " must be > 0")
validate_safe_positive_integer (nat n) label =
    if ltb max_safe n
    then err (labelled label " must be a safe integer")
    else if n == 0
    then err (labelled label " must be > 0")
    else ok n

unfoldable pub validate_filename : Text → Result (Unit {0})
unfolding units text_eq some_unit is_blank
validate_filename name =
    throw_if
      (is_blank name
        || text_eq name (units ".")
        || text_eq name (units "..")
        || ltb 255 (length name)
        || some_unit (λ c. c == b'/') name
        || some_unit (λ c. c == b'\\') name
        || some_unit is_control name)
      (bad_request "Invalid filename")

pub record Request : Type 0 where
  pub user_id : ℕ
  pub filename : Text
  pub total_size : JsNumber
  pub chunk_size : JsNumber
  pub parent_id : Option JsNumber
  pub expected_sha256 : Option String

-- What a call meets outside: the clock, the new upload id, and whether the workspace answers.
pub record Outside : Type 0 where
  pub now : ℕ
  pub uuid : String
  pub workspace_ok : Bool
  pub mkdir_ok : Bool

-- `Math.ceil(a / b)` of two positive integers.
abbrev pub ceil_div : ℕ → ℕ → ℕ
ceil_div a b = (a + (b - 1)) / b

abbrev pub is_folder_of : ℕ → ℕ → Folder → Bool
is_folder_of id user_id f = f.id == id && f.user_id == user_id

-- Note that a deleted folder is found too.
unfoldable pub check_parent : Db → ℕ → Option JsNumber → Result (Option ℕ)
check_parent db user_id none = ok none
check_parent db user_id (some (nat n)) =
    if is_not_positive (nat n)
    then err (bad_request "Invalid target folder")
    else elim (find_row (is_folder_of n user_id) db.folders) [
      | none ↦ err (forbidden "Target folder not found or access denied")
      | some f ↦ ok (some n)
    ]
check_parent db user_id (some _) = err (bad_request "Invalid target folder")

abbrev pub bad_digest : Option String → Bool
bad_digest none = false
bad_digest (some digest) = not (is_sha256 (units digest))

pub record Sizes : Type 0 where
  pub total_size : ℕ
  pub chunk_size : ℕ
  pub total_chunks : ℕ
  pub parent_id : Option ℕ

unfoldable pub check_sizes : Config → ℕ → ℕ → Option ℕ → Result Sizes
check_sizes c total_size chunk_size parent_id = do
  throw_if (ltb c.max_chunk_size chunk_size) (bad_request "Chunk size exceeds allowed maximum")
  throw_if (ltb 0 c.max_file_size && ltb c.max_file_size total_size)
      (bad_request "File size exceeds allowed maximum")
  throw_if (ltb 0 c.max_total_size && ltb c.max_total_size total_size)
      (bad_request "Total upload size exceeds allowed maximum")
  let total_chunks = ceil_div total_size chunk_size
  throw_if (total_chunks == 0 || ltb c.max_upload_chunks total_chunks)
      (bad_request "Invalid chunk count")
  ok (record {
    total_size = total_size;
    chunk_size = chunk_size;
    total_chunks = total_chunks;
    parent_id = parent_id;
  })

unfoldable pub check_numbers : Config → Request → Option ℕ → Result Sizes
check_numbers c r parent = do
  total_size ← validate_safe_positive_integer r.total_size "totalSize"
  chunk_size ← validate_safe_positive_integer r.chunk_size "chunkSize"
  check_sizes c total_size chunk_size parent

-- What is checked before the transaction.
unfoldable pub check_request : Config → Db → Request → Result Sizes
unfolding check_numbers check_parent check_sizes validate_filename validate_safe_positive_integer
    is_sha256 units
check_request c db r = do
  throw_if (bad_digest r.expected_sha256) (bad_request "Invalid whole SHA256")
  validate_filename r.filename
  parent ← check_parent db r.user_id r.parent_id
  check_numbers c r parent

abbrev pub new_session : Request → Sizes → Config → Outside → ℕ → Session
new_session r z c o id = record {
  id = id;
  upload_id = o.uuid;
  filename = r.filename;
  expected_sha256 = r.expected_sha256;
  total_size = z.total_size;
  uploaded_size = 0;
  chunk_size = z.chunk_size;
  total_chunks = z.total_chunks;
  uploaded_count = 0;
  parent_id = z.parent_id;
  status = pending;
  expires_at = some (o.now + c.session_ttl_ms);
  user_id = r.user_id;
}

abbrev pub or_throw {ℓ} : {A : Type ℓ} → Option A → HttpError → Result A
or_throw none e = err e
or_throw (some a) e = ok a

-- The transaction: under the lock of the user's row it sums the active sessions, holds the sum
-- against the limit and the quota, and inserts the session.
unfoldable pub reserve : Config → Outside → Request → Sizes → Db → Result (Db × Session)
unfolding parse_database_size
reserve c o r z db = do
  throw_if (not o.workspace_ok) (unavailable "Upload workspace unavailable")
  user ← or_throw (find_user r.user_id db) (forbidden "User not found")
  active ← parse_database_size (active_total r.user_id db)
  next_active ← if ltb 0 c.max_total_size then parse_database_size (active + z.total_size) else ok 0
  throw_if (ltb 0 c.max_total_size && ltb c.max_total_size next_active)
      (bad_request "Total upload size exceeds allowed maximum")
  quota ← parse_database_size user.storage_quota
  used ← parse_database_size user.storage_used
  reserved ← parse_database_size (used + active)
  next_used ← parse_database_size (reserved + z.total_size)
  throw_if (ltb quota next_used) (forbidden "Storage quota exceeded")
  let s = new_session r z c o db.next_id
  ok (record db { sessions = s ∷ db.sessions; next_id = suc db.next_id }, s)

-- The directory is made after the commit. If that fails the row is deleted again.
unfoldable pub make_dir : Outside → World → Db × Session → World × Result Session
make_dir o w (db, s) =
    if o.mkdir_ok
    then (
      record {
        db = db;
        disk = record (w.disk) {
          has_dir = λ u. if str_eq u s.upload_id then true else w.disk.has_dir u;
        };
      },
      ok s,
    )
    else (
      record w { db = record db { sessions = keep_rows (λ t. not (t.id == s.id)) db.sessions } },
      err (bad_request "Failed to prepare upload session"),
    )

abbrev pub finish : Outside → World → Result (Db × Session) → World × Result Session
finish o w (err e) = (w, err e)
finish o w (ok r) = make_dir o w r

unfoldable pub create_upload_session : Config → Outside → Request → World → World × Result Session
unfolding check_request reserve make_dir
create_upload_session c o r w = finish o w (check_request c w.db r >>= λ z. reserve c o r z w.db)
