-- ===== src/Uploads/Sessions.antt =====
-- backend/src/uploads/uploads.service.ts: `getUploadSession`, `abortUpload`, `reconcileUploadSession`,
-- `listUploadSessions`, with the paths of objects as a parameter.
pub mod Resuming
pub mod Aborting
use https_github_com_sv3t0v.Common.{
  ℕ, zero, suc, ◌+◌, String, Bool, true, false, not, ◌&&◌, ◌||◌, Option, none, some, List, [], ◌∷◌,
  map, ltb, leb, ◌==◌, str_eq, if◌then◌else◌, find_row, keep_rows, sum_rows,
}
use https_github_com_sv3t0v.Http.{
  HttpError, Result, ok, err, ◌>>=◌, ◌>>◌, throw_if, bad_request, not_found, conflict, unavailable,
  parse_database_size,
}
use https_github_com_sv3t0v.Text.{Text}
use https_github_com_sv3t0v.Uploads.{
  Status, pending, uploading, completed, aborted, is_active, Session, ChunkRecord, FileRow, Db,
  Disk, World, find_session, save_session, is_expired, has_expired,
}
use https_github_com_sv3t0v.Uploads.Create.{or_throw}
use https_github_com_sv3t0v.Uploads.Chunk.{internal_error}
use https_github_com_sv3t0v.Uploads.Complete.{
  Commit, acknowledged, unacknowledged, undone, cleanup_unpublished, delete_temp_files,
  without_chunks, is_upload_of, unreserved_error, workspace_error,
}

-- The clock, the advisory lock, the SSD journal, the workspace, and the writes of a transaction: done
-- with its COMMIT, done with the answer to the COMMIT lost, or not done, by an error at any of them.
pub record Outside : Type 0 where
  pub now : ℕ
  pub fence_free : Bool
  pub unreserved : Bool
  pub workspace_ok : Bool
  pub commit : Commit

unfoldable pub get_upload_session : Outside → ℕ → String → Db → Result Session
unfolding find_session
get_upload_session o user_id upload_id db = do
  s ← or_throw (find_session user_id upload_id db) (not_found "Upload session not found")
  throw_if (is_expired o.now s) (bad_request "Upload session expired")
  throw_if (not o.unreserved) unreserved_error
  throw_if (not o.workspace_ok) workspace_error
  ok s

-- `toSessionMetadata`: what of a session is public.
pub record Metadata : Type 0 where
  pub upload_id : String
  pub filename : Text
  pub total_size : ℕ
  pub chunk_size : ℕ
  pub total_chunks : ℕ
  pub uploaded_size : ℕ
  pub status : Status
  pub expires_at : Option ℕ
  pub parent_id : Option ℕ

abbrev pub to_session_metadata : Session → Metadata
to_session_metadata s = record {
  upload_id = s.upload_id;
  filename = s.filename;
  total_size = s.total_size;
  chunk_size = s.chunk_size;
  total_chunks = s.total_chunks;
  uploaded_size = s.uploaded_size;
  status = s.status;
  expires_at = s.expires_at;
  parent_id = s.parent_id;
}

-- `ORDER BY chunkIndex`.
unfoldable pub insert_chunk : ChunkRecord → List ChunkRecord → List ChunkRecord
insert_chunk r [] = r ∷ []
insert_chunk r (q ∷ qs) =
    if leb r.chunk_index q.chunk_index then r ∷ q ∷ qs else q ∷ insert_chunk r qs

unfoldable pub sort_chunks : List ChunkRecord → List ChunkRecord
unfolding insert_chunk
sort_chunks [] = []
sort_chunks (r ∷ rs) = insert_chunk r (sort_chunks rs)

unfoldable pub take {ℓ} : {A : Type ℓ} → ℕ → List A → List A
take zero xs = []
take (suc n) [] = []
take (suc n) (x ∷ xs) = x ∷ take n xs

abbrev pub is_chunk_of : ℕ → ChunkRecord → Bool
is_chunk_of id r = r.session_id == id

unfoldable pub chunks_of : ℕ → ℕ → Db → List ChunkRecord
unfolding sort_chunks take
chunks_of max_chunks id db = take max_chunks (sort_chunks (keep_rows (is_chunk_of id) db.chunks))

-- `chunks.reduce(…)`, whose sum is checked at each step.
unfoldable pub add_sizes : ℕ → List ChunkRecord → Result ℕ
unfolding parse_database_size
add_sizes sum [] = ok sum
add_sizes sum (r ∷ rs) = parse_database_size (sum + r.byte_size) >>= λ next. add_sizes next rs

-- What the client is told of a chunk and of a published file.
pub record ChunkReport : Type 0 where
  pub chunk_index : ℕ
  pub byte_size : ℕ
  pub sha256 : String

abbrev pub report_of : ChunkRecord → ChunkReport
report_of r = record { chunk_index = r.chunk_index; byte_size = r.byte_size; sha256 = r.sha256 }

pub record FileReport : Type 0 where
  pub id : ℕ
  pub name : Text
  pub size : ℕ
  pub parent_id : Option ℕ
  pub upload_id : Option String

abbrev pub file_report_of : FileRow → ℕ → FileReport
file_report_of f size = record {
  id = f.id;
  name = f.name;
  size = size;
  parent_id = f.parent_id;
  upload_id = f.upload_id;
}

pub record Reconciled : Type 0 where
  pub session : Metadata
  pub chunks : List ChunkReport
  pub file : Option FileReport

abbrev pub with_uploaded : ℕ → Session → Metadata
with_uploaded n s = record (to_session_metadata s) { uploaded_size = n }

unfoldable pub reconcile_file : Session → Option FileRow → Result Reconciled
unfolding parse_database_size
reconcile_file s none = err (not_found "Completed upload file not found")
reconcile_file s (some f) =
    if f.is_deleted
    then err (not_found "Completed upload file not found")
    else parse_database_size f.size >>= λ size. ok (record {
      session = to_session_metadata s;
      chunks = [];
      file = some (file_report_of f size);
    })

abbrev pub reconcile_sum : ℕ → Session → Db → Result ℕ → Result Reconciled
reconcile_sum max_chunks s db (err e) = err e
reconcile_sum max_chunks s db (ok size) = ok (record {
  session = with_uploaded size s;
  chunks = map report_of (chunks_of max_chunks s.id db);
  file = none;
})

abbrev pub reconcile_status : ℕ → Session → Db → Status → Result Reconciled
reconcile_status max_chunks s db completed =
    reconcile_file s (find_row (is_upload_of s.user_id s.upload_id) db.files)
reconcile_status max_chunks s db aborted =
    ok (record { session = with_uploaded 0 s; chunks = []; file = none })
reconcile_status max_chunks s db pending =
    reconcile_sum max_chunks s db (add_sizes 0 (chunks_of max_chunks s.id db))
reconcile_status max_chunks s db uploading =
    reconcile_sum max_chunks s db (add_sizes 0 (chunks_of max_chunks s.id db))

abbrev pub is_completed : Status → Bool
is_completed completed = true
is_completed _ = false

unfoldable pub reconcile_upload_session : ℕ → Outside → ℕ → String → Db → Result Reconciled
unfolding find_session chunks_of add_sizes reconcile_file
reconcile_upload_session max_chunks o user_id upload_id db = do
  throw_if (not o.fence_free) (conflict "Upload is being finalized; retry later")
  s ← or_throw (find_session user_id upload_id db) (not_found "Upload session not found")
  throw_if (not o.workspace_ok) workspace_error
  throw_if (not (is_completed s.status) && has_expired o.now s)
      (bad_request "Upload session expired")
  reconcile_status max_chunks s db s.status

abbrev pub is_listed : ℕ → ℕ → Session → Bool
is_listed now user_id s =
    s.user_id == user_id
    && is_active s.status
    && elim s.expires_at [ none ↦ false | some at ↦ ltb now at ]

abbrev pub is_empty {ℓ} : {A : Type ℓ} → List A → Bool
is_empty [] = true
is_empty (x ∷ xs) = false

-- The sessions stand with the newest first.
unfoldable pub list_upload_sessions : Outside → ℕ → Db → Result (List Metadata)
unfolding take
list_upload_sessions o user_id db =
    let listed = take 200 (keep_rows (is_listed o.now user_id) db.sessions) in
    throw_if (not o.workspace_ok && not (is_empty listed)) workspace_error
    >> ok (map to_session_metadata listed)

-- The end of the transaction. The files are gone before its writes, and stay gone without them.
abbrev pub settle_abort : Commit → Db → Db → Disk → World × Result (Unit {0})
settle_abort acknowledged db db' d = (record { db = db'; disk = d }, ok tt)
settle_abort unacknowledged db db' d = (record { db = db'; disk = d }, err internal_error)
settle_abort undone db db' d = (record { db = db; disk = d }, err internal_error)

module _ (final_path : ℕ → String → Text → String) where
  -- The attempts and the directory of a session are removed; then it is aborted, without chunks.
  abbrev pub abort_found : Outside → World → Session → World × Result (Unit {0})
  abort_found o w s =
      if not o.workspace_ok
      then (w, err workspace_error)
      else if is_completed s.status
      then (w, err (bad_request "Cannot abort a completed upload"))
      else if not o.unreserved
      then (w, err unreserved_error)
      else settle_abort o.commit w.db
          (save_session (record s { status = aborted }) (without_chunks s.id w.db))
          (delete_temp_files s.upload_id (cleanup_unpublished final_path s w.db w.disk).0)

  abbrev pub abort_located : Outside → World → Option Session → World × Result (Unit {0})
  abort_located o w none = (w, err (not_found "Upload session not found"))
  abort_located o w (some s) = abort_found o w s

  unfoldable pub abort_upload : Outside → ℕ → String → World → World × Result (Unit {0})
  unfolding find_session save_session cleanup_unpublished
  abort_upload o user_id upload_id w =
      if o.fence_free
      then abort_located o w (find_session user_id upload_id w.db)
      else (w, err (conflict "Upload is being finalized; retry later"))
