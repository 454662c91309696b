-- ===== src/Uploads/Chunk.antt =====
-- backend/src/uploads/uploads.service.ts: `uploadChunk`, with the SHA-256 of Node as a parameter.
-- A chunk in an ingress file counts as the bytes of its descriptor; the checks on that file's path
-- are left out, and so are sessions of before the chunk table (`accountingInitialized` unset).
pub mod Accounting
pub mod Calls
use Prim.Native.String
use https_github_com_sv3t0v.RateLimit.Service.{decimal}
use https_github_com_sv3t0v.Common.{
  ℕ, suc, ◌+◌, ◌-◌, ◌*◌, String, Bool, true, false, not, ◌&&◌, ◌||◌, Option, none, some, List, [],
  ◌∷◌, ltb, leb, ◌==◌, str_eq, if◌then◌else◌, find_row, length,
}
use https_github_com_sv3t0v.Http.{
  HttpError, Result, ok, err, ◌>>=◌, ◌>>◌, throw_if, bad_request, not_found, conflict, unavailable,
  JsNumber, nat, max_safe, parse_database_size,
}
use https_github_com_sv3t0v.Uploads.{
  Status, pending, uploading, completed, aborted, Session, ChunkRecord, Db, Disk, World, Bytes,
  find_session, save_session, is_expired,
}
use https_github_com_sv3t0v.Uploads.Create.{or_throw}

-- How far the write of a new chunk file comes: to the end, to an error before the rename into its
-- place, or to an error behind it, when the file stays.
pub data Write : Type 0 where
  written lost kept : Write

-- The answers of the outside: the clock, the advisory lock, the SSD journal, the workspace, the
-- sync of a chunk file that is there, the write of a new one, and the commit.
pub record Outside : Type 0 where
  pub now : ℕ
  pub fence_free : Bool
  pub unreserved : Bool
  pub workspace_ok : Bool
  pub sync_ok : Bool
  pub write : Write
  pub commit_ok : Bool

abbrev pub internal_error : HttpError
internal_error = record { status = 500; message = "Internal server error" }

abbrev pub is_closed : Status → Bool
is_closed completed = true
is_closed aborted = true
is_closed _ = false

abbrev closed_error : Status → HttpError
closed_error aborted = bad_request "Upload session is aborted"
closed_error _ = bad_request "Upload session is completed"

-- The size that a chunk must have.
abbrev pub expected_size : Session → ℕ → ℕ
expected_size s i =
    if i == s.total_chunks - 1 then s.total_size - i * s.chunk_size else s.chunk_size

unfoldable pub check_chunk : Outside → Session → ℕ → ℕ → Result (Unit {0})
check_chunk o s i size = do
  throw_if (not o.unreserved) (unavailable "Upload recovery requires operator inspection")
  throw_if (not o.workspace_ok) (unavailable "Upload workspace unavailable")
  throw_if (is_expired o.now s) (bad_request "Upload session expired")
  throw_if (is_closed s.status) (closed_error s.status)
  throw_if (leb s.total_chunks i) (bad_request "Invalid chunk index")
  throw_if (leb s.total_size (i * s.chunk_size)) (bad_request "Invalid chunk position")
  throw_if (not (size == expected_size s i)) (bad_request "Chunk size does not match expected size")

abbrev pub is_record_of : ℕ → ℕ → ChunkRecord → Bool
is_record_of id i r = r.session_id == id && r.chunk_index == i

abbrev pub different : ℕ → HttpError
different i =
    bad_request
      (String.◌++◌ "Chunk " (String.◌++◌ (decimal i) " already uploaded with different content"))

abbrev pub add_part : String → ℕ → Bytes → Disk → Disk
add_part upload_id i bytes d = record d {
  part = λ u j. if str_eq u upload_id && j == i then some bytes else d.part u j;
}

-- Publication of a new chunk file.
abbrev pub write_part : Write → Disk → Disk → Disk × Result (Unit {0})
write_part written before after = (after, ok tt)
write_part lost before after = (before, err internal_error)
write_part kept before after = (after, err internal_error)

module _ (sha256 : Bytes → String) where
  -- `record && (record.byteSize !== chunkSize || record.sha256 !== incomingHash)`
  abbrev pub contradicts : Option ChunkRecord → Bytes → Bool
  contradicts none bytes = false
  contradicts (some r) bytes =
      not (r.byte_size == length bytes) || not (str_eq r.sha256 (sha256 bytes))

  -- The chunk file that is there must hold the same bytes; otherwise it is written.
  unfoldable pub store_part :
      Outside → Session → ℕ → Bytes → Disk → Option Bytes → Disk × Result (Unit {0})
  store_part o s i bytes d (some there) =
      if not (length there == length bytes) || not (str_eq (sha256 there) (sha256 bytes))
      then (d, err (different i))
      else if o.sync_ok
      then (d, ok tt)
      else (d, err internal_error)
  store_part o s i bytes d none = write_part o.write d (add_part s.upload_id i bytes d)

  abbrev pub new_record : Session → ℕ → Bytes → ChunkRecord
  new_record s i bytes = record {
    session_id = s.id;
    chunk_index = i;
    byte_size = length bytes;
    sha256 = sha256 bytes;
  }

  -- The row of a chunk that is new, the counters, and the status.
  unfoldable pub account : Session → ℕ → Bytes → Option ChunkRecord → Db → Result (Db × Session)
  account s i bytes (some r) db =
      let s' = record s { status = uploading } in ok (save_session s' db, s')
  account s i bytes none db = do
    size ← parse_database_size (s.uploaded_size + length bytes)
    let s' = record s {
      uploaded_count = s.uploaded_count + 1;
      uploaded_size = size;
      status = uploading;
    }
    ok (save_session s' (record db { chunks = new_record s i bytes ∷ db.chunks }), s')

  abbrev settle : Outside → World → Disk → Result (Db × Session) → World × Result Session
  settle o w d (err e) = (record w { disk = d }, err e)
  settle o w d (ok (db, s)) =
      if o.commit_ok
      then (record { db = db; disk = d }, ok s)
      else (record w { disk = d }, err internal_error)

  abbrev recorded :
      Outside
      → Session
      → ℕ
      → Bytes
      → World
      → Option ChunkRecord
      → Disk × Result (Unit {0})
      → World × Result Session
  recorded o s i bytes w row (d, err e) = (record w { disk = d }, err e)
  recorded o s i bytes w row (d, ok _) = settle o w d (account s i bytes row w.db)

  -- The chunk of a session that passed the checks. The disk keeps what was written when the
  -- transaction is rolled back.
  unfoldable pub put_chunk : Outside → Session → ℕ → Bytes → World → World × Result Session
  unfolding store_part account parse_database_size
  put_chunk o s i bytes w =
      let row = find_row (is_record_of s.id i) w.db.chunks in
      if contradicts row bytes
      then (w, err (different i))
      else recorded o s i bytes w row (store_part o s i bytes w.disk (w.disk.part s.upload_id i))

  abbrev guarded :
      Outside → Session → ℕ → Bytes → World → Result (Unit {0}) → World × Result Session
  guarded o s i bytes w (err e) = (w, err e)
  guarded o s i bytes w (ok _) = put_chunk o s i bytes w

  abbrev located : Outside → ℕ → Bytes → World → Option Session → World × Result Session
  located o i bytes w none = (w, err (not_found "Upload session not found"))
  located o i bytes w (some s) = guarded o s i bytes w (check_chunk o s i (length bytes))

  unfoldable pub upload_chunk :
      Outside → ℕ → String → JsNumber → Bytes → World → World × Result Session
  unfolding put_chunk check_chunk
  upload_chunk o user_id upload_id (nat i) bytes w =
      if ltb max_safe i
      then (w, err (bad_request "chunkIndex must be a non-negative safe integer"))
      else if o.fence_free
      then located o i bytes w (find_session user_id upload_id w.db)
      else (w, err (conflict "Upload is being finalized; retry later"))
  upload_chunk o user_id upload_id _ bytes w =
      (w, err (bad_request "chunkIndex must be a non-negative safe integer"))
