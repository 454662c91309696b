-- ===== src/Uploads/Complete.antt =====
-- backend/src/uploads/uploads.service.ts: `completeUpload`, with the SHA-256 of Node and the paths
-- that `generateFinalPath` makes (of a user, an upload key and a filename) as parameters.
-- Left out: how the MIME type is found, and errors of the file system while files are deleted.
pub mod Assembly
pub mod Publication
pub mod Charge
pub mod Steps
use https_github_com_sv3t0v.Common.{
  ℕ, zero, suc, ◌+◌, ◌-◌, ◌*◌, String, Bool, true, false, not, ◌&&◌, ◌||◌, Option, none, some, List,
  [], ◌∷◌, ◌++◌, ltb, leb, ◌==◌, str_eq, if◌then◌else◌, find_row, keep_rows, length,
}
use https_github_com_sv3t0v.Http.{
  HttpError, Result, ok, err, ◌>>=◌, ◌>>◌, throw_if, bad_request, forbidden, not_found, conflict,
  unavailable, parse_database_size,
}
use Prim.Native.String
use https_github_com_sv3t0v.RateLimit.Service.{decimal}
use https_github_com_sv3t0v.Text.{Text, text_eq}
use https_github_com_sv3t0v.Uploads.{
  Status, pending, uploading, completed, aborted, is_active, Session, ChunkRecord, Folder, FileRow,
  Db, Disk, World, Bytes, find_user, find_session, save_session, active_total, is_expired,
  has_expired,
}
use https_github_com_sv3t0v.Uploads.Create.{or_throw}
use https_github_com_sv3t0v.Uploads.Chunk.{expected_size, is_record_of, internal_error}
use https_github_com_sv3t0v.Namespace.{same_parent, allocate_namespace_name, is_live_folder}
use https_github_com_sv3t0v.Namespace
use https_github_com_sv3t0v.Users.{update_storage_used}

-- What becomes of a COMMIT: it is done and acknowledged, done with the answer lost, or not done.
pub data Commit : Type 0 where
  acknowledged unacknowledged undone : Commit

-- What a call meets outside. `mime` is the answer of the MIME detector. `meanwhile` is what other requests do to the database between the
-- first reads and the publication.
pub record Outside : Type 0 where
  pub has_slot : Bool
  pub fence_free : Bool
  pub unreserved : Bool
  pub workspace_ok : Bool
  pub now : ℕ
  pub attempt : String
  pub write_ok : Bool
  pub mime : String
  pub meanwhile : Db → Db
  pub now_publish : ℕ
  pub still_unreserved : Bool
  pub still_workspace : Bool
  pub link_ok : Bool
  pub commit : Commit

abbrev pub throttled : HttpError
throttled = record { status = 429; message = "Too many upload requests; retry later" }

abbrev pub unreserved_error : HttpError
unreserved_error = unavailable "Upload recovery requires operator inspection"

abbrev pub workspace_error : HttpError
workspace_error = unavailable "Upload workspace unavailable"

abbrev pub is_upload_of : ℕ → String → FileRow → Bool
is_upload_of user_id upload_id f =
    f.user_id == user_id && elim f.upload_id [ none ↦ false | some u ↦ str_eq u upload_id ]

abbrev pub is_live_upload_of : ℕ → String → FileRow → Bool
is_live_upload_of user_id upload_id f = is_upload_of user_id upload_id f && not f.is_deleted

-- The row that the file manager keeps of a folder.
abbrev pub is_entry_of : ℕ → ℕ → FileRow → Bool
is_entry_of id user_id f =
    elim f.folder_id [ none ↦ false | some d ↦ d == id ]
    && f.user_id == user_id
    && f.is_folder
    && not f.is_deleted

abbrev pub is_there {ℓ} : {A : Type ℓ} → Option A → Bool
is_there none = false
is_there (some a) = true

-- The ancestors of a folder, each live, up to a root folder; at most as many as there is fuel.
unfoldable pub reaches_root : Db → ℕ → ℕ → ℕ → Bool
reaches_root db user_id zero id = false
reaches_root db user_id (suc depth) id = elim (find_row (is_live_folder id user_id) db.folders) [
  | none ↦ false
  | some f ↦
      is_there (find_row (is_entry_of id user_id) db.files)
      && elim f.parent_id [ none ↦ true | some parent ↦ reaches_root db user_id depth parent ]
]

unfoldable pub lock_publication_destination : Db → ℕ → Option ℕ → Result (Unit {0})
unfolding reaches_root
lock_publication_destination db user_id none = ok tt
lock_publication_destination db user_id (some id) =
    throw_if (not (reaches_root db user_id 128 id)) (not_found "Destination folder unavailable")

abbrev pub remove_object : String → Disk → Disk
remove_object path d = record d { object = λ p. if str_eq p path then none else d.object p }

abbrev pub link_object : String → Bytes → Disk → Disk
link_object path bytes d = record d {
  object = λ p. if str_eq p path then some bytes else d.object p;
}

-- The directory of a session and all that is in it.
abbrev pub delete_temp_files : String → Disk → Disk
delete_temp_files upload_id d = record {
  has_dir = λ u. if str_eq u upload_id then false else d.has_dir u;
  part = λ u i. if str_eq u upload_id then none else d.part u i;
  attempts = λ u. if str_eq u upload_id then [] else d.attempts u;
  object = d.object;
}

abbrev pub is_path : Option String → String → Bool
is_path none path = false
is_path (some p) path = str_eq p path

abbrev pub same_digest : Option String → Option String → Bool
same_digest none none = true
same_digest (some a) (some b) = str_eq a b
same_digest _ _ = false

-- What must not have changed since the assembly began.
abbrev pub has_changed : Session → Session → Bool
has_changed current s =
    not (same_parent current.parent_id s.parent_id)
    || not (text_eq current.filename s.filename)
    || not (current.total_size == s.total_size)
    || not (current.chunk_size == s.chunk_size)
    || not (same_digest current.expected_sha256 s.expected_sha256)
    || not (is_active current.status)

module _ (final_path : ℕ → String → Text → String) where
  abbrev pub attempt_path : Session → String → String
  attempt_path s attempt =
      final_path s.user_id (String.◌++◌ s.upload_id (String.◌++◌ "." attempt)) s.filename

  unfoldable pub drop_attempts : Session → Option String → List String → Disk → Disk
  drop_attempts s keep [] d = d
  drop_attempts s keep (a ∷ rest) d =
      drop_attempts s keep rest
        (if is_path keep (attempt_path s a) then d else remove_object (attempt_path s a) d)

  abbrev pub no_attempts : Session → Disk → Disk
  no_attempts s d = record d { attempts = λ u. if str_eq u s.upload_id then [] else d.attempts u }

  -- The assemblies of earlier attempts are removed with their objects, but never the object of a
  -- file that was committed.
  abbrev pub cleanup_by : Session → Disk → Option FileRow → Disk × Option FileRow
  cleanup_by s d (some f) =
      (no_attempts s (drop_attempts s f.storage_path (d.attempts s.upload_id) d), some f)
  cleanup_by s d none = (
    remove_object (final_path s.user_id s.upload_id s.filename)
        (no_attempts s (drop_attempts s none (d.attempts s.upload_id) d)),
    none,
  )

  unfoldable pub cleanup_unpublished : Session → Db → Disk → Disk × Option FileRow
  cleanup_unpublished s db d =
      if length s.filename == 0
      then (d, none)
      else cleanup_by s d (find_row (is_upload_of s.user_id s.upload_id) db.files)

abbrev pub without_chunks : ℕ → Db → Db
without_chunks id db = record db { chunks = keep_rows (λ r. not (r.session_id == id)) db.chunks }

-- The recovery of an upload whose file was committed already: the session is closed.
unfoldable pub repair : Outside → Session → FileRow → Db → Result (Db × FileRow)
unfolding lock_publication_destination find_user find_session save_session
repair o s recovered db = do
  user ← or_throw (find_user s.user_id db) (forbidden "User unavailable")
  throw_if (not user.is_active) (forbidden "User unavailable")
  lock_publication_destination db s.user_id s.parent_id
  let changed = conflict "Upload recovery state changed"
  current ← or_throw (find_session s.user_id s.upload_id db) changed
  file ←
      or_throw
        (find_row (λ f. f.id == recovered.id && is_live_upload_of s.user_id s.upload_id f) db.files)
        changed
  throw_if
      (not (is_active current.status)
        || not (same_parent current.parent_id s.parent_id)
        || not (same_parent file.parent_id current.parent_id))
      changed
  throw_if (has_expired o.now_publish current) (bad_request "Upload session expired")
  throw_if (not o.still_unreserved) unreserved_error
  ok (save_session (record current { status = completed }) (without_chunks current.id db), file)
