-- ===== src/Uploads/Sessions/Aborting.antt =====
-- What `abortUpload` leaves.
use https_github_com_sv3t0v.Common.{
  ℕ, ◌+◌, ◌≡◌, refl, String, Bool, true, false, not, ◌&&◌, none, some, List, [], ◌∷◌, arith, ◌==◌,
  eq_iff, if◌then◌else◌, find_row, keep_rows, find_row-set_row, sum_rows-set_row,
}
use https_github_com_sv3t0v.Http.{HttpError, Result, ok, err, conflict, bad_request}
use https_github_com_sv3t0v.Uploads.Chunk.{internal_error}
use https_github_com_sv3t0v.Text.{Text}
use https_github_com_sv3t0v.Uploads.{
  aborted, Session, ChunkRecord, Disk, World, find_session, save_session, session_where,
  active_total, reserved_by,
}
use https_github_com_sv3t0v.Uploads.Chunk.Calls.{own_session}
use https_github_com_sv3t0v.Uploads.Complete.{
  Commit, acknowledged, unacknowledged, undone, without_chunks, workspace_error, unreserved_error,
  cleanup_unpublished, delete_temp_files,
}
use https_github_com_sv3t0v.Uploads.Sessions.{
  Outside, is_chunk_of, is_completed, settle_abort, abort_found, abort_located, abort_upload,
}

-- No row of a session is left.
find_row-keep_rows :
    (id : ℕ) (rs : List ChunkRecord)
    → find_row (is_chunk_of id) (keep_rows (λ r. not (r.session_id == id)) rs) ≡ none
unfolding find_row keep_rows
find_row-keep_rows id [] = refl
find_row-keep_rows id (r ∷ rs) = ground (arith, find_row-keep_rows id rs)

abbrev pub as_aborted : Session → Session
as_aborted s = record s { status = aborted }

pub record IsAborted (s : Session) (w w' : World) : Type 0 where
  pub was_open : is_completed s.status ≡ false
  pub stored : find_session s.user_id s.upload_id w'.db ≡ some (as_aborted s)
  pub released : (id : ℕ) → active_total id w'.db + reserved_by id s ≡ active_total id w.db
  pub no_chunks : find_row (is_chunk_of s.id) w'.db.chunks ≡ none
  pub others :
      (w'.db.users ≡ w.db.users) × (w'.db.files ≡ w.db.files) × (w'.db.folders ≡ w.db.folders)
  pub no_dir : w'.disk.has_dir s.upload_id ≡ false
  pub no_parts : (i : ℕ) → w'.disk.part s.upload_id i ≡ none

-- What the code asks before it removes anything.
abbrev pub proceeds : Outside → Session → Bool
proceeds o s = o.fence_free && o.workspace_ok && not (is_completed s.status) && o.unreserved

-- The answer, and what is left: nothing has changed; the files are gone and the rows are as before;
-- or the session is aborted, with the answer to the COMMIT or without.
pub data Abortion (o : Outside) (s : Session) (w : World) : World × Result (Unit {0}) → Type 0 where
  refused : (e : HttpError) → proceeds o s ≡ false → Abortion o s w (w, err e)
  interrupted :
      (d : Disk)
      → proceeds o s ≡ true
      → o.commit ≡ undone
      → d.has_dir s.upload_id ≡ false
      → ((i : ℕ) → d.part s.upload_id i ≡ none)
      → Abortion o s w (record { db = w.db; disk = d }, err internal_error)
  unanswered :
      (w' : World)
      → proceeds o s ≡ true
      → o.commit ≡ unacknowledged
      → IsAborted s w w'
      → Abortion o s w (w', err internal_error)
  done :
      (w' : World)
      → proceeds o s ≡ true
      → o.commit ≡ acknowledged
      → IsAborted s w w'
      → Abortion o s w (w', ok tt)

module _ (final_path : ℕ → String → Text → String) where
  -- The disk without the files of the session.
  abbrev cleared : Session → World → Disk
  cleared s w = delete_temp_files s.upload_id (cleanup_unpublished final_path s w.db w.disk).0

  abbrev aborted_world : Session → World → World
  aborted_world s w = record {
    db = save_session (as_aborted s) (without_chunks s.id w.db);
    disk = cleared s w;
  }

  aborted_world-IsAborted :
      (s : Session) (w : World)
      → find_session s.user_id s.upload_id w.db ≡ some s
      → is_completed s.status ≡ false
      → IsAborted s w (aborted_world s w)
  unfolding find_session save_session active_total
  aborted_world-IsAborted s w found open_status =
      let mine : session_where s.user_id s.upload_id (as_aborted s) ≡ true =
        ground (arith, eq_iff s.upload_id s.upload_id) in
      record {
        was_open = open_status;
        stored =
            find_row-set_row (session_where s.user_id s.upload_id) s (as_aborted s) w.db.sessions
              found mine;
        released = λ id.
            let sums =
              sum_rows-set_row (reserved_by id) (session_where s.user_id s.upload_id) s
                (as_aborted s) w.db.sessions found in
            ground (arith, sums);
        no_chunks = find_row-keep_rows s.id w.db.chunks;
        others = (refl, refl, refl);
        no_dir = ground (arith, eq_iff s.upload_id s.upload_id);
        no_parts = λ i. ground (arith, eq_iff s.upload_id s.upload_id);
      }

  abort_found-Abortion :
      (o : Outside) (s : Session) (w : World)
      → o.fence_free ≡ true
      → find_session s.user_id s.upload_id w.db ≡ some s
      → Abortion o s w (abort_found final_path o w s)
  unfolding save_session
  abort_found-Abortion o s w free found =
      go o.workspace_ok (is_completed s.status) o.unreserved o.commit refl refl refl refl
    where
      go :
          (a b c : Bool) (k : Commit)
          → o.workspace_ok ≡ a
          → is_completed s.status ≡ b
          → o.unreserved ≡ c
          → o.commit ≡ k
          → Abortion o s w (
              if not a
              then (w, err workspace_error)
              else if b
              then (w, err (bad_request "Cannot abort a completed upload"))
              else if not c
              then (w, err unreserved_error)
              else settle_abort k w.db (aborted_world s w).db (cleared s w))
      go false b c k p q r h = Abortion.refused workspace_error (ground (arith, p))
      go true true c k p q r h =
          Abortion.refused (bad_request "Cannot abort a completed upload") (ground (arith, q))
      go true false false k p q r h = Abortion.refused unreserved_error (ground (arith, r))
      go true false true undone p q r h =
          let gone = aborted_world-IsAborted s w found q in
          Abortion.interrupted (cleared s w) (ground (arith, free, p, q, r)) h gone.no_dir
            gone.no_parts
      go true false true unacknowledged p q r h =
          Abortion.unanswered (aborted_world s w) (ground (arith, free, p, q, r)) h
            (aborted_world-IsAborted s w found q)
      go true false true acknowledged p q r h =
          Abortion.done (aborted_world s w) (ground (arith, free, p, q, r)) h
            (aborted_world-IsAborted s w found q)

  -- To abort an upload that is there. If the lock, the workspace, the status of the session or the
  -- journal refuse it, then nothing changes, and the answer is an error. Otherwise the directory and
  -- the chunk files of the session are gone, and its COMMIT decides: undone, no row has changed, and
  -- the answer is an error; done, the session is aborted, its chunks have no rows, what it reserved
  -- is free again for its user, and no user, file or folder row is touched, with an error for an
  -- answer when that to the COMMIT was lost.
  pub abort_upload-Abortion :
      (o : Outside) (user_id : ℕ) (upload_id : String) (w : World) (s : Session)
      → find_session user_id upload_id w.db ≡ some s
      → Abortion o s w (abort_upload final_path o user_id upload_id w)
  unfolding abort_upload
  abort_upload-Abortion o user_id upload_id w s found = go o.fence_free refl
    where
      go :
          (b : Bool)
          → o.fence_free ≡ b
          → Abortion o s w (
              if b
              then abort_located final_path o w (find_session user_id upload_id w.db)
              else (w, err (conflict "Upload is being finalized; retry later")))
      go false h =
          Abortion.refused (conflict "Upload is being finalized; retry later") (ground (arith, h))
      go true h =
          rw found (abort_found-Abortion o s w h (own_session user_id upload_id w.db s found))
