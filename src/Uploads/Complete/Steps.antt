-- ===== src/Uploads/Complete/Steps.antt =====
-- The whole of `completeUpload`: the guards, the recovery, the assembly and the publication.
use https_github_com_sv3t0v.Common.{
  ℕ, ◌+◌, ◌≡◌, ◌⊎◌, refl, sym, subst, String, Bool, true, false, not, Option, none, some, List, [],
  ◌∷◌, arith, ◌==◌, str_eq, eq_iff, if◌then◌else◌, find_row, length, Bool-cases, inl, inr,
}
use https_github_com_sv3t0v.Http.{Result, ok, err, ◌>>◌, throw_if, bad_request, not_found, conflict}
use https_github_com_sv3t0v.Text.{Text}
use https_github_com_sv3t0v.Uploads.{
  Status, pending, uploading, completed, aborted, is_active, Session, FileRow, Db, Disk, World,
  Bytes, find_session, is_expired,
}
use https_github_com_sv3t0v.Uploads.Chunk.{internal_error, expected_size}
use https_github_com_sv3t0v.Uploads.Complete.{
  Commit, acknowledged, unacknowledged, undone, Outside, throttled, unreserved_error,
  workspace_error, is_upload_of, is_live_upload_of, remove_object, link_object, delete_temp_files,
  attempt_path, drop_attempts, cleanup_unpublished, cleanup_by, is_path, repair,
}
use https_github_com_sv3t0v.Uploads.Complete.Assembly.{assemble, IsAssembled, assemble-IsAssembled}
use https_github_com_sv3t0v.Uploads.Complete.Publication.{publish, IsPublished, publish-IsPublished}

abbrev pub keep_attempt : Session → String → Disk → Disk
keep_attempt s attempt d = record d {
  attempts = λ u. if str_eq u s.upload_id then attempt ∷ d.attempts u else d.attempts u;
}

-- The end of a transaction that publishes: what the database and the disk are by its COMMIT. Up to
-- there an error removes the object and the assembly of this attempt; from there on both stay.
abbrev pub settle_publication :
    Commit
    → Session
    → String
    → String
    → Bytes
    → Db
    → Disk
    → Result (Db × FileRow)
    → World × Result FileRow
settle_publication c s attempt path bytes db d (err e) =
    (record { db = db; disk = remove_object path d }, err e)
settle_publication acknowledged s attempt path bytes db d (ok (db', f)) =
    (record { db = db'; disk = delete_temp_files s.upload_id (link_object path bytes d) }, ok f)
settle_publication unacknowledged s attempt path bytes db d (ok (db', f)) = (
  record { db = db'; disk = keep_attempt s attempt (link_object path bytes d) },
  err internal_error,
)
settle_publication undone s attempt path bytes db d (ok (db', f)) = (
  record { db = db; disk = keep_attempt s attempt (link_object path bytes d) },
  err internal_error,
)

-- The end of the transaction that repairs a session.
abbrev pub settle_repair :
    Outside → Session → Db → Disk → Result (Db × FileRow) → World × Result FileRow
settle_repair o s db d (err e) = (record { db = db; disk = d }, err e)
settle_repair o s db d (ok (db', f)) = elim o.commit [
  | acknowledged ↦ (record { db = db'; disk = delete_temp_files s.upload_id d }, ok f)
  | unacknowledged ↦ (record { db = db'; disk = d }, err internal_error)
  | undone ↦ (record { db = db; disk = d }, err internal_error)
]

module _ (sha256 : Bytes → String) (final_path : ℕ → String → Text → String) where
  abbrev pub publish_assembly :
      Outside → Session → Db → Disk → Result Bytes → World × Result FileRow
  publish_assembly o s db d (err e) =
      (record { db = db; disk = remove_object (attempt_path final_path s o.attempt) d }, err e)
  publish_assembly o s db d (ok bytes) =
      let path = attempt_path final_path s o.attempt in
      if o.write_ok
      then settle_publication o.commit s o.attempt path bytes db d
          (publish o s path (length bytes) (sha256 bytes) db)
      else (record { db = db; disk = remove_object path d }, err internal_error)

  -- The rest, by what the clean-up of earlier attempts found.
  unfoldable pub finish_upload :
      Outside → Session → World → Disk × Option FileRow → World × Result FileRow
  unfolding repair assemble publish
  finish_upload o s w (d, some recovered) =
      settle_repair o s (o.meanwhile w.db) d (repair o s recovered (o.meanwhile w.db))
  finish_upload o s w (d, none) =
      publish_assembly o s (o.meanwhile w.db) d (assemble sha256 s w.db d)

  -- A repeated call on a completed upload.
  abbrev pub answer_completed : Session → World → Option FileRow → World × Result FileRow
  answer_completed s w none =
      (w, err (bad_request "Upload already completed but file record missing"))
  answer_completed s w (some f) = (
    record w {
      disk = delete_temp_files s.upload_id (cleanup_unpublished final_path s w.db w.disk).0;
    },
    ok f,
  )

  abbrev pub by_status : Outside → Session → World → Status → World × Result FileRow
  by_status o s w completed =
      answer_completed s w (find_row (is_live_upload_of s.user_id s.upload_id) w.db.files)
  by_status o s w aborted = (w, err (bad_request "Upload was aborted"))
  by_status o s w pending = finish_upload o s w (cleanup_unpublished final_path s w.db w.disk)
  by_status o s w uploading = finish_upload o s w (cleanup_unpublished final_path s w.db w.disk)

  abbrev pub completable : Outside → Session → Result (Unit {0})
  completable o s = do
    throw_if (not o.unreserved) unreserved_error
    throw_if (not o.workspace_ok) workspace_error
    throw_if (is_expired o.now s) (bad_request "Upload session expired")

  abbrev pub complete_checked :
      Outside → Session → World → Result (Unit {0}) → World × Result FileRow
  complete_checked o s w (err e) = (w, err e)
  complete_checked o s w (ok _) = by_status o s w s.status

  abbrev pub complete_found : Outside → World → Option Session → World × Result FileRow
  complete_found o w none = (w, err (not_found "Upload session not found"))
  complete_found o w (some s) = complete_checked o s w (completable o s)

  unfoldable pub complete_upload : Outside → ℕ → String → World → World × Result FileRow
  unfolding finish_upload cleanup_unpublished find_session
  complete_upload o user_id upload_id w =
      if not o.has_slot
      then (w, err throttled)
      else if not o.fence_free
      then (w, err (conflict "Upload is being finalized; retry later"))
      else complete_found o w (find_session user_id upload_id w.db)

  drop_attempts-part :
      (s : Session) (keep : Option String) (names : List String) (d : Disk)
      → (drop_attempts final_path s keep names d).part ≡ d.part
  unfolding drop_attempts
  drop_attempts-part s keep [] d = refl
  drop_attempts-part s keep (a ∷ rest) d =
      elim (Bool-cases (is_path keep (attempt_path final_path s a))) [
        | inl kept ↦ rw (drop_attempts, kept) (drop_attempts-part s keep rest d)
        | inr gone ↦
            rw (drop_attempts, gone)
              (drop_attempts-part s keep rest (remove_object (attempt_path final_path s a) d))
      ]

  -- What a call that answers with a new file has done, and what a refused one leaves.
  pub record IsFinished (o : Outside) (s : Session) (w w' : World) (f : FileRow) : Type 0 where
    pub bytes : Bytes
    pub assembled : IsAssembled sha256 s w.db w.disk bytes
    pub published :
        IsPublished o s
          (attempt_path final_path s o.attempt)
          (length bytes)
          (sha256 bytes)
          (o.meanwhile w.db)
          w'.db
          f
    pub object : w'.disk.object (attempt_path final_path s o.attempt) ≡ some bytes
    pub tidy : w'.disk.has_dir s.upload_id ≡ false

  abbrev pub Finish : Outside → Session → World → World × Result FileRow → Type 0
  Finish o s w (w', ok f) = IsFinished o s w w' f
  Finish o s w (w', err e) = (w'.db ≡ o.meanwhile w.db) ⊎ (o.commit ≡ unacknowledged)

  abbrev pub Completion : Outside → Session → World → World × Result FileRow → Type 0
  Completion o s w (w', ok f) = IsFinished o s w w' f
  Completion o s w (w', err e) =
      (w'.db ≡ w.db) ⊎ ((w'.db ≡ o.meanwhile w.db) ⊎ (o.commit ≡ unacknowledged))

  weaken :
      (o : Outside) (s : Session) (w : World) (r : World × Result FileRow)
      → Finish o s w r
      → Completion o s w r
  weaken o s w (w', ok f) h = h
  weaken o s w (w', err e) h = inr h

  cleaned-IsAssembled :
      (s : Session) (db : Db) (d d' : Disk) (bytes : Bytes)
      → d'.part ≡ d.part
      → IsAssembled sha256 s db d' bytes
      → IsAssembled sha256 s db d bytes
  cleaned-IsAssembled s db d d' bytes e a = record {
    sized = a.sized;
    hashed = a.hashed;
    chunks = λ m lt.
        subst
          (λ (p : String → ℕ → Option Bytes).
            (chunk : Bytes) × (p s.upload_id (0 + m) ≡ some chunk)
            × (length chunk ≡ expected_size s (0 + m)))
          e (a.chunks m lt);
    placed = λ m chunk j b lt h.
        a.placed m chunk j b lt
          (subst (λ (p : String → ℕ → Option Bytes). p s.upload_id (0 + m) ≡ some chunk) (sym e) h);
  }

  publish_assembly-Finish :
      (o : Outside) (s : Session) (w : World) (d : Disk)
      → d.part ≡ w.disk.part
      → Finish o s w (publish_assembly o s (o.meanwhile w.db) d (assemble sha256 s w.db d))
  publish_assembly-Finish o s w d same = go _ refl
    where
      path : String
      path = attempt_path final_path s o.attempt

      written :
          (bytes : Bytes) (m : Result (Db × FileRow)) (c : Commit)
          → o.commit ≡ c
          → IsAssembled sha256 s w.db w.disk bytes
          → publish o s path (length bytes) (sha256 bytes) (o.meanwhile w.db) ≡ m
          → Finish o s w (settle_publication c s o.attempt path bytes (o.meanwhile w.db) d m)
      written bytes (err e) c k a h = inl refl
      written bytes (ok (db', f)) unacknowledged k a h = inr k
      written bytes (ok (db', f)) undone k a h = inl refl
      written bytes (ok (db', f)) acknowledged k a h = record {
        bytes = bytes;
        assembled = a;
        published =
            publish-IsPublished o s path (length bytes) (sha256 bytes) (o.meanwhile w.db) db' f h;
        object = ground (arith, eq_iff path path);
        tidy = ground (arith, eq_iff s.upload_id s.upload_id);
      }

      wrote :
          (bytes : Bytes) (b : Bool)
          → IsAssembled sha256 s w.db w.disk bytes
          → Finish o s w (
              if b
              then settle_publication o.commit s o.attempt path bytes
                  (o.meanwhile w.db)
                  d
                  (publish o s path (length bytes) (sha256 bytes) (o.meanwhile w.db))
              else (
                record { db = o.meanwhile w.db; disk = remove_object path d },
                err internal_error,
              ))
      wrote bytes false a = inl refl
      wrote bytes true a = written bytes _ o.commit refl a refl

      go :
          (m : Result Bytes)
          → assemble sha256 s w.db d ≡ m
          → Finish o s w (publish_assembly o s (o.meanwhile w.db) d m)
      go (err e) h = inl refl
      go (ok bytes) h = wrote bytes o.write_ok (
          cleaned-IsAssembled s w.db w.disk d bytes same
            (assemble-IsAssembled sha256 s w.db d bytes h))

  cleanup-Finish :
      (o : Outside) (s : Session) (w : World)
      → find_row (is_upload_of s.user_id s.upload_id) w.db.files ≡ none
      → Finish o s w (finish_upload o s w (cleanup_unpublished final_path s w.db w.disk))
  unfolding finish_upload cleanup_unpublished
  cleanup-Finish o s w fresh = elim (Bool-cases (length s.filename == 0)) [
    | inl nameless ↦ rw nameless (publish_assembly-Finish o s w w.disk refl)
    | inr named ↦
        rw (named, fresh)
          (publish_assembly-Finish o s w (cleanup_by final_path s w.disk none).0
            (drop_attempts-part s none (w.disk.attempts s.upload_id) w.disk))
  ]

  -- To complete an active upload that has no file yet, under any changes by other requests between
  -- its first reads and its publication: when it answers with a file, the chunk files that were
  -- there make up the bytes of the object at the file's path, the file, the user's charge and the
  -- closed session are in the database, and the directory of the session is gone. When it answers
  -- with an error, the database is as the guards or the other requests left it, unless the answer
  -- of its COMMIT was lost.
  pub complete_upload-Finish :
      (o : Outside) (user_id : ℕ) (upload_id : String) (w : World) (s : Session)
      → find_session user_id upload_id w.db ≡ some s
      → is_active s.status ≡ true
      → find_row (is_upload_of s.user_id s.upload_id) w.db.files ≡ none
      → Completion o s w (complete_upload o user_id upload_id w)
  unfolding complete_upload
  complete_upload-Finish o user_id upload_id w s found active fresh = slot o.has_slot o.fence_free
    where
      status : (t : Status) → is_active t ≡ true → Completion o s w (by_status o s w t)
      status completed h = cc
      status aborted h = cc
      status pending h = weaken o s w _ (cleanup-Finish o s w fresh)
      status uploading h = weaken o s w _ (cleanup-Finish o s w fresh)

      checked : (m : Result (Unit {0})) → Completion o s w (complete_checked o s w m)
      checked (err e) = inl refl
      checked (ok u) = status s.status active

      slot :
          (a b : Bool)
          → Completion o s w (
              if not a
              then (w, err throttled)
              else if not b
              then (w, err (conflict "Upload is being finalized; retry later"))
              else complete_found o w (find_session user_id upload_id w.db))
      slot false b = inl refl
      slot true false = inl refl
      slot true true = rw found (checked (completable o s))
