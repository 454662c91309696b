-- ===== src/Uploads/Chunk/Calls.antt =====
-- Whole calls of `uploadChunk`.
use https_github_com_sv3t0v.Common.{
  ℕ, ◌<◌, String, ◌≡◌, refl, sym, subst, inl, inr, Bool, true, false, some, arith, ltb, eq_iff,
  if◌then◌else◌, find_row, length, Bool-cases, find_row-holds,
}
use https_github_com_sv3t0v.Http.{
  Result, ok, err, conflict, JsNumber, nat, negative, fractional, non_finite, not_number, max_safe,
}
use https_github_com_sv3t0v.Uploads.{
  Session, ChunkRecord, Db, Disk, World, Bytes, find_session, save_session, session_where,
  is_expired,
}
use https_github_com_sv3t0v.Uploads.Chunk.{
  Outside, expected_size, check_chunk, is_record_of, contradicts, store_part, account, put_chunk,
  upload_chunk, recorded, guarded, located, is_closed,
}
use https_github_com_sv3t0v.Uploads.Chunk.Accounting.{
  IsAccounted, IsDurable, Kept, Outcome, put_chunk-Outcome,
}

pub keys_of :
    (user_id : ℕ) (upload_id : String) (db : Db) (s : Session)
    → find_session user_id upload_id db ≡ some s
    → (s.user_id ≡ user_id) × (s.upload_id ≡ upload_id)
unfolding find_session
keys_of user_id upload_id db s e =
    let h = find_row-holds (session_where user_id upload_id) s db.sessions e in
    ground (arith, h, eq_iff s.upload_id upload_id)

pub own_session :
    (user_id : ℕ) (upload_id : String) (db : Db) (s : Session)
    → find_session user_id upload_id db ≡ some s
    → find_session s.user_id s.upload_id db ≡ some s
own_session user_id upload_id db s e =
    let (same_user, same_id) = keys_of user_id upload_id db s e in
    subst (λ v. find_session v s.upload_id db ≡ some s) (sym same_user)
      (subst (λ v. find_session user_id v db ≡ some s) (sym same_id) e)

-- The checks that an accepted chunk passed.
pub record IsInPlace (o : Outside) (s : Session) (i size : ℕ) : Type 0 where
  pub index : i < s.total_chunks
  pub sized : size ≡ expected_size s i
  pub live : (is_expired o.now s ≡ false) × (is_closed s.status ≡ false)

check_chunk-IsInPlace :
    (o : Outside) (s : Session) (i size : ℕ) (u : Unit {0})
    → check_chunk o s i size ≡ ok u
    → IsInPlace o s i size
unfolding check_chunk
check_chunk-IsInPlace o s i size u e = record {
  index = ground (arith, e);
  sized = ground (arith, e);
  live = ground (arith, e);
}

module _ (sha256 : Bytes → String) where
  -- What a call answers and leaves behind, by its result.
  abbrev pub Answer : Outside → Session → JsNumber → Bytes → World → World × Result Session → Type 0
  Answer o s n bytes w (w', err e) = (w'.db ≡ w.db) × Kept w.disk w'.disk
  Answer o s (nat i) bytes w (w', ok s') =
      IsInPlace o s i (length bytes) × Outcome sha256 s i bytes w (w', ok s')
  Answer o s _ bytes w (w', ok s') = ⊥

  -- A chunk that is accepted for a session whose counters and files agree with its rows is one of
  -- the chunks of the session and has its size, and the session is neither expired nor closed. The
  -- file and a row with its length and digest are there afterwards, the counters again agree with
  -- the rows, every row has its file, and the session is being uploaded. A chunk that is turned
  -- down leaves the database as it was. In both cases no chunk file that was there changes.
  pub upload_chunk-Answer :
      (o : Outside) (user_id : ℕ) (upload_id : String) (n : JsNumber) (bytes : Bytes) (w : World)
      (s : Session)
      → find_session user_id upload_id w.db ≡ some s
      → IsAccounted w.db s
      → IsDurable sha256 w s
      → Answer o s n bytes w (upload_chunk sha256 o user_id upload_id n bytes w)
  unfolding upload_chunk
  upload_chunk-Answer o user_id upload_id (nat i) bytes w s found accounted durable =
      elim (Bool-cases (ltb max_safe i)) [
        | inl big ↦ rw big (refl, λ u j old h. h)
        | inr fine ↦ rw fine (fenced o.fence_free)
      ]
    where
      accepted :
          (a : World × Result Session)
          → IsInPlace o s i (length bytes)
          → Outcome sha256 s i bytes w a
          → Answer o s (nat i) bytes w a
      accepted (w', ok s') p h = (p, h)
      accepted (w', err e) p h = h

      go :
          (m : Result (Unit {0}))
          → check_chunk o s i (length bytes) ≡ m
          → Answer o s (nat i) bytes w (guarded sha256 o s i bytes w m)
      go (err e) h = (refl, λ u j old k. k)
      go (ok u) h = accepted _ (check_chunk-IsInPlace o s i (length bytes) u h) (
          put_chunk-Outcome sha256 o s i bytes w (own_session user_id upload_id w.db s found)
            accounted durable)

      fenced :
          (free : Bool)
          → Answer o s (nat i) bytes w (
              if free
              then located sha256 o i bytes w (find_session user_id upload_id w.db)
              else (w, err (conflict "Upload is being finalized; retry later")))
      fenced false = (refl, λ u j old h. h)
      fenced true = rw found (go _ refl)
  upload_chunk-Answer o user_id upload_id negative bytes w s found accounted durable =
      (refl, λ u j old h. h)
  upload_chunk-Answer o user_id upload_id fractional bytes w s found accounted durable =
      (refl, λ u j old h. h)
  upload_chunk-Answer o user_id upload_id non_finite bytes w s found accounted durable =
      (refl, λ u j old h. h)
  upload_chunk-Answer o user_id upload_id not_number bytes w s found accounted durable =
      (refl, λ u j old h. h)

  -- A chunk that has a row is not counted again.
  abbrev pub Repeated : Session → ChunkRecord → Bytes → World → World × Result Session → Type 0
  Repeated s r bytes w (w', err e) = w'.db ≡ w.db
  Repeated s r bytes w (w', ok s') =
      (w'.db.chunks ≡ w.db.chunks)
      × (s'.uploaded_count ≡ s.uploaded_count)
      × (s'.uploaded_size ≡ s.uploaded_size)
      × (length bytes ≡ r.byte_size)
      × (sha256 bytes ≡ r.sha256)

  put_chunk-Repeated :
      (o : Outside) (s : Session) (i : ℕ) (bytes : Bytes) (w : World) (r : ChunkRecord)
      → find_row (is_record_of s.id i) w.db.chunks ≡ some r
      → Repeated s r bytes w (put_chunk sha256 o s i bytes w)
  unfolding put_chunk account save_session
  put_chunk-Repeated o s i bytes w r listed =
      rw listed (elim (Bool-cases (contradicts sha256 (some r) bytes)) [
        | inl clash ↦ rw clash refl
        | inr fits ↦
            rw fits (go fits (store_part sha256 o s i bytes w.disk (w.disk.part s.upload_id i)))
      ])
    where
      go :
          contradicts sha256 (some r) bytes ≡ false
          → (m : Disk × Result (Unit {0}))
          → Repeated s r bytes w (recorded sha256 o s i bytes w (some r) m)
      go fits (d, err e) = refl
      go fits (d, ok u) = elim (Bool-cases o.commit_ok) [
        | inr failed ↦ rw failed refl
        | inl committed ↦ rw committed (
          refl,
          refl,
          refl,
          ground (arith, fits),
          ground (arith, fits, eq_iff r.sha256 (sha256 bytes)),
        )
      ]

  -- When a chunk with a row is sent again, then either it is turned down and the database stays as
  -- it was, or it has the length and the digest of the row, and neither the rows nor the counters
  -- change.
  pub upload_chunk-Repeated :
      (o : Outside) (user_id : ℕ) (upload_id : String) (i : ℕ) (bytes : Bytes) (w : World)
      (s : Session) (r : ChunkRecord)
      → find_session user_id upload_id w.db ≡ some s
      → find_row (is_record_of s.id i) w.db.chunks ≡ some r
      → Repeated s r bytes w (upload_chunk sha256 o user_id upload_id (nat i) bytes w)
  unfolding upload_chunk
  upload_chunk-Repeated o user_id upload_id i bytes w s r found listed =
      elim (Bool-cases (ltb max_safe i)) [
        | inl big ↦ rw big refl
        | inr fine ↦ elim (Bool-cases o.fence_free) [
          | inr fenced ↦ rw (fine, fenced) refl
          | inl free ↦ rw (fine, free, found) (go (check_chunk o s i (length bytes)))
        ]
      ]
    where
      go : (m : Result (Unit {0})) → Repeated s r bytes w (guarded sha256 o s i bytes w m)
      go (err e) = refl
      go (ok u) = put_chunk-Repeated o s i bytes w r listed
