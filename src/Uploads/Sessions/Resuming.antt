-- ===== src/Uploads/Sessions/Resuming.antt =====
-- What a client is told to resume from: `reconcileUploadSession`.
use https_github_com_sv3t0v.Common.{
  ℕ, zero, suc, ◌+◌, ◌≤◌, ◌≡◌, refl, ap, String, true, not, ◌&&◌, some, List, [], ◌∷◌, arith,
  keep_rows, sum_rows, length,
}
use https_github_com_sv3t0v.Http.{
  Result, ok, err, ◌>>◌, throw_if, bad_request, conflict, parse_database_size,
}
use https_github_com_sv3t0v.Uploads.{
  Status, pending, uploading, completed, aborted, is_active, Session, ChunkRecord, Db, find_session,
  has_expired,
}
use https_github_com_sv3t0v.Uploads.Chunk.Accounting.{IsAccounted, rows_of, bytes_of}
use https_github_com_sv3t0v.Uploads.Complete.{workspace_error}
use https_github_com_sv3t0v.Uploads.Sessions.{
  Outside, insert_chunk, sort_chunks, take, is_chunk_of, chunks_of, add_sizes, Reconciled,
  reconcile_sum, reconcile_status, reconcile_upload_session, is_completed,
}

abbrev size_of : ChunkRecord → ℕ
size_of r = r.byte_size

insert-sum :
    (r : ChunkRecord) (rs : List ChunkRecord)
    → (sum_rows size_of (insert_chunk r rs) ≡ r.byte_size + sum_rows size_of rs)
      × (length (insert_chunk r rs) ≡ suc (length rs))
unfolding insert_chunk sum_rows
insert-sum r [] = (refl, refl)
insert-sum r (q ∷ qs) = ground (arith, insert-sum r qs)

sort-sum :
    (rs : List ChunkRecord)
    → (sum_rows size_of (sort_chunks rs) ≡ sum_rows size_of rs)
      × (length (sort_chunks rs) ≡ length rs)
unfolding sort_chunks sum_rows
sort-sum [] = (refl, refl)
sort-sum (r ∷ rs) = ground (arith, sort-sum rs, insert-sum r (sort_chunks rs))

take-all : (n : ℕ) (rs : List ChunkRecord) → length rs ≤ n → take n rs ≡ rs
unfolding take
take-all zero [] h = refl
take-all zero (r ∷ rs) h = absurd (omega arith)
take-all (suc n) [] h = refl
take-all (suc n) (r ∷ rs) h = ap (λ t. r ∷ t) (take-all n rs (omega arith))

keep-sum :
    (id : ℕ) (rs : List ChunkRecord)
    → (sum_rows size_of (keep_rows (is_chunk_of id) rs) ≡ sum_rows (bytes_of id) rs)
      × (length (keep_rows (is_chunk_of id) rs) ≡ sum_rows (rows_of id) rs)
unfolding keep_rows sum_rows
keep-sum id [] = (refl, refl)
keep-sum id (r ∷ rs) = ground (arith, keep-sum id rs)

add_sizes-eq-ok :
    (sum n : ℕ) (rs : List ChunkRecord) → add_sizes sum rs ≡ ok n → n ≡ sum + sum_rows size_of rs
unfolding add_sizes sum_rows parse_database_size
add_sizes-eq-ok sum n [] e = ground arith
add_sizes-eq-ok sum n (r ∷ rs) e = ground (arith, add_sizes-eq-ok (sum + r.byte_size) n rs, e)

chunks_of-sum :
    (most id : ℕ) (db : Db)
    → sum_rows (rows_of id) db.chunks ≤ most
    → sum_rows size_of (chunks_of most id db) ≡ sum_rows (bytes_of id) db.chunks
unfolding chunks_of
chunks_of-sum most id db h =
    let mine = keep_rows (is_chunk_of id) db.chunks in
    let kept = keep-sum id db.chunks in
    let sorted = sort-sum mine in
    let whole = take-all most (sort_chunks mine) (omega (arith, kept, sorted)) in
    rw whole (omega (arith, kept, sorted))

reconcile_status-uploaded :
    (most : ℕ) (s : Session) (db : Db) (t : Status) (r : Reconciled)
    → is_active t ≡ true
    → IsAccounted db s
    → s.uploaded_count ≤ most
    → reconcile_status most s db t ≡ ok r
    → r.session.uploaded_size ≡ s.uploaded_size
reconcile_status-uploaded most s db t r active a h = go t active
  where
    sized :
        (m : Result ℕ)
        → add_sizes 0 (chunks_of most s.id db) ≡ m
        → reconcile_sum most s db m ≡ ok r
        → r.session.uploaded_size ≡ s.uploaded_size
    sized (err x) p e = cc
    sized (ok n) p e = ground (
      arith,
      e,
      add_sizes-eq-ok 0 n (chunks_of most s.id db) p,
      chunks_of-sum most s.id db (omega (arith, a.count)),
      a.size,
    )

    go :
        (t : Status)
        → is_active t ≡ true
        → reconcile_status most s db t ≡ ok r
        → r.session.uploaded_size ≡ s.uploaded_size
    go completed k e = cc
    go aborted k e = cc
    go pending k e = sized _ refl e
    go uploading k e = sized _ refl e

-- A client that resumes an active upload whose counters agree with its rows, with no more rows than
-- are reported, is told the uploaded size that the session has.
pub reconcile-uploaded_size :
    (most : ℕ) (o : Outside) (user_id : ℕ) (upload_id : String) (db : Db) (s : Session)
    (r : Reconciled)
    → find_session user_id upload_id db ≡ some s
    → is_active s.status ≡ true
    → IsAccounted db s
    → s.uploaded_count ≤ most
    → reconcile_upload_session most o user_id upload_id db ≡ ok r
    → r.session.uploaded_size ≡ s.uploaded_size
unfolding reconcile_upload_session
reconcile-uploaded_size most o user_id upload_id db s r found active a h e =
    go (throw_if (not o.fence_free) (conflict "Upload is being finalized; retry later"))
      (throw_if (not o.workspace_ok) workspace_error)
      (throw_if (not (is_completed s.status) && has_expired o.now s)
        (bad_request "Upload session expired"))
      (rw found at e)
  where
    go :
        (x y z : Result (Unit {0}))
        → (x >> (y >> (z >> reconcile_status most s db s.status))) ≡ ok r
        → r.session.uploaded_size ≡ s.uploaded_size
    go (ok u) (ok v) (ok t) e = reconcile_status-uploaded most s db s.status r active a h e
    go (ok u) (ok v) (err t) e = cc
    go (ok u) (err v) z e = cc
    go (err u) y z e = cc
