-- ===== src/Uploads/Chunk/Accounting.antt =====
-- What `uploadChunk` keeps true of a session: the counters, the rows and the files agree.
use https_github_com_sv3t0v.Common.{
  ℕ, ◌+◌, String, ◌≡◌, ◌⊎◌, refl, sym, subst, inl, inr, true, false, Option, none, some, List, ◌∷◌,
  arith, ◌==◌, eq_iff, if◌then◌else◌, find_row, set_row, sum_rows, length, Bool-cases,
  find_row-set_row,
}
use https_github_com_sv3t0v.Http.{Result, ok, err, parse_database_size}
use https_github_com_sv3t0v.Uploads.{
  uploading, Session, ChunkRecord, Db, Disk, World, Bytes, find_session, save_session,
  session_where,
}
use https_github_com_sv3t0v.Uploads.Chunk.{
  Outside, is_record_of, contradicts, store_part, new_record, account, put_chunk, settle, recorded,
}

abbrev pub rows_of : ℕ → ChunkRecord → ℕ
rows_of id r = if r.session_id == id then 1 else 0

abbrev pub bytes_of : ℕ → ChunkRecord → ℕ
bytes_of id r = if r.session_id == id then r.byte_size else 0

-- The counters of a session are the number and the bytes of its rows.
pub record IsAccounted (db : Db) (s : Session) : Type 0 where
  pub count : s.uploaded_count ≡ sum_rows (rows_of s.id) db.chunks
  pub size : s.uploaded_size ≡ sum_rows (bytes_of s.id) db.chunks

-- Every chunk file that was there is there, unchanged.
abbrev pub Kept : Disk → Disk → Type 0
Kept d d' = (u : String) (j : ℕ) (old : Bytes) → d.part u j ≡ some old → d'.part u j ≡ some old

module _ (sha256 : Bytes → String) where
  -- The chunk file of this index holds bytes of this length and digest.
  pub record Holds (d : Disk) (upload_id : String) (i size : ℕ) (digest : String) : Type 0 where
    pub bytes : Bytes
    pub there : d.part upload_id i ≡ some bytes
    pub sized : length bytes ≡ size
    pub hashed : sha256 bytes ≡ digest

  -- Every row of a session has its chunk file.
  abbrev pub IsDurable : World → Session → Type 0
  IsDurable w s =
      (i : ℕ) (r : ChunkRecord)
      → find_row (is_record_of s.id i) w.db.chunks ≡ some r
      → Holds w.disk s.upload_id i r.byte_size r.sha256

  -- What an accepted chunk leaves behind.
  pub record IsAccepted (s : Session) (i : ℕ) (bytes : Bytes) (w : World) (s' : Session)
      : Type 0 where
    pub stored : find_session s.user_id s.upload_id w.db ≡ some s'
    pub accounted : IsAccounted w.db s'
    pub on_disk : Holds w.disk s.upload_id i (length bytes) (sha256 bytes)
    pub row : ChunkRecord
    pub listed : find_row (is_record_of s.id i) w.db.chunks ≡ some row
    pub agrees : (row.byte_size ≡ length bytes) × (row.sha256 ≡ sha256 bytes)
    pub status : s'.status ≡ uploading
    pub same : (s'.id ≡ s.id) × (s'.upload_id ≡ s.upload_id) × (s'.total_chunks ≡ s.total_chunks)

  store_part-Holds :
      (o : Outside) (s : Session) (i : ℕ) (bytes : Bytes) (d d' : Disk) (there : Option Bytes)
      (u : Unit {0})
      → d.part s.upload_id i ≡ there
      → store_part sha256 o s i bytes d there ≡ (d', ok u)
      → Holds d' s.upload_id i (length bytes) (sha256 bytes)
  unfolding store_part
  store_part-Holds o s i bytes d d' (some old) u e h = record {
    bytes = old;
    there = ground (arith, e, h);
    sized = ground (arith, e, h);
    hashed = ground (arith, e, h, eq_iff (sha256 old) (sha256 bytes));
  }
  store_part-Holds o s i bytes d d' none u e h = record {
    bytes = bytes;
    there = ground (arith, e, h, eq_iff s.upload_id s.upload_id);
    sized = refl;
    hashed = refl;
  }

  -- No chunk file is changed or lost, whatever happens.
  store_part-keeps :
      (o : Outside) (s : Session) (i : ℕ) (bytes : Bytes) (d : Disk) (there : Option Bytes)
      (u : String) (j : ℕ) (old : Bytes)
      → d.part s.upload_id i ≡ there
      → d.part u j ≡ some old
      → (store_part sha256 o s i bytes d there).0.part u j ≡ some old
  unfolding store_part
  store_part-keeps o s i bytes d (some b) u j old e h = ground (arith, e, h)
  store_part-keeps o s i bytes d none u j old e h = ground (arith, e, h, eq_iff u s.upload_id)

  module _ (s : Session) (i : ℕ) (bytes : Bytes) (db db' : Db) (s' : Session)
      (found : find_session s.user_id s.upload_id db ≡ some s) (accounted : IsAccounted db s) where
    -- The database after the bookkeeping.
    record IsEntered : Type 0 where
      stored : find_session s.user_id s.upload_id db' ≡ some s'
      counted : IsAccounted db' s'
      row : ChunkRecord
      listed : find_row (is_record_of s.id i) db'.chunks ≡ some row
      agrees : (row.byte_size ≡ length bytes) × (row.sha256 ≡ sha256 bytes)
      others :
          (j : ℕ) (r : ChunkRecord)
          → find_row (is_record_of s.id j) db'.chunks ≡ some r
          → (find_row (is_record_of s.id j) db.chunks ≡ some r)
            ⊎ ((j ≡ i) × (r ≡ new_record sha256 s i bytes))
      status : s'.status ≡ uploading
      same : (s'.id ≡ s.id) × (s'.upload_id ≡ s.upload_id) × (s'.total_chunks ≡ s.total_chunks)

    saved :
        (t : Session)
        → session_where s.user_id s.upload_id t ≡ true
        → find_row
            (session_where s.user_id s.upload_id)
            (set_row (session_where s.user_id s.upload_id) t db.sessions)
          ≡ some t
    unfolding find_session
    saved t h = find_row-set_row (session_where s.user_id s.upload_id) s t db.sessions found h

    mine : session_where s.user_id s.upload_id s ≡ true
    mine = ground (arith, eq_iff s.upload_id s.upload_id)

    new_rows :
        (r : ChunkRecord) (rs : List ChunkRecord)
        → (sum_rows (rows_of r.session_id) (r ∷ rs) ≡ 1 + sum_rows (rows_of r.session_id) rs)
          × (sum_rows (bytes_of r.session_id) (r ∷ rs)
              ≡ r.byte_size + sum_rows (bytes_of r.session_id) rs)
          × (find_row (is_record_of r.session_id r.chunk_index) (r ∷ rs) ≡ some r)
    unfolding sum_rows find_row
    new_rows r rs = ground arith

    new_rows_other :
        (r : ChunkRecord) (rs : List ChunkRecord) (j : ℕ) (q : ChunkRecord)
        → find_row (is_record_of r.session_id j) (r ∷ rs) ≡ some q
        → (find_row (is_record_of r.session_id j) rs ≡ some q) ⊎ ((j ≡ r.chunk_index) × (q ≡ r))
    unfolding find_row
    new_rows_other r rs j q h = ground arith

    account-IsEntered :
        (row : Option ChunkRecord)
        → find_row (is_record_of s.id i) db.chunks ≡ row
        → contradicts sha256 row bytes ≡ false
        → account sha256 s i bytes row db ≡ ok (db', s')
        → IsEntered
    unfolding account save_session parse_database_size find_session
    account-IsEntered (some r) here fits e =
        let s1 : Session = record s { status = uploading } in
        record {
          stored = ground (arith, e, saved s1 mine);
          counted = record {
            count = ground (arith, e, accounted.count);
            size = ground (arith, e, accounted.size);
          };
          row = r;
          listed = ground (arith, e, here);
          agrees = ground (arith, fits, eq_iff r.sha256 (sha256 bytes));
          others = λ j q h. inl (ground (arith, e, h));
          status = ground (arith, e);
          same = ground (arith, e);
        }
    account-IsEntered none here fits e =
        let s1 : Session = record s {
          uploaded_count = s.uploaded_count + 1;
          uploaded_size = s.uploaded_size + length bytes;
          status = uploading;
        } in
        let rows = new_rows (new_record sha256 s i bytes) db.chunks in
        record {
          stored = ground (arith, e, saved s1 mine);
          counted = record {
            count = ground (arith, e, accounted.count, rows);
            size = ground (arith, e, accounted.size, rows);
          };
          row = new_record sha256 s i bytes;
          listed = ground (arith, e, rows);
          agrees = (refl, refl);
          others = λ j q h.
              ground (arith, e, h, new_rows_other (new_record sha256 s i bytes) db.chunks j q);
          status = ground (arith, e);
          same = ground (arith, e);
        }

  Holds-Kept :
      (d d' : Disk) (u : String) (j size : ℕ) (digest : String)
      → Kept d d'
      → Holds d u j size digest
      → Holds d' u j size digest
  Holds-Kept d d' u j size digest k h = record {
    bytes = h.bytes;
    there = k u j h.bytes h.there;
    sized = h.sized;
    hashed = h.hashed;
  }

  -- What a call leaves, by its result.
  abbrev pub Outcome : Session → ℕ → Bytes → World → World × Result Session → Type 0
  Outcome s i bytes w (w', ok s') =
      IsAccepted s i bytes w' s' × IsDurable w' s' × Kept w.disk w'.disk
  Outcome s i bytes w (w', err e) = (w'.db ≡ w.db) × Kept w.disk w'.disk

  module _ (o : Outside) (s : Session) (i : ℕ) (bytes : Bytes) (w : World)
      (found : find_session s.user_id s.upload_id w.db ≡ some s) (accounted : IsAccounted w.db s)
      (durable : IsDurable w s) where
    entered-IsDurable :
        (d : Disk) (db' : Db) (s' : Session)
        → IsEntered s i bytes w.db db' s' found accounted
        → Kept w.disk d
        → Holds d s.upload_id i (length bytes) (sha256 bytes)
        → IsDurable (record { db = db'; disk = d }) s'
    entered-IsDurable d db' s' n k h j r e = elim (n.others j r there) [
      | inl old ↦
          subst (λ u. Holds d u j r.byte_size r.sha256) (sym n.same.1)
            (Holds-Kept w.disk d s.upload_id j r.byte_size r.sha256 k (durable j r old))
      | inr (at, new) ↦
          subst (λ u. Holds d u j r.byte_size r.sha256) (sym n.same.1) (rw (at, new) h)
    ]
      where
        there : find_row (is_record_of s.id j) db'.chunks ≡ some r
        there = subst (λ k. find_row (is_record_of k j) db'.chunks ≡ some r) n.same.0 e

    entered-Outcome :
        (d : Disk) (m : Result (Db × Session)) (row : Option ChunkRecord)
        → find_row (is_record_of s.id i) w.db.chunks ≡ row
        → contradicts sha256 row bytes ≡ false
        → account sha256 s i bytes row w.db ≡ m
        → Kept w.disk d
        → Holds d s.upload_id i (length bytes) (sha256 bytes)
        → Outcome s i bytes w (settle sha256 o w d m)
    entered-Outcome d (err e) row here fits a k h = (refl, k)
    entered-Outcome d (ok (db', s')) row here fits a k h = elim (Bool-cases o.commit_ok) [
      | inr failed ↦ rw failed (refl, k)
      | inl committed ↦
          let n = account-IsEntered s i bytes w.db db' s' found accounted row here fits a in
          rw committed (
            record {
              stored = n.stored;
              accounted = n.counted;
              on_disk = h;
              row = n.row;
              listed = n.listed;
              agrees = n.agrees;
              status = n.status;
              same = n.same;
            },
            entered-IsDurable d db' s' n k h,
            k,
          )
    ]

    pub put_chunk-Outcome : Outcome s i bytes w (put_chunk sha256 o s i bytes w)
    unfolding put_chunk
    put_chunk-Outcome =
        elim (Bool-cases (contradicts sha256 (find_row (is_record_of s.id i) w.db.chunks) bytes)) [
          | inl clash ↦ rw clash (refl, λ u j old h. h)
          | inr fits ↦
              rw fits
                (go (store_part sha256 o s i bytes w.disk (w.disk.part s.upload_id i)).1 refl fits)
        ]
      where
        stored : Disk
        stored = (store_part sha256 o s i bytes w.disk (w.disk.part s.upload_id i)).0

        kept_parts : Kept w.disk stored
        kept_parts u j old h = store_part-keeps o s i bytes w.disk _ u j old refl h

        go :
            (m : Result (Unit {0}))
            → (store_part sha256 o s i bytes w.disk (w.disk.part s.upload_id i)).1 ≡ m
            → contradicts sha256 (find_row (is_record_of s.id i) w.db.chunks) bytes ≡ false
            → Outcome s i bytes w (
                recorded sha256 o s i bytes w
                  (find_row (is_record_of s.id i) w.db.chunks)
                  (stored, m))
        go (err e) h fits = (refl, kept_parts)
        go (ok u) h fits =
            entered-Outcome stored _ _ refl fits refl kept_parts
              (store_part-Holds o s i bytes w.disk stored _ u refl (ground (arith, h)))
