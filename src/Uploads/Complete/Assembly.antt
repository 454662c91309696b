-- ===== src/Uploads/Complete/Assembly.antt =====
-- The assembly of `completeUpload` (`chunkSequence` and the checks after it): the chunk files in
-- order make up the file.
use https_github_com_sv3t0v.Common.{
  ℕ, zero, suc, ◌+◌, ◌*◌, ◌<◌, ◌≡◌, refl, ◌∙◌, String, Bool, false, not, ◌||◌, Option, none, some,
  [], ◌∷◌, ◌++◌, arith, ◌==◌, str_eq, find_row, length,
}
use https_github_com_sv3t0v.Http.{Result, ok, err, ◌>>=◌, ◌>>◌, throw_if, bad_request}
use https_github_com_sv3t0v.RateLimit.Service.{decimal}
use https_github_com_sv3t0v.Uploads.{Session, ChunkRecord, Db, Disk, Bytes}
use https_github_com_sv3t0v.Uploads.Create.{or_throw}
use https_github_com_sv3t0v.Uploads.Chunk.{expected_size, is_record_of, internal_error}
use Prim.Native.String

abbrev chunk_message : ℕ → String → String
chunk_message i rest = String.◌++◌ "Chunk " (String.◌++◌ (decimal i) rest)

abbrev size_message : ℕ → ℕ → String
size_message actual declared = String.◌++◌ "Actual file size " (
    String.◌++◌ (decimal actual)
      (String.◌++◌ " does not match declared totalSize " (decimal declared)))

module _ (sha256 : Bytes → String) where
  -- `record && (record.byteSize !== expectedSize || record.sha256 !== digest)`
  abbrev pub is_corrupt : Session → ℕ → Bytes → Option ChunkRecord → Bool
  is_corrupt s i bytes none = false
  is_corrupt s i bytes (some r) =
      not (r.byte_size == expected_size s i) || not (str_eq r.sha256 (sha256 bytes))

  unfoldable pub read_chunk : Session → Db → Disk → ℕ → Result Bytes
  read_chunk s db d i = do
    bytes ← or_throw (d.part s.upload_id i) internal_error
    throw_if (not (length bytes == expected_size s i)) (
        bad_request (
          chunk_message i
            (String.◌++◌ " size does not match expected " (decimal (expected_size s i)))))
    throw_if (is_corrupt s i bytes (find_row (is_record_of s.id i) db.chunks))
        (bad_request (chunk_message i " integrity mismatch"))
    ok bytes

  -- The chunks from index `i` on, as many as are left.
  unfoldable pub gather : Session → Db → Disk → ℕ → ℕ → Result Bytes
  unfolding read_chunk
  gather s db d i zero = ok []
  gather s db d i (suc left) = do
    bytes ← read_chunk s db d i
    rest ← gather s db d (i + 1) left
    ok (bytes ++ rest)

  abbrev pub differs : Option String → Bytes → Bool
  differs none bytes = false
  differs (some expected) bytes = not (str_eq expected (sha256 bytes))

  unfoldable pub assemble : Session → Db → Disk → Result Bytes
  unfolding gather
  assemble s db d = do
    bytes ← gather s db d 0 s.total_chunks
    throw_if (not (length bytes == s.total_size))
        (bad_request (size_message (length bytes) s.total_size))
    throw_if (differs s.expected_sha256 bytes) (bad_request "Whole-file integrity mismatch")
    ok bytes

-- The byte at a position.
abbrev pub get_elem? : Bytes → ℕ → Option ℕ
get_elem? [] n = none
get_elem? (x ∷ xs) zero = some x
get_elem? (x ∷ xs) (suc n) = get_elem? xs n

get-append-left :
    (xs ys : Bytes) (n b : ℕ) → get_elem? xs n ≡ some b → get_elem? (xs ++ ys) n ≡ some b
get-append-left [] ys n b h = cc
get-append-left (x ∷ xs) ys zero b h = h
get-append-left (x ∷ xs) ys (suc n) b h = get-append-left xs ys n b h

get-append-right : (xs ys : Bytes) (n : ℕ) → get_elem? (xs ++ ys) (length xs + n) ≡ get_elem? ys n
get-append-right [] ys n = let e : 0 + n ≡ n = omega arith in rw e refl
get-append-right (x ∷ xs) ys n =
    let e : suc (length xs) + n ≡ suc (length xs + n) = omega arith in
    rw e (get-append-right xs ys n)

module _ (sha256 : Bytes → String) (s : Session) (db : Db) (d : Disk) where
  read_chunk-reads :
      (i : ℕ) (bytes : Bytes)
      → read_chunk sha256 s db d i ≡ ok bytes
      → (d.part s.upload_id i ≡ some bytes) × (length bytes ≡ expected_size s i)
  unfolding read_chunk
  read_chunk-reads i bytes = go (d.part s.upload_id i)
    where
      go :
          (m : Option Bytes)
          → (or_throw m internal_error >>= λ b.
              throw_if (not (length b == expected_size s i)) (
                bad_request (
                  chunk_message i
                    (String.◌++◌ " size does not match expected " (decimal (expected_size s i)))))
              >> (throw_if
                    (is_corrupt sha256 s i b (find_row (is_record_of s.id i) db.chunks))
                    (bad_request (chunk_message i " integrity mismatch"))
                  >> ok b))
            ≡ ok bytes
          → (m ≡ some bytes) × (length bytes ≡ expected_size s i)
      go none e = cc
      go (some b) e = ground (arith, e)

  -- Every byte of a chunk that was gathered is at its position.
  abbrev pub IsPlaced : ℕ → ℕ → Bytes → Type 0
  IsPlaced i left bytes =
      (m : ℕ) (chunk : Bytes) (j b : ℕ)
      → m < left
      → d.part s.upload_id (i + m) ≡ some chunk
      → get_elem? chunk j ≡ some b
      → get_elem? bytes (m * s.chunk_size + j) ≡ some b

  place :
      (i left : ℕ) (first rest : Bytes)
      → i + suc left ≡ s.total_chunks
      → d.part s.upload_id i ≡ some first
      → length first ≡ expected_size s i
      → IsPlaced (i + 1) left rest
      → IsPlaced i (suc left) (first ++ rest)
  place i left first rest total there sized ih zero chunk j b lt h at =
      let e : i + 0 ≡ i = omega arith in
      let same : chunk ≡ first = ground (arith, there, rw e at h) in
      let p : 0 * s.chunk_size + j ≡ j = omega arith in
      rw p (get-append-left first rest j b (rw same at at))
  place i left first rest total there sized ih (suc m) chunk j b lt h at =
      let full : length first ≡ s.chunk_size = ground (arith, sized, lt, total) in
      let p : suc m * s.chunk_size + j ≡ length first + (m * s.chunk_size + j) =
        omega (arith, full) in
      let q : i + suc m ≡ i + 1 + m = omega arith in
      rw p (
        get-append-right first rest (m * s.chunk_size + j)
        ∙ ih m chunk j b (omega arith) (rw q at h) at)

  gather-IsPlaced :
      (i left : ℕ) (bytes : Bytes)
      → i + left ≡ s.total_chunks
      → gather sha256 s db d i left ≡ ok bytes
      → IsPlaced i left bytes
  unfolding gather
  gather-IsPlaced i zero bytes total e = λ m chunk j b lt. absurd (omega arith)
  gather-IsPlaced i (suc left) bytes total e =
      go _ _ refl refl (λ rest q. gather-IsPlaced (i + 1) left rest (omega arith) q) e
    where
      go :
          (a r : Result Bytes)
          → read_chunk sha256 s db d i ≡ a
          → gather sha256 s db d (i + 1) left ≡ r
          → ((rest : Bytes)
              → gather sha256 s db d (i + 1) left ≡ ok rest
              → IsPlaced (i + 1) left rest)
          → (a >>= λ first. r >>= λ rest. ok (first ++ rest)) ≡ ok bytes
          → IsPlaced i (suc left) bytes
      go (err x) r p q ih e = cc
      go (ok first) (err x) p q ih e = cc
      go (ok first) (ok rest) p q ih e =
          let (there, sized) = read_chunk-reads i first p in
          let same : first ++ rest ≡ bytes = ground (arith, e) in
          rw (← same) (place i left first rest total there sized (ih rest q))

  -- The chunk files from an index on are all there, with the sizes of the session.
  abbrev pub IsWhole : ℕ → ℕ → Type 0
  IsWhole i left =
      (m : ℕ)
      → m < left
      → (chunk : Bytes) × (d.part s.upload_id (i + m) ≡ some chunk)
        × (length chunk ≡ expected_size s (i + m))

  gather-IsWhole :
      (i left : ℕ) (bytes : Bytes) → gather sha256 s db d i left ≡ ok bytes → IsWhole i left
  unfolding gather
  gather-IsWhole i zero bytes e = λ m lt. absurd (omega arith)
  gather-IsWhole i (suc left) bytes e =
      go _ _ refl refl (λ rest q. gather-IsWhole (i + 1) left rest q) e
    where
      at :
          (m : ℕ)
          → IsWhole (i + 1) left
          → (first : Bytes) → (d.part s.upload_id i ≡ some first)
          → (length first ≡ expected_size s i)
          → m < suc left
          → (chunk : Bytes) × (d.part s.upload_id (i + m) ≡ some chunk)
            × (length chunk ≡ expected_size s (i + m))
      at zero ih first there sized lt =
          let e : i + 0 ≡ i = omega arith in rw e (first, there, sized)
      at (suc m) ih first there sized lt =
          let e : i + suc m ≡ i + 1 + m = omega arith in rw e (ih m (omega arith))

      go :
          (a r : Result Bytes)
          → read_chunk sha256 s db d i ≡ a
          → gather sha256 s db d (i + 1) left ≡ r
          → ((rest : Bytes) → gather sha256 s db d (i + 1) left ≡ ok rest → IsWhole (i + 1) left)
          → (a >>= λ first. r >>= λ rest. ok (first ++ rest)) ≡ ok bytes
          → IsWhole i (suc left)
      go (err x) r p q ih e = cc
      go (ok first) (err x) p q ih e = cc
      go (ok first) (ok rest) p q ih e = λ m lt.
          let (there, sized) = read_chunk-reads i first p in at m (ih rest q) first there sized lt

  -- What the assembled bytes are, chunk by chunk.
  pub record IsAssembled (bytes : Bytes) : Type 0 where
    pub sized : length bytes ≡ s.total_size
    pub hashed : differs sha256 s.expected_sha256 bytes ≡ false
    pub chunks : IsWhole 0 s.total_chunks
    pub placed : IsPlaced 0 s.total_chunks bytes

  -- When the chunks are assembled, every chunk file of the session is there and has its size, the
  -- result has the declared size and, where one is expected, the expected digest, and each byte of
  -- chunk i stands in it at i times the chunk size, plus its position in the chunk.
  pub assemble-IsAssembled : (bytes : Bytes) → assemble sha256 s db d ≡ ok bytes → IsAssembled bytes
  unfolding assemble
  assemble-IsAssembled bytes e = go _ refl e
    where
      go :
          (m : Result Bytes)
          → gather sha256 s db d 0 s.total_chunks ≡ m
          → (m >>= λ b.
              throw_if
                (not (length b == s.total_size))
                (bad_request (size_message (length b) s.total_size))
              >> (throw_if
                    (differs sha256 s.expected_sha256 b)
                    (bad_request "Whole-file integrity mismatch")
                  >> ok b))
            ≡ ok bytes
          → IsAssembled bytes
      go (err x) p e = cc
      go (ok b) p e =
          let same : b ≡ bytes = ground (arith, e) in
          rw (← same) (record {
            sized = ground (arith, e);
            hashed = ground (arith, e);
            chunks = gather-IsWhole 0 s.total_chunks b p;
            placed = gather-IsPlaced 0 s.total_chunks b (omega arith) p;
          })
