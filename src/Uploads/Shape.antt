-- ===== src/Uploads/Shape.antt =====
-- The sizes of a session: how its chunks make up the file.
use https_github_com_sv3t0v.Common.{
  ℕ, suc, ◌+◌, ◌-◌, ◌*◌, ◌≤◌, ◌<◌, ◌≡◌, String, ◌∷◌, eq_iff, ◌⊎◌, zero, refl, true, Option, arith,
  Bool-cases, inl, inr,
}
use https_github_com_sv3t0v.Http.{Result, ok, err, ◌>>=◌, throw_if, bad_request, JsNumber, nat}
use https_github_com_sv3t0v.Uploads.{Config, Db, Session, World, active_total, pending}
use https_github_com_sv3t0v.Uploads.Quota.{reserve-Reserved, active_total-cons}
use https_github_com_sv3t0v.Uploads.Create.{
  Request, Outside, Sizes, ceil_div, validate_filename, bad_digest, check_numbers, check_sizes,
  check_request, check_parent, validate_safe_positive_integer, reserve, make_dir, finish,
  create_upload_session,
}
use native.Mathlib.Nat.{div-add-mod', mod-lt}

-- Every chunk but the last is full, and the last is neither empty nor more than full.
pub record IsShaped (total_size chunk_size total_chunks : ℕ) : Type 0 where
  pub some_bytes : 0 < chunk_size
  pub some_chunks : 0 < total_chunks
  pub before_last : (total_chunks - 1) * chunk_size < total_size
  pub enough : total_size ≤ total_chunks * chunk_size

pred_mul : (q b : ℕ) → 0 < q → (q - 1) * b + b ≡ q * b
pred_mul zero b h = elim h [ ]
pred_mul (suc q) b h = let e : suc q - 1 ≡ q = omega arith in rw e (omega arith)

pos_of_mul : (q b : ℕ) → 0 < q * b → 0 < q
pos_of_mul zero b h = absurd (omega arith)
pos_of_mul (suc q) b h = omega arith

ceil_div-IsShaped : (a b : ℕ) → 0 < a → 0 < b → IsShaped a b (ceil_div a b)
ceil_div-IsShaped a b pos h =
    let e = div-add-mod' (a + (b - 1)) b in
    let m = mod-lt (a + (b - 1)) h in
    let enough : a ≤ ceil_div a b * b = omega arith in
    let some_chunks : 0 < ceil_div a b = pos_of_mul (ceil_div a b) b (omega arith) in
    let last = pred_mul (ceil_div a b) b some_chunks in
    record { some_bytes = h; some_chunks = some_chunks; before_last = omega arith; enough = enough }

-- What `createUploadSession` grants: sizes within the limits, and chunks that make up the file.
pub record IsGranted (c : Config) (z : Sizes) : Type 0 where
  pub shape : IsShaped z.total_size z.chunk_size z.total_chunks
  pub chunk_fits : z.chunk_size ≤ c.max_chunk_size
  pub file_fits : (c.max_file_size ≡ 0) ⊎ (z.total_size ≤ c.max_file_size)
  pub total_fits : (c.max_total_size ≡ 0) ⊎ (z.total_size ≤ c.max_total_size)
  pub count_fits : z.total_chunks ≤ c.max_upload_chunks

check_sizes-IsGranted :
    (c : Config) (total chunk : ℕ) (parent : Option ℕ) (z : Sizes)
    → 0 < total
    → 0 < chunk
    → check_sizes c total chunk parent ≡ ok z
    → IsGranted c z
unfolding check_sizes
check_sizes-IsGranted c total chunk parent z a b e =
    let shape = ceil_div-IsShaped total chunk a b in
    record {
      shape = ground (arith, shape, e);
      chunk_fits = ground (arith, e);
      file_fits = ground (arith, e);
      total_fits = ground (arith, e);
      count_fits = ground (arith, e);
    }

validate-pos :
    (n : JsNumber) (label : String) (k : ℕ) → validate_safe_positive_integer n label ≡ ok k → 0 < k
unfolding validate_safe_positive_integer
validate-pos (nat n) label k e = ground arith
validate-pos _ label k e = cc

check_numbers-IsGranted :
    (c : Config) (r : Request) (parent : Option ℕ) (z : Sizes)
    → check_numbers c r parent ≡ ok z
    → IsGranted c z
unfolding check_numbers
check_numbers-IsGranted c r parent z =
    go (validate_safe_positive_integer r.total_size "totalSize")
      (validate_safe_positive_integer r.chunk_size "chunkSize") refl refl
  where
    go :
        (a b : Result ℕ)
        → validate_safe_positive_integer r.total_size "totalSize" ≡ a
        → validate_safe_positive_integer r.chunk_size "chunkSize" ≡ b
        → (a >>= λ t. b >>= λ k. check_sizes c t k parent) ≡ ok z
        → IsGranted c z
    go (err x) b p q e = cc
    go (ok t) (err x) p q e = cc
    go (ok t) (ok k) p q e =
        check_sizes-IsGranted c t k parent z (validate-pos _ _ t p) (validate-pos _ _ k q) e

pub check_request-IsGranted :
    (c : Config) (db : Db) (r : Request) (z : Sizes) → check_request c db r ≡ ok z → IsGranted c z
unfolding check_request
check_request-IsGranted c db r z =
    go (throw_if (bad_digest r.expected_sha256) (bad_request "Invalid whole SHA256"))
      (validate_filename r.filename) (check_parent db r.user_id r.parent_id)
  where
    go :
        (a b : Result (Unit {0})) (p : Result (Option ℕ))
        → (a >>= λ _. b >>= λ _. p >>= λ parent. check_numbers c r parent) ≡ ok z
        → IsGranted c z
    go (ok x) (ok y) (ok parent) e = check_numbers-IsGranted c r parent z e
    go (ok x) (ok y) (err n) e = cc
    go (ok x) (err n) p e = cc
    go (err n) b p e = cc

-- What holds when an upload was created.
pub record IsCreated (c : Config) (r : Request) (w w' : World) (s : Session) : Type 0 where
  pub granted : IsShaped s.total_size s.chunk_size s.total_chunks
  pub fits : (s.chunk_size ≤ c.max_chunk_size) × (s.total_chunks ≤ c.max_upload_chunks)
  pub file_fits : (c.max_file_size ≡ 0) ⊎ (s.total_size ≤ c.max_file_size)
  pub stored : w'.db.sessions ≡ s ∷ w.db.sessions
  pub reserved : active_total r.user_id w'.db ≡ active_total r.user_id w.db + s.total_size
  pub under_limit : (c.max_total_size ≡ 0) ⊎ (active_total r.user_id w'.db ≤ c.max_total_size)
  pub empty : (s.status ≡ pending) × (s.uploaded_count ≡ 0) × (s.uploaded_size ≡ 0)
  pub has_dir : w'.disk.has_dir s.upload_id ≡ true

finish-IsCreated :
    (c : Config) (o : Outside) (r : Request) (w : World) (z : Sizes) (db : Db) (t s : Session)
    → IsGranted c z
    → reserve c o r z w.db ≡ ok (db, t)
    → (make_dir o w (db, t)).1 ≡ ok s
    → IsCreated c r w (make_dir o w (db, t)).0 s
unfolding make_dir
finish-IsCreated c o r w z db t s g h e = elim (Bool-cases o.mkdir_ok) [
  | inr failed ↦ cc (rw failed at e)
  | inl made ↦
      let (held, new) = reserve-Reserved c o r z w.db db t h in
      let same : t ≡ s = ground (arith, rw made at e) in
      rw (made, ← same)
        (record {
          granted = rw new g.shape;
          fits = rw new (g.chunk_fits, g.count_fits);
          file_fits = rw new g.file_fits;
          stored = held.sessions;
          reserved = ground (arith, active_total-cons r.user_id t w.db db held.sessions, new);
          under_limit =
              ground
                (arith, active_total-cons r.user_id t w.db db held.sessions, new, held.under_limit);
          empty = rw new (refl, refl, refl);
          has_dir = ground (arith, eq_iff t.upload_id t.upload_id);
        })
]

-- An upload that is created has chunks that make up the file, within the limits of the server; its
-- bytes are added to what the user's active sessions reserve, which stays under the limit; the
-- session is stored with nothing uploaded, and its directory is there.
pub create-IsCreated :
    (c : Config) (o : Outside) (r : Request) (w : World) (s : Session)
    → (create_upload_session c o r w).1 ≡ ok s
    → IsCreated c r w (create_upload_session c o r w).0 s
unfolding create_upload_session
create-IsCreated c o r w s = request _ refl
  where
    reservation :
        (z : Sizes) (m : Result (Db × Session))
        → IsGranted c z
        → reserve c o r z w.db ≡ m
        → (finish o w m).1 ≡ ok s
        → IsCreated c r w (finish o w m).0 s
    reservation z (err e) g h f = cc
    reservation z (ok (db, t)) g h f = finish-IsCreated c o r w z db t s g h f

    request :
        (m : Result Sizes)
        → check_request c w.db r ≡ m
        → (finish o w (m >>= λ z. reserve c o r z w.db)).1 ≡ ok s
        → IsCreated c r w (finish o w (m >>= λ z. reserve c o r z w.db)).0 s
    request (err e) h f = cc
    request (ok z) h f = reservation z _ (check_request-IsGranted c w.db r z h) refl f
