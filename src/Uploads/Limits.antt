-- ===== src/Uploads/Limits.antt =====
-- backend/src/uploads/uploads.service.ts: `getUploadLimits`, what the client is told beforehand.
use https_github_com_sv3t0v.Common.{
  ℕ, suc, ◌+◌, ◌-◌, ◌*◌, ◌≤◌, ◌<◌, ◌≡◌, refl, min, true, Option, none, some, ◌∷◌, arith, ltb,
  if◌then◌else◌, Option-cases, inl, inr, ◌⊎◌,
}
use https_github_com_sv3t0v.Http.{Result, ok, err, ◌>>=◌, forbidden, max_safe, parse_database_size}
use https_github_com_sv3t0v.Uploads.{Session, Db, World, Config, find_user, active_total}
use https_github_com_sv3t0v.Uploads.Create.{
  Request, Outside, Sizes, new_session, or_throw, reserve, check_request, make_dir, finish,
  create_upload_session,
}
use https_github_com_sv3t0v.Uploads.Shape.{IsGranted, check_request-IsGranted}
use https_github_com_sv3t0v.Uploads.Quota.{reserve-Reserved}
use native.Mathlib.Nat.{mul-le-mul}

pub record UploadLimits : Type 0 where
  pub max_file_bytes : Option ℕ
  pub max_active_bytes : Option ℕ
  pub max_chunk_bytes : ℕ
  pub max_chunks : ℕ
  pub remaining_active_bytes : Option ℕ
  pub quota_remaining_bytes : ℕ
  pub effective_max_file_bytes : ℕ

-- `n > 0 ? value : null`
abbrev pub if_set : ℕ → ℕ → Option ℕ
if_set n value = if ltb 0 n then some value else none

-- `value ?? Number.MAX_SAFE_INTEGER`
abbrev pub or_max_safe : Option ℕ → ℕ
or_max_safe none = max_safe
or_max_safe (some n) = n

-- A difference below zero is taken for 0 by `Math.max(0, …)`, as ℕ does.
unfoldable pub get_upload_limits : Config → ℕ → Db → Result UploadLimits
unfolding parse_database_size
get_upload_limits c user_id db = do
  user ← or_throw (find_user user_id db) (forbidden "User not found")
  active ← parse_database_size (active_total user_id db)
  quota ← parse_database_size user.storage_quota
  used ← parse_database_size user.storage_used
  taken ← parse_database_size (used + active)
  let quota_remaining = quota - taken
  let remaining_active = if_set c.max_total_size (c.max_total_size - active)
  let max_file = if_set c.max_file_size c.max_file_size
  ok (record {
    max_file_bytes = max_file;
    max_active_bytes = if_set c.max_total_size c.max_total_size;
    max_chunk_bytes = c.max_chunk_size;
    max_chunks = c.max_upload_chunks;
    remaining_active_bytes = remaining_active;
    quota_remaining_bytes = quota_remaining;
    effective_max_file_bytes = min (or_max_safe max_file) (
        min (or_max_safe remaining_active)
          (min quota_remaining (min (c.max_upload_chunks * c.max_chunk_size) max_safe)));
  })

-- A file of one byte or more, of at most the advertised size, always finds room: the transaction that reserves its bytes
-- goes through, with the session of the request, when the workspace answers.
pub reserve-advertised :
    (c : Config) (o : Outside) (r : Request) (z : Sizes) (db : Db) (l : UploadLimits)
    → get_upload_limits c r.user_id db ≡ ok l
    → 0 < z.total_size
    → z.total_size ≤ l.effective_max_file_bytes
    → o.workspace_ok ≡ true
    → reserve c o r z db
      ≡ ok (
        record db {
          sessions = new_session r z c o db.next_id ∷ db.sessions;
          next_id = suc db.next_id;
        },
        new_session r z c o db.next_id,
      )
unfolding get_upload_limits reserve parse_database_size
reserve-advertised c o r z db l e p h w = elim (Option-cases (find_user r.user_id db)) [
  | inl missing ↦ ground (arith, missing, e)
  | inr (u, found) ↦ ground (arith, found, e, p, h, w)
]

reserve-le-effective :
    (c : Config) (o : Outside) (r : Request) (z : Sizes) (db db' : Db) (s : Session)
    (l : UploadLimits)
    → reserve c o r z db ≡ ok (db', s)
    → get_upload_limits c r.user_id db ≡ ok l
    → (c.max_file_size ≡ 0) ⊎ (z.total_size ≤ c.max_file_size)
    → z.total_size ≤ c.max_upload_chunks * c.max_chunk_size
    → z.total_size ≤ l.effective_max_file_bytes
unfolding get_upload_limits reserve parse_database_size
reserve-le-effective c o r z db db' s l e k f h = elim (Option-cases (find_user r.user_id db)) [
  | inl missing ↦ ground (arith, missing, e)
  | inr (u, found) ↦ ground (arith, found, e, k, h, f)
]

mul_mono : (a b c d : ℕ) → a ≤ c → b ≤ d → a * b ≤ c * d
mul_mono a b c d h k = omega (arith, mul-le-mul h k)

-- An upload that is created is never larger than what `getUploadLimits` gave as the largest file
-- just before.
pub create-le-effective :
    (c : Config) (o : Outside) (r : Request) (w : World) (s : Session) (l : UploadLimits)
    → get_upload_limits c r.user_id w.db ≡ ok l
    → (create_upload_session c o r w).1 ≡ ok s
    → s.total_size ≤ l.effective_max_file_bytes
unfolding create_upload_session make_dir
create-le-effective c o r w s l known = request _ refl
  where
    reservation :
        (z : Sizes) (m : Result (Db × Session))
        → IsGranted c z
        → reserve c o r z w.db ≡ m
        → (finish o w m).1 ≡ ok s
        → s.total_size ≤ l.effective_max_file_bytes
    reservation z (err e) g h f = cc
    reservation z (ok (db, t)) g h f =
        let (held, new) = reserve-Reserved c o r z w.db db t h in
        let whole =
          mul_mono z.total_chunks z.chunk_size c.max_upload_chunks c.max_chunk_size g.count_fits
            g.chunk_fits in
        let bounded =
          reserve-le-effective c o r z w.db db t l h known g.file_fits
            (omega (arith, g.shape.enough)) in
        ground (arith, bounded, new, f)

    request :
        (m : Result Sizes)
        → check_request c w.db r ≡ m
        → (finish o w (m >>= λ z. reserve c o r z w.db)).1 ≡ ok s
        → s.total_size ≤ l.effective_max_file_bytes
    request (err e) h f = cc
    request (ok z) h f = reservation z _ (check_request-IsGranted c w.db r z h) refl f
