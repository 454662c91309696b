-- ===== src/Uploads/Quota.antt =====
-- The storage quota: what a user has stored and what the active sessions reserve.
use https_github_com_sv3t0v.Common.{
  ℕ, ◌+◌, ◌≤◌, ◌≡◌, refl, ◌⊎◌, inl, inr, Bool, not, some, ◌∷◌, arith, ◌==◌, sum_rows, keep_rows,
  sum_rows-keep_rows-le, Bool-cases, Option-cases, subst,
}
use https_github_com_sv3t0v.Http.{Result, ok, err, ◌>>=◌, parse_database_size}
use https_github_com_sv3t0v.Uploads.{
  User, Session, Db, World, Config, find_user, active_total, reserved_by,
}
use https_github_com_sv3t0v.Uploads.Create.{
  Request, Outside, Sizes, new_session, reserve, make_dir, create_upload_session, check_request,
  finish,
}

-- Nobody has stored and reserved more than the quota.
abbrev pub IsWithinQuota : Db → Type 0
IsWithinQuota db =
    (id : ℕ) (u : User)
    → find_user id db ≡ some u
    → u.storage_used + active_total id db ≤ u.storage_quota

-- What a reservation that goes through has checked and done.
pub record Reserved (c : Config) (user_id size : ℕ) (db db' : Db) (s : Session) : Type 0 where
  pub user : User
  pub found : find_user user_id db ≡ some user
  pub room : user.storage_used + active_total user_id db + size ≤ user.storage_quota
  pub under_limit : (c.max_total_size ≡ 0) ⊎ (active_total user_id db + size ≤ c.max_total_size)
  pub users : db'.users ≡ db.users
  pub sessions : db'.sessions ≡ s ∷ db.sessions

pub reserve-Reserved :
    (c : Config) (o : Outside) (r : Request) (z : Sizes) (db db' : Db) (s : Session)
    → reserve c o r z db ≡ ok (db', s)
    → Reserved c r.user_id z.total_size db db' s × (s ≡ new_session r z c o db.next_id)
unfolding reserve parse_database_size
reserve-Reserved c o r z db db' s e = elim (Option-cases (find_user r.user_id db)) [
  | inl missing ↦ ground (arith, missing, e)
  | inr (u, found) ↦ (
    record {
      user = u;
      found = found;
      room = ground (arith, found, e);
      under_limit = ground (arith, found, e);
      users = ground (arith, found, e);
      sessions = ground (arith, found, e);
    },
    ground (arith, found, e),
  )
]

pub active_total-cons :
    (id : ℕ) (s : Session) (db db' : Db)
    → db'.sessions ≡ s ∷ db.sessions
    → active_total id db' ≡ reserved_by id s + active_total id db
unfolding active_total sum_rows
active_total-cons id s db db' e = rw e

find_user-users : (id : ℕ) (db db' : Db) → db'.users ≡ db.users → find_user id db' ≡ find_user id db
unfolding find_user
find_user-users id db db' e = rw e

Reserved-IsWithinQuota :
    (c : Config) (user_id : ℕ) (db db' : Db) (s : Session)
    → s.user_id ≡ user_id
    → Reserved c user_id s.total_size db db' s
    → IsWithinQuota db
    → IsWithinQuota db'
Reserved-IsWithinQuota c user_id db db' s owner r q id u e =
    let found : find_user id db ≡ some u = rw (← (find_user-users id db db' r.users)) e in
    elim (Bool-cases (s.user_id == id)) [
      | inl mine ↦
          let same : id ≡ user_id = ground (arith, mine, owner) in
          let u_eq : some u ≡ some r.user = rw (← found, same) r.found in
          ground (arith, active_total-cons id s db db' r.sessions, r.room, same, u_eq, mine)
      | inr other ↦ ground (arith, active_total-cons id s db db' r.sessions, q id u found, other)
    ]

keep_rows-IsWithinQuota :
    (p : Session → Bool) (db : Db)
    → IsWithinQuota db
    → IsWithinQuota (record db { sessions = keep_rows p db.sessions })
unfolding find_user active_total
keep_rows-IsWithinQuota p db q id u e =
    omega (arith, q id u e, sum_rows-keep_rows-le (reserved_by id) p db.sessions)

make_dir-IsWithinQuota :
    (o : Outside) (w : World) (db : Db) (s : Session)
    → IsWithinQuota db
    → IsWithinQuota (make_dir o w (db, s)).0.db
unfolding make_dir
make_dir-IsWithinQuota o w db s q = elim (Bool-cases o.mkdir_ok) [
  | inl made ↦ rw made q
  | inr failed ↦ rw failed (keep_rows-IsWithinQuota (λ t. not (t.id == s.id)) db q)
]

-- Where no user has stored and reserved more than the quota, to create an upload takes nobody over
-- it, whether it goes through, is turned down, or is undone because the directory could not be made.
pub create-IsWithinQuota :
    (c : Config) (o : Outside) (r : Request) (w : World)
    → IsWithinQuota w.db
    → IsWithinQuota (create_upload_session c o r w).0.db
unfolding create_upload_session
create-IsWithinQuota c o r w q = go (check_request c w.db r)
  where
    done :
        (z : Sizes) (m : Result (Db × Session))
        → reserve c o r z w.db ≡ m
        → IsWithinQuota (finish o w m).0.db
    done z (err e) h = q
    done z (ok (db, s)) h =
        let (reserved, made) = reserve-Reserved c o r z w.db db s h in
        make_dir-IsWithinQuota o w db s (
          Reserved-IsWithinQuota c r.user_id w.db db s (ground (arith, made))
            (subst (λ n. Reserved c r.user_id n w.db db s) (ground (arith, made)) reserved) q)

    go : (z : Result Sizes) → IsWithinQuota (finish o w (z >>= λ z. reserve c o r z w.db)).0.db
    go (err e) = q
    go (ok z) = done z _ refl
