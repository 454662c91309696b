-- ===== src/Uploads/Complete/Charge.antt =====
-- Publication and the quota: the bytes that a session reserves become bytes that are stored.
use https_github_com_sv3t0v.Common.{
  ℕ, ◌+◌, ◌≡◌, refl, subst, String, some, arith, ◌==◌, if◌then◌else◌, find_row, inl, inr,
  sum_rows-set_row,
}
use https_github_com_sv3t0v.Http.{ok}
use https_github_com_sv3t0v.Uploads.{
  User, Session, FileRow, Db, has_id, find_user, find_session, session_where, active_total,
  reserved_by,
}
use https_github_com_sv3t0v.Uploads.Chunk.Calls.{keys_of, own_session}
use https_github_com_sv3t0v.Uploads.Quota.{IsWithinQuota}
use https_github_com_sv3t0v.Users.Storage.{find-set_user}
use https_github_com_sv3t0v.Uploads.Complete.{Outside}
use https_github_com_sv3t0v.Uploads.Complete.Publication.{
  finished, publish, IsPublished, publish-IsPublished,
}

abbrev charged : User → ℕ → User
charged v n = record v { storage_used = v.storage_used + n }

module _ (o : Outside) (s : Session) (path : String) (size : ℕ) (digest : String) (db db' : Db)
    (f : FileRow) (p : IsPublished o s path size digest db db' f)
    (sized : size ≡ s.total_size) where
  owner : p.current.user_id ≡ s.user_id
  owner = (keys_of s.user_id s.upload_id db p.current p.checked.found).0

  active_total-released :
      (id : ℕ) → active_total id db' + (if s.user_id == id then size else 0) ≡ active_total id db
  unfolding active_total find_session
  active_total-released id =
      let own = own_session s.user_id s.upload_id db p.current p.checked.found in
      let sums =
        sum_rows-set_row (reserved_by id) (session_where p.current.user_id p.current.upload_id)
          p.current (finished p.current size) db.sessions own in
      ground (arith, sums, p.sessions, owner, p.checked.unchanged, sized)

-- When a file of the declared size is published and no user had stored and reserved more than the
-- quota, then no user has afterwards: the bytes that the session reserved are released, and as many
-- are charged.
pub publish-IsWithinQuota :
    (o : Outside) (s : Session) (path : String) (digest : String) (db db' : Db) (f : FileRow)
    → publish o s path s.total_size digest db ≡ ok (db', f)
    → IsWithinQuota db
    → IsWithinQuota db'
unfolding find_user
publish-IsWithinQuota o s path digest db db' f e q id u found =
    let p = publish-IsPublished o s path s.total_size digest db db' f e in
    let released = active_total-released o s path s.total_size digest db db' f p refl id in
    let owned = owner o s path s.total_size digest db db' f p refl in
    elim p.charged [
      | inl (z, same) ↦
          let before : find_user id db ≡ some u =
            subst (λ us. find_row (has_id id) us ≡ some u) same found in
          ground (arith, q id u before, released, z)
      | inr (v, there, room, same) ↦
          let after = subst (λ us. find_row (has_id id) us ≡ some u) same found in
          elim (find-set_user p.current.user_id id v (charged v s.total_size) u db.users refl there
            after) [
              | inl (mine, new, before) ↦ ground (arith, q id v before, released, mine, owned, new)
              | inr (other, before) ↦ ground (arith, q id u before, released, other, owned)
            ]
    ]
