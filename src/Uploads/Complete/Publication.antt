-- ===== src/Uploads/Complete/Publication.antt =====
-- The publication transaction of `completeUpload`.
use https_github_com_sv3t0v.Common.{
  ℕ, suc, ◌+◌, ◌≤◌, ◌≡◌, refl, String, true, false, not, none, some, ◌∷◌, arith, ltb, ◌==◌, set_row,
  keep_rows, Option-cases, inl, inr, ◌⊎◌,
}
use https_github_com_sv3t0v.Http.{
  Result, ok, err, ◌>>=◌, ◌>>◌, throw_if, bad_request, forbidden, conflict, parse_database_size,
}
use https_github_com_sv3t0v.Text.{Text}
use https_github_com_sv3t0v.Uploads.{
  completed, User, Session, FileRow, Db, has_id, find_user, find_session, save_session,
  session_where, active_total, has_expired,
}
use https_github_com_sv3t0v.Uploads.Create.{or_throw}
use https_github_com_sv3t0v.Uploads.Chunk.{internal_error}
use https_github_com_sv3t0v.Uploads.Complete.{
  Outside, lock_publication_destination, has_changed, unreserved_error, workspace_error,
  without_chunks,
}
use https_github_com_sv3t0v.Namespace.{allocate_namespace_name}
use https_github_com_sv3t0v.Namespace
use https_github_com_sv3t0v.Users.{update_storage_used}
use https_github_com_sv3t0v.Users.Storage.{update_storage_used-Charged}

-- The file that is published. `mime` is what its first bytes were taken for; `digest` is the whole digest, kept where one was expected.
abbrev pub new_file : Session → String → ℕ → Text → String → String → ℕ → FileRow
new_file s path size name digest mime id = record {
  id = id;
  name = name;
  storage_path = some path;
  size = size;
  mime_type = some mime;
  checksum = elim s.expected_sha256 [ none ↦ none | some _ ↦ some digest ];
  is_folder = false;
  is_deleted = false;
  parent_id = s.parent_id;
  folder_id = none;
  upload_id = some s.upload_id;
  user_id = s.user_id;
}

abbrev pub finished : Session → ℕ → Session
finished s size = record s {
  status = completed;
  uploaded_size = size;
  uploaded_count = s.total_chunks;
}

-- The transaction up to the link of the object into the storage.
unfoldable pub check_publication : Outside → Session → Db → Result (Session × Text)
unfolding parse_database_size
check_publication o s db = do
  user ← or_throw (find_user s.user_id db) (forbidden "User unavailable")
  throw_if (not user.is_active) (forbidden "User unavailable")
  lock_publication_destination db s.user_id s.parent_id
  current ←
      or_throw (find_session s.user_id s.upload_id db)
        (conflict "Upload session changed during assembly")
  throw_if (has_changed current s) (conflict "Upload session changed during assembly")
  throw_if (has_expired o.now_publish current) (bad_request "Upload session expired")
  throw_if (not o.still_unreserved) unreserved_error
  throw_if (not o.still_workspace) workspace_error
  used ← parse_database_size user.storage_used
  active ← parse_database_size (active_total s.user_id db)
  sum ← parse_database_size (used + active)
  quota ← parse_database_size user.storage_quota
  throw_if (ltb quota sum) (forbidden "Storage quota exceeded")
  name ←
      allocate_namespace_name db s.user_id current.parent_id current.filename Namespace.file none
        none
  throw_if (not o.link_ok) internal_error
  ok (current, name)

-- The rows that are written: the file, the user's bytes, the session, and no chunk rows any more.
unfoldable pub write_publication :
    String → ℕ → String → String → Session → Text → Db → Result (Db × FileRow)
write_publication path size digest mime current name db =
    let f = new_file current path size name digest mime db.next_id in
    update_storage_used current.user_id size
      (record db { files = f ∷ db.files; next_id = suc db.next_id })
    >>= λ db'. ok (save_session (finished current size) (without_chunks current.id db'), f)

unfoldable pub publish : Outside → Session → String → ℕ → String → Db → Result (Db × FileRow)
unfolding check_publication write_publication
publish o s path size digest db = check_publication o s db >>= λ (current, name).
    write_publication path size digest o.mime current name db

-- What the checks of the transaction have found.
pub record IsPublishable (o : Outside) (s : Session) (db : Db) (current : Session) (name : Text)
    : Type 0 where
  pub user : User
  pub found_user : find_user s.user_id db ≡ some user
  pub user_active : user.is_active ≡ true
  pub found : find_session s.user_id s.upload_id db ≡ some current
  pub unchanged : has_changed current s ≡ false
  pub unexpired : has_expired o.now_publish current ≡ false
  pub room : user.storage_used + active_total s.user_id db ≤ user.storage_quota
  pub named :
      allocate_namespace_name db s.user_id current.parent_id current.filename Namespace.file none
        none
      ≡ ok name

check_publication-IsPublishable :
    (o : Outside) (s : Session) (db : Db) (current : Session) (name : Text)
    → check_publication o s db ≡ ok (current, name)
    → IsPublishable o s db current name
unfolding check_publication parse_database_size
check_publication-IsPublishable o s db current name e =
    elim (Option-cases (find_user s.user_id db)) [
      | inl missing ↦ ground (arith, missing, e)
      | inr (u, found) ↦ elim (Option-cases (find_session s.user_id s.upload_id db)) [
        | inl missing ↦ ground (arith, missing, found, e)
        | inr (t, there) ↦
            let same : t ≡ current = ground (arith, found, there, e) in
            record {
              user = u;
              found_user = found;
              user_active = ground (arith, found, there, e);
              found = ground (arith, there, same);
              unchanged = ground (arith, found, there, e);
              unexpired = ground (arith, found, there, e);
              room = ground (arith, found, there, e);
              named = ground (arith, found, there, e);
            }
      ]
    ]

-- What the transaction has written.
pub record IsPublished (o : Outside) (s : Session) (path : String) (size : ℕ) (digest : String)
    (db db' : Db) (f : FileRow) : Type 0 where
  pub current : Session
  pub name : Text
  pub checked : IsPublishable o s db current name
  pub file : f ≡ new_file current path size name digest o.mime db.next_id
  pub files : db'.files ≡ f ∷ db.files
  pub sessions :
      db'.sessions
      ≡ set_row
          (session_where current.user_id current.upload_id)
          (finished current size)
          db.sessions
  pub chunks : db'.chunks ≡ keep_rows (λ r. not (r.session_id == current.id)) db.chunks
  pub charged :
      ((size ≡ 0) × (db'.users ≡ db.users))
      ⊎ ((u : User) × (find_user current.user_id db ≡ some u)
          × (u.storage_used + size ≤ u.storage_quota)
          × (db'.users
              ≡ set_row
                  (has_id current.user_id)
                  (record u { storage_used = u.storage_used + size })
                  db.users))

pub publish-IsPublished :
    (o : Outside) (s : Session) (path : String) (size : ℕ) (digest : String) (db db' : Db)
    (f : FileRow)
    → publish o s path size digest db ≡ ok (db', f)
    → IsPublished o s path size digest db db' f
unfolding publish write_publication save_session find_user
publish-IsPublished o s path size digest db db' f = go _ refl
  where
    written :
        (current : Session) (name : Text) (m : Result Db)
        → IsPublishable o s db current name
        → update_storage_used current.user_id size (record db {
          files = new_file current path size name digest o.mime db.next_id ∷ db.files;
          next_id = suc db.next_id;
        })
          ≡ m
        → ◌>>=◌ {T = Db × FileRow} m (λ db'. ok (
          save_session (finished current size) (without_chunks current.id db'),
          new_file current path size name digest o.mime db.next_id,
        ))
          ≡ ok (db', f)
        → IsPublished o s path size digest db db' f
    written current name (err x) c u e = cc
    written current name (ok db1) c u e =
        let charge =
          update_storage_used-Charged current.user_id size
            (record db {
              files = new_file current path size name digest o.mime db.next_id ∷ db.files;
              next_id = suc db.next_id;
            })
            db1 u in
        record {
          current = current;
          name = name;
          checked = c;
          file = ground (arith, e);
          files = elim charge [
            | inl (z, same) ↦ ground (arith, same, e)
            | inr h ↦ ground (arith, h.written, e)
          ];
          sessions = elim charge [
            | inl (z, same) ↦ ground (arith, same, e)
            | inr h ↦ ground (arith, h.written, e)
          ];
          chunks = elim charge [
            | inl (z, same) ↦ ground (arith, same, e)
            | inr h ↦ ground (arith, h.written, e)
          ];
          charged = elim charge [
            | inl (z, same) ↦ inl (z, ground (arith, same, e))
            | inr h ↦ inr (h.user, h.found, h.room, ground (arith, h.written, e))
          ];
        }

    go :
        (m : Result (Session × Text))
        → check_publication o s db ≡ m
        → (m >>= λ (current, name). write_publication path size digest o.mime current name db)
          ≡ ok (db', f)
        → IsPublished o s path size digest db db' f
    go (err x) h e = cc
    go (ok (current, name)) h e =
        written current name _ (check_publication-IsPublishable o s db current name h) refl e
