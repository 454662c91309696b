-- ===== src/Files/Accounts/Mirrors.antt =====
-- Renaming, moving, trashing and restoring a folder keep what users are charged for.
use https_github_com_sv3t0v.Common.{
  ℕ, ◌≡◌, refl, inl, inr, Bool, true, false, ◌&&◌, Option, none, some, arith, if◌then◌else◌,
  set_row, Bool-cases,
}
use https_github_com_sv3t0v.Http.{Result, ok, err, ◌>>=◌, ◌>>◌}
use https_github_com_sv3t0v.Text.{Text, text_eq}
use https_github_com_sv3t0v.Uploads.{Folder, FileRow, Db}
use https_github_com_sv3t0v.Namespace.{allocate_namespace_name, same_parent}
use https_github_com_sv3t0v.Namespace
use https_github_com_sv3t0v.Files.{is_mirror_of}
use https_github_com_sv3t0v.Files.Folders.{
  FolderChange, target_of, check_target, no_cycle_to, requested_name, update_folder, save_both,
  folder_and_mirror, placed_folder, placed_mirror, place_folder, remove_folder, revived, restore_in,
  restore_folder, live_parent,
}
use https_github_com_sv3t0v.Files.Folders.Steps.{IsPair, folder_and_mirror-IsPair}
use https_github_com_sv3t0v.Files.Deletion.Charges.{IsCharged}
use https_github_com_sv3t0v.Files.Accounts.{Recosts, rewrite-IsCharged}

-- A folder operation writes the folder's mirror anew.
record Rewrites (user_id id : ℕ) (db : Db) (m : FileRow) (db' : Db) : Type 0 where
  written : FileRow
  same : Recosts m written
  users : db'.users ≡ db.users
  rows : db'.files ≡ set_row (is_mirror_of id user_id) written db.files

Rewrites-IsCharged :
    (user_id id : ℕ) (db : Db) (f : Folder) (m : FileRow) (db' : Db)
    → IsCharged db
    → IsPair user_id id db f m
    → Rewrites user_id id db m db'
    → IsCharged db'
Rewrites-IsCharged user_id id db f m db' c pair r =
    rewrite-IsCharged (is_mirror_of id user_id) m r.written db db' c pair.mirror r.same r.users
      r.rows

place_folder-Rewrites :
    (user_id id : ℕ) (requested : Text) (destination : Option ℕ) (f : Folder) (m : FileRow)
    (db db' : Db) (m' : FileRow)
    → place_folder user_id id requested destination f m db ≡ ok (db', m')
    → Rewrites user_id id db m db'
unfolding place_folder
place_folder-Rewrites user_id id requested destination f m db db' m' =
    go (text_eq requested f.name && same_parent destination f.parent_id) (
      allocate_namespace_name db user_id destination requested Namespace.folder (some m.id)
        (some id))
  where
    go :
        (b : Bool) (x : Result Text)
        → (if b
            then ok (save_both user_id id f m db, m)
            else ◌>>=◌ {T = Db × FileRow} x (λ name. ok (
              save_both user_id id
                  (placed_folder name destination f)
                  (placed_mirror name destination m)
                  db,
              placed_mirror name destination m,
            )))
          ≡ ok (db', m')
        → Rewrites user_id id db m db'
    go true x e = record {
      written = m;
      same = record { size = refl; user = refl; kind = refl };
      users = ground (arith, e);
      rows = ground (arith, e);
    }
    go false (err a) e = cc
    go false (ok name) e = record {
      written = placed_mirror name destination m;
      same = record { size = refl; user = refl; kind = refl };
      users = ground (arith, e);
      rows = ground (arith, e);
    }

restore_in-Rewrites :
    (user_id id : ℕ) (f : Folder) (m : FileRow) (p : Option ℕ) (db db' : Db)
    → restore_in user_id id f (record m { parent_id = p }) db ≡ ok db'
    → Rewrites user_id id db m db'
unfolding restore_in
restore_in-Rewrites user_id id f m p db db' =
    go f.is_deleted
      (allocate_namespace_name db user_id f.parent_id f.name Namespace.folder (some m.id) (some id))
  where
    go :
        (b : Bool) (x : Result Text)
        → (if b
            then ◌>>=◌ {T = Db} x (λ name. ok (
                revived user_id id
                  (record f { name = name })
                  (record m { parent_id = p; name = name })
                  db))
            else ok (revived user_id id f (record m { parent_id = p }) db))
          ≡ ok db'
        → Rewrites user_id id db m db'
    go true (err a) e = cc
    go true (ok name) e = record {
      written = record m { parent_id = p; name = name; is_deleted = false };
      same = record { size = refl; user = refl; kind = refl };
      users = ground (arith, e);
      rows = ground (arith, e);
    }
    go false x e = record {
      written = record m { parent_id = p; is_deleted = false };
      same = record { size = refl; user = refl; kind = refl };
      users = ground (arith, e);
      rows = ground (arith, e);
    }

pub update_folder-IsCharged :
    (user_id id : ℕ) (change : FolderChange) (db db' : Db) (m' : FileRow)
    → IsCharged db
    → update_folder user_id id change db ≡ ok (db', m')
    → IsCharged db'
unfolding update_folder
update_folder-IsCharged user_id id change db db' m' c =
    go _ (check_target user_id id change.parent db) _ (no_cycle_to id change.parent db) refl
  where
    go :
        (x y : Result (Unit {0})) (p : Result (Folder × FileRow)) (z : Result (Unit {0}))
        → folder_and_mirror user_id id db ≡ p
        → (x
            >> (y
                >> (p >>= λ (f, m).
                    z
                    >> place_folder user_id id
                        (requested_name change.name f.name)
                        (target_of change.parent f.parent_id)
                        f
                        m
                        db)))
          ≡ ok (db', m')
        → IsCharged db'
    go (err a) y p z h e = cc
    go (ok a) (err b) p z h e = cc
    go (ok a) (ok b) (err d) z h e = cc
    go (ok a) (ok b) (ok (f, m)) (err d) h e = cc
    go (ok a) (ok b) (ok (f, m)) (ok u) h e =
        Rewrites-IsCharged user_id id db f m db' c (folder_and_mirror-IsPair user_id id db f m h)
          (place_folder-Rewrites user_id id _ _ f m db db' m' e)

pub remove_folder-IsCharged :
    (user_id id : ℕ) (db db' : Db)
    → IsCharged db
    → remove_folder user_id id db ≡ ok db'
    → IsCharged db'
unfolding remove_folder
remove_folder-IsCharged user_id id db db' c = go _ refl
  where
    go :
        (p : Result (Folder × FileRow))
        → folder_and_mirror user_id id db ≡ p
        → ◌>>=◌ {T = Db} p (λ (f, m). ok (
            save_both user_id id
              (record f { is_deleted = true })
              (record m { is_deleted = true })
              db))
          ≡ ok db'
        → IsCharged db'
    go (err d) h e = cc
    go (ok (f, m)) h e =
        Rewrites-IsCharged user_id id db f m db' c (folder_and_mirror-IsPair user_id id db f m h)
          (record {
            written = record m { is_deleted = true };
            same = record { size = refl; user = refl; kind = refl };
            users = ground (arith, e);
            rows = ground (arith, e);
          })

pub restore_folder-IsCharged :
    (user_id id : ℕ) (db db' : Db)
    → IsCharged db
    → restore_folder user_id id db ≡ ok db'
    → IsCharged db'
unfolding restore_folder
restore_folder-IsCharged user_id id db db' c = go _ refl
  where
    go :
        (p : Result (Folder × FileRow))
        → folder_and_mirror user_id id db ≡ p
        → (p >>= λ (f, m).
            if live_parent user_id f.parent_id db
            then restore_in user_id id f m db
            else restore_in user_id id
                (record f { parent_id = none })
                (record m { parent_id = none })
                db)
          ≡ ok db'
        → IsCharged db'
    go (err d) h e = cc
    go (ok (f, m)) h e =
        let pair = folder_and_mirror-IsPair user_id id db f m h in
        elim (Bool-cases (live_parent user_id f.parent_id db)) [
          | inl live ↦
              Rewrites-IsCharged user_id id db f m db' c pair
                (restore_in-Rewrites user_id id f m m.parent_id db db' (rw live at e))
          | inr dead ↦ Rewrites-IsCharged user_id id db f m db' c pair (
              restore_in-Rewrites user_id id (record f { parent_id = none }) m none db db'
                (rw dead at e))
        ]
