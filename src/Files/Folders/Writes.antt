-- ===== src/Files/Folders/Writes.antt =====
-- Operations that write one folder anew keep the forest.
use https_github_com_sv3t0v.Common.{
  ℕ, ◌≤◌, ◌≡◌, ◌⊎◌, refl, sym, subst, ◌∙◌, inl, inr, Bool, true, false, ◌&&◌, Option, none, some,
  arith, ◌==◌, if◌then◌else◌, set_row, Bool-cases,
}
use https_github_com_sv3t0v.Http.{Result, ok, err, ◌>>=◌, ◌>>◌, throw_if, bad_request}
use https_github_com_sv3t0v.Text.{Text, text_eq}
use https_github_com_sv3t0v.Uploads.{Folder, FileRow, Db}
use https_github_com_sv3t0v.Namespace.{allocate_namespace_name, same_parent}
use https_github_com_sv3t0v.Namespace
use https_github_com_sv3t0v.Files.{has_folder_id}
use https_github_com_sv3t0v.Files.Folders.{
  FolderChange, target_of, check_target, no_cycle_to, is_blank_name, requested_name, placed_folder,
  placed_mirror, save_both, folder_and_mirror, place_folder, update_folder, remove_folder,
  live_parent, revived, restore_in, restore_folder,
}
use https_github_com_sv3t0v.Files.Folders.Forest.{
  find_folder, root, IsForest, find-written, find-written_other, Rooted-same, IsForest-written,
}
use https_github_com_sv3t0v.Files.Folders.Steps.{folder_and_mirror-IsPair, update_folder-IsForest}

-- The parents of every folder lead to the top level, and ids that are still to be given are free.
pub record IsSound (db : Db) : Type 0 where
  pub forest : IsForest db.folders
  pub fresh : (n : ℕ) → db.next_id ≤ n → find_folder n db.folders ≡ none

-- An operation writes one folder anew.
record Writes (f : Folder) (db db' : Db) : Type 0 where
  new : Folder
  key : new.id ≡ f.id
  folders : db'.folders ≡ set_row (has_folder_id f.id) new db.folders
  next : db'.next_id ≡ db.next_id

Writes-fresh :
    (f : Folder) (db db' : Db)
    → find_folder f.id db.folders ≡ some f
    → Writes f db db'
    → ((n : ℕ) → db.next_id ≤ n → find_folder n db.folders ≡ none)
    → (n : ℕ) → db'.next_id ≤ n
    → find_folder n db'.folders ≡ none
Writes-fresh f db db' found w fresh n le =
    let free = fresh n (omega (arith, le, w.next)) in
    rw (w.folders) (elim (Bool-cases (n == f.id)) [
      | inl same ↦
          let id : f.id ≡ n = ground (arith, same) in
          let there = subst (λ k. find_folder k db.folders ≡ some f) id found in cc
      | inr apart ↦ find-written_other f.id f w.new db.folders found w.key n apart ∙ free
    ])

-- The folder keeps its parent or goes to the top level.
Writes-IsForest :
    (f : Folder) (db db' : Db)
    → find_folder f.id db.folders ≡ some f
    → (w : Writes f db db') → (w.new.parent_id ≡ f.parent_id) ⊎ (w.new.parent_id ≡ none)
    → IsForest db.folders
    → IsForest db'.folders
Writes-IsForest f db db' found w stays forest = subst IsForest (sym w.folders) (
    IsForest-written f.id f w.new db.folders found w.key
      (elim stays [
        | inl same ↦ Rooted-same f.id f w.new db.folders found w.key same f.id (forest f.id f found)
        | inr top ↦ root w.new (find-written f.id f w.new db.folders found w.key) top
      ])
      forest)

place_folder-Writes :
    (user_id id : ℕ) (requested : Text) (destination : Option ℕ) (f : Folder) (m : FileRow)
    (db db' : Db) (m' : FileRow)
    → place_folder user_id id requested destination f m db ≡ ok (db', m')
    → Writes f db db'
unfolding place_folder
place_folder-Writes user_id id requested destination f m db db' m' =
    go (text_eq requested f.name && same_parent destination f.parent_id) (
      allocate_namespace_name db user_id destination requested Namespace.folder (some m.id)
        (some id))
  where
    go :
        (b : Bool) (x : Result Text)
        → (if b
            then ok (save_both user_id id f m db, m)
            else ◌>>=◌ {T = Db × FileRow} x (λ name. ok (
              save_both user_id id
                  (placed_folder name destination f)
                  (placed_mirror name destination m)
                  db,
              placed_mirror name destination m,
            )))
          ≡ ok (db', m')
        → Writes f db db'
    go true x e = record {
      new = f;
      key = refl;
      folders = ground (arith, e);
      next = ground (arith, e);
    }
    go false (err a) e = cc
    go false (ok name) e = record {
      new = placed_folder name destination f;
      key = refl;
      folders = ground (arith, e);
      next = ground (arith, e);
    }

pub update_folder-IsSound :
    (user_id id : ℕ) (change : FolderChange) (db db' : Db) (m' : FileRow)
    → IsSound db
    → update_folder user_id id change db ≡ ok (db', m')
    → IsSound db'
unfolding update_folder
update_folder-IsSound user_id id change db db' m' s e = record {
  forest = update_folder-IsForest user_id id change db db' m' s.forest e;
  fresh =
      go (throw_if (is_blank_name change.name) (bad_request "Folder name must not be empty"))
        (check_target user_id id change.parent db) _ (no_cycle_to id change.parent db) refl e;
}
  where
    go :
        (x y : Result (Unit {0})) (p : Result (Folder × FileRow)) (z : Result (Unit {0}))
        → folder_and_mirror user_id id db ≡ p
        → (x
            >> (y
                >> (p >>= λ (f, m).
                    z
                    >> place_folder user_id id
                        (requested_name change.name f.name)
                        (target_of change.parent f.parent_id)
                        f
                        m
                        db)))
          ≡ ok (db', m')
        → (n : ℕ) → db'.next_id ≤ n
        → find_folder n db'.folders ≡ none
    go (err a) y p z h e = cc
    go (ok a) (err b) p z h e = cc
    go (ok a) (ok b) (err d) z h e = cc
    go (ok a) (ok b) (ok (f, m)) (err d) h e = cc
    go (ok a) (ok b) (ok (f, m)) (ok u) h e =
        Writes-fresh f db db' (folder_and_mirror-IsPair user_id id db f m h).found
          (place_folder-Writes user_id id _ _ f m db db' m' e) s.fresh

Writes-IsSound :
    (f : Folder) (db db' : Db)
    → find_folder f.id db.folders ≡ some f
    → (w : Writes f db db') → (w.new.parent_id ≡ f.parent_id) ⊎ (w.new.parent_id ≡ none)
    → IsSound db
    → IsSound db'
Writes-IsSound f db db' found w stays s = record {
  forest = Writes-IsForest f db db' found w stays s.forest;
  fresh = Writes-fresh f db db' found w s.fresh;
}

pub remove_folder-IsSound :
    (user_id id : ℕ) (db db' : Db) → IsSound db → remove_folder user_id id db ≡ ok db' → IsSound db'
unfolding remove_folder
remove_folder-IsSound user_id id db db' s = go _ refl
  where
    go :
        (p : Result (Folder × FileRow))
        → folder_and_mirror user_id id db ≡ p
        → ◌>>=◌ {T = Db} p (λ (f, m). ok (
            save_both user_id id
              (record f { is_deleted = true })
              (record m { is_deleted = true })
              db))
          ≡ ok db'
        → IsSound db'
    go (err d) h e = cc
    go (ok (f, m)) h e =
        Writes-IsSound f db db' (folder_and_mirror-IsPair user_id id db f m h).found
          (record {
            new = record f { is_deleted = true };
            key = refl;
            folders = ground (arith, e);
            next = ground (arith, e);
          })
          (inl refl) s

restore_in-Writes :
    (user_id id : ℕ) (f : Folder) (p : Option ℕ) (m : FileRow) (db db' : Db)
    → restore_in user_id id (record f { parent_id = p }) m db ≡ ok db'
    → (w : Writes f db db') × (w.new.parent_id ≡ p)
unfolding restore_in
restore_in-Writes user_id id f p m db db' =
    go f.is_deleted
      (allocate_namespace_name db user_id p f.name Namespace.folder (some m.id) (some id))
  where
    go :
        (b : Bool) (x : Result Text)
        → (if b
            then ◌>>=◌ {T = Db} x (λ name. ok (
                revived user_id id
                  (record f { parent_id = p; name = name })
                  (record m { name = name })
                  db))
            else ok (revived user_id id (record f { parent_id = p }) m db))
          ≡ ok db'
        → (w : Writes f db db') × (w.new.parent_id ≡ p)
    go true (err a) e = cc
    go true (ok name) e = (
      record {
        new = record f { parent_id = p; name = name; is_deleted = false };
        key = refl;
        folders = ground (arith, e);
        next = ground (arith, e);
      },
      refl,
    )
    go false x e = (
      record {
        new = record f { parent_id = p; is_deleted = false };
        key = refl;
        folders = ground (arith, e);
        next = ground (arith, e);
      },
      refl,
    )

pub restore_folder-IsSound :
    (user_id id : ℕ) (db db' : Db)
    → IsSound db
    → restore_folder user_id id db ≡ ok db'
    → IsSound db'
unfolding restore_folder
restore_folder-IsSound user_id id db db' s = go _ refl
  where
    go :
        (p : Result (Folder × FileRow))
        → folder_and_mirror user_id id db ≡ p
        → (p >>= λ (f, m).
            if live_parent user_id f.parent_id db
            then restore_in user_id id f m db
            else restore_in user_id id
                (record f { parent_id = none })
                (record m { parent_id = none })
                db)
          ≡ ok db'
        → IsSound db'
    go (err d) h e = cc
    go (ok (f, m)) h e =
        let found = (folder_and_mirror-IsPair user_id id db f m h).found in
        elim (Bool-cases (live_parent user_id f.parent_id db)) [
          | inl live ↦
              let (w, stays) = restore_in-Writes user_id id f f.parent_id m db db' (rw live at e) in
              Writes-IsSound f db db' found w (inl stays) s
          | inr dead ↦
              let (w, stays) =
                restore_in-Writes user_id id f none (record m { parent_id = none }) db db'
                  (rw dead at e) in
              Writes-IsSound f db db' found w (inr stays) s
        ]
