-- ===== src/Files/Folders/Steps.antt =====
-- What the folder operations keep of the forest.
use https_github_com_sv3t0v.Common.{
  ℕ, ◌≡◌, refl, sym, ap, subst, inl, inr, false, Option, none, some, [], ◌∷◌, arith, find_row,
  find_row-holds,
}
use https_github_com_sv3t0v.Http.{
  Result, ok, err, ◌>>=◌, ◌>>◌, throw_if, throw_if-eq-ok, bad_request,
}
use https_github_com_sv3t0v.Uploads.{Folder, FileRow, Db}
use https_github_com_sv3t0v.Uploads.Create.{or_throw}
use https_github_com_sv3t0v.Files.{
  has_folder_id, folder_if_owned, owned_folder, is_mirror_of, folder_not_found, mirror_not_found,
}
use https_github_com_sv3t0v.Files.Subtree.{has, descendants}
use https_github_com_sv3t0v.Files.Folders.{
  any_folder, base_of, assert_no_cycle, Target, keep, top, into, FolderChange, target_of,
  check_target, no_cycle_to, is_blank_name, requested_name, folder_and_mirror, place_folder,
  update_folder,
}
use https_github_com_sv3t0v.Files.Folders.Forest.{
  find_folder, IsForest, MayGo, place_folder-IsForest,
}

-- A folder and its mirror, as they were found.
pub record IsPair (user_id id : ℕ) (db : Db) (f : Folder) (m : FileRow) : Type 0 where
  pub found : find_folder f.id db.folders ≡ some f
  pub key : f.id ≡ id
  pub owner : f.user_id ≡ user_id
  pub mirror : find_row (is_mirror_of id user_id) db.files ≡ some m

pub owned-found :
    (user_id id : ℕ) (db : Db) (f : Folder)
    → owned_folder user_id id db ≡ some f
    → (find_folder id db.folders ≡ some f) × (f.id ≡ id) × (f.user_id ≡ user_id)
unfolding owned_folder
owned-found user_id id db f = go _ refl
  where
    go :
        (o : Option Folder)
        → find_folder id db.folders ≡ o
        → folder_if_owned user_id o ≡ some f
        → (find_folder id db.folders ≡ some f) × (f.id ≡ id) × (f.user_id ≡ user_id)
    go none h e = cc
    go (some g) h e =
        let key = find_row-holds (has_folder_id id) g db.folders h in
        (ground (arith, h, e), ground (arith, key, e), ground (arith, e))

pub folder_and_mirror-IsPair :
    (user_id id : ℕ) (db : Db) (f : Folder) (m : FileRow)
    → folder_and_mirror user_id id db ≡ ok (f, m)
    → IsPair user_id id db f m
unfolding folder_and_mirror
folder_and_mirror-IsPair user_id id db f m = go _ _ refl refl
  where
    go :
        (x : Option Folder) (y : Option FileRow)
        → owned_folder user_id id db ≡ x
        → find_row (is_mirror_of id user_id) db.files ≡ y
        → ◌>>=◌ {T = Folder × FileRow}
            (or_throw x folder_not_found)
            (λ f. or_throw y mirror_not_found >>= λ m. ok (f, m))
          ≡ ok (f, m)
        → IsPair user_id id db f m
    go none y p q e = cc
    go (some g) none p q e = cc
    go (some g) (some n) p q e =
        let (found, key, owner) = owned-found user_id id db g p in
        let found' = subst (λ i. find_folder i db.folders ≡ some g) (sym key) found in
        record {
          found = ground (arith, found', e);
          key = ground (arith, key, e);
          owner = ground (arith, owner, e);
          mirror = ground (arith, q, e);
        }

no_cycle-MayGo :
    (id : ℕ) (target : Target) (f : Folder) (db : Db) (u : Unit {0})
    → find_folder id db.folders ≡ some f
    → no_cycle_to id target db ≡ ok u
    → MayGo (target_of target f.parent_id) f db
unfolding assert_no_cycle
no_cycle-MayGo id keep f db u found e = inl refl
no_cycle-MayGo id top f db u found e = inr (inl refl)
no_cycle-MayGo id (into t) f db u found e = inr (inr (t, refl, out))
  where
    out : has t (descendants any_folder db.folders (f.id ∷ [])) ≡ false
    out =
        throw_if-eq-ok (has t (descendants any_folder db.folders (f.id ∷ [])))
          (bad_request "Cannot move folder into its own subtree") u
          (subst
            (λ ids.
              throw_if (has t (descendants any_folder db.folders ids))
                (bad_request "Cannot move folder into its own subtree")
              ≡ ok u)
            (ap base_of found) e)

-- The parents of every folder lead to the top level again after a folder is renamed or moved.
pub update_folder-IsForest :
    (user_id id : ℕ) (c : FolderChange) (db db' : Db) (m' : FileRow)
    → IsForest db.folders
    → update_folder user_id id c db ≡ ok (db', m')
    → IsForest db'.folders
unfolding update_folder
update_folder-IsForest user_id id c db db' m' forest =
    go (throw_if (is_blank_name c.name) (bad_request "Folder name must not be empty"))
      (check_target user_id id c.parent db) _ _ refl refl
  where
    go :
        (x y : Result (Unit {0})) (p : Result (Folder × FileRow)) (z : Result (Unit {0}))
        → folder_and_mirror user_id id db ≡ p
        → no_cycle_to id c.parent db ≡ z
        → (x
            >> (y
                >> (p >>= λ (f, m).
                    z
                    >> place_folder user_id id
                        (requested_name c.name f.name)
                        (target_of c.parent f.parent_id)
                        f
                        m
                        db)))
          ≡ ok (db', m')
        → IsForest db'.folders
    go (err a) y p z h k e = cc
    go (ok a) (err b) p z h k e = cc
    go (ok a) (ok b) (err d) z h k e = cc
    go (ok a) (ok b) (ok (f, m)) (err d) h k e = cc
    go (ok a) (ok b) (ok (f, m)) (ok u) h k e =
        let pair = folder_and_mirror-IsPair user_id id db f m h in
        let at_id = subst (λ i. find_folder i db.folders ≡ some f) pair.key pair.found in
        place_folder-IsForest user_id id _ _ f m db db' m' pair.found forest
          (no_cycle-MayGo id c.parent f db u at_id k) e
