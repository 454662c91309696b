-- ===== src/Files/Folders/Creation.antt =====
-- A folder that is made keeps the forest.
use https_github_com_sv3t0v.Common.{
  ℕ, suc, ◌≡◌, refl, sym, subst, inl, inr, Option, none, some, List, ◌∷◌, arith, ◌==◌, find_row,
  Bool-cases,
}
use https_github_com_sv3t0v.Http.{Result, ok, err, ◌>>=◌, ◌>>◌, throw_if, bad_request}
use https_github_com_sv3t0v.Text.{Text, is_blank}
use https_github_com_sv3t0v.Uploads.{Folder, FileRow, Db}
use https_github_com_sv3t0v.Namespace.{allocate_namespace_name, same_parent}
use https_github_com_sv3t0v.Namespace
use https_github_com_sv3t0v.Files.{assert_folder_ownership, new_folder, new_mirror, create_folder}
use https_github_com_sv3t0v.Files.Folders.Forest.{
  find_folder, Rooted, root, child, IsForest, destination_there,
}
use https_github_com_sv3t0v.Files.Folders.Writes.{IsSound}

-- A folder with a free id in front of the others.
module _ (f : Folder) (fs : List Folder) (free : find_folder f.id fs ≡ none) where
  find-behind : (x : ℕ) (g : Folder) → find_folder x fs ≡ some g → find_folder x (f ∷ fs) ≡ some g
  unfolding find_row
  find-behind x g e = elim (Bool-cases (f.id == x)) [
    | inl same ↦
        let id : f.id ≡ x = ground (arith, same) in
        let gone = subst (λ k. find_folder k fs ≡ none) id free in cc
    | inr apart ↦ rw apart e
  ]

  Rooted-behind : (x : ℕ) → Rooted fs x → Rooted (f ∷ fs) x
  Rooted-behind x (Rooted.root g e top) = root g (find-behind x g e) top
  Rooted-behind x (Rooted.child g e parent r) =
      child g (find-behind x g e) parent (Rooted-behind _ r)

  IsForest-behind : Rooted (f ∷ fs) f.id → IsForest fs → IsForest (f ∷ fs)
  unfolding find_row
  IsForest-behind self forest x g e = elim (Bool-cases (f.id == x)) [
    | inl same ↦ subst (λ k. Rooted (f ∷ fs) k) (ground (arith, same)) self
    | inr apart ↦ Rooted-behind x (forest x g (rw apart at e))
  ]

new_folder-IsForest :
    (user_id : ℕ) (name chosen : Text) (parent_id : Option ℕ) (db : Db)
    → IsSound db
    → allocate_namespace_name db user_id parent_id name Namespace.folder none none ≡ ok chosen
    → IsForest (new_folder db.next_id chosen parent_id user_id ∷ db.folders)
unfolding find_row
new_folder-IsForest user_id name chosen none db s e =
    let f = new_folder db.next_id chosen none user_id in
    IsForest-behind f db.folders (s.fresh db.next_id (omega arith)) (root f (ground arith) refl)
      s.forest
new_folder-IsForest user_id name chosen (some p) db s e =
    let f = new_folder db.next_id chosen (some p) user_id in
    let free = s.fresh db.next_id (omega arith) in
    let (h, there_is) = destination_there db user_id p name Namespace.folder none none chosen e in
    IsForest-behind f db.folders free
      (child f (ground arith) refl (Rooted-behind f db.folders free p (s.forest p h there_is)))
      s.forest

pub create_folder-IsSound :
    (user_id : ℕ) (name : Text) (parent_id : Option ℕ) (db db' : Db) (m : FileRow)
    → IsSound db
    → create_folder user_id name parent_id db ≡ ok (db', m)
    → IsSound db'
unfolding create_folder find_row
create_folder-IsSound user_id name parent_id db db' m s =
    go (throw_if (is_blank name) (bad_request "Folder name must not be empty"))
      (assert_folder_ownership user_id parent_id db) _ refl
  where
    go :
        (x y : Result (Unit {0})) (z : Result Text)
        → allocate_namespace_name db user_id parent_id name Namespace.folder none none ≡ z
        → ◌>>◌ {T = Db × FileRow} x (
            y
            >> (z >>= λ chosen.
                let f = new_folder db.next_id chosen parent_id user_id in
                let n = new_mirror (suc db.next_id) f.id chosen parent_id user_id in
                ok (
                  record db {
                    folders = f ∷ db.folders;
                    files = n ∷ db.files;
                    next_id = suc (suc db.next_id);
                  },
                  n,
                )))
          ≡ ok (db', m)
        → IsSound db'
    go (err a) y z h e = cc
    go (ok a) (err b) z h e = cc
    go (ok a) (ok b) (err d) h e = cc
    go (ok a) (ok b) (ok chosen) h e =
        let rows : db'.folders ≡ new_folder db.next_id chosen parent_id user_id ∷ db.folders =
          ground (arith, e) in
        let next : db'.next_id ≡ suc (suc db.next_id) = ground (arith, e) in
        record {
          forest =
              subst IsForest (sym rows) (new_folder-IsForest user_id name chosen parent_id db s h);
          fresh = λ n le. rw rows (ground (arith, le, next, s.fresh n (omega (arith, le, next))));
        }
