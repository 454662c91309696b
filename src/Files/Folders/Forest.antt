-- ===== src/Files/Folders/Forest.antt =====
-- The folders stay a forest: the parents of every folder lead to the top level.
use https_github_com_sv3t0v.Common.{
  ℕ, ◌≡◌, ◌⊎◌, refl, sym, subst, ◌∙◌, inl, inr, Bool, true, false, ◌&&◌, Option, none, some, List,
  [], ◌∷◌, arith, ◌==◌, if◌then◌else◌, find_row, set_row, Bool-cases, Option-cases, find_row-holds,
  find_row-set_row, find_row-set_row_other,
}
use https_github_com_sv3t0v.Http.{Result, ok, err, ◌>>=◌}
use https_github_com_sv3t0v.Text.{Text, text_eq}
use https_github_com_sv3t0v.Uploads.{Folder, FileRow, Db}
use https_github_com_sv3t0v.Namespace.{
  allocate_namespace_name, same_parent, is_live_folder, lock_parent, choose_name, names_in,
}
use https_github_com_sv3t0v.Namespace
use https_github_com_sv3t0v.Files.{has_folder_id}
use https_github_com_sv3t0v.Files.Subtree.{
  has, descendants, IsRow, here, there, Below, Below-descendants, descendants-Below,
}
use https_github_com_sv3t0v.Files.Folders.{
  any_folder, placed_folder, placed_mirror, save_both, place_folder,
}

abbrev pub find_folder : ℕ → List Folder → Option Folder
find_folder id folders = find_row (has_folder_id id) folders

-- The parents of a folder, up to the top level.
pub data Rooted (folders : List Folder) : ℕ → Type 0 where
  root :
      {id : ℕ} (f : Folder)
      → find_folder id folders ≡ some f
      → f.parent_id ≡ none
      → Rooted folders id
  child :
      {id p : ℕ} (f : Folder)
      → find_folder id folders ≡ some f
      → f.parent_id ≡ some p
      → Rooted folders p
      → Rooted folders id

abbrev pub IsForest : List Folder → Type 0
IsForest folders = (id : ℕ) (f : Folder) → find_folder id folders ≡ some f → Rooted folders id

pub find-IsRow : (id : ℕ) (f : Folder) (fs : List Folder) → find_folder id fs ≡ some f → IsRow f fs
unfolding find_row
find-IsRow id f [] e = cc
find-IsRow id f (g ∷ fs) e = elim (Bool-cases (has_folder_id id g)) [
  | inl hit ↦ let same : g ≡ f = ground (arith, hit, e) in subst (λ x. IsRow x (g ∷ fs)) same here
  | inr miss ↦ there (find-IsRow id f fs (rw (find_row, miss) at e))
]

pub find_folder-some :
    (q : Folder → Bool) (id : ℕ) (g : Folder) (fs : List Folder)
    → ((x : Folder) → q x ≡ true → has_folder_id id x ≡ true)
    → find_row q fs ≡ some g
    → (h : Folder) × (find_folder id fs ≡ some h)
unfolding find_row
find_folder-some q id g [] only e = cc
find_folder-some q id g (f ∷ fs) only e = elim (Bool-cases (has_folder_id id f)) [
  | inl hit ↦ (f, rw hit refl)
  | inr miss ↦ elim (Bool-cases (q f)) [
    | inl found ↦ let clash = only f found in cc
    | inr later ↦
        let (h, there_is) = find_folder-some q id g fs only (rw (find_row, later) at e) in
        (h, rw miss there_is)
  ]
]

-- A folder is written anew: `f` becomes `f'`.
module _ (id : ℕ) (f f' : Folder) (fs : List Folder) (found : find_folder id fs ≡ some f)
    (key : f'.id ≡ id) where
  abbrev written : List Folder
  written = set_row (has_folder_id id) f' fs

  pub find-written : find_folder id written ≡ some f'
  find-written = find_row-set_row (has_folder_id id) f f' fs found (ground (arith, key))

  pub find-written_other : (x : ℕ) → (x == id) ≡ false → find_folder x written ≡ find_folder x fs
  find-written_other x apart =
      find_row-set_row_other (has_folder_id id) (has_folder_id x) f' fs
        (λ g h. ground (arith, h, apart)) (ground (arith, key, apart))

  find-written_self :
      (x : ℕ) (g : Folder)
      → (x == id) ≡ true
      → find_folder x fs ≡ some g
      → (find_folder x written ≡ some f') × (f.parent_id ≡ g.parent_id)
  find-written_self x g self e =
      let same : id ≡ x = ground (arith, self) in
      let found_x = subst (λ y. find_folder y fs ≡ some f) same found in
      let one : some f ≡ some g = sym found_x ∙ e in
      (subst (λ y. find_folder y written ≡ some f') same find-written, ground (arith, one))

  -- If the folder itself still leads to the top level, then so does every other.
  pub Rooted-written : (x : ℕ) → Rooted written id → Rooted fs x → Rooted written x
  Rooted-written x self (Rooted.root g e top_level) = elim (Bool-cases (x == id)) [
    | inl same ↦ subst (λ y. Rooted written y) (ground (arith, same)) self
    | inr apart ↦ root g (find-written_other x apart ∙ e) top_level
  ]
  Rooted-written x self (Rooted.child g e parent r) = elim (Bool-cases (x == id)) [
    | inl same ↦ subst (λ y. Rooted written y) (ground (arith, same)) self
    | inr apart ↦ child g (find-written_other x apart ∙ e) parent (Rooted-written _ self r)
  ]

  -- With its parent unchanged it does.
  pub Rooted-same : f'.parent_id ≡ f.parent_id → (x : ℕ) → Rooted fs x → Rooted written x
  Rooted-same same x (Rooted.root g e top_level) = elim (Bool-cases (x == id)) [
    | inl self ↦
        let (found_self, parents) = find-written_self x g self e in
        root f' found_self (same ∙ parents ∙ top_level)
    | inr apart ↦ root g (find-written_other x apart ∙ e) top_level
  ]
  Rooted-same same x (Rooted.child g e parent r) = elim (Bool-cases (x == id)) [
    | inl self ↦
        let (found_self, parents) = find-written_self x g self e in
        child f' found_self (same ∙ parents ∙ parent) (Rooted-same same _ r)
    | inr apart ↦ child g (find-written_other x apart ∙ e) parent (Rooted-same same _ r)
  ]

  not_base : (x : ℕ) → has x (descendants any_folder fs (id ∷ [])) ≡ false → (x == id) ≡ false
  unfolding has
  not_base x out = elim (Bool-cases (x == id)) [
    | inr apart ↦ apart
    | inl same ↦
        let below = Below-descendants any_folder fs (id ∷ []) x (Below.at (ground (arith, same))) in
        cc
  ]

  parent_out :
      (x p : ℕ) (g : Folder)
      → has x (descendants any_folder fs (id ∷ [])) ≡ false
      → find_folder x fs ≡ some g
      → g.parent_id ≡ some p
      → has p (descendants any_folder fs (id ∷ [])) ≡ false
  parent_out x p g out e parent = elim (Bool-cases (has p (descendants any_folder fs (id ∷ [])))) [
    | inr outside ↦ outside
    | inl inside ↦
        let h = find_row-holds (has_folder_id x) g fs e in
        let below_x : Below any_folder fs (id ∷ []) x =
          Below.under g (find-IsRow x g fs e) refl (ground (arith, h)) parent
            ((descendants-Below any_folder fs (id ∷ []) p).0 inside) in
        let clash : has x (descendants any_folder fs (id ∷ [])) ≡ true =
          Below-descendants any_folder fs (id ∷ []) x below_x in
        cc
  ]

  -- A folder that is not below the written one leads to the top level as before.
  Rooted-outside :
      (x : ℕ) → has x (descendants any_folder fs (id ∷ [])) ≡ false → Rooted fs x → Rooted written x
  Rooted-outside x out (Rooted.root g e top_level) =
      root g (find-written_other x (not_base x out) ∙ e) top_level
  Rooted-outside x out (Rooted.child {p = p} g e parent r) =
      child g (find-written_other x (not_base x out) ∙ e) parent
        (Rooted-outside p (parent_out x p g out e parent) r)

  pub IsForest-written : Rooted written id → IsForest fs → IsForest written
  IsForest-written self forest x g e = elim (Bool-cases (x == id)) [
    | inl same ↦ subst (λ y. Rooted written y) (ground (arith, same)) self
    | inr apart ↦ Rooted-written x self (forest x g (sym (find-written_other x apart) ∙ e))
  ]

pub destination_there :
    (db : Db) (user_id t : ℕ) (requested : Text) (k : Namespace.Kind) (x y : Option ℕ) (name : Text)
    → allocate_namespace_name db user_id (some t) requested k x y ≡ ok name
    → (h : Folder) × (find_folder t db.folders ≡ some h)
unfolding allocate_namespace_name lock_parent
destination_there db user_id t requested k x y name e =
    elim (Option-cases (find_row (is_live_folder t user_id) db.folders)) [
      | inl missing ↦ ground (arith, missing, e)
      | inr (g, found) ↦
          find_folder-some (is_live_folder t user_id) t g db.folders (λ z h. ground (arith, h))
            found
    ]

-- Where a folder may go: where it is, to the top level, or into a folder that is not below it.
abbrev pub MayGo : Option ℕ → Folder → Db → Type 0
MayGo destination f db =
    (destination ≡ f.parent_id)
    ⊎ (destination ≡ none)
    ⊎ ((t : ℕ) × (destination ≡ some t)
        × (has t (descendants any_folder db.folders (f.id ∷ [])) ≡ false))

pub place_folder-IsForest :
    (user_id id : ℕ) (requested : Text) (destination : Option ℕ) (f : Folder) (m : FileRow)
    (db db' : Db) (m' : FileRow)
    → find_folder f.id db.folders ≡ some f
    → IsForest db.folders
    → MayGo destination f db
    → place_folder user_id id requested destination f m db ≡ ok (db', m')
    → IsForest db'.folders
unfolding place_folder
place_folder-IsForest user_id id requested destination f m db db' m' found forest cause =
    placed (text_eq requested f.name && same_parent destination f.parent_id)
  where
    at_goal :
        (name : Text)
        → ((t : ℕ) → destination ≡ some t → (h : Folder) × (find_folder t db.folders ≡ some h))
        → Rooted (set_row (has_folder_id f.id) (placed_folder name destination f) db.folders) f.id
    at_goal name there_is = elim cause [
      | inl same ↦
          Rooted-same f.id f (placed_folder name destination f) db.folders found refl same f.id
            (forest f.id f found)
      | inr (inl top_level) ↦
          root (placed_folder name destination f)
            (find-written f.id f (placed_folder name destination f) db.folders found refl) top_level
      | inr (inr (t, goes, outside)) ↦
          let (h, target) = there_is t goes in
          child (placed_folder name destination f)
            (find-written f.id f (placed_folder name destination f) db.folders found refl) goes
            (Rooted-outside f.id f (placed_folder name destination f) db.folders found refl t
              outside (forest t h target))
    ]

    named :
        (n : Result Text)
        → allocate_namespace_name db user_id destination requested Namespace.folder
            (some m.id)
            (some id)
          ≡ n
        → ◌>>=◌ {T = Db × FileRow} n (λ name. ok (
          save_both user_id id
              (placed_folder name destination f)
              (placed_mirror name destination m)
              db,
          placed_mirror name destination m,
        ))
          ≡ ok (db', m')
        → IsForest db'.folders
    named (err x) h e = cc
    named (ok name) h e =
        let same : db'.folders
            ≡ set_row (has_folder_id f.id) (placed_folder name destination f) db.folders =
          ground (arith, e) in
        subst IsForest (sym same) (
          IsForest-written f.id f (placed_folder name destination f) db.folders found refl
            (at_goal name (λ t goes.
              destination_there db user_id t requested Namespace.folder (some m.id) (some id) name (
                subst
                  (λ d.
                    allocate_namespace_name db user_id d requested Namespace.folder (some m.id)
                      (some id)
                    ≡ ok name)
                  goes h)))
            forest)

    placed :
        (b : Bool)
        → (if b
            then ok (save_both user_id id f m db, m)
            else ◌>>=◌ {T = Db × FileRow}
                (allocate_namespace_name db user_id destination requested Namespace.folder
                  (some m.id)
                  (some id))
                (λ name. ok (
                  save_both user_id id
                      (placed_folder name destination f)
                      (placed_mirror name destination m)
                      db,
                  placed_mirror name destination m,
                )))
          ≡ ok (db', m')
        → IsForest db'.folders
    placed true e =
        let same : db'.folders ≡ set_row (has_folder_id f.id) f db.folders = ground (arith, e) in
        subst IsForest (sym same) (
          IsForest-written f.id f f db.folders found refl
            (Rooted-same f.id f f db.folders found refl refl f.id (forest f.id f found)) forest)
    placed false e = named _ refl e
