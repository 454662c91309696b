-- ===== src/Files/Subtree.antt =====
-- The recursive queries of backend/src/files/files.service.ts: the folders below given folders.
-- A row is taken once, as `UNION` does and as `UNION ALL` does where folders form a tree.
use https_github_com_sv3t0v.Common.{
  ℕ, zero, suc, ◌≤◌, ◌<◌, ◌≡◌, ◌↔◌, ◌⊎◌, refl, subst, Option-cases, inl, inr, Bool, true, false,
  not, ◌&&◌, ◌||◌, none, some, List, [], ◌∷◌, ◌++◌, map, arith, ◌==◌, keep_rows, length, Bool-cases,
}
use https_github_com_sv3t0v.Uploads.{Folder}

unfoldable pub has : ℕ → List ℕ → Bool
has id [] = false
has id (x ∷ xs) = x == id || has id xs

abbrev pub folder_id : Folder → ℕ
folder_id f = f.id

-- `f."parentId" = d.id`
abbrev pub is_child : List ℕ → Folder → Bool
is_child found f = elim f.parent_id [ none ↦ false | some p ↦ has p found ]

-- The rounds of the recursion: `rest` are the rows that are not found yet.
unfoldable pub grow : ℕ → List Folder → List ℕ → List ℕ
unfolding has
grow zero rest found = found
grow (suc rounds) rest found =
    grow rounds (keep_rows (λ f. not (is_child found f)) rest)
      (map folder_id (keep_rows (is_child found) rest) ++ found)

-- A row that the query ranges over and has not yet.
abbrev pub is_new : (Folder → Bool) → List ℕ → Folder → Bool
is_new among base f = among f && not (has f.id base)

-- As many rounds as there are rows.
unfoldable pub descendants : (Folder → Bool) → List Folder → List ℕ → List ℕ
unfolding grow has
descendants among folders base = grow (length folders) (keep_rows (is_new among base) folders) base

pub data IsRow {ℓ} {A : Type ℓ} (f : A) : List A → Type ℓ where
  here : {rest : List A} → IsRow f (f ∷ rest)
  there : {g : A} {rest : List A} → IsRow f rest → IsRow f (g ∷ rest)

-- What the recursive query stands for: the folders whose parents lead to the base.
pub data Below (among : Folder → Bool) (folders : List Folder) (base : List ℕ) : ℕ → Type 0 where
  at : {id : ℕ} → has id base ≡ true → Below among folders base id
  under :
      {id p : ℕ} (f : Folder)
      → IsRow f folders
      → among f ≡ true
      → f.id ≡ id
      → f.parent_id ≡ some p
      → Below among folders base p
      → Below among folders base id

has-append : (id : ℕ) (xs ys : List ℕ) → has id (xs ++ ys) ≡ (has id xs || has id ys)
unfolding has
has-append id [] ys = refl
has-append id (x ∷ xs) ys = ground (arith, has-append id xs ys)

-- A row that is kept, or not, among those that a test splits.
kept_or_not :
    (p : Folder → Bool) (f : Folder) (fs : List Folder)
    → IsRow f fs
    → IsRow f (keep_rows (λ g. not (p g)) fs) ⊎ ((p f ≡ true) × IsRow f (keep_rows p fs))
unfolding keep_rows
kept_or_not p f [] r = elim r [ ]
kept_or_not p f (g ∷ fs) IsRow.here = elim (Bool-cases (p f)) [
  | inl hit ↦ inr (hit, rw hit here)
  | inr miss ↦ inl (rw miss here)
]
kept_or_not p f (g ∷ fs) (IsRow.there r) = elim (kept_or_not p f fs r) [
  | inl left ↦ elim (Bool-cases (p g)) [
    | inl hit ↦ inl (rw hit left)
    | inr miss ↦ inl (rw miss (there left))
  ]
  | inr (yes_p, right) ↦ elim (Bool-cases (p g)) [
    | inl hit ↦ inr (yes_p, rw hit (there right))
    | inr miss ↦ inr (yes_p, rw miss right)
  ]
]

has-map : (f : Folder) (fs : List Folder) → IsRow f fs → has f.id (map folder_id fs) ≡ true
unfolding has
has-map f [] r = elim r [ ]
has-map f (g ∷ fs) IsRow.here = ground arith
has-map f (g ∷ fs) (IsRow.there r) = ground (arith, has-map f fs r)

IsRow-keep_rows :
    (p : Folder → Bool) (f : Folder) (fs : List Folder)
    → IsRow f fs
    → p f ≡ true
    → IsRow f (keep_rows p fs)
unfolding keep_rows
IsRow-keep_rows p f [] r h = elim r [ ]
IsRow-keep_rows p f (g ∷ fs) IsRow.here h = rw h here
IsRow-keep_rows p f (g ∷ fs) (IsRow.there r) h = elim (Bool-cases (p g)) [
  | inl hit ↦ rw hit (there (IsRow-keep_rows p f fs r h))
  | inr miss ↦ rw miss (IsRow-keep_rows p f fs r h)
]

keep_rows-le : (p : Folder → Bool) (fs : List Folder) → length (keep_rows p fs) ≤ length fs
unfolding keep_rows
keep_rows-le p [] = omega arith
keep_rows-le p (f ∷ fs) = ground (arith, keep_rows-le p fs)

-- Rows that a test turns down make the list shorter.
length-keep_rows :
    (p : Folder → Bool) (fs : List Folder)
    → (length (keep_rows (λ g. not (p g)) fs) < length fs) ⊎ (keep_rows p fs ≡ [])
unfolding keep_rows
length-keep_rows p [] = inr refl
length-keep_rows p (f ∷ fs) = elim (Bool-cases (p f)) [
  | inl hit ↦ inl (rw hit (let e = keep_rows-le (λ g. not (p g)) fs in omega arith))
  | inr miss ↦ rw miss (elim (length-keep_rows p fs) [
    | inl less ↦ inl (omega arith)
    | inr none_left ↦ inr none_left
  ])
]

keep_rows-twice :
    (p : Folder → Bool) (fs : List Folder) → keep_rows p (keep_rows (λ g. not (p g)) fs) ≡ []
unfolding keep_rows
keep_rows-twice p [] = refl
keep_rows-twice p (f ∷ fs) = elim (Bool-cases (p f)) [
  | inl hit ↦ rw hit (keep_rows-twice p fs)
  | inr miss ↦ rw miss (rw miss (keep_rows-twice p fs))
]

IsRow-cons : (f g : Folder) (fs : List Folder) → IsRow f (g ∷ fs) → (g ≡ f) ⊎ IsRow f fs
IsRow-cons f g fs IsRow.here = inl refl
IsRow-cons f g fs (IsRow.there r) = inr r

IsRow-kept :
    (p : Folder → Bool) (f : Folder) (fs : List Folder)
    → IsRow f (keep_rows p fs)
    → IsRow f fs × (p f ≡ true)
unfolding keep_rows
IsRow-kept p f [] r = elim r [ ]
IsRow-kept p f (g ∷ fs) r = elim (Bool-cases (p g)) [
  | inr miss ↦ let (q, h) = IsRow-kept p f fs (rw (keep_rows, miss) at r) in (there q, h)
  | inl hit ↦ elim (IsRow-cons f g (keep_rows p fs) (rw (keep_rows, hit) at r)) [
    | inl same ↦ subst (λ x. IsRow x (g ∷ fs) × (p x ≡ true)) same (here, hit)
    | inr later ↦ let (q, h) = IsRow-kept p f fs later in (there q, h)
  ]
]

has-map_inv :
    (id : ℕ) (fs : List Folder)
    → has id (map folder_id fs) ≡ true
    → (f : Folder) × IsRow f fs × (f.id ≡ id)
unfolding has
has-map_inv id [] h = cc
has-map_inv id (f ∷ fs) h = elim (Bool-cases (f.id == id)) [
  | inl hit ↦ (f, here, ground (arith, hit))
  | inr miss ↦ let (g, r, e) = has-map_inv id fs (ground (arith, miss, h)) in (g, there r, e)
]

is_child-parent :
    (found : List ℕ) (f : Folder)
    → is_child found f ≡ true
    → (p : ℕ) × (f.parent_id ≡ some p) × (has p found ≡ true)
is_child-parent found f h = elim (Option-cases f.parent_id) [
  | inl root ↦ ground (arith, root, h)
  | inr (p, e) ↦ (p, e, ground (arith, e, h))
]

grow-keeps :
    (k : ℕ) (rest : List Folder) (found : List ℕ) (id : ℕ)
    → has id found ≡ true
    → has id (grow k rest found) ≡ true
unfolding grow
grow-keeps zero rest found id h = h
grow-keeps (suc k) rest found id h =
    grow-keeps k _ _ id
      (ground (arith, h, has-append id (map folder_id (keep_rows (is_child found) rest)) found))

grow-done :
    (k : ℕ) (rest : List Folder) (found : List ℕ)
    → keep_rows (is_child found) rest ≡ []
    → grow k rest found ≡ found
unfolding grow
grow-done zero rest found h = refl
grow-done (suc k) rest found h = rw h (
    grow-done k (keep_rows (λ f. not (is_child found f)) rest) found
      (keep_rows-twice (is_child found) rest))

-- With enough rounds nothing is missed: a row whose parent is found is found.
grow-closed :
    (k : ℕ) (rest : List Folder) (found : List ℕ) (f : Folder)
    → length rest ≤ k
    → IsRow f rest
    → is_child (grow k rest found) f ≡ true
    → has f.id (grow k rest found) ≡ true
unfolding grow
grow-closed zero [] found f le r h = elim r [ ]
grow-closed zero (g ∷ rest) found f le r h = absurd (omega arith)
grow-closed (suc k) rest found f le r h = elim (length-keep_rows (is_child found) rest) [
  | inl less ↦ elim (kept_or_not (is_child found) f rest r) [
    | inl later ↦ grow-closed k _ _ f (omega arith) later h
    | inr (now, kept) ↦ grow-keeps k _ _ f.id (
        ground (
          arith,
          has-map f (keep_rows (is_child found) rest) kept,
          has-append f.id (map folder_id (keep_rows (is_child found) rest)) found,
        ))
  ]
  | inr none_left ↦
      let stop = grow-done (suc k) rest found none_left in
      let child : is_child found f ≡ true = subst (λ ids. is_child ids f ≡ true) stop h in
      elim (subst (λ fs. IsRow f fs) none_left
        (IsRow-keep_rows (is_child found) f rest r child)) [ ]
]

module _ (among : Folder → Bool) (folders : List Folder) (base : List ℕ) where
  grow-Below :
      (k : ℕ) (rest : List Folder) (found : List ℕ)
      → ((f : Folder) → IsRow f rest → IsRow f folders × (among f ≡ true))
      → ((id : ℕ) → has id found ≡ true → Below among folders base id)
      → (id : ℕ) → has id (grow k rest found) ≡ true
      → Below among folders base id
  unfolding grow
  grow-Below zero rest found rows below = below
  grow-Below (suc k) rest found rows below =
      grow-Below k (keep_rows (λ f. not (is_child found f)) rest)
        (map folder_id (keep_rows (is_child found) rest) ++ found)
        (λ f r. rows f (IsRow-kept (λ f. not (is_child found f)) f rest r).0)
        (λ id h. elim (Bool-cases (has id found)) [
          | inl old ↦ below id old
          | inr new ↦ taken id (
              ground (
                arith,
                h,
                new,
                has-append id (map folder_id (keep_rows (is_child found) rest)) found,
              ))
        ])
    where
      taken :
          (id : ℕ)
          → has id (map folder_id (keep_rows (is_child found) rest)) ≡ true
          → Below among folders base id
      taken id h =
          let (f, r, e) = has-map_inv id (keep_rows (is_child found) rest) h in
          let (q, child) = IsRow-kept (is_child found) f rest r in
          let (p, parent, above) = is_child-parent found f child in
          let (row, passes) = rows f q in under f row passes e parent (below p above)

  pub Below-descendants :
      (id : ℕ) → Below among folders base id → has id (descendants among folders base) ≡ true
  unfolding descendants
  Below-descendants id (Below.at h) = grow-keeps (length folders) _ base id h
  Below-descendants id (Below.under f r passes e parent b) =
      let ih = Below-descendants _ b in
      subst (λ i. has i (descendants among folders base) ≡ true) e
        (elim (Bool-cases (has f.id base)) [
          | inl old ↦
              grow-keeps (length folders) (keep_rows (is_new among base) folders) base f.id old
          | inr new ↦
              grow-closed (length folders) (keep_rows (is_new among base) folders) base f
                (keep_rows-le (is_new among base) folders)
                (IsRow-keep_rows (is_new among base) f folders r (ground (arith, passes, new)))
                (ground (arith, parent, ih))
        ])

  -- The rows that a recursive query gives are exactly the folders whose parents lead to its base,
  -- along folders that it ranges over.
  pub descendants-Below :
      (id : ℕ) → (has id (descendants among folders base) ≡ true) ↔ Below among folders base id
  unfolding descendants
  descendants-Below id = (
    grow-Below (length folders) (keep_rows (is_new among base) folders) base
        (λ f r. let (q, h) = IsRow-kept (is_new among base) f folders r in (q, ground (arith, h)))
        (λ i h. at h) id,
    Below-descendants id,
  )
