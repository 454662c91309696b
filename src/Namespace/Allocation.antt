-- ===== src/Namespace/Allocation.antt =====
-- The name that is allocated is free and not too long.
use https_github_com_sv3t0v.Common.{
  ℕ, zero, suc, ◌+◌, ◌-◌, ◌/◌, ◌%◌, max, ◌≤◌, ◌≡◌, false, Option, List, [], ◌∷◌, ◌++◌, arith,
  length, length-append, Bool-cases, inl, inr,
}
use https_github_com_sv3t0v.Http.{Result, ok, err, ◌>>=◌}
use https_github_com_sv3t0v.Text.{Text}
use https_github_com_sv3t0v.Uploads.{Db}
use https_github_com_sv3t0v.Namespace.{
  Kind, is_occupied, slice_to, digits, suffix, candidate, try_names, names_in, choose_name,
  lock_parent, allocate_namespace_name,
}

length-slice_to-le : (n : ℕ) (s : Text) → length (slice_to n s) ≤ n
unfolding slice_to
length-slice_to-le zero s = omega arith
length-slice_to-le (suc n) [] = omega arith
length-slice_to-le (suc n) (c ∷ s) = omega (arith, length-slice_to-le n s)

length-digits-le : (f n : ℕ) → length (digits f n) ≤ f
unfolding digits
length-digits-le zero n = omega arith
length-digits-le (suc f) n =
    let shape = λ (c : ℕ). length-append {0} (digits f (n / 10)) (c ∷ []) in
    ground (arith, length-digits-le f (n / 10), shape (b'0' + n % 10))

length-suffix-le : (index : ℕ) → length (suffix index) ≤ 8
length-suffix-le index =
    omega (arith, length-digits-le 5 index, length-append {0} (digits 5 index) (b')' ∷ []))

length-candidate-le :
    (stem extension : Text) (index : ℕ) → length (candidate stem extension index) ≤ 255
unfolding candidate
length-candidate-le stem extension index =
    let budget = 255 - length (suffix index) in
    let safe = slice_to (max 0 (budget - 1)) extension in
    let head = slice_to (budget - length safe) stem in
    ground (
      arith,
      length-suffix-le index,
      length-slice_to-le (max 0 (budget - 1)) extension,
      length-slice_to-le (budget - length safe) stem,
      length-append {0} head (suffix index ++ safe),
      length-append {0} (suffix index) safe,
    )

-- A name that may be used in this place.
pub record IsFree (occupied : List Text) (name : Text) : Type 0 where
  pub free : is_occupied occupied name ≡ false
  pub short : length name ≤ 255

try_names-IsFree :
    (occupied : List Text) (stem extension : Text) (rounds index : ℕ) (name : Text)
    → try_names occupied stem extension rounds index ≡ ok name
    → IsFree occupied name
unfolding try_names
try_names-IsFree occupied stem extension zero index name e = cc
try_names-IsFree occupied stem extension (suc rounds) index name e =
    elim (Bool-cases (is_occupied occupied (candidate stem extension index))) [
      | inl taken ↦
          try_names-IsFree occupied stem extension rounds (index + 1) name
            (rw (try_names, taken) at e)
      | inr free ↦
          let same : candidate stem extension index ≡ name = ground (arith, free, e) in
          rw (← same) (record { free = free; short = length-candidate-le stem extension index })
    ]

pub choose_name-IsFree :
    (k : Kind) (occupied : List Text) (requested name : Text)
    → length requested ≤ 255
    → choose_name k occupied requested ≡ ok name
    → IsFree occupied name
unfolding choose_name
choose_name-IsFree k occupied requested name h e =
    elim (Bool-cases (is_occupied occupied requested)) [
      | inl taken ↦ try_names-IsFree occupied _ _ 10000 1 name (rw (try_names, taken) at e)
      | inr free ↦
          let same : requested ≡ name = ground (arith, free, e) in
          rw (← same) (record { free = free; short = h })
    ]

-- A requested name of at most 255 units that is allocated, as it is or with a number put in, is not
-- the name of a live file or folder of the user in the parent, other than the excluded ones, and
-- has at most 255 units.
pub allocate-IsFree :
    (db : Db) (user_id : ℕ) (parent_id : Option ℕ) (requested : Text) (kind : Kind)
    (exclude_file exclude_folder : Option ℕ) (name : Text)
    → length requested ≤ 255
    → allocate_namespace_name db user_id parent_id requested kind exclude_file exclude_folder
      ≡ ok name
    → IsFree (names_in db user_id parent_id exclude_file exclude_folder) name
unfolding allocate_namespace_name
allocate-IsFree db user_id parent_id requested kind exclude_file exclude_folder name h =
    go (lock_parent db user_id parent_id)
  where
    go :
        (m : Result (Unit {0}))
        → (m >>= λ _.
            choose_name kind (names_in db user_id parent_id exclude_file exclude_folder) requested)
          ≡ ok name
        → IsFree (names_in db user_id parent_id exclude_file exclude_folder) name
    go (err e) k = cc
    go (ok u) k = choose_name-IsFree kind _ requested name h k
