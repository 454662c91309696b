-- ===== src/Common/Rows.antt =====
-- Tables as lists of rows: `findOne`, `save` of a row, and sums over rows.
use https_github_com_sv3t0v.Common.Tests.{if◌then◌else◌, Bool-cases}
use Prim.Native.Nat.{ℕ, ◌+◌, ◌≤◌}
use mathlib.Core.Path.{◌≡◌, refl, ap, sym, subst}
use mathlib.Core.Bool.{Bool, true, false, not, ◌&&◌}
use mathlib.Core.Logic.{inl, inr}
use mathlib.Core.Option.{Option, none, some}
use mathlib.Core.List.{List, [], ◌∷◌}
use native.Mathlib.Omega.{arith}

module _ {ℓ} {A : Type ℓ} where
  -- The first row that a condition holds of.
  unfoldable pub find_row : (A → Bool) → List A → Option A
  find_row p [] = none
  find_row p (x ∷ xs) = if p x then some x else find_row p xs

  -- That row, written anew.
  unfoldable pub set_row : (A → Bool) → A → List A → List A
  set_row p y [] = []
  set_row p y (x ∷ xs) = if p x then y ∷ xs else x ∷ set_row p y xs

  unfoldable pub keep_rows : (A → Bool) → List A → List A
  keep_rows p [] = []
  keep_rows p (x ∷ xs) = if p x then x ∷ keep_rows p xs else keep_rows p xs

  unfoldable pub sum_rows : (A → ℕ) → List A → ℕ
  sum_rows f [] = 0
  sum_rows f (x ∷ xs) = f x + sum_rows f xs

  pub sum_rows-set_row :
      (f : A → ℕ) (p : A → Bool) (x y : A) (xs : List A)
      → find_row p xs ≡ some x
      → sum_rows f (set_row p y xs) + f x ≡ sum_rows f xs + f y
  unfolding find_row set_row sum_rows
  sum_rows-set_row f p x y [] e = cc
  sum_rows-set_row f p x y (z ∷ xs) e = elim (Bool-cases (p z)) [
    | inl hit ↦ rw hit (ground (arith, hit, e))
    | inr miss ↦ rw miss (let ih = sum_rows-set_row f p x y xs (rw miss at e) in omega arith)
  ]

  pub find_row-holds : (p : A → Bool) (x : A) (xs : List A) → find_row p xs ≡ some x → p x ≡ true
  unfolding find_row
  find_row-holds p x [] e = cc
  find_row-holds p x (z ∷ xs) e = elim (Bool-cases (p z)) [
    | inl hit ↦ ground (arith, hit, e)
    | inr miss ↦ find_row-holds p x xs (rw miss at e)
  ]

  pub sum_rows-keep_rows-le :
      (f : A → ℕ) (p : A → Bool) (xs : List A) → sum_rows f (keep_rows p xs) ≤ sum_rows f xs
  unfolding keep_rows sum_rows
  sum_rows-keep_rows-le f p [] = omega arith
  sum_rows-keep_rows-le f p (x ∷ xs) = ground (arith, sum_rows-keep_rows-le f p xs)

  pub find_row-set_row :
      (p : A → Bool) (x y : A) (xs : List A)
      → find_row p xs ≡ some x
      → p y ≡ true
      → find_row p (set_row p y xs) ≡ some y
  unfolding find_row set_row
  find_row-set_row p x y [] e h = cc
  find_row-set_row p x y (z ∷ xs) e h = elim (Bool-cases (p z)) [
    | inl hit ↦ rw (hit, h) refl
    | inr miss ↦ rw miss (rw miss (find_row-set_row p x y xs (rw miss at e) h))
  ]

  -- A row is looked up by `q` among rows that only change where `q` does not look.
  pub find_row-set_row_other :
      (p q : A → Bool) (y : A) (xs : List A)
      → ((x : A) → p x ≡ true → q x ≡ false)
      → q y ≡ false
      → find_row q (set_row p y xs) ≡ find_row q xs
  unfolding find_row set_row
  find_row-set_row_other p q y [] apart h = refl
  find_row-set_row_other p q y (z ∷ xs) apart h = elim (Bool-cases (p z)) [
    | inl hit ↦ rw (hit, h, apart z hit) refl
    | inr miss ↦ rw miss (rw (find_row-set_row_other p q y xs apart h) refl)
  ]

  -- A row is looked up by `q` among kept rows, where all that `q` finds are kept.
  pub find_row-keep_rows_kept :
      (p q : A → Bool) (xs : List A)
      → ((x : A) → q x ≡ true → p x ≡ true)
      → find_row q (keep_rows p xs) ≡ find_row q xs
  unfolding find_row keep_rows
  find_row-keep_rows_kept p q [] all = refl
  find_row-keep_rows_kept p q (z ∷ xs) all = elim (Bool-cases (q z)) [
    | inl hit ↦ rw (all z hit) (rw hit refl)
    | inr miss ↦ elim (Bool-cases (p z)) [
      | inl kept ↦ rw kept (rw miss (find_row-keep_rows_kept p q xs all))
      | inr gone ↦ rw (gone, miss) (find_row-keep_rows_kept p q xs all)
    ]
  ]

  -- And not at all, where none that `q` finds is kept.
  pub find_row-keep_rows_gone :
      (p q : A → Bool) (xs : List A)
      → ((x : A) → q x ≡ true → p x ≡ false)
      → find_row q (keep_rows p xs) ≡ none
  unfolding find_row keep_rows
  find_row-keep_rows_gone p q [] all = refl
  find_row-keep_rows_gone p q (z ∷ xs) all = elim (Bool-cases (p z)) [
    | inr gone ↦ rw gone (find_row-keep_rows_gone p q xs all)
    | inl kept ↦ elim (Bool-cases (q z)) [
      | inl hit ↦ let gone = all z hit in cc
      | inr miss ↦ rw kept (rw miss (find_row-keep_rows_gone p q xs all))
    ]
  ]

  -- A sum over kept rows and over the others.
  pub sum_rows-split :
      (f : A → ℕ) (p : A → Bool) (xs : List A)
      → sum_rows f (keep_rows p xs) + sum_rows f (keep_rows (λ x. not (p x)) xs) ≡ sum_rows f xs
  unfolding keep_rows sum_rows
  sum_rows-split f p [] = omega arith
  sum_rows-split f p (x ∷ xs) = ground (arith, sum_rows-split f p xs)

  pub sum_rows-eq :
      (f g : A → ℕ) (xs : List A) → ((x : A) → f x ≡ g x) → sum_rows f xs ≡ sum_rows g xs
  unfolding sum_rows
  sum_rows-eq f g [] h = refl
  sum_rows-eq f g (x ∷ xs) h = omega (arith, h x, sum_rows-eq f g xs h)

  -- The first row that a condition holds of, taken out.
  unfoldable pub remove_row : (A → Bool) → List A → List A
  remove_row p [] = []
  remove_row p (x ∷ xs) = if p x then xs else x ∷ remove_row p xs

  pub sum_rows-remove_row :
      (f : A → ℕ) (p : A → Bool) (x : A) (xs : List A)
      → find_row p xs ≡ some x
      → sum_rows f (remove_row p xs) + f x ≡ sum_rows f xs
  unfolding find_row remove_row sum_rows
  sum_rows-remove_row f p x [] e = cc
  sum_rows-remove_row f p x (z ∷ xs) e = elim (Bool-cases (p z)) [
    | inl hit ↦ rw hit (ground (arith, hit, e))
    | inr miss ↦ rw miss (let ih = sum_rows-remove_row f p x xs (rw miss at e) in omega arith)
  ]

  -- The row that two conditions find, written anew.
  pub find_row-set_row_both :
      (p q : A → Bool) (x y : A) (xs : List A)
      → find_row p xs ≡ some x
      → find_row q xs ≡ some x
      → p y ≡ true
      → find_row p (set_row q y xs) ≡ some y
  unfolding find_row set_row
  find_row-set_row_both p q x y [] e h k = cc
  find_row-set_row_both p q x y (z ∷ xs) e h k = elim (Bool-cases (q z)) [
    | inl hit ↦ rw hit (rw k refl)
    | inr miss ↦ elim (Bool-cases (p z)) [
      | inl first ↦
          let same : z ≡ x = ground (arith, first, e) in
          let holds = find_row-holds q x (z ∷ xs) h in ground (arith, ap q same, holds, miss)
      | inr later ↦
          rw miss (rw later (find_row-set_row_both p q x y xs (rw later at e) (rw miss at h) k))
    ]
  ]

  -- The first row that a condition holds of is the first that it holds of with another.
  pub find_row-and :
      (p q : A → Bool) (x : A) (xs : List A)
      → find_row p xs ≡ some x
      → q x ≡ true
      → find_row (λ y. p y && q y) xs ≡ some x
  unfolding find_row
  find_row-and p q x [] e h = cc
  find_row-and p q x (z ∷ xs) e h = elim (Bool-cases (p z)) [
    | inl hit ↦
        let same : z ≡ x = ground (arith, hit, e) in
        let holds : q z ≡ true = subst (λ y. q y ≡ true) (sym same) h in
        ground (arith, hit, holds, e)
    | inr miss ↦ ground (arith, miss, find_row-and p q x xs (rw miss at e) h)
  ]
