-- ===== src/Users/Storage.antt =====
-- Charging a user for bytes, and giving them back.
use https_github_com_sv3t0v.Common.{
  ℕ, ◌+◌, ◌-◌, ◌≤◌, ◌≡◌, ◌≢◌, refl, sym, ap, subst, true, some, List, [], ◌∷◌, arith, ◌==◌,
  find_row, set_row, Bool-cases, Option-cases, inl, inr, ◌⊎◌, find_row-set_row,
  find_row-set_row_other, find_row-holds,
}
use https_github_com_sv3t0v.Http.{ok, parse_database_size}
use https_github_com_sv3t0v.Uploads.{User, Db, has_id, find_user}
use https_github_com_sv3t0v.Users.{set_user, update_storage_used, decrement_storage_used}

-- What a charge that goes through does.
pub record Charged (id n : ℕ) (db db' : Db) : Type 0 where
  pub user : User
  pub found : find_user id db ≡ some user
  pub room : user.storage_used + n ≤ user.storage_quota
  pub written : db' ≡ set_user id (record user { storage_used = user.storage_used + n }) db

pub update_storage_used-Charged :
    (id n : ℕ) (db db' : Db)
    → update_storage_used id n db ≡ ok db'
    → ((n ≡ 0) × (db' ≡ db)) ⊎ Charged id n db db'
unfolding update_storage_used parse_database_size
update_storage_used-Charged id n db db' e = elim (Option-cases (find_user id db)) [
  | inl missing ↦ ground (arith, missing, e)
  | inr (u, found) ↦ elim (Bool-cases (n == 0)) [
    | inl zero ↦ inl (ground (arith, zero, e, found))
    | inr some_bytes ↦ inr (record {
      user = u;
      found = found;
      room = ground (arith, some_bytes, e, found);
      written = ground (arith, some_bytes, e, found);
    })
  ]
]

set_row-set_row :
    (id : ℕ) (x y : User) (xs : List User)
    → find_row (has_id id) xs ≡ some x
    → y.id ≡ x.id
    → set_row (has_id id) x (set_row (has_id id) y xs) ≡ xs
unfolding find_row set_row
set_row-set_row id x y [] e h = cc
set_row-set_row id x y (z ∷ xs) e h = elim (Bool-cases (has_id id z)) [
  | inl hit ↦ ground (arith, hit, e, h)
  | inr miss ↦ rw miss (rw miss (ap (λ t. z ∷ t) (set_row-set_row id x y xs (rw miss at e) h)))
]

-- What giving bytes back does.
pub record Discharged (id n : ℕ) (db db' : Db) : Type 0 where
  pub user : User
  pub found : find_user id db ≡ some user
  pub enough : n ≤ user.storage_used
  pub written : db' ≡ set_user id (record user { storage_used = user.storage_used - n }) db

pub decrement_storage_used-Discharged :
    (id n : ℕ) (db db' : Db)
    → decrement_storage_used id n db ≡ ok db'
    → ((n ≡ 0) × (db' ≡ db)) ⊎ Discharged id n db db'
unfolding decrement_storage_used parse_database_size
decrement_storage_used-Discharged id n db db' e = elim (Option-cases (find_user id db)) [
  | inl missing ↦ ground (arith, missing, e)
  | inr (u, found) ↦ elim (Bool-cases (n == 0)) [
    | inl zero ↦ inl (ground (arith, zero, e, found))
    | inr some_bytes ↦ inr (record {
      user = u;
      found = found;
      enough = ground (arith, some_bytes, e, found);
      written = ground (arith, some_bytes, e, found);
    })
  ]
]

find_other :
    (id other : ℕ) (y : User) (xs : List User)
    → other ≢ id
    → y.id ≡ other
    → find_row (has_id id) (set_row (has_id other) y xs) ≡ find_row (has_id id) xs
find_other id other y xs h k =
    find_row-set_row_other (has_id other) (has_id id) y xs (λ x e. ground (arith, h, e))
      (ground (arith, h, k))

-- The user that is found after one was written anew: that one, or one that was left alone.
pub find-set_user :
    (k id : ℕ) (v v' u : User) (xs : List User)
    → v'.id ≡ v.id
    → find_row (has_id k) xs ≡ some v
    → find_row (has_id id) (set_row (has_id k) v' xs) ≡ some u
    → ((k ≡ id) × (u ≡ v') × (find_row (has_id id) xs ≡ some v))
      ⊎ ((k ≢ id) × (find_row (has_id id) xs ≡ some u))
find-set_user k id v v' u xs key there after =
    let holds = find_row-holds (has_id k) v xs there in
    elim (Bool-cases (k == id)) [
      | inl mine ↦
          let same : k ≡ id = ground (arith, mine) in
          let own = find_row-set_row (has_id k) v v' xs there (ground (arith, holds, key)) in
          let after' : find_row (has_id k) (set_row (has_id k) v' xs) ≡ some u =
            subst (λ j. find_row (has_id j) (set_row (has_id k) v' xs) ≡ some u) (sym same) after in
          inl (
            same,
            ground (arith, own, after'),
            subst (λ j. find_row (has_id j) xs ≡ some v) same there,
          )
      | inr other ↦
          let apart : k ≢ id = ground (arith, other) in
          inr
            (apart, ground (arith, find_other id k v' xs apart (ground (arith, holds, key)), after))
    ]

-- Bytes that a user is charged for are given back in full: whatever `updateStorageUsed` accepts,
-- `decrementStorageUsed` of the same bytes undoes, and the database is as it was.
pub decrement-update :
    (id n : ℕ) (db db' : Db)
    → update_storage_used id n db ≡ ok db'
    → decrement_storage_used id n db' ≡ ok db
unfolding decrement_storage_used update_storage_used parse_database_size find_user
decrement-update id n db db' e = elim (update_storage_used-Charged id n db db' e) [
  | inl (none_charged, same) ↦ ground (arith, none_charged, same)
  | inr c ↦
      let u' : User = record (c.user) { storage_used = c.user.storage_used + n } in
      let mine : has_id id c.user ≡ true = find_row-holds (has_id id) c.user db.users c.found in
      let there = find_row-set_row (has_id id) c.user u' db.users c.found mine in
      let back = set_row-set_row id c.user u' db.users c.found refl in
      rw (c.written) (ground (arith, there, back, e))
]
