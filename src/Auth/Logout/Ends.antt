-- ===== src/Auth/Logout/Ends.antt =====
-- The loop of `logout` ends: each round visits a hash of a row that was not visited.
use https_github_com_sv3t0v.Common.{
  ℕ, zero, suc, ◌≤◌, ◌<◌, ◌≡◌, ◌≢◌, refl, ap, inl, inr, String, Bool, true, false, not, Option,
  none, some, List, [], ◌∷◌, arith, str_eq, eq_iff, find_row, keep_rows, length, Bool-cases,
  Option-cases,
}
use https_github_com_sv3t0v.Auth.{RefreshToken, Store}
use https_github_com_sv3t0v.Auth.Logout.{
  Walk, reached, returned, out_of_rounds, contains, is_hash_of, walk, rounds_for,
}

-- The rows whose hashes were not visited.
abbrev unvisited : List String → RefreshToken → Bool
unvisited visited t = not (contains visited t.token_hash)

visit-le :
    (visited : List String) (h : String) (ts : List RefreshToken)
    → length (keep_rows (unvisited (h ∷ visited)) ts) ≤ length (keep_rows (unvisited visited) ts)
unfolding keep_rows contains
visit-le visited h [] = omega arith
visit-le visited h (t ∷ ts) = ground (arith, visit-le visited h ts)

visit-less :
    (user_id : ℕ) (visited : List String) (h : String) (r : RefreshToken) (ts : List RefreshToken)
    → contains visited h ≡ false
    → find_row (is_hash_of user_id h) ts ≡ some r
    → length (keep_rows (unvisited (h ∷ visited)) ts) < length (keep_rows (unvisited visited) ts)
unfolding keep_rows contains find_row
visit-less user_id visited h r [] fresh e = cc
visit-less user_id visited h r (t ∷ ts) fresh e = elim (Bool-cases (is_hash_of user_id h t)) [
  | inl hit ↦
      let same : t.token_hash ≡ h = ground (arith, eq_iff t.token_hash h, hit) in
      let self : str_eq h h ≡ true = ground (arith, eq_iff h h) in
      rw same (rw (self, fresh) (let le = visit-le visited h ts in omega arith))
  | inr miss ↦
      let ih = visit-less user_id visited h r ts fresh (rw miss at e) in
      let le = visit-le visited h ts in
      elim (Bool-cases (contains visited t.token_hash)) [
        | inl old ↦ ground (arith, old, ih, le)
        | inr new ↦ elim (Bool-cases (str_eq h t.token_hash)) [
          | inl now ↦ rw (now, new) (omega arith)
          | inr later ↦ rw (later, new) (omega arith)
        ]
      ]
]

is_out : Walk → Bool
is_out (reached t) = false
is_out returned = false
is_out out_of_rounds = true

not_out : (w : Walk) → is_out w ≡ false → w ≢ out_of_rounds
unfolding is_out
not_out w h e = let clash : is_out w ≡ true = ap is_out e in cc

walk-ends :
    (rounds user_id : ℕ) (ts : List RefreshToken) (visited : List String) (stored : RefreshToken)
    → length (keep_rows (unvisited visited) ts) < rounds
    → is_out (walk rounds user_id ts visited stored) ≡ false
unfolding walk is_out
walk-ends zero user_id ts visited stored less = absurd (omega arith)
walk-ends (suc rounds) user_id ts visited stored less = go stored.replaced_by (λ h r fresh e.
    walk-ends rounds user_id ts (h ∷ visited) r
      (let fewer = visit-less user_id visited h r ts fresh e in omega (arith, less, fewer)))
  where
    next : String → Option RefreshToken → Walk
    next h none = returned
    next h (some r) = walk rounds user_id ts (h ∷ visited) r

    go :
        (o : Option String)
        → ((h : String) (r : RefreshToken)
            → contains visited h ≡ false
            → find_row (is_hash_of user_id h) ts ≡ some r
            → is_out (walk rounds user_id ts (h ∷ visited) r) ≡ false)
        → is_out (elim o [
          | none ↦ reached stored
          | some h ↦ elim (contains visited h) [
            | true ↦ returned
            | false ↦ elim (find_row (is_hash_of user_id h) ts) [
              | none ↦ returned
              | some r ↦ walk rounds user_id ts (h ∷ visited) r
            ]
          ]
        ])
          ≡ false
    go none ih = refl
    go (some h) ih = elim (Bool-cases (contains visited h)) [
      | inl old ↦ rw old refl
      | inr new ↦ rw new (elim (Option-cases (find_row (is_hash_of user_id h) ts)) [
        | inl missing ↦ rw missing refl
        | inr (r, e) ↦ rw e (ih h r new e)
      ])
    ]

keep-le : (p : RefreshToken → Bool) (ts : List RefreshToken) → length (keep_rows p ts) ≤ length ts
unfolding keep_rows
keep-le p [] = omega arith
keep-le p (t ∷ ts) = ground (arith, keep-le p ts)

-- One round more than there are rows is enough.
pub walk-stops :
    (user_id : ℕ) (st : Store) (t : RefreshToken)
    → walk (rounds_for st) user_id st.tokens [] t ≢ out_of_rounds
walk-stops user_id st t = not_out (walk (rounds_for st) user_id st.tokens [] t) (
    walk-ends (rounds_for st) user_id st.tokens [] t
      (let le = keep-le (unvisited []) st.tokens in omega arith))
