-- ===== src/Auth/Revocation.antt =====
-- A user without a live refresh token is locked out.
use https_github_com_sv3t0v.Common.{
  ℕ, ◌≡◌, refl, subst, inl, inr, Bool, true, false, none, some, List, [], ◌∷◌, map, arith, find_row,
  set_row, Bool-cases,
}
use https_github_com_sv3t0v.Auth.{
  RefreshToken, Store, is_live_of, revoke_live, revoke_all_user_tokens,
}

-- No row of the user is live.
abbrev pub IsLockedOut : ℕ → Store → Type 0
IsLockedOut user_id st = find_row (is_live_of user_id) st.tokens ≡ none

revoke_live-none :
    (user_id : ℕ) (ts : List RefreshToken)
    → find_row (is_live_of user_id) (map (revoke_live user_id) ts) ≡ none
unfolding find_row
revoke_live-none user_id [] = refl
revoke_live-none user_id (t ∷ ts) = elim (Bool-cases (is_live_of user_id t)) [
  | inl live ↦ rw live (ground (arith, revoke_live-none user_id ts))
  | inr dead ↦ rw dead (rw dead (revoke_live-none user_id ts))
]

pub revoke_all-IsLockedOut :
    (user_id : ℕ) (st : Store) → IsLockedOut user_id (revoke_all_user_tokens user_id st)
unfolding revoke_all_user_tokens
revoke_all-IsLockedOut user_id st = revoke_live-none user_id st.tokens

-- The tokens of another user are revoked, and those of the first stay dead.
pub map-IsLockedOut :
    (user_id other : ℕ) (ts : List RefreshToken)
    → find_row (is_live_of user_id) ts ≡ none
    → find_row (is_live_of user_id) (map (revoke_live other) ts) ≡ none
unfolding find_row
map-IsLockedOut user_id other [] h = refl
map-IsLockedOut user_id other (t ∷ ts) h = elim (Bool-cases (is_live_of user_id t)) [
  | inl live ↦ ground (arith, live, h)
  | inr dead ↦ elim (Bool-cases (is_live_of other t)) [
    | inl hit ↦ rw hit (ground (arith, map-IsLockedOut user_id other ts (rw dead at h)))
    | inr miss ↦ rw miss (rw dead (map-IsLockedOut user_id other ts (rw dead at h)))
  ]
]

pub set_row-IsLockedOut :
    (user_id : ℕ) (q : RefreshToken → Bool) (y : RefreshToken) (ts : List RefreshToken)
    → y.revoked ≡ true
    → find_row (is_live_of user_id) ts ≡ none
    → find_row (is_live_of user_id) (set_row q y ts) ≡ none
unfolding find_row set_row
set_row-IsLockedOut user_id q y [] r h = refl
set_row-IsLockedOut user_id q y (t ∷ ts) r h = elim (Bool-cases (is_live_of user_id t)) [
  | inl live ↦ ground (arith, live, h)
  | inr dead ↦ elim (Bool-cases (q t)) [
    | inl hit ↦ rw hit (ground (arith, r, dead, h))
    | inr miss ↦ rw miss (rw dead (set_row-IsLockedOut user_id q y ts r (rw dead at h)))
  ]
]

-- A live row that some condition finds would be a live row.
pub found-live :
    (user_id : ℕ) (p : RefreshToken → Bool) (x : RefreshToken) (ts : List RefreshToken)
    → find_row (is_live_of user_id) ts ≡ none
    → find_row p ts ≡ some x
    → is_live_of user_id x ≡ false
unfolding find_row
found-live user_id p x [] h e = cc
found-live user_id p x (t ∷ ts) h e = elim (Bool-cases (is_live_of user_id t)) [
  | inl live ↦ ground (arith, live, h)
  | inr dead ↦ elim (Bool-cases (p t)) [
    | inl hit ↦
        let same : t ≡ x = ground (arith, hit, e) in
        subst (λ y. is_live_of user_id y ≡ false) same dead
    | inr miss ↦ found-live user_id p x ts (rw dead at h) (rw miss at e)
  ]
]
