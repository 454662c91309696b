-- ===== src/Auth/Logout.antt =====
-- backend/src/auth/auth.service.ts, `logout`: the chain of replacements of a refresh token is followed
-- to its end, and that token is revoked.
pub mod Ends
pub mod Chains
use https_github_com_sv3t0v.Common.{
  ℕ, zero, suc, ◌≤◌, ◌<◌, ◌≡◌, ◌≢◌, ◌⊎◌, refl, sym, ap, subst, inl, inr, String, Bool, true, false,
  not, ◌&&◌, ◌||◌, Option, none, some, List, [], ◌∷◌, arith, ◌==◌, str_eq, eq_iff, if◌then◌else◌,
  find_row, set_row, keep_rows, length, Bool-cases, Option-cases,
}
use https_github_com_sv3t0v.Auth.{RefreshToken, Store, is_unrevoked, find_and_lock_refresh_token}

unfoldable pub contains : List String → String → Bool
contains [] h = false
contains (x ∷ xs) h = str_eq x h || contains xs h

abbrev pub is_hash_of : ℕ → String → RefreshToken → Bool
is_hash_of user_id h t = str_eq t.token_hash h && t.user_id == user_id

-- How the loop ends: at a token without a replacement, by a return, or, in the model alone, for want
-- of rounds.
pub data Walk : Type 0 where
  reached : RefreshToken → Walk
  returned out_of_rounds : Walk

unfoldable pub walk : ℕ → ℕ → List RefreshToken → List String → RefreshToken → Walk
unfolding contains
walk zero user_id ts visited stored = out_of_rounds
walk (suc rounds) user_id ts visited stored = elim stored.replaced_by [
  | none ↦ reached stored
  | some h ↦ elim (contains visited h) [
    | true ↦ returned
    | false ↦ elim (find_row (is_hash_of user_id h) ts) [
      | none ↦ returned
      | some replacement ↦ walk rounds user_id ts (h ∷ visited) replacement
    ]
  ]
]

abbrev pub revoke_row : RefreshToken → Store → Store
revoke_row t st = elim (find_row (is_unrevoked t.id) st.tokens) [
  | none ↦ st
  | some current ↦ record st {
    tokens = set_row (is_unrevoked t.id) (record current { revoked = true }) st.tokens;
  }
]

abbrev pub finish_logout : Walk → Store → Store
finish_logout (reached t) st = if t.revoked then st else revoke_row t st
finish_logout returned st = st
finish_logout out_of_rounds st = st

-- One round more than there are rows.
abbrev pub rounds_for : Store → ℕ
rounds_for st = suc (length st.tokens)

abbrev pub logout_found : ℕ → Option RefreshToken → Store → Store
logout_found user_id none st = st
logout_found user_id (some t) st = finish_logout (walk (rounds_for st) user_id st.tokens [] t) st

unfoldable pub logout : (String → String → Bool) → ℕ → String → Store → Store
unfolding walk find_and_lock_refresh_token
logout compare user_id token st =
    if str_eq token ""
    then st
    else logout_found user_id (find_and_lock_refresh_token compare user_id token st) st
