-- ===== src/Auth/Spent.antt =====
-- A token of which no live row is left, and that no operation makes valid again.
use https_github_com_sv3t0v.Common.{
  ℕ, ◌≡◌, refl, inl, inr, String, Bool, true, false, not, ◌&&◌, Option, none, some, List, [], ◌∷◌,
  map, arith, ltb, str_eq, if◌then◌else◌, find_row, set_row, keep_rows, Bool-cases, Option-cases,
  All,
}
use https_github_com_sv3t0v.Http.{err, unauthorized_error}
use https_github_com_sv3t0v.Auth.{
  Account, RefreshToken, Store, Outside, has_email, has_account_id, new_token, is_unrevoked,
  is_live_of, revoke_live, revoke_all_user_tokens, expired, invalid_token, reused, rotate,
  is_active_account, register, login, is_candidate, find_and_lock_refresh_token, refresh_found,
  refresh, changed, change_password, cleanup_expired_tokens,
}
use https_github_com_sv3t0v.Auth.Logout.{
  Walk, reached, returned, out_of_rounds, revoke_row, finish_logout, logout_found, logout,
}
use https_github_com_sv3t0v.Auth.Operations.{
  Operation, registering, logging_in, refreshing, logging_out, changing_password, cleaning_up,
  perform, run, makes_hash_of,
}

module _ (compare : String → String → Bool) (user_id : ℕ) (token : String) where
  -- A row of the user that is not revoked, with a hash of the token.
  abbrev pub is_good : RefreshToken → Bool
  is_good t = is_candidate compare user_id token t && not t.revoked

  abbrev pub IsSpent : Store → Type 0
  IsSpent st = find_row is_good st.tokens ≡ none

  map-IsSpent :
      (other : ℕ) (ts : List RefreshToken)
      → find_row is_good ts ≡ none
      → find_row is_good (map (revoke_live other) ts) ≡ none
  unfolding find_row
  map-IsSpent other [] h = refl
  map-IsSpent other (t ∷ ts) h = elim (Bool-cases (is_good t)) [
    | inl live ↦ ground (arith, live, h)
    | inr dead ↦ elim (Bool-cases (is_live_of other t)) [
      | inl hit ↦ rw hit (ground (arith, map-IsSpent other ts (rw dead at h)))
      | inr miss ↦ rw miss (rw dead (map-IsSpent other ts (rw dead at h)))
    ]
  ]

  pub revoke_all-IsSpent :
      (other : ℕ) (st : Store) → IsSpent st → IsSpent (revoke_all_user_tokens other st)
  unfolding revoke_all_user_tokens
  revoke_all-IsSpent other st h = map-IsSpent other st.tokens h

  set_row-IsSpent :
      (q : RefreshToken → Bool) (y : RefreshToken) (ts : List RefreshToken)
      → y.revoked ≡ true
      → find_row is_good ts ≡ none
      → find_row is_good (set_row q y ts) ≡ none
  unfolding find_row set_row
  set_row-IsSpent q y [] r h = refl
  set_row-IsSpent q y (t ∷ ts) r h = elim (Bool-cases (is_good t)) [
    | inl live ↦ ground (arith, live, h)
    | inr dead ↦ elim (Bool-cases (q t)) [
      | inl hit ↦ rw hit (ground (arith, r, dead, h))
      | inr miss ↦ rw miss (rw dead (set_row-IsSpent q y ts r (rw dead at h)))
    ]
  ]

  keep_rows-IsSpent :
      (q : RefreshToken → Bool) (ts : List RefreshToken)
      → find_row is_good ts ≡ none
      → find_row is_good (keep_rows q ts) ≡ none
  unfolding find_row keep_rows
  keep_rows-IsSpent q [] h = refl
  keep_rows-IsSpent q (t ∷ ts) h = elim (Bool-cases (is_good t)) [
    | inl live ↦ ground (arith, live, h)
    | inr dead ↦ elim (Bool-cases (q t)) [
      | inl hit ↦ rw hit (rw dead (keep_rows-IsSpent q ts (rw dead at h)))
      | inr miss ↦ rw miss (keep_rows-IsSpent q ts (rw dead at h))
    ]
  ]

  pub new_token-IsSpent :
      (o : Outside) (id who : ℕ) (ts : List RefreshToken)
      → compare token o.token_hash ≡ false
      → find_row is_good ts ≡ none
      → find_row is_good (new_token o id who ∷ ts) ≡ none
  unfolding find_row
  new_token-IsSpent o id who ts apart h =
      let skipped : is_good (new_token o id who) ≡ false = ground (arith, apart) in rw skipped h

  rotate-IsSpent :
      (o : Outside) (who : ℕ) (current : Option RefreshToken) (stored : RefreshToken) (st : Store)
      → compare token o.token_hash ≡ false
      → IsSpent st
      → IsSpent (rotate o who current stored st).0
  rotate-IsSpent o who none stored st apart h = revoke_all-IsSpent who st h
  rotate-IsSpent o who (some current) stored st apart h =
      new_token-IsSpent o st.next_id who _ apart (
        set_row-IsSpent (is_unrevoked stored.id)
          (record current { revoked = true; replaced_by = some o.token_hash }) st.tokens refl h)

  found-IsSpent :
      (o : Outside) (who : ℕ) (stored : Option RefreshToken) (st : Store)
      → compare token o.token_hash ≡ false
      → IsSpent st
      → IsSpent (refresh_found compare o who stored st).0
  found-IsSpent o who none st apart h = h
  found-IsSpent o who (some stored) st apart h = by_use (ltb stored.expires_at o.now) stored.revoked
    where
      by_use :
          (a b : Bool)
          → IsSpent
              (if a
                then (st, err expired)
                else if b
                then (revoke_all_user_tokens who st, err reused)
                else rotate o who (find_row (is_unrevoked stored.id) st.tokens) stored st).0
      by_use true b = h
      by_use false true = revoke_all-IsSpent who st h
      by_use false false = rotate-IsSpent o who _ stored st apart h

  pub refresh-IsSpent :
      (o : Outside) (who : ℕ) (used : String) (st : Store)
      → compare token o.token_hash ≡ false
      → IsSpent st
      → IsSpent (refresh compare o who used st).0
  unfolding refresh
  refresh-IsSpent o who used st apart h =
      go (is_active_account (find_row (has_account_id who) st.accounts)) (str_eq used "")
    where
      go :
          (a b : Bool)
          → IsSpent
              (if not a
                then (st, err (unauthorized_error "Invalid user"))
                else if b
                then (st, err invalid_token)
                else refresh_found compare o who
                    (find_and_lock_refresh_token compare who used st)
                    st).0
      go false b = h
      go true true = h
      go true false = found-IsSpent o who _ st apart h

  register-IsSpent :
      (o : Outside) (email : String) (st : Store)
      → compare token o.token_hash ≡ false
      → IsSpent st
      → IsSpent (register o email st).0
  unfolding register
  register-IsSpent o email st apart h =
      elim (Option-cases (find_row (has_email email) st.accounts)) [
        | inl free ↦ rw (register, free) (new_token-IsSpent o _ _ st.tokens apart h)
        | inr (a, e) ↦ rw (register, e) h
      ]

  login-IsSpent :
      (o : Outside) (email password : String) (st : Store)
      → compare token o.token_hash ≡ false
      → IsSpent st
      → IsSpent (login compare o email password st).0
  unfolding login
  login-IsSpent o email password st apart h =
      elim (Option-cases (find_row (has_email email) st.accounts)) [
        | inl missing ↦ rw (login, missing) h
        | inr (a, e) ↦
            rw (login, e)
              (elim (Bool-cases (a.is_active && compare password a.password)) [
                | inl good ↦ rw good (new_token-IsSpent o st.next_id a.id st.tokens apart h)
                | inr bad ↦ rw bad h
              ])
      ]

  changed-IsSpent :
      (o : Outside) (who : ℕ) (old : String) (a : Option Account) (st : Store)
      → IsSpent st
      → IsSpent (changed compare o who old a st).0
  unfolding revoke_all_user_tokens
  changed-IsSpent o who old none st h = h
  changed-IsSpent o who old (some a) st h = elim (Bool-cases (compare old a.password)) [
    | inl good ↦ rw good (map-IsSpent who st.tokens h)
    | inr bad ↦ rw bad h
  ]

  revoke_row-IsSpent : (t : RefreshToken) (st : Store) → IsSpent st → IsSpent (revoke_row t st)
  revoke_row-IsSpent t st h = elim (Option-cases (find_row (is_unrevoked t.id) st.tokens)) [
    | inl missing ↦ rw (revoke_row, missing) h
    | inr (current, e) ↦
        rw (revoke_row, e)
          (set_row-IsSpent (is_unrevoked t.id) (record current { revoked = true }) st.tokens refl h)
  ]

  finish-IsSpent : (w : Walk) (st : Store) → IsSpent st → IsSpent (finish_logout w st)
  finish-IsSpent (reached t) st h = go t.revoked
    where
      go : (b : Bool) → IsSpent (if b then st else revoke_row t st)
      go true = h
      go false = revoke_row-IsSpent t st h
  finish-IsSpent returned st h = h
  finish-IsSpent out_of_rounds st h = h

  logout-IsSpent :
      (who : ℕ) (used : String) (st : Store) → IsSpent st → IsSpent (logout compare who used st)
  unfolding logout
  logout-IsSpent who used st h = elim (Bool-cases (str_eq used "")) [
    | inl missing ↦ rw missing h
    | inr given ↦ rw given (go (find_and_lock_refresh_token compare who used st))
  ]
    where
      go : (t : Option RefreshToken) → IsSpent (logout_found who t st)
      go none = h
      go (some t) = finish-IsSpent _ st h

  perform-IsSpent :
      (op : Operation) (st : Store)
      → makes_hash_of compare token op ≡ false
      → IsSpent st
      → IsSpent (perform compare op st)
  unfolding perform change_password cleanup_expired_tokens
  perform-IsSpent (registering o email) st apart h = register-IsSpent o email st apart h
  perform-IsSpent (logging_in o email password) st apart h =
      login-IsSpent o email password st apart h
  perform-IsSpent (refreshing o who used) st apart h = refresh-IsSpent o who used st apart h
  perform-IsSpent (logging_out who used) st apart h = logout-IsSpent who used st h
  perform-IsSpent (changing_password o who old) st apart h = changed-IsSpent o who old _ st h
  perform-IsSpent (cleaning_up now) st apart h = keep_rows-IsSpent _ st.tokens h

  -- A token stays spent over every run of operations that make no hash of it.
  pub run-IsSpent :
      (ops : List Operation) (st : Store)
      → All (λ op. makes_hash_of compare token op ≡ false) ops
      → IsSpent st
      → IsSpent (run compare ops st)
  unfolding run
  run-IsSpent [] st apart h = h
  run-IsSpent (op ∷ later) st (here, rest) h =
      run-IsSpent later (perform compare op st) rest (perform-IsSpent op st here h)
