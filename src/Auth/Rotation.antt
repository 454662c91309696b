-- ===== src/Auth/Rotation.antt =====
-- The second use of a refresh token, and a change of password, end all sessions of a user.
use https_github_com_sv3t0v.Common.{
  ℕ, ◌+◌, ◌≡◌, refl, ap, subst, inl, inr, String, Bool, true, false, Option, none, some, List, [],
  ◌∷◌, arith, ltb, ◌==◌, str_eq, if◌then◌else◌, find_row, set_row, Bool-cases, find_row-holds,
}
use https_github_com_sv3t0v.Http.{HttpError, Result, ok, err, unauthorized_error}
use https_github_com_sv3t0v.Auth.{
  Account, RefreshToken, Store, Tokens, Outside, has_account_id, pair_of, invalid_token, reused,
  revoke_all_user_tokens, is_unrevoked, is_candidate, find_and_lock_refresh_token, rotate,
  refresh_found, is_active_account, refresh, changed, change_password,
}
use https_github_com_sv3t0v.Auth.Revocation.{
  IsLockedOut, revoke_all-IsLockedOut, map-IsLockedOut, set_row-IsLockedOut, found-live,
}

pub record Request : Type 0 where
  pub outside : Outside
  pub user_id : ℕ
  pub token : String

abbrev pub counted : Result Tokens → ℕ
counted (err e) = 0
counted (ok t) = 1

abbrev message_of : Result Tokens → String
message_of (err e) = e.message
message_of (ok t) = ""

-- An answer with another message is not that of a reuse.
not_reused :
    (st st' : Store) (e : HttpError)
    → str_eq e.message "Refresh token was reused" ≡ false
    → ◌≡◌ {A = Store × Result Tokens} (st, err e) (st', err reused)
    → ⊥
not_reused st st' e apart h =
    let same : str_eq e.message "Refresh token was reused" ≡ true =
      ap (λ (x : Store × Result Tokens). str_eq (message_of x.1) "Refresh token was reused") h in
    cc

module _ (compare : String → String → Bool) where
  -- The refreshes of a user that succeed in a run of requests by anyone.
  unfoldable pub successes : ℕ → List Request → Store → ℕ
  unfolding refresh
  successes user_id [] st = 0
  successes user_id (r ∷ later) st =
      (if r.user_id == user_id
        then counted (refresh compare r.outside r.user_id r.token st).1
        else 0)
      + successes user_id later (refresh compare r.outside r.user_id r.token st).0

  -- A request that leaves a user locked out, and is not let in for that user.
  abbrev Barred : ℕ → ℕ → Store × Result Tokens → Type 0
  Barred user_id who x = IsLockedOut user_id x.0 × ((if who == user_id then counted x.1 else 0) ≡ 0)

  refused :
      (user_id who : ℕ) (st : Store) (e : HttpError)
      → IsLockedOut user_id st
      → Barred user_id who (st, err e)
  refused user_id who st e h = (
    h,
    elim (Bool-cases (who == user_id)) [ inl mine ↦ rw mine refl | inr other ↦ rw other refl ],
  )

  revoked_all :
      (user_id who : ℕ) (st : Store)
      → IsLockedOut user_id st
      → Barred user_id who (revoke_all_user_tokens who st, err reused)
  unfolding revoke_all_user_tokens
  revoked_all user_id who st h =
      refused user_id who (revoke_all_user_tokens who st) reused
        (map-IsLockedOut user_id who st.tokens h)

  rotate-Barred :
      (user_id who : ℕ) (o : Outside) (current : Option RefreshToken) (stored : RefreshToken)
      (st : Store)
      → (who == user_id) ≡ false
      → IsLockedOut user_id st
      → Barred user_id who (rotate o who current stored st)
  unfolding find_row
  rotate-Barred user_id who o none stored st other h = revoked_all user_id who st h
  rotate-Barred user_id who o (some current) stored st other h = (
    rw other (
        set_row-IsLockedOut user_id (is_unrevoked stored.id)
          (record current { revoked = true; replaced_by = some o.token_hash }) st.tokens refl h),
    rw other refl,
  )

  found-Barred :
      (user_id who : ℕ) (o : Outside) (token : String) (stored : Option RefreshToken) (st : Store)
      → find_row (is_candidate compare who token) st.tokens ≡ stored
      → IsLockedOut user_id st
      → Barred user_id who (refresh_found compare o who stored st)
  found-Barred user_id who o token none st e h = refused user_id who st invalid_token h
  found-Barred user_id who o token (some stored) st e h =
      elim (Bool-cases (ltb stored.expires_at o.now)) [
        | inl over ↦ rw over (refused user_id who st (unauthorized_error "Refresh token expired") h)
        | inr valid ↦ rw valid (by_use stored.revoked refl)
      ]
    where
      by_use :
          (b : Bool)
          → stored.revoked ≡ b
          → Barred user_id who (
              if b
              then (revoke_all_user_tokens who st, err reused)
              else rotate o who (find_row (is_unrevoked stored.id) st.tokens) stored st)
      by_use true live = revoked_all user_id who st h
      by_use false live = elim (Bool-cases (who == user_id)) [
        | inr other ↦
            rotate-Barred user_id who o (find_row (is_unrevoked stored.id) st.tokens) stored st
              other h
        | inl mine ↦
            let no = found-live user_id (is_candidate compare who token) stored st.tokens h e in
            let yes_candidate =
              find_row-holds (is_candidate compare who token) stored st.tokens e in
            absurd (ground (arith, no, yes_candidate, live, mine))
      ]

  refresh-Barred :
      (user_id : ℕ) (r : Request) (st : Store)
      → IsLockedOut user_id st
      → Barred user_id r.user_id (refresh compare r.outside r.user_id r.token st)
  unfolding refresh find_and_lock_refresh_token
  refresh-Barred user_id r st h =
      elim (Bool-cases (is_active_account (find_row (has_account_id r.user_id) st.accounts))) [
        | inr inactive ↦
            rw inactive (refused user_id r.user_id st (unauthorized_error "Invalid user") h)
        | inl active ↦ rw active (elim (Bool-cases (str_eq r.token "")) [
          | inl missing ↦ rw missing (refused user_id r.user_id st invalid_token h)
          | inr given ↦ rw given (found-Barred user_id r.user_id r.outside r.token _ st refl h)
        ])
      ]

  locked_out-successes :
      (user_id : ℕ) (rs : List Request) (st : Store)
      → IsLockedOut user_id st
      → successes user_id rs st ≡ 0
  unfolding successes
  locked_out-successes user_id [] st h = refl
  locked_out-successes user_id (r ∷ later) st h =
      let (still, none_in) = refresh-Barred user_id r st h in
      ground (
        arith,
        none_in,
        locked_out-successes user_id later (refresh compare r.outside r.user_id r.token st).0 still,
      )

  reused-IsLockedOut :
      (o : Outside) (user_id : ℕ) (found : Option RefreshToken) (st st' : Store)
      → refresh_found compare o user_id found st ≡ (st', err reused)
      → IsLockedOut user_id st'
  reused-IsLockedOut o user_id none st st' = λ e. absurd (not_reused st st' invalid_token refl e)
  reused-IsLockedOut o user_id (some stored) st st' =
      by_use (ltb stored.expires_at o.now) stored.revoked
        (find_row (is_unrevoked stored.id) st.tokens)
    where
      all_revoked :
          ◌≡◌ {A = Store × Result Tokens}
            (revoke_all_user_tokens user_id st, err reused)
            (st', err reused)
          → IsLockedOut user_id st'
      all_revoked h =
          subst (IsLockedOut user_id) (ap (λ (x : Store × Result Tokens). x.0) h)
            (revoke_all-IsLockedOut user_id st)

      by_use :
          (a b : Bool) (current : Option RefreshToken)
          → (if a
              then (st, err (unauthorized_error "Refresh token expired"))
              else if b
              then (revoke_all_user_tokens user_id st, err reused)
              else rotate o user_id current stored st)
            ≡ (st', err reused)
          → IsLockedOut user_id st'
      by_use true b current h =
          absurd (not_reused st st' (unauthorized_error "Refresh token expired") refl h)
      by_use false true current h = all_revoked h
      by_use false false none h = all_revoked h
      by_use false false (some current) h =
          let clash : ok (pair_of o) ≡ err reused = ap (λ (x : Store × Result Tokens). x.1) h in cc

  -- When a refresh is refused because its token was used before, then no refresh of that user by any
  -- token succeeds from then on, whatever requests for refreshes follow.
  pub reuse-successes :
      (o : Outside) (user_id : ℕ) (token : String) (st st' : Store) (rs : List Request)
      → refresh compare o user_id token st ≡ (st', err reused)
      → successes user_id rs st' ≡ 0
  unfolding refresh find_and_lock_refresh_token
  reuse-successes o user_id token st st' rs e =
      locked_out-successes user_id rs st'
        (elim (Bool-cases (is_active_account (find_row (has_account_id user_id) st.accounts))) [
          | inr inactive ↦ absurd (
              not_reused st st' (unauthorized_error "Invalid user") refl
                (rw (refresh, inactive) at e))
          | inl active ↦ elim (Bool-cases (str_eq token "")) [
            | inl missing ↦
                absurd (not_reused st st' invalid_token refl (rw (refresh, active, missing) at e))
            | inr given ↦
                reused-IsLockedOut o user_id
                  (find_row (is_candidate compare user_id token) st.tokens) st st'
                  (rw (refresh, active, given) at e)
          ]
        ])

  -- After a change of a user's password succeeds, no request for a refresh of that user by any token
  -- succeeds, whatever requests for refreshes, by anyone, follow. A log-in in between, which gives a
  -- new token, is not among them.
  pub change_password-successes :
      (o : Outside) (user_id : ℕ) (old : String) (st st' : Store) (rs : List Request)
      → change_password compare o user_id old st ≡ (st', ok tt)
      → successes user_id rs st' ≡ 0
  unfolding change_password
  change_password-successes o user_id old st st' rs e = locked_out-successes user_id rs st' (go _ e)
    where
      go :
          (a : Option Account)
          → changed compare o user_id old a st ≡ (st', ok tt)
          → IsLockedOut user_id st'
      go none h = ground (arith, h)
      go (some a) h = elim (Bool-cases (compare old a.password)) [
        | inr bad ↦ ground (arith, bad, h)
        | inl good ↦
            let st1 : Store = record st {
              accounts =
                  set_row (has_account_id user_id) (record a { password = o.password_hash })
                    st.accounts;
            } in
            let same : revoke_all_user_tokens user_id st1 ≡ st' = ground (arith, good, h) in
            subst (IsLockedOut user_id) same (revoke_all-IsLockedOut user_id st1)
      ]
