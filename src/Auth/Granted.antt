-- ===== src/Auth/Granted.antt =====
-- What a refresh that succeeds has found, and what it leaves.
use https_github_com_sv3t0v.Common.{
  ℕ, ◌≡◌, ◌∙◌, refl, sym, ap, subst, String, Bool, true, false, not, Option, some, arith, ltb,
  str_eq, if◌then◌else◌, find_row, set_row, find_row-and,
}
use https_github_com_sv3t0v.Http.{HttpError, Result, ok, err, unauthorized_error}
use https_github_com_sv3t0v.Auth.{
  expired, RefreshToken, Store, Tokens, Outside, has_account_id, has_token_id, add_token,
  invalid_token, reused, revoke_all_user_tokens, is_unrevoked, find_and_lock_refresh_token, rotate,
  refresh_found, is_active_account, refresh,
}

abbrev is_err : Result Tokens → Bool
is_err (err e) = true
is_err (ok t) = false

-- The store after a token was used.
abbrev pub used : Outside → ℕ → RefreshToken → Store → Store
used o user_id stored st = add_token o user_id (record st {
  tokens =
      set_row (is_unrevoked stored.id)
        (record stored { revoked = true; replaced_by = some o.token_hash }) st.tokens;
})

module _ (compare : String → String → Bool) where
  -- What a refresh that succeeds has found.
  pub record IsUsed (o : Outside) (user_id : ℕ) (token : String) (stored : RefreshToken)
      (st st' : Store) : Type 0 where
    pub active : is_active_account (find_row (has_account_id user_id) st.accounts) ≡ true
    pub given : str_eq token "" ≡ false
    pub live : stored.revoked ≡ false
    pub result : st' ≡ used o user_id stored st

  pub refresh-IsUsed :
      (o : Outside) (user_id : ℕ) (token : String) (stored : RefreshToken) (st st' : Store)
      (pair : Tokens)
      → find_and_lock_refresh_token compare user_id token st ≡ some stored
      → find_row (has_token_id stored.id) st.tokens ≡ some stored
      → refresh compare o user_id token st ≡ (st', ok pair)
      → IsUsed o user_id token stored st st'
  unfolding refresh
  refresh-IsUsed o user_id token stored st st' pair found key =
      go (is_active_account (find_row (has_account_id user_id) st.accounts)) (str_eq token "") _
        refl refl refl
    where
      failed :
          {A : Type 0} (x : Store) (e : HttpError)
          → ◌≡◌ {A = Store × Result Tokens} (x, err e) (st', ok pair)
          → A
      failed x e h =
          let clash : true ≡ false = ap (λ (y : Store × Result Tokens). is_err y.1) h in cc

      by_use :
          (a b : Bool)
          → stored.revoked ≡ b
          → (if a
              then (st, err expired)
              else if b
              then (revoke_all_user_tokens user_id st, err reused)
              else rotate o user_id (find_row (is_unrevoked stored.id) st.tokens) stored st)
            ≡ (st', ok pair)
          → (stored.revoked ≡ false) × (st' ≡ used o user_id stored st)
      by_use true b r h = failed st expired h
      by_use false true r h = failed (revoke_all_user_tokens user_id st) reused h
      by_use false false r h =
          let free : not stored.revoked ≡ true = ground (arith, r) in
          let current =
            find_row-and (has_token_id stored.id) (λ t. not t.revoked) stored st.tokens key free in
          let h' : rotate o user_id (some stored) stored st ≡ (st', ok pair) =
            subst (λ c. rotate o user_id c stored st ≡ (st', ok pair)) current h in
          (r, sym (ap (λ (x : Store × Result Tokens). x.0) h'))

      go :
          (a b : Bool) (f : Option RefreshToken)
          → is_active_account (find_row (has_account_id user_id) st.accounts) ≡ a
          → str_eq token "" ≡ b
          → find_and_lock_refresh_token compare user_id token st ≡ f
          → (if not a
              then (st, err (unauthorized_error "Invalid user"))
              else if b
              then (st, err invalid_token)
              else refresh_found compare o user_id f st)
            ≡ (st', ok pair)
          → IsUsed o user_id token stored st st'
      go false b f p q r h = failed st (unauthorized_error "Invalid user") h
      go true true f p q r h = failed st invalid_token h
      go true false f p q r h =
          let (live, result) = by_use (ltb stored.expires_at o.now) stored.revoked refl (
            subst (λ x. refresh_found compare o user_id x st ≡ (st', ok pair)) (sym r ∙ found) h) in
          record { active = p; given = q; live = live; result = result }
