-- ===== src/Auth/Once.antt =====
-- A refresh token that was used once is refused from then on.
use https_github_com_sv3t0v.Common.{
  ℕ, ◌≡◌, refl, sym, subst, inl, inr, String, Bool, List, [], ◌∷◌, keep_rows, none, All, true,
  false, not, Option, some, arith, ltb, str_eq, if◌then◌else◌, find_row, set_row, Bool-cases,
  find_row-holds, find_row-and,
}
use https_github_com_sv3t0v.Http.{HttpError, Result, ok, err, unauthorized_error}
use https_github_com_sv3t0v.Auth.{
  expired, RefreshToken, Store, Tokens, Outside, has_account_id, has_token_id, invalid_token,
  reused, revoke_all_user_tokens, is_unrevoked, is_candidate, find_and_lock_refresh_token, rotate,
  refresh_found, is_active_account, refresh,
}
use https_github_com_sv3t0v.Auth.Operations.{Operation, run, makes_hash_of}
use https_github_com_sv3t0v.Auth.Spent.{is_good, IsSpent, new_token-IsSpent, run-IsSpent}
use https_github_com_sv3t0v.Auth.Granted.{used, refresh-IsUsed}

module _ (compare : String → String → Bool) where
  no-match :
      (user_id : ℕ) (token : String) (ts : List RefreshToken)
      → keep_rows (is_candidate compare user_id token) ts ≡ []
      → find_row (is_good compare user_id token) ts ≡ none
  unfolding keep_rows find_row
  no-match user_id token [] h = refl
  no-match user_id token (t ∷ ts) h = elim (Bool-cases (is_candidate compare user_id token t)) [
    | inl head ↦ ground (arith, head, h)
    | inr other ↦ ground (arith, other, no-match user_id token ts (rw other at h))
  ]

  -- Where one row alone matches, and is revoked, no live row matches.
  only-revoked :
      (user_id : ℕ) (token : String) (q : RefreshToken → Bool) (x y : RefreshToken)
      (ts : List RefreshToken)
      → is_candidate compare user_id token x ≡ true
      → y.revoked ≡ true
      → keep_rows (is_candidate compare user_id token) ts ≡ x ∷ []
      → find_row q ts ≡ some x
      → find_row (is_good compare user_id token) (set_row q y ts) ≡ none
  unfolding keep_rows find_row set_row
  only-revoked user_id token q x y [] c r one e = cc
  only-revoked user_id token q x y (t ∷ ts) c r one e = elim (Bool-cases (q t)) [
    | inl hit ↦
        let same : t ≡ x = ground (arith, hit, e) in
        let head : is_candidate compare user_id token t ≡ true = rw same c in
        let no_more : keep_rows (is_candidate compare user_id token) ts ≡ [] =
          ground (arith, head, one) in
        rw hit (ground (arith, r, no-match user_id token ts no_more))
    | inr miss ↦ elim (Bool-cases (is_candidate compare user_id token t)) [
      | inl head ↦
          let same : t ≡ x = ground (arith, head, one) in
          let holds = find_row-holds q x ts (rw miss at e) in
          let clash : q t ≡ true = rw same holds in cc
      | inr other ↦
          let ih = only-revoked user_id token q x y ts c r (rw other at one) (rw miss at e) in
          ground (arith, miss, other, ih)
    ]
  ]

  keep_rows-find_row :
      (p : RefreshToken → Bool) (x : RefreshToken) (ts : List RefreshToken)
      → keep_rows p ts ≡ x ∷ []
      → find_row p ts ≡ some x
  unfolding keep_rows find_row
  keep_rows-find_row p x [] one = cc
  keep_rows-find_row p x (t ∷ ts) one = elim (Bool-cases (p t)) [
    | inl hit ↦ let same : t ≡ x = ground (arith, hit, one) in ground (arith, hit, same)
    | inr miss ↦ ground (arith, miss, keep_rows-find_row p x ts (rw miss at one))
  ]

  used-IsSpent :
      (o : Outside) (user_id : ℕ) (token : String) (stored : RefreshToken) (st : Store)
      → compare token o.token_hash ≡ false
      → keep_rows (is_candidate compare user_id token) st.tokens ≡ stored ∷ []
      → find_row (has_token_id stored.id) st.tokens ≡ some stored
      → stored.revoked ≡ false
      → IsSpent compare user_id token (used o user_id stored st)
  used-IsSpent o user_id token stored st apart one key live =
      let found = keep_rows-find_row (is_candidate compare user_id token) stored st.tokens one in
      let current =
        find_row-and (has_token_id stored.id) (λ t. not t.revoked) stored st.tokens key
          (ground (arith, live)) in
      new_token-IsSpent compare user_id token o st.next_id user_id _ apart (
        only-revoked user_id token (is_unrevoked stored.id) stored
          (record stored { revoked = true; replaced_by = some o.token_hash }) st.tokens
          (find_row-holds (is_candidate compare user_id token) stored st.tokens found) refl one
          current)

  -- A refusal: nothing has changed, or every live token of the user is revoked.
  pub data Refusal (user_id : ℕ) (st : Store) : Store × Result Tokens → Type 0 where
    unchanged : (e : HttpError) → Refusal user_id st (st, err e)
    all_revoked : Refusal user_id st (revoke_all_user_tokens user_id st, err reused)

  spent-Refusal :
      (o : Outside) (user_id : ℕ) (token : String) (st : Store)
      → IsSpent compare user_id token st
      → Refusal user_id st (refresh compare o user_id token st)
  unfolding refresh find_and_lock_refresh_token
  spent-Refusal o user_id token st spent =
      go (is_active_account (find_row (has_account_id user_id) st.accounts)) (str_eq token "") _
        refl
    where
      by_use :
          (stored : RefreshToken) (a b : Bool)
          → stored.revoked ≡ b
          → find_and_lock_refresh_token compare user_id token st ≡ some stored
          → Refusal user_id st (
              if a
              then (st, err expired)
              else if b
              then (revoke_all_user_tokens user_id st, err reused)
              else rotate o user_id (find_row (is_unrevoked stored.id) st.tokens) stored st)
      by_use stored true b r e = Refusal.unchanged expired
      by_use stored false true r e = Refusal.all_revoked
      by_use stored false false r e =
          let live =
            find_row-and (is_candidate compare user_id token) (λ t. not t.revoked) stored st.tokens
              e (ground (arith, r)) in
          cc

      go :
          (a b : Bool) (f : Option RefreshToken)
          → find_and_lock_refresh_token compare user_id token st ≡ f
          → Refusal user_id st (
              if not a
              then (st, err (unauthorized_error "Invalid user"))
              else if b
              then (st, err invalid_token)
              else refresh_found compare o user_id f st)
      go false b f e = Refusal.unchanged (unauthorized_error "Invalid user")
      go true true f e = Refusal.unchanged invalid_token
      go true false none e = Refusal.unchanged invalid_token
      go true false (some stored) e =
          by_use stored (ltb stored.expires_at o.now) stored.revoked refl e

  -- A refresh token that a refresh was granted for is refused at any later use, whatever
  -- registrations, log-ins, refreshes, log-outs, changes of password and clean-ups, by anyone, come in
  -- between: the answer is an error, and nothing has changed, or every live token of the user is
  -- revoked. At its first use one row alone of the user matched the token, and it was the row of its
  -- id; and no hash that is made for a new token, in that refresh or later, is one of the token.
  pub refresh-once :
      (o o' : Outside) (user_id : ℕ) (token : String) (stored : RefreshToken) (st st' : Store)
      (pair : Tokens) (ops : List Operation)
      → compare token o.token_hash ≡ false
      → All (λ op. makes_hash_of compare token op ≡ false) ops
      → keep_rows (is_candidate compare user_id token) st.tokens ≡ stored ∷ []
      → find_row (has_token_id stored.id) st.tokens ≡ some stored
      → refresh compare o user_id token st ≡ (st', ok pair)
      → Refusal user_id
          (run compare ops st')
          (refresh compare o' user_id token (run compare ops st'))
  unfolding find_and_lock_refresh_token
  refresh-once o o' user_id token stored st st' pair ops apart later one key e =
      let found = keep_rows-find_row (is_candidate compare user_id token) stored st.tokens one in
      let u = refresh-IsUsed compare o user_id token stored st st' pair found key e in
      spent-Refusal o' user_id token (run compare ops st') (
        run-IsSpent compare user_id token ops st' later (
          subst (IsSpent compare user_id token) (sym u.result)
            (used-IsSpent o user_id token stored st apart one key u.live)))
