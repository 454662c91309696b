-- ===== src/Auth.antt =====
-- backend/src/auth/auth.service.ts: accounts, and refresh tokens that are rotated at every use. A
-- transaction under the lock of its token is one step. What is random or signed, the hashes of bcrypt
-- and the time of expiry, comes from the outside.
pub mod Revocation
pub mod Rotation
pub mod Logout
pub mod Operations
pub mod Granted
pub mod Spent
pub mod Once
mod Examples
use https_github_com_sv3t0v.Common.{
  ℕ, zero, suc, ◌+◌, String, Bool, true, false, not, ◌&&◌, ◌||◌, Option, none, some, List, [], ◌∷◌,
  map, ltb, ◌==◌, str_eq, if◌then◌else◌, find_row, set_row, keep_rows, length,
}
use https_github_com_sv3t0v.Http.{
  HttpError, Result, ok, err, ◌>>=◌, ◌>>◌, throw_if, unauthorized_error, conflict,
}
use https_github_com_sv3t0v.Uploads.Create.{or_throw}

pub record Account : Type 0 where
  pub id : ℕ
  pub email : String
  pub password : String
  pub is_active : Bool

pub record RefreshToken : Type 0 where
  pub id : ℕ
  pub token_hash : String
  pub expires_at : ℕ
  pub revoked : Bool
  pub replaced_by : Option String
  pub user_id : ℕ

pub record Store : Type 0 where
  pub accounts : List Account
  pub tokens : List RefreshToken
  pub next_id : ℕ

pub record Tokens : Type 0 where
  pub access_token : String
  pub refresh_token : String

-- The clock, the tokens that are signed, the hashes that are made, and the expiry of a new token.
pub record Outside : Type 0 where
  pub now : ℕ
  pub access : String
  pub token : String
  pub token_hash : String
  pub password_hash : String
  pub expires_at : ℕ

abbrev pub has_account_id : ℕ → Account → Bool
has_account_id id a = a.id == id

abbrev pub has_email : String → Account → Bool
has_email email a = str_eq a.email email

abbrev pub has_token_id : ℕ → RefreshToken → Bool
has_token_id id t = t.id == id

abbrev pub new_token : Outside → ℕ → ℕ → RefreshToken
new_token o id user_id = record {
  id = id;
  token_hash = o.token_hash;
  expires_at = o.expires_at;
  revoked = false;
  replaced_by = none;
  user_id = user_id;
}

abbrev pub add_token : Outside → ℕ → Store → Store
add_token o user_id st = record st {
  tokens = new_token o st.next_id user_id ∷ st.tokens;
  next_id = suc st.next_id;
}

abbrev pub pair_of : Outside → Tokens
pair_of o = record { access_token = o.access; refresh_token = o.token }

unfoldable pub register : Outside → String → Store → Store × Result Tokens
register o email st = elim (find_row (has_email email) st.accounts) [
  | some a ↦ (st, err (conflict "User with this email already exists"))
  | none ↦
      let a : Account = record {
        id = st.next_id;
        email = email;
        password = o.password_hash;
        is_active = true;
      } in
      (
        add_token o a.id (record st { accounts = a ∷ st.accounts; next_id = suc st.next_id }),
        ok (pair_of o),
      )
]

abbrev pub invalid_credentials : HttpError
invalid_credentials = unauthorized_error "Invalid credentials"

abbrev pub invalid_token : HttpError
invalid_token = unauthorized_error "Invalid refresh token"

abbrev pub reused : HttpError
reused = unauthorized_error "Refresh token was reused"

abbrev pub expired : HttpError
expired = unauthorized_error "Refresh token expired"

-- A row of the user that is not revoked.
abbrev pub is_live_of : ℕ → RefreshToken → Bool
is_live_of user_id t = t.user_id == user_id && not t.revoked

abbrev pub revoke_live : ℕ → RefreshToken → RefreshToken
revoke_live user_id t = if is_live_of user_id t then record t { revoked = true } else t

unfoldable pub revoke_all_user_tokens : ℕ → Store → Store
revoke_all_user_tokens user_id st = record st { tokens = map (revoke_live user_id) st.tokens }

-- `{ id, revoked: false }`
abbrev pub is_unrevoked : ℕ → RefreshToken → Bool
is_unrevoked id t = t.id == id && not t.revoked

-- The update of the used token, and the new one.
abbrev pub rotate : Outside → ℕ → Option RefreshToken → RefreshToken → Store → Store × Result Tokens
rotate o user_id none stored st = (revoke_all_user_tokens user_id st, err reused)
rotate o user_id (some current) stored st = (
  add_token o user_id (record st {
    tokens =
        set_row (is_unrevoked stored.id)
          (record current { revoked = true; replaced_by = some o.token_hash }) st.tokens;
  }),
  ok (pair_of o),
)

abbrev pub is_active_account : Option Account → Bool
is_active_account none = false
is_active_account (some a) = a.is_active

module _ (compare : String → String → Bool) where
  unfoldable pub login : Outside → String → String → Store → Store × Result Tokens
  login o email password st = elim (find_row (has_email email) st.accounts) [
    | none ↦ (st, err invalid_credentials)
    | some a ↦
        if a.is_active && compare password a.password
        then (add_token o a.id st, ok (pair_of o))
        else (st, err invalid_credentials)
  ]

  abbrev pub is_candidate : ℕ → String → RefreshToken → Bool
  is_candidate user_id token t = t.user_id == user_id && compare token t.token_hash

  unfoldable pub find_and_lock_refresh_token : ℕ → String → Store → Option RefreshToken
  find_and_lock_refresh_token user_id token st = find_row (is_candidate user_id token) st.tokens

  abbrev pub refresh_found : Outside → ℕ → Option RefreshToken → Store → Store × Result Tokens
  refresh_found o user_id none st = (st, err invalid_token)
  refresh_found o user_id (some stored) st =
      if ltb stored.expires_at o.now
      then (st, err expired)
      else if stored.revoked
      then (revoke_all_user_tokens user_id st, err reused)
      else rotate o user_id (find_row (is_unrevoked stored.id) st.tokens) stored st

  unfoldable pub refresh : Outside → ℕ → String → Store → Store × Result Tokens
  unfolding find_and_lock_refresh_token revoke_all_user_tokens
  refresh o user_id token st =
      if not (is_active_account (find_row (has_account_id user_id) st.accounts))
      then (st, err (unauthorized_error "Invalid user"))
      else if str_eq token ""
      then (st, err invalid_token)
      else refresh_found o user_id (find_and_lock_refresh_token user_id token st) st

  abbrev pub changed : Outside → ℕ → String → Option Account → Store → Store × Result (Unit {0})
  changed o user_id old none st = (st, err (unauthorized_error "User not found"))
  changed o user_id old (some a) st =
      if compare old a.password
      then (
        revoke_all_user_tokens user_id (record st {
          accounts =
              set_row (has_account_id user_id) (record a { password = o.password_hash })
                st.accounts;
        }),
        ok tt,
      )
      else (st, err (unauthorized_error "Current password is incorrect"))

  unfoldable pub change_password : Outside → ℕ → String → Store → Store × Result (Unit {0})
  unfolding revoke_all_user_tokens
  change_password o user_id old st =
      changed o user_id old (find_row (has_account_id user_id) st.accounts) st

-- `LessThan(new Date())`
unfoldable pub cleanup_expired_tokens : ℕ → Store → Store
cleanup_expired_tokens now st = record st {
  tokens = keep_rows (λ t. not (ltb t.expires_at now)) st.tokens;
}
