-- ===== src/Auth/Logout/Chains.antt =====
-- The token that `logout` revokes: the end of the chain of replacements, if there is one.
use https_github_com_sv3t0v.Common.{
  ℕ, zero, suc, ◌≤◌, ◌≡◌, String, Bool, true, false, none, some, List, ◌==◌, find_row,
}
use https_github_com_sv3t0v.Auth.{RefreshToken, Store, has_token_id}
use https_github_com_sv3t0v.Auth.Logout.{
  Walk, reached, returned, out_of_rounds, contains, is_hash_of,
}

is_returned : Walk → Bool
is_returned (reached t) = false
is_returned returned = true
is_returned out_of_rounds = false

is_reached : Walk → Bool
is_reached (reached t) = true
is_reached returned = false
is_reached out_of_rounds = false

-- The replacements of a token, up to one that has none.
pub data Chain (user_id : ℕ) (ts : List RefreshToken) (end : RefreshToken)
    : RefreshToken → Type 0 where
  ends : end.replaced_by ≡ none → Chain user_id ts end end
  replaced :
      (t r : RefreshToken) (h : String)
      → t.replaced_by ≡ some h
      → find_row (is_hash_of user_id h) ts ≡ some r
      → Chain user_id ts end r
      → Chain user_id ts end t

abbrev links :
    {user_id : ℕ} {ts : List RefreshToken} {end t : RefreshToken} → Chain user_id ts end t → ℕ
links (Chain.ends e) = zero
links (Chain.replaced t r h e found c) = suc (links c)

-- From a row with a visited hash it is at least so far to the end.
abbrev AreFar : ℕ → List RefreshToken → List String → ℕ → Type 0
AreFar user_id ts visited n =
    (h : String) (r end : RefreshToken)
    → contains visited h ≡ true
    → find_row (is_hash_of user_id h) ts ≡ some r
    → (c : Chain user_id ts end r) → n ≤ links c

-- A row that some condition finds is the row of its id.
abbrev pub HasUniqueIds : List RefreshToken → Type 0
HasUniqueIds ts =
    (p : RefreshToken → Bool) (r : RefreshToken)
    → find_row p ts ≡ some r
    → find_row (has_token_id r.id) ts ≡ some r

-- The token is revoked, and of the other rows, as of the accounts, all is as it was.
pub record IsRevoked (end : RefreshToken) (st st' : Store) : Type 0 where
  pub row : find_row (has_token_id end.id) st'.tokens ≡ some (record end { revoked = true })
  pub others :
      (id : ℕ)
      → (end.id == id) ≡ false
      → find_row (has_token_id id) st'.tokens ≡ find_row (has_token_id id) st.tokens
  pub accounts : st'.accounts ≡ st.accounts

-- The end of the chain of replacements is revoked; where the chain has none, nothing has changed.
pub data LoggedOut (user_id : ℕ) (t : RefreshToken) (st : Store) : Store → Type 0 where
  ended :
      (end : RefreshToken) (st' : Store)
      → Chain user_id st.tokens end t
      → IsRevoked end st st'
      → LoggedOut user_id t st st'
  broken : ((end : RefreshToken) → ¬ Chain user_id st.tokens end t) → LoggedOut user_id t st st
