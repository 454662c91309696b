-- ===== src/Auth/Examples.antt =====
-- Refreshes and log-outs on small data, and instances of the theorems on them.
use https_github_com_sv3t0v.Common.{
  ◌≡◌, refl, String, Bool, true, false, none, some, List, [], keep_rows, ◌∷◌, find_row, set_row,
  str_eq,
}
use https_github_com_sv3t0v.Http.{ok, err}
use https_github_com_sv3t0v.Auth.{
  Account, RefreshToken, Store, Outside, has_token_id, pair_of, reused, revoke_all_user_tokens,
  find_and_lock_refresh_token, is_candidate, refresh, change_password,
}
use https_github_com_sv3t0v.Auth.Rotation.{
  Request, successes, reuse-successes, change_password-successes,
}
use https_github_com_sv3t0v.Auth.Once.{Refusal, refresh-once}
use https_github_com_sv3t0v.Auth.Operations.{
  Operation, logging_in, refreshing, logging_out, cleaning_up, run,
}
use https_github_com_sv3t0v.Auth.Logout.{walk, contains, logout}

-- A stand-in for bcrypt: a text is its own hash.
abbrev compare : String → String → Bool
compare text hash = str_eq text hash

abbrev account : Account
account = record { id = 1; email = "e"; password = "p"; is_active = true }

abbrev first : RefreshToken
first = record {
  id = 5;
  token_hash = "a";
  expires_at = 100;
  revoked = false;
  replaced_by = none;
  user_id = 1;
}

abbrev store : Store
store = record { accounts = account ∷ []; tokens = first ∷ []; next_id = 6 }

abbrev outside : Outside
outside = record {
  now = 10;
  access = "x";
  token = "b";
  token_hash = "b";
  password_hash = "q";
  expires_at = 110;
}

abbrev second : RefreshToken
second = record {
  id = 6;
  token_hash = "b";
  expires_at = 110;
  revoked = false;
  replaced_by = none;
  user_id = 1;
}

abbrev rotated : Store
rotated = record {
  accounts = account ∷ [];
  tokens = second ∷ record first { revoked = true; replaced_by = some "b" } ∷ [];
  next_id = 7;
}

test_refresh : refresh compare outside 1 "a" store ≡ (rotated, ok (pair_of outside))
unfolding refresh find_and_lock_refresh_token find_row set_row
test_refresh = refl

test_found : find_and_lock_refresh_token compare 1 "a" store ≡ some first
unfolding find_and_lock_refresh_token find_row
test_found = refl

test_key : find_row (has_token_id 5) store.tokens ≡ some first
unfolding find_row
test_key = refl

abbrev later : Outside
later = record {
  now = 20;
  access = "y";
  token = "c";
  token_hash = "c";
  password_hash = "r";
  expires_at = 120;
}

test_one : keep_rows (is_candidate compare 1 "a") store.tokens ≡ first ∷ []
unfolding keep_rows
test_one = refl

-- A log-in, a refresh of the new token, a log-out of another user and a clean-up come in between.
abbrev operations : List Operation
operations =
    logging_in later "e" "p" ∷ refreshing later 1 "b" ∷ logging_out 2 "a" ∷ cleaning_up 50 ∷ []

refresh-once_example :
    Refusal compare 1
      (run compare operations rotated)
      (refresh compare later 1 "a" (run compare operations rotated))
refresh-once_example =
    refresh-once compare outside later 1 "a" first store rotated (pair_of outside) operations refl
      (refl, (refl, (refl, (refl, tt)))) test_one test_key test_refresh

abbrev shut : Store
shut = record rotated {
  tokens =
      record second { revoked = true }
      ∷ record first { revoked = true; replaced_by = some "b" }
      ∷ [];
}

test_reuse : refresh compare later 1 "a" rotated ≡ (shut, err reused)
unfolding refresh find_and_lock_refresh_token revoke_all_user_tokens find_row
test_reuse = refl

abbrev request : Request
request = record { outside = later; user_id = 1; token = "b" }

reuse-successes_example : successes compare 1 (request ∷ []) shut ≡ 0
reuse-successes_example = reuse-successes compare later 1 "a" rotated shut (request ∷ []) test_reuse

abbrev changed_store : Store
changed_store = record store {
  accounts = record account { password = "q" } ∷ [];
  tokens = record first { revoked = true } ∷ [];
}

test_change : change_password compare outside 1 "p" store ≡ (changed_store, ok tt)
unfolding change_password revoke_all_user_tokens find_row set_row
test_change = refl

change_password-successes_example : successes compare 1 (request ∷ []) changed_store ≡ 0
change_password-successes_example =
    change_password-successes compare outside 1 "p" store changed_store (request ∷ []) test_change

-- A log-out with the token that was replaced.
abbrev replaced_row : RefreshToken
replaced_row = record first { revoked = true; replaced_by = some "b" }

test_logout : logout compare 1 "a" rotated ≡ shut
unfolding logout walk contains find_and_lock_refresh_token find_row set_row
test_logout = refl
