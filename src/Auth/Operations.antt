-- ===== src/Auth/Operations.antt =====
-- backend/src/auth/auth.service.ts: what is asked of it, as a sequence of operations.
use https_github_com_sv3t0v.Common.{ℕ, String, Bool, false, List, [], ◌∷◌}
use https_github_com_sv3t0v.Auth.{
  Store, Outside, register, login, refresh, change_password, cleanup_expired_tokens,
}
use https_github_com_sv3t0v.Auth.Logout.{logout}

-- A registration, a log-in, a refresh, a log-out, a change of password, and the clean-up.
pub data Operation : Type 0 where
  registering : Outside → String → Operation
  logging_in : Outside → String → String → Operation
  refreshing : Outside → ℕ → String → Operation
  logging_out : ℕ → String → Operation
  changing_password : Outside → ℕ → String → Operation
  cleaning_up : ℕ → Operation

module _ (compare : String → String → Bool) where
  unfoldable pub perform : Operation → Store → Store
  perform (registering o email) st = (register o email st).0
  perform (logging_in o email password) st = (login compare o email password st).0
  perform (refreshing o user_id token) st = (refresh compare o user_id token st).0
  perform (logging_out user_id token) st = logout compare user_id token st
  perform (changing_password o user_id old) st = (change_password compare o user_id old st).0
  perform (cleaning_up now) st = cleanup_expired_tokens now st

  unfoldable pub run : List Operation → Store → Store
  unfolding perform
  run [] st = st
  run (op ∷ later) st = run later (perform op st)

  -- The hash that an operation makes for a new token is one of the given token.
  abbrev pub makes_hash_of : String → Operation → Bool
  makes_hash_of token (registering o email) = compare token o.token_hash
  makes_hash_of token (logging_in o email password) = compare token o.token_hash
  makes_hash_of token (refreshing o user_id used) = compare token o.token_hash
  makes_hash_of token (logging_out user_id used) = false
  makes_hash_of token (changing_password o user_id old) = false
  makes_hash_of token (cleaning_up now) = false
