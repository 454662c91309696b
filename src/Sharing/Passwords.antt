-- ===== src/Sharing/Passwords.antt =====
-- backend/src/sharing/sharing.service.ts: `verifySharePassword` and `verifyPublicPassword`.
use https_github_com_sv3t0v.Common.{
  ℕ, ◌+◌, String, Bool, true, false, not, ◌&&◌, ◌||◌, Option, none, some, List, map, ltb, leb, ◌==◌,
  if◌then◌else◌, find_row, set_row, length,
}
use https_github_com_sv3t0v.Http.{HttpError, Result, ok, err, bad_request, forbidden}
use https_github_com_sv3t0v.Text.{Text}
use https_github_com_sv3t0v.Uploads.{Db}
use https_github_com_sv3t0v.Sharing.{ShareLink, has_share_id, is_past, find_share_by_token}

abbrev pub lock_threshold : ℕ
lock_threshold = 5

-- `INTERVAL '15 minutes'`
abbrev pub lock_ms : ℕ
lock_ms = 900000

abbrev pub too_many : HttpError
too_many = forbidden "Too many password attempts"

abbrev pub invalid_password : HttpError
invalid_password = forbidden "Invalid password"

-- `lockedUntil > now`
abbrev pub is_locked : ℕ → ShareLink → Bool
is_locked now s = elim s.locked_until [ none ↦ false | some t ↦ ltb now t ]

-- The SET of the statement.
abbrev pub fail_once : ℕ → ShareLink → ShareLink
fail_once now s = elim s.locked_until [
  | none ↦
      if leb lock_threshold (s.failed_attempts + 1)
      then record s { failed_attempts = s.failed_attempts + 1; locked_until = some (now + lock_ms) }
      else record s { failed_attempts = s.failed_attempts + 1 }
  | some t ↦
      if leb t now
      then record s { failed_attempts = 1; locked_until = none }
      else if leb lock_threshold (s.failed_attempts + 1)
      then record s { failed_attempts = s.failed_attempts + 1; locked_until = some (now + lock_ms) }
      else record s { failed_attempts = s.failed_attempts + 1 }
]

abbrev pub no_lock : ShareLink → Bool
no_lock s = elim s.locked_until [ none ↦ true | some t ↦ false ]

-- Its WHERE. `grouped` tells whether the query builder puts brackets around the second condition,
-- `lockedUntil IS NULL OR lockedUntil <= NOW()`, before it joins it to the first by AND.
abbrev pub is_selected : Bool → ℕ → ℕ → ShareLink → Bool
is_selected grouped id now s =
    if grouped
    then s.id == id && (no_lock s || is_past now s.locked_until)
    else (s.id == id && no_lock s) || is_past now s.locked_until

abbrev pub count_failure : Bool → ℕ → ℕ → ShareLink → ShareLink
count_failure grouped id now s = if is_selected grouped id now s then fail_once now s else s

-- `result.raw[0]`
abbrev pub returned : ℕ → Option ShareLink → Option ℕ
returned now none = none
returned now (some s) = some (fail_once now s).failed_attempts

abbrev pub reset : ShareLink → List ShareLink → List ShareLink
reset s shares = elim (find_row (has_share_id s.id) shares) [
  | none ↦ shares
  | some current ↦
      set_row (has_share_id s.id) (record current { failed_attempts = 0; locked_until = none })
        shares
]

module _ (grouped : Bool) (compare : Text → String → Bool) where
  -- After the statement: `shares` are the links by then, `s` is the link as it was read.
  abbrev pub check_password :
      ShareLink → String → Text → Option ℕ → List ShareLink → List ShareLink × Result (Unit {0})
  check_password s hash password none shares = (shares, err too_many)
  check_password s hash password (some failures) shares =
      if leb lock_threshold failures
      then (shares, err too_many)
      else if compare password hash
      then (if ltb 0 s.failed_attempts || not (no_lock s) then reset s shares else shares, ok tt)
      else (shares, err invalid_password)

  abbrev pub verify_found :
      ℕ → Text → ShareLink → Option String → List ShareLink → List ShareLink × Result (Unit {0})
  verify_found now password s none shares =
      (shares, err (forbidden "Password not required for this share link"))
  verify_found now password s (some hash) shares =
      if is_locked now s
      then (shares, err too_many)
      else check_password s hash password
          (returned now (find_row (is_selected grouped s.id now) shares))
          (map (count_failure grouped s.id now) shares)

  abbrev pub verify_read :
      ℕ → Text → Result ShareLink → List ShareLink → List ShareLink × Result (Unit {0})
  verify_read now password (err e) shares = (shares, err e)
  verify_read now password (ok s) shares = verify_found now password s s.password shares

  unfoldable pub verify_share_password :
      ℕ → String → Text → Db → List ShareLink → List ShareLink × Result (Unit {0})
  unfolding find_share_by_token
  verify_share_password now token password db shares =
      verify_read now password (find_share_by_token now token db shares) shares

-- `password.length > 1024` is refused before it is compared.
abbrev pub verify_public :
    Bool
    → (Text → String → Bool)
    → ShareLink
    → Option Text
    → ℕ
    → Db
    → List ShareLink
    → List ShareLink × Result (Unit {0})
verify_public grouped compare s none now db shares =
    (shares, err (bad_request "Password is required or invalid"))
verify_public grouped compare s (some password) now db shares =
    if length password == 0 || ltb 1024 (length password)
    then (shares, err (bad_request "Password is required or invalid"))
    else verify_share_password grouped compare now s.token password db shares

unfoldable pub verify_public_password :
    Bool
    → (Text → String → Bool)
    → ShareLink
    → Option Text
    → ℕ
    → Db
    → List ShareLink
    → List ShareLink × Result (Unit {0})
unfolding verify_share_password
verify_public_password grouped compare s given now db shares = elim s.password [
  | none ↦ (shares, ok tt)
  | some hash ↦ verify_public grouped compare s given now db shares
]
