-- ===== src/Sharing/Guesses.antt =====
-- How many passwords of a link can be tried.
use https_github_com_sv3t0v.Common.{
  ℕ, ◌+◌, ◌*◌, ◌≤◌, ◌<◌, ◌≡◌, refl, subst, ap, inl, inr, String, Bool, true, false, not, ◌&&◌,
  Option, none, some, List, [], ◌∷◌, map, arith, leb, str_eq, if◌then◌else◌, find_row, Bool-cases,
  Option-cases,
}
use https_github_com_sv3t0v.Http.{HttpError, Result, ok, err, forbidden}
use https_github_com_sv3t0v.Text.{Text}
use https_github_com_sv3t0v.Uploads.{Db, find_user}
use https_github_com_sv3t0v.Files.{has_file_id}
use https_github_com_sv3t0v.Sharing.{
  ShareLink, has_token, link_not_found, is_past, is_sound, find_share_by_token,
}
use https_github_com_sv3t0v.Sharing.Passwords.{
  lock_threshold, lock_ms, too_many, invalid_password, is_locked, fail_once, is_selected,
  count_failure, returned, check_password, verify_found, verify_share_password,
}
use https_github_com_sv3t0v.Sharing.Budget.{
  Budget, Bounded, Bounded-struck, Budget-later, Budget-none,
}

pub record Attempt : Type 0 where
  pub now : ℕ
  pub password : Text
  pub db : Db

-- An answer by which the client learns that the password is wrong.
abbrev pub wrong : Result (Unit {0}) → ℕ
wrong (ok u) = 0
wrong (err e) = if str_eq e.message "Invalid password" then 1 else 0

-- The attempts come one after the other, between two times.
abbrev pub InOrder : ℕ → List Attempt → ℕ → Type 0
InOrder from [] to = from ≤ to
InOrder from (a ∷ later) to = (from ≤ a.now) × InOrder a.now later to

find_row-map :
    (p : ShareLink → Bool) (f : ShareLink → ShareLink) (s : ShareLink) (xs : List ShareLink)
    → ((x : ShareLink) → p (f x) ≡ p x)
    → find_row p xs ≡ some s
    → find_row p (map f xs) ≡ some (f s)
unfolding find_row
find_row-map p f s [] same e = cc
find_row-map p f s (x ∷ xs) same e = elim (Bool-cases (p x)) [
  | inl hit ↦
      let is_s : x ≡ s = ground (arith, hit, e) in rw (same x) (rw hit (ap (λ y. some (f y)) is_s))
  | inr miss ↦ rw (same x) (rw miss (find_row-map p f s xs same (rw miss at e)))
]

fail_once-token : (now : ℕ) (x : ShareLink) → (fail_once now x).token ≡ x.token
fail_once-token now x = elim (Option-cases x.locked_until) [
  | inl unlocked ↦ ground (arith, unlocked)
  | inr (t, lock) ↦ ground (arith, lock)
]

count_failure-token :
    (grouped : Bool) (id now : ℕ) (x : ShareLink) → (count_failure grouped id now x).token ≡ x.token
count_failure-token grouped id now x = elim (Bool-cases (is_selected grouped id now x)) [
  | inl hit ↦ rw hit (fail_once-token now x)
  | inr miss ↦ rw miss refl
]

-- The link that is read is one of those that the statement updates.
selected :
    (grouped : Bool) (now : ℕ) (s : ShareLink)
    → is_locked now s ≡ false
    → is_selected grouped s.id now s ≡ true
selected grouped now s h = elim (Option-cases s.locked_until) [
  | inl unlocked ↦ ground (arith, unlocked)
  | inr (t, lock) ↦ ground (arith, lock, h)
]

InOrder-le : (from : ℕ) (later : List Attempt) (to : ℕ) → InOrder from later to → from ≤ to
InOrder-le from [] to h = h
InOrder-le from (a ∷ later) to (le, rest) = let ih = InOrder-le a.now later to rest in omega arith

module _ (grouped : Bool) (compare : Text → String → Bool) where
  -- The wrong passwords that a client learns of, until it finds the right one.
  unfoldable pub wrong_guesses : String → List Attempt → List ShareLink → ℕ
  unfolding verify_share_password
  wrong_guesses t [] shares = 0
  wrong_guesses t (a ∷ later) shares =
      let (shares', answer) =
        verify_share_password grouped compare a.now t a.password a.db shares in
      elim answer [ ok u ↦ 0 | err e ↦ wrong (err e) + wrong_guesses t later shares' ]

  -- What an attempt does to the link.
  data Guessed (t : String) (now : ℕ) (s : ShareLink)
      : List ShareLink × Result (Unit {0}) → Type 0 where
    right : (shares' : List ShareLink) (u : Unit {0}) → Guessed t now s (shares', ok u)
    refused :
        (shares' : List ShareLink) (e : HttpError)
        → find_row (has_token t) shares' ≡ some s
        → wrong (err e) ≡ 0
        → Guessed t now s (shares', err e)
    struck :
        (shares' : List ShareLink) (e : HttpError)
        → is_locked now s ≡ false
        → find_row (has_token t) shares' ≡ some (fail_once now s)
        → wrong (err e) ≤ 1
        → Guessed t now s (shares', err e)

  check_password-Guessed :
      (t : String) (now : ℕ) (s : ShareLink) (hash : String) (password : Text) (o : Option ℕ)
      (shares' : List ShareLink)
      → is_locked now s ≡ false
      → find_row (has_token t) shares' ≡ some (fail_once now s)
      → Guessed t now s (check_password grouped compare s hash password o shares')
  check_password-Guessed t now s hash password none shares' free found =
      struck shares' too_many free found (omega arith)
  check_password-Guessed t now s hash password (some n) shares' free found =
      elim (Bool-cases (leb lock_threshold n)) [
        | inl many ↦ rw many (struck shares' too_many free found (omega arith))
        | inr few ↦ rw few (elim (Bool-cases (compare password hash)) [
          | inl hit ↦ rw hit (right _ tt)
          | inr miss ↦ rw miss (struck shares' invalid_password free found (omega arith))
        ])
      ]

  verify_found-Guessed :
      (t : String) (now : ℕ) (password : Text) (s : ShareLink) (o : Option String)
      (shares : List ShareLink)
      → find_row (has_token t) shares ≡ some s
      → Guessed t now s (verify_found grouped compare now password s o shares)
  verify_found-Guessed t now password s none shares found =
      refused shares (forbidden "Password not required for this share link") found refl
  verify_found-Guessed t now password s (some hash) shares found =
      elim (Bool-cases (is_locked now s)) [
        | inl locked ↦ rw locked (refused shares too_many found refl)
        | inr free ↦
            let hit =
              find_row-map (has_token t) (count_failure grouped s.id now) s shares
                (λ x. ap (λ k. str_eq k t) (count_failure-token grouped s.id now x)) found in
            let chosen = selected grouped now s free in
            rw free (
              check_password-Guessed t now s hash password
                (returned now (find_row (is_selected grouped s.id now) shares))
                (map (count_failure grouped s.id now) shares) free (rw chosen at hit))
      ]

  verify-Guessed :
      (t : String) (a : Attempt) (s : ShareLink) (shares : List ShareLink)
      → find_row (has_token t) shares ≡ some s
      → Guessed t a.now s (verify_share_password grouped compare a.now t a.password a.db shares)
  unfolding verify_share_password find_share_by_token
  verify-Guessed t a s shares found =
      rw found
        (elim (Bool-cases (
          s.is_active
          && not (is_past a.now s.expires_at)
          && is_sound (find_row (has_file_id s.file_id) a.db.files) (find_user s.user_id a.db) s)) [
            | inr bad ↦ rw bad (refused shares link_not_found found refl)
            | inl good ↦ rw good (verify_found-Guessed t a.now a.password s s.password shares found)
          ])

  wrong_guesses-Bounded :
      (t : String) (attempts : List Attempt) (s : ShareLink) (shares : List ShareLink) (from to : ℕ)
      → find_row (has_token t) shares ≡ some s
      → InOrder from attempts to
      → Bounded s from to (wrong_guesses t attempts shares)
  unfolding wrong_guesses
  wrong_guesses-Bounded t [] s shares from to found order =
      Budget-none s.locked_until s.failed_attempts from to order
  wrong_guesses-Bounded t (a ∷ later) s shares from to found (le, order) =
      go _ (verify-Guessed t a s shares found)
        (λ s' shares' e. wrong_guesses-Bounded t later s' shares' a.now to e order)
    where
      go :
          (x : List ShareLink × Result (Unit {0}))
          → Guessed t a.now s x
          → ((s' : ShareLink) (shares' : List ShareLink)
              → find_row (has_token t) shares' ≡ some s'
              → Bounded s' a.now to (wrong_guesses t later shares'))
          → Bounded s from to
              (elim x.1 [ ok u ↦ 0 | err e ↦ wrong (err e) + wrong_guesses t later x.0 ])
      go (shares', ok u) g ih =
          Budget-none s.locked_until s.failed_attempts from to
            (let last = InOrder-le a.now later to order in omega arith)
      go (shares', err e) (Guessed.refused _ _ found' none_wrong) ih =
          let rest = ih s shares' found' in
          subst (Bounded s from to) (omega (arith, none_wrong)) (
            Budget-later s.locked_until s.failed_attempts from a.now to
              (wrong_guesses t later shares') le rest)
      go (shares', err e) (Guessed.struck _ _ free found' one) ih =
          let rest = ih (fail_once a.now s) shares' found' in
          Bounded-struck s from a.now to (wrong_guesses t later shares') (wrong (err e)) le
            (InOrder-le a.now later to order) free one rest

  -- A client that tries passwords of a link in a stretch of time shorter than `windows` quarters of an
  -- hour learns of at most five wrong ones for each of them, however many attempts it makes, until it
  -- finds the right one. The link starts with no lock and fewer than five failures.
  pub wrong_guesses-le :
      (t : String) (attempts : List Attempt) (s : ShareLink) (shares : List ShareLink)
      (from to windows : ℕ)
      → find_row (has_token t) shares ≡ some s
      → s.locked_until ≡ none
      → s.failed_attempts ≤ 4
      → InOrder from attempts to
      → to < from + windows * lock_ms
      → wrong_guesses t attempts shares ≤ 5 * windows
  wrong_guesses-le t attempts s shares from to windows found unlocked few order end =
      let budget = wrong_guesses-Bounded t attempts s shares from to found order in
      let bound =
        subst (λ o. Budget o s.failed_attempts from to (wrong_guesses t attempts shares)) unlocked
          budget windows few end in
      omega arith
