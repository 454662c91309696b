-- ===== src/Sharing/Budget.antt =====
-- The wrong passwords that a link has left.
use https_github_com_sv3t0v.Common.{
  ℕ, ◌-◌, ◌+◌, ◌*◌, ◌≤◌, ◌<◌, ◌≡◌, subst, inl, inr, true, false, Option, none, some, arith, ltb,
  leb, if◌then◌else◌, Bool-cases, Option-cases,
}
use https_github_com_sv3t0v.Sharing.{ShareLink}
use https_github_com_sv3t0v.Sharing.Passwords.{lock_threshold, lock_ms, is_locked, fail_once}

-- The wrong passwords that are left: with no lock what is left of five, and five for each further
-- quarter of an hour; under a lock five for each quarter of an hour from its end on.
abbrev pub Budget : Option ℕ → ℕ → ℕ → ℕ → ℕ → Type 0
Budget none failed from to n =
    (windows : ℕ) → failed ≤ 4 → to < from + windows * lock_ms → n + failed ≤ 5 * windows
Budget (some lock) failed from to n =
    (windows : ℕ) → to < lock + windows * lock_ms → n ≤ 5 * windows

abbrev pub Bounded : ShareLink → ℕ → ℕ → ℕ → Type 0
Bounded s from to n = Budget s.locked_until s.failed_attempts from to n

-- The lock and the failures after an attempt that fails.
abbrev next_lock : ℕ → Option ℕ → ℕ → Option ℕ
next_lock now none failed = if leb lock_threshold (failed + 1) then some (now + lock_ms) else none
next_lock now (some t) failed =
    if leb t now
    then none
    else if leb lock_threshold (failed + 1)
    then some (now + lock_ms)
    else some t

abbrev next_failed : ℕ → Option ℕ → ℕ → ℕ
next_failed now none failed = failed + 1
next_failed now (some t) failed = if leb t now then 1 else failed + 1

fail_once-next :
    (now : ℕ) (s : ShareLink)
    → ((fail_once now s).locked_until ≡ next_lock now s.locked_until s.failed_attempts)
      × ((fail_once now s).failed_attempts ≡ next_failed now s.locked_until s.failed_attempts)
fail_once-next now s = elim (Option-cases s.locked_until) [
  | inl unlocked ↦ (ground (arith, unlocked), ground (arith, unlocked))
  | inr (t, lock) ↦ (ground (arith, lock), ground (arith, lock))
]

-- An attempt that fails and the attempts behind it.
Budget-struck :
    (o : Option ℕ) (failed from now to n m : ℕ)
    → from ≤ now
    → now ≤ to
    → elim o [ none ↦ false | some t ↦ ltb now t ] ≡ false
    → m ≤ 1
    → Budget (next_lock now o failed) (next_failed now o failed) now to n
    → Budget o failed from to (m + n)
Budget-struck none failed from now to n m le1 le2 free one rest = λ windows few end.
    elim (Bool-cases (leb lock_threshold (failed + 1))) [
      | inl last ↦
          let rest' : Budget (some (now + lock_ms)) (failed + 1) now to n = rw last at rest in
          let some_window : 1 ≤ windows = omega (arith, end) in
          let bound = rest' (windows - 1) (omega (arith, end, some_window)) in
          ground (arith, bound, some_window)
      | inr more ↦
          let rest' : Budget none (failed + 1) now to n = rw more at rest in
          let bound = rest' windows (ground (arith, more)) (omega (arith, end)) in omega arith
    ]
Budget-struck (some t) failed from now to n m le1 le2 free one rest = λ windows end.
    let over : leb t now ≡ true = ground (arith, free) in
    let rest' : Budget none 1 now to n = rw over at rest in
    let bound = rest' windows (omega arith) (ground (arith, over, end)) in omega arith

pub Bounded-struck :
    (s : ShareLink) (from now to n m : ℕ)
    → from ≤ now
    → now ≤ to
    → is_locked now s ≡ false
    → m ≤ 1
    → Bounded (fail_once now s) now to n
    → Bounded s from to (m + n)
Bounded-struck s from now to n m le1 le2 free one rest =
    let (lock, failed) = fail_once-next now s in
    Budget-struck s.locked_until s.failed_attempts from now to n m le1 le2 free one (
      subst (λ f. Budget (next_lock now s.locked_until s.failed_attempts) f now to n) failed
        (subst (λ o. Budget o (fail_once now s).failed_attempts now to n) lock rest))

pub Budget-later :
    (o : Option ℕ) (failed from now to n : ℕ)
    → from ≤ now
    → Budget o failed now to n
    → Budget o failed from to n
Budget-later none failed from now to n le rest = λ windows few end. rest windows few (omega arith)
Budget-later (some t) failed from now to n le rest = rest

pub Budget-none : (o : Option ℕ) (failed from to : ℕ) → from ≤ to → Budget o failed from to 0
Budget-none none failed from to le = λ windows few end. omega (arith, few, end)
Budget-none (some t) failed from to le = λ windows end. omega arith
