-- ===== src/RateLimit/Service/Concurrency.antt =====
-- The uploads at work: what the counters of the service mean, and their limits.
use https_github_com_sv3t0v.Common.{
  ℕ, zero, suc, ◌+◌, ◌-◌, ◌≤◌, max, String, ◌≡◌, ◌∙◌, refl, ap, true, false, ◌||◌, Option, none,
  some, List, [], ◌∷◌, ◌++◌, length, arith, lookup, lookup-put, str_eq, eq_iff, leb, ltb, ◌==◌,
  if◌then◌else◌, Bool-cases, Option-cases, inl, inr,
}
use text.Mathlib.TextPositions.{eq_refl}
use https_github_com_sv3t0v.RateLimit.{
  unit, Kind, chunk, abort, Slot, chunks, aborts, admissions, admission_aborts, policy_of, Bucket,
  Store, Limits, Taken, taken, throttled, is_idle, evict, sweep, fresh, refill, spend, take_entry,
  take, max_keys, max_per_user_concurrent, max_concurrent, store_of,
}
use https_github_com_sv3t0v.RateLimit.Level.{IsValid, Unique, evict-lookup-none}
use https_github_com_sv3t0v.RateLimit.Takes.{take-lookup}
use https_github_com_sv3t0v.RateLimit.Service.{
  admit_ip, admit_share, slot_of, decimal, max_safe_integer, Lease, enter_taken, enter,
  release_bucket, release, release_at, Service, Call, admits_ip, admits_share, enters, releases,
  with_lease, step, run, init,
}
use https_github_com_sv3t0v.RateLimit.Service.Rate.{step-Pays, init-IsValid}

abbrev pub active_of : Option Bucket → ℕ
active_of none = 0
active_of (some b) = b.active

abbrev pub active_for : String → Limits → ℕ
active_for k s = active_of (lookup k s.chunk)

-- The leases that were not given back.
abbrev pub open_leases : List Lease → ℕ
open_leases [] = 0
open_leases (l ∷ ls) = (if l.released then 0 else 1) + open_leases ls

abbrev pub open_leases_for : String → List Lease → ℕ
open_leases_for k [] = 0
open_leases_for k (l ∷ ls) =
    (if l.released then 0 else if str_eq l.key k then 1 else 0) + open_leases_for k ls

evict-active :
    (now : ℕ) (k : String) (m : Store)
    → Unique m
    → active_of (lookup k (evict now m)) ≡ active_of (lookup k m)
unfolding evict lookup
evict-active now k [] u = refl
evict-active now k ((j, b) ∷ m) u =
    let ih = evict-active now k m u.1 in
    elim (Bool-cases (str_eq j k)) [
      | inl same ↦ elim (Bool-cases (is_idle now b)) [
        | inl idle ↦
            let e : j ≡ k = (eq_iff j k).0 same in
            let gone : lookup k m ≡ none = rw e at (u.0) in
            rw (idle, same, evict-lookup-none now k m gone) (ground arith)
        | inr busy ↦ rw (busy, same) refl
      ]
      | inr other ↦ elim (Bool-cases (is_idle now b)) [
        | inl idle ↦ rw (idle, other) ih
        | inr busy ↦ rw (busy, other) ih
      ]
    ]

-- The counters stay as they were.
abbrev Same : String → Limits → Limits → Type 0
Same k s s' = (active_for k s' ≡ active_for k s) × (s'.active ≡ s.active)

sweep-Same : (k : String) (now : ℕ) (s : Limits) → IsValid s → Same k s (sweep now s)
unfolding sweep
sweep-Same k now s v = ground (arith, evict-active now k s.chunk v.chunk.unique)

spend-Same :
    (k : String) (s : Limits) (slot : Slot) (key : String) (b : Bucket)
    → active_of (lookup key (store_of slot s)) ≡ b.active
    → Same k s (spend s slot key b).0
unfolding spend
spend-Same k s chunks key b e = ground (
  arith,
  lookup-put key k b s.chunk,
  lookup-put key k (record b { tokens = b.tokens - unit }) s.chunk,
  eq_iff key k,
)
spend-Same k s aborts key b e = ground arith
spend-Same k s admissions key b e = ground arith
spend-Same k s admission_aborts key b e = ground arith

take_entry-Same :
    (k : String) (s : Limits) (slot : Slot) (key : String) (now : ℕ) (o : Option Bucket)
    → lookup key (store_of slot s) ≡ o
    → Same k s (take_entry s slot key now o).0
unfolding take_entry refill
take_entry-Same k s slot key now (some b) e =
    spend-Same k s slot key (refill (policy_of slot) now b) (rw e)
take_entry-Same k s slot key now none e =
    elim (Bool-cases (leb max_keys (length (store_of slot s)))) [
      | inl full ↦ rw full (refl, refl)
      | inr room ↦ rw room (
          spend-Same k s slot key (refill (policy_of slot) now (fresh (policy_of slot) now)) (rw e))
    ]

take-Same :
    (k : String) (s : Limits) (slot : Slot) (key : String) (now : ℕ)
    → IsValid s
    → Same k s (take s slot key now).0
unfolding take
take-Same k s slot key now v =
    let a = sweep-Same k now s v in
    let b = take_entry-Same k (sweep now s) slot key now _ refl in (b.0 ∙ a.0, b.1 ∙ a.1)

abbrev matches : Lease → String → ℕ
matches l k = if str_eq l.key k then 1 else 0

release-active :
    (k : String) (s : Limits) (l : Lease) (now : ℕ)
    → l.released ≡ false
    → 1 ≤ active_for l.key s
    → active_for k (release s l now).0 + matches l k ≡ active_for k s
unfolding release release_bucket
release-active k s l now e pos = elim (Option-cases (lookup l.key s.chunk)) [
  | inl gone ↦ absurd (omega (arith, ap active_of gone))
  | inr (b, found) ↦
      rw (e, found, release_bucket)
        (ground (
          arith,
          pos,
          lookup-put l.key k (record b { active = b.active - 1; seen_at = max b.seen_at now })
              s.chunk,
          eq_iff l.key k,
        ))
]

-- A closure that was called before does nothing.
release_done : (s : Limits) (l : Lease) (now : ℕ) → l.released ≡ true → release s l now ≡ (s, l)
unfolding release
release_done s l now e = ground arith

release_open :
    (s : Limits) (l : Lease) (now : ℕ)
    → l.released ≡ false
    → ((release s l now).0.active ≡ s.active - 1) × ((release s l now).1.released ≡ true)
unfolding release
release_open s l now e = ground arith

-- What a call of the closure at one place does to the counters, and to the open leases.
abbrev Returns : Limits → List Lease → Limits → List Lease → Type 0
Returns s ls s' ls' =
    ((k : String)
      → (active_for k s' + open_leases_for k ls ≡ active_for k s + open_leases_for k ls')
        × (open_leases_for k ls' ≤ open_leases_for k ls))
    × (s'.active + open_leases ls ≡ s.active + open_leases ls')
    × (open_leases ls' ≤ open_leases ls)

release_at-Returns :
    (s : Limits) (i : ℕ) (ls : List Lease) (now : ℕ)
    → ((k : String) → open_leases_for k ls ≤ active_for k s)
    → open_leases ls ≤ s.active
    → Returns s ls (release_at s i ls now).0 (release_at s i ls now).1
unfolding release_at
release_at-Returns s i [] now h t = (λ k. (refl, omega arith), refl, omega arith)
release_at-Returns s zero (l ∷ ls) now h t = elim (Bool-cases l.released) [
  | inl done ↦ let e = release_done s l now done in (λ k. ground arith, ground arith, ground arith)
  | inr live ↦
      let (count, closed) = release_open s l now live in
      let pos : 1 ≤ active_for l.key s = ground (arith, h l.key, eq_refl l.key) in
      (λ k. ground (arith, h k, release-active k s l now live pos), ground arith, ground arith)
]
release_at-Returns s (suc i) (l ∷ ls) now h t =
    let ih = release_at-Returns s i ls now (λ k. omega (arith, h k)) (omega arith) in
    (λ k. (omega (arith, ih.0 k), omega (arith, ih.0 k)), omega (arith, ih.1), omega (arith, ih.2))

-- The counters tell how many leases are open, for each key and in all, within the limits.
pub record IsAccounted (s : Limits) (ls : List Lease) : Type 0 where
  pub keyed : (k : String) → active_for k s ≡ open_leases_for k ls
  pub total : s.active ≡ open_leases ls
  pub per_key : (k : String) → open_leases_for k ls ≤ max_per_user_concurrent
  pub bounded : open_leases ls ≤ max_concurrent

IsAccounted-of-Same :
    (s s' : Limits) (ls : List Lease)
    → ((k : String) → Same k s s')
    → IsAccounted s ls
    → IsAccounted s' ls
IsAccounted-of-Same s s' ls same a = record {
  keyed = λ k. (same k).0 ∙ a.keyed k;
  total = (same "").1 ∙ a.total;
  per_key = a.per_key;
  bounded = a.bounded;
}

release_at-IsAccounted :
    (s : Limits) (i : ℕ) (ls : List Lease) (now : ℕ)
    → IsAccounted s ls
    → IsAccounted (release_at s i ls now).0 (release_at s i ls now).1
release_at-IsAccounted s i ls now a =
    let r =
      release_at-Returns s i ls now (λ k. omega (arith, a.keyed k)) (omega (arith, a.total)) in
    record {
      keyed = λ k. omega (arith, r.0 k, a.keyed k);
      total = omega (arith, r.1, a.total);
      per_key = λ k. omega (arith, r.0 k, a.per_key k);
      bounded = omega (arith, r.2, a.bounded);
    }

open_leases-append :
    (ls : List Lease) (l : Lease)
    → l.released ≡ false
    → open_leases (ls ++ l ∷ []) ≡ open_leases ls + 1
open_leases-append [] l e = ground arith
open_leases-append (x ∷ ls) l e = omega (arith, open_leases-append ls l e)

open_leases_for-append :
    (k : String) (ls : List Lease) (l : Lease)
    → l.released ≡ false
    → open_leases_for k (ls ++ l ∷ []) ≡ open_leases_for k ls + matches l k
open_leases_for-append k [] l e = ground arith
open_leases_for-append k (x ∷ ls) l e = omega (arith, open_leases_for-append k ls l e)

enter_taken-IsAccounted :
    (s : Limits) (key : String) (kind : Kind) (r : Taken) (ls : List Lease)
    → ((b : Bucket) → r ≡ taken b → lookup key (store_of (slot_of kind) s) ≡ some b)
    → IsAccounted s ls
    → let v = with_lease ls (enter_taken s key kind r) in IsAccounted v.limits v.leases
unfolding enter_taken with_lease
enter_taken-IsAccounted s key kind (throttled n) ls found a = a
enter_taken-IsAccounted s key abort (taken b) ls found a = a
enter_taken-IsAccounted s key chunk (taken b) ls found a =
    let e = found b refl in
    let before = λ (k : String). lookup-put key k (record b { active = b.active + 1 }) s.chunk in
    let l : Lease = record { key = key; released = false } in
    elim (Bool-cases (leb max_per_user_concurrent b.active || leb max_concurrent s.active)) [
      | inl full ↦ rw full a
      | inr room ↦ rw room (record {
        keyed = λ k.
            ground
              (arith, before k, eq_iff key k, a.keyed k, e, open_leases_for-append k ls l refl);
        total = omega (arith, a.total, open_leases-append ls l refl);
        per_key = λ k. ground (
          arith,
          room,
          eq_iff key k,
          a.keyed k,
          a.per_key k,
          e,
          open_leases_for-append k ls l refl,
        );
        bounded = ground (arith, room, a.total, open_leases-append ls l refl);
      })
    ]

enters-IsAccounted :
    (v : Service) (now user_id : ℕ) (kind : Kind)
    → IsValid v.limits
    → IsAccounted v.limits v.leases
    → let w = with_lease v.leases (enter v.limits user_id kind now) in IsAccounted w.limits w.leases
unfolding enter with_lease
enters-IsAccounted v now user_id kind h a =
    elim (Bool-cases (user_id == 0 || ltb max_safe_integer user_id)) [
      | inl bad ↦ rw bad a
      | inr good ↦
          let key = decimal user_id in
          let s' = (take v.limits (slot_of kind) key now).0 in
          rw good (
            enter_taken-IsAccounted s' key kind _ v.leases
              (take-lookup v.limits (slot_of kind) key now)
              (IsAccounted-of-Same v.limits s' v.leases
                (λ k. take-Same k v.limits (slot_of kind) key now h) a))
    ]

-- Every call keeps the counters true and within the limits.
pub step-IsAccounted :
    (v : Service) (now : ℕ) (c : Call)
    → IsValid v.limits
    → IsAccounted v.limits v.leases
    → IsAccounted (step v (now, c)).limits (step v (now, c)).leases
unfolding step admit_ip admit_share
step-IsAccounted v now (admits_ip ip kind) h a =
    IsAccounted-of-Same v.limits _ v.leases (λ k. take-Same k v.limits _ _ now h) a
step-IsAccounted v now (admits_share digest kind) h a =
    IsAccounted-of-Same v.limits _ v.leases (λ k. take-Same k v.limits _ _ now h) a
step-IsAccounted v now (enters user_id kind) h a = enters-IsAccounted v now user_id kind h a
step-IsAccounted v now (releases i) h a = release_at-IsAccounted v.limits i v.leases now a

run_from-IsAccounted :
    (v : Service) (cs : List (ℕ × Call))
    → IsValid v.limits
    → IsAccounted v.limits v.leases
    → IsAccounted (run v cs).limits (run v cs).leases
unfolding run
run_from-IsAccounted v [] h a = a
run_from-IsAccounted v ((now, c) ∷ cs) h a =
    run_from-IsAccounted (step v (now, c)) cs (step-Pays chunks "" v now c h).0
      (step-IsAccounted v now c h a)

init-IsAccounted : IsAccounted init.limits init.leases
unfolding init lookup
init-IsAccounted = record {
  keyed = λ k. refl;
  total = refl;
  per_key = λ k. omega arith;
  bounded = omega arith;
}

-- After any history from the start, each user's active count is the number of that user's leases
-- that were not given back, at most 4; the service's count is their number in all, at most 32.
-- No eviction, refusal or repeated release breaks this.
pub run-IsAccounted : (cs : List (ℕ × Call)) → IsAccounted (run init cs).limits (run init cs).leases
run-IsAccounted cs = run_from-IsAccounted init cs init-IsValid init-IsAccounted
