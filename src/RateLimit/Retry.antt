-- ===== src/RateLimit/Retry.antt =====
-- The Retry-After of a request that is turned down.
use https_github_com_sv3t0v.Common.{
  ℕ, ◌+◌, ◌*◌, ◌≤◌, ◌<◌, String, ◌≡◌, ◌⊎◌, inl, inr, refl, Option, none, some, [], ◌∷◌, eq_iff,
  arith, lookup, length, max, leb, ltb, leb→le, Bool-cases,
}
use https_github_com_sv3t0v.RateLimit.{
  unit, Slot, chunks, aborts, admissions, admission_aborts, policy_of, Bucket, Store, Limits,
  store_of, evict, max_keys, fresh, refill, retry_after, throttled, spend, take_entry, take, sweep,
}
use https_github_com_sv3t0v.RateLimit.Level.{
  level_of, level, Unique, IsValid, level-sweep, evict-lookup-none,
}

-- After so many seconds a bucket that is short of a token has one. They are counted from the later of
-- the request and the last refill, which the clock may be behind.
retry_after-suffices :
    (slot : Slot) (now : ℕ) (b : Bucket)
    → unit
      ≤ level_of slot
          (max now b.refill_at + retry_after (policy_of slot) (level_of slot now (some b)) * 1000)
          (some b)
unfolding retry_after
retry_after-suffices chunks now b = omega arith
retry_after-suffices aborts now b = omega arith
retry_after-suffices admissions now b = omega arith
retry_after-suffices admission_aborts now b = omega arith

spend-throttled :
    (s : Limits) (slot : Slot) (key : String) (b : Bucket) (n : ℕ)
    → (spend s slot key b).1 ≡ throttled n
    → (b.tokens < unit) × (n ≡ retry_after (policy_of slot) b.tokens)
unfolding spend
spend-throttled s slot key b n e = elim (Bool-cases (ltb b.tokens unit)) [
  | inl short ↦ (ground arith, ground (arith, short))
  | inr enough ↦ cc (rw enough at e)
]

evict-lookup-some :
    (now : ℕ) (k : String) (m : Store) (b : Bucket)
    → Unique m
    → lookup k (evict now m) ≡ some b
    → lookup k m ≡ some b
unfolding evict lookup
evict-lookup-some now k [] b u e = e
evict-lookup-some now k ((j, c) ∷ m) b u e =
    ground (arith, evict-lookup-some now k m b u.1, u.0, evict-lookup-none now j m u.0, eq_iff j k)

sweep-lookup-some :
    (slot : Slot) (now : ℕ) (k : String) (s : Limits) (b : Bucket)
    → IsValid s
    → lookup k (store_of slot (sweep now s)) ≡ some b
    → lookup k (store_of slot s) ≡ some b
unfolding sweep
sweep-lookup-some chunks now k s b v e =
    ground (arith, evict-lookup-some now k s.chunk b v.chunk.unique)
sweep-lookup-some aborts now k s b v e =
    ground (arith, evict-lookup-some now k s.abort b v.abort.unique)
sweep-lookup-some admissions now k s b v e =
    ground (arith, evict-lookup-some now k s.admission b v.admission.unique)
sweep-lookup-some admission_aborts now k s b v e =
    ground (arith, evict-lookup-some now k s.admission_abort b v.admission_abort.unique)

-- The time from which a key's bucket is refilled: that of the request, or of the last refill of its
-- entry where the clock is behind it.
abbrev pub refilled_from : ℕ → Option Bucket → ℕ
refilled_from now none = now
refilled_from now (some b) = max now b.refill_at

-- Why a request waits `n` seconds: the map is full, or the bucket has a token by then.
abbrev pub Waits : Slot → String → ℕ → Limits → ℕ → Type 0
Waits slot key now s n =
    ((n ≡ 60) × (max_keys ≤ length (store_of slot (sweep now s))))
    ⊎ (unit ≤ level slot key (refilled_from now (lookup key (store_of slot s)) + n * 1000) s)

full_bucket :
    (slot : Slot) (now : ℕ)
    → ¬ ((refill (policy_of slot) now (fresh (policy_of slot) now)).tokens < unit)
unfolding refill
full_bucket chunks now h = omega arith
full_bucket aborts now h = omega arith
full_bucket admissions now h = omega arith
full_bucket admission_aborts now h = omega arith

take_entry-Waits :
    (s : Limits) (slot : Slot) (key : String) (now n : ℕ) (o : Option Bucket)
    → (take_entry s slot key now o).1 ≡ throttled n
    → ((n ≡ 60) × (max_keys ≤ length (store_of slot s)))
      ⊎ (unit ≤ level_of slot (refilled_from now o + n * 1000) o)
unfolding take_entry refill
take_entry-Waits s slot key now n (some b) e =
    let short = spend-throttled s slot key (refill (policy_of slot) now b) n e in
    inr (rw short.1 (retry_after-suffices slot now b))
take_entry-Waits s slot key now n none e =
    elim (Bool-cases (leb max_keys (length (store_of slot s)))) [
      | inl full ↦ inl (ground (arith, rw full at e), leb→le _ _ full)
      | inr room ↦
          let f = fresh (policy_of slot) now in
          let short = spend-throttled s slot key (refill (policy_of slot) now f) n (rw room at e) in
          absurd (full_bucket slot now short.0)
    ]

now-le : (now : ℕ) (o : Option Bucket) → now ≤ refilled_from now o
now-le now none = omega arith
now-le now (some b) = omega arith

-- A request that is turned down with Retry-After `n` finds a token after `n` seconds, if nobody
-- takes it first, unless the map had no room for its key; then `n` is 60. The seconds are counted from
-- the request, or from the last refill of the key's entry where the clock has gone back behind it.
pub take-Waits :
    (s : Limits) (slot : Slot) (key : String) (now n : ℕ)
    → IsValid s
    → (take s slot key now).1 ≡ throttled n
    → Waits slot key now s n
unfolding take
take-Waits s slot key now n v e = go _ refl e
  where
    from : ℕ
    from = refilled_from now (lookup key (store_of slot s))

    later : level slot key (from + n * 1000) (sweep now s) ≡ level slot key (from + n * 1000) s
    later =
        level-sweep slot key now (from + n * 1000) s v
          (let le = now-le now (lookup key (store_of slot s)) in omega arith)

    go :
        (o : Option Bucket)
        → lookup key (store_of slot (sweep now s)) ≡ o
        → (take_entry (sweep now s) slot key now o).1 ≡ throttled n
        → Waits slot key now s n
    go none h k = elim (take_entry-Waits (sweep now s) slot key now n none k) [
      | inl full ↦ inl full
      | inr token ↦ inr (rw (← later) (rw h token))
    ]
    go (some b) h k = elim (take_entry-Waits (sweep now s) slot key now n (some b) k) [
      | inl full ↦ inl full
      | inr token ↦
          let kept = sweep-lookup-some slot now key s b v h in
          inr (rw (← later) (rw h (rw kept token)))
    ]
