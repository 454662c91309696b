-- ===== src/RateLimit/Service/Rate.antt =====
-- How many requests the service can let through for one key over a history of calls.
use https_github_com_sv3t0v.Common.{
  ℕ, zero, suc, ◌+◌, ◌-◌, ◌*◌, ◌≤◌, String, ◌≡◌, ◌≢◌, ◌⊎◌, inl, inr, refl, ap, false, ◌&&◌, ◌||◌,
  Option, none, some, List, [], ◌∷◌, arith, lookup, put, lookup-put, str_eq, eq_iff, leb, ltb, ◌==◌,
  if◌then◌else◌, Bool-cases, Option-cases,
}
use https_github_com_sv3t0v.RateLimit.{
  unit, Kind, chunk, abort, Slot, chunks, aborts, admissions, admission_aborts, policy_of, Bucket,
  Limits, Taken, taken, throttled, take, max_per_user_concurrent, max_concurrent, store_of,
}
use https_github_com_sv3t0v.RateLimit.Level.{
  cap, level_of, level, IsGood, IsValid, put-IsKept, lookup-IsGood,
}
use https_github_com_sv3t0v.RateLimit.Takes.{
  take-Promise, take-IsValid, take-level_other, take-lookup, Promise,
}
use https_github_com_sv3t0v.RateLimit.Service.{
  admit_ip, admit_share, slot_of, admission_slot, decimal, max_safe_integer, Lease, enter_taken,
  enter, release_bucket, release, release_at, Service, Call, admits_ip, admits_share, enters,
  releases, with_lease, step, run, init,
}
use Prim.Native.String

-- The bucket that a call asks for a token, if it comes so far.
abbrev pub asks : Call → Option (Slot × String)
asks (admits_ip ip kind) = some (admission_slot kind, ip)
asks (admits_share digest kind) = some (admission_slot kind, String.◌++◌ "share:" digest)
asks (enters user_id kind) =
    if user_id == 0 || ltb max_safe_integer user_id
    then none
    else some (slot_of kind, decimal user_id)
asks (releases i) = none

abbrev pub rank : Slot → ℕ
rank chunks = 0
rank aborts = 1
rank admissions = 2
rank admission_aborts = 3

abbrev cost : Taken → ℕ
cost (taken b) = 1
cost (throttled n) = 0

abbrev paid_by : Slot → String → Limits → ℕ → Option (Slot × String) → ℕ
paid_by slot key s now none = 0
paid_by slot key s now (some (other, k)) =
    if rank other == rank slot && str_eq k key then cost (take s other k now).1 else 0

-- 1 where the call gets a token of the bucket, 0 where it does not.
pub paid : Slot → String → Service → ℕ × Call → ℕ
paid slot key v (now, c) = paid_by slot key v.limits now (asks c)

pub paid_in : Slot → String → Service → List (ℕ × Call) → ℕ
unfolding paid
paid_in slot key v [] = 0
paid_in slot key v (c ∷ cs) = paid slot key v c + paid_in slot key (step v c) cs

-- The times of a history do not go back, and lie between the two ends.
abbrev pub InOrder : ℕ → ℕ → List (ℕ × Call) → Type 0
InOrder from to [] = from ≤ to
InOrder from to ((now, c) ∷ cs) = (from ≤ now) × InOrder now to cs

rank-injective : (a b : Slot) → rank a ≡ rank b → a ≡ b
rank-injective a b e = ground arith

still : (r now : ℕ) → (now - now) * r ≡ 0
still r now = let e : now - now ≡ 0 = omega arith in rw e (omega arith)

level-take-paid :
    (slot : Slot) (key : String) (s : Limits) (now : ℕ)
    → IsValid s
    → level slot key now (take s slot key now).0 + unit * cost (take s slot key now).1
      ≤ level slot key now s
level-take-paid slot key s now v = go (take s slot key now).1 (take-Promise s slot key now v)
  where
    go :
        (r : Taken)
        → Promise slot key now s (take s slot key now).0 r
        → level slot key now (take s slot key now).0 + unit * cost r ≤ level slot key now s
    go (taken b) p = omega (arith, p.1 now, still (policy_of slot).rate now)
    go (throttled n) p = omega (arith, p.1 now)

-- A change of an entry of the chunk map that leaves its tokens and its refill time.
module _ (slot : Slot) (key k : String) (t : ℕ) (s : Limits) (b : Bucket)
    (found : lookup k s.chunk ≡ some b) where
  level-put_active :
      (n seen count : ℕ)
      → level slot key t (record s {
        chunk = put k (record b { active = n; seen_at = seen }) s.chunk;
        active = count;
      })
        ≡ level slot key t s
  level-put_active n seen count = go slot
    where
      go :
          (sl : Slot)
          → level sl key t (record s {
            chunk = put k (record b { active = n; seen_at = seen }) s.chunk;
            active = count;
          })
            ≡ level sl key t s
      go chunks =
          ground (
            arith,
            lookup-put k key (record b { active = n; seen_at = seen }) s.chunk,
            eq_iff k key,
          )
      go aborts = refl
      go admissions = refl
      go admission_aborts = refl

chunk_IsValid :
    (k : String) (s : Limits) (b : Bucket) (n seen count : ℕ)
    → lookup k s.chunk ≡ some b
    → b.seen_at ≤ seen
    → IsValid s
    → IsValid (record s {
      chunk = put k (record b { active = n; seen_at = seen }) s.chunk;
      active = count;
    })
chunk_IsValid k s b n seen count found le v =
    let g = lookup-IsGood chunks k s.chunk b v.chunk.good found in
    let c : Bucket = record b { active = n; seen_at = seen } in
    let good : IsGood chunks c = record {
      capped = g.capped;
      in_order = omega (arith, g.in_order);
    } in
    let kept = put-IsKept chunks k c s.chunk good v.chunk in
    record {
      chunk = kept;
      abort = v.abort;
      admission = v.admission;
      admission_abort = v.admission_abort;
    }

-- What a step keeps of the limits: they stay well formed, and no level changes.
abbrev Keeps : Slot → String → ℕ → Limits → Limits → Type 0
Keeps slot key t s s' = IsValid s' × (level slot key t s' ≡ level slot key t s)

active-Keeps :
    (slot : Slot) (key : String) (t : ℕ) (s : Limits) (n : ℕ)
    → IsValid s
    → Keeps slot key t s (record s { active = n })
active-Keeps chunks key t s n v = (assumption, refl)
active-Keeps aborts key t s n v = (assumption, refl)
active-Keeps admissions key t s n v = (assumption, refl)
active-Keeps admission_aborts key t s n v = (assumption, refl)

module _ (slot : Slot) (key : String) (t : ℕ) where
  release-Keeps :
      (s : Limits) (l : Lease) (now : ℕ) → IsValid s → Keeps slot key t s (release s l now).0
  unfolding release release_bucket
  release-Keeps s l now v = elim (Bool-cases l.released) [
    | inl done ↦ rw done (v, refl)
    | inr open_lease ↦ elim (Option-cases (lookup l.key s.chunk)) [
      | inl gone ↦ rw (open_lease, gone, release_bucket) (active-Keeps slot key t s _ v)
      | inr (b, found) ↦
          rw (open_lease, found, release_bucket)
            (
              chunk_IsValid l.key s b _ _ _ found (omega arith) v,
              level-put_active slot key l.key t s b found _ _ _,
            )
    ]
  ]

  release_at-Keeps :
      (s : Limits) (i : ℕ) (ls : List Lease) (now : ℕ)
      → IsValid s
      → Keeps slot key t s (release_at s i ls now).0
  unfolding release_at
  release_at-Keeps s i [] now v = (v, refl)
  release_at-Keeps s zero (l ∷ ls) now v = release-Keeps s l now v
  release_at-Keeps s (suc i) (l ∷ ls) now v = release_at-Keeps s i ls now v

  enter_taken-Keeps :
      (s : Limits) (k : String) (kind : Kind) (r : Taken) (ls : List Lease)
      → IsValid s
      → ((b : Bucket) → r ≡ taken b → lookup k (store_of (slot_of kind) s) ≡ some b)
      → Keeps slot key t s (with_lease ls (enter_taken s k kind r)).limits
  unfolding enter_taken with_lease
  enter_taken-Keeps s k kind (throttled n) ls v found = (v, refl)
  enter_taken-Keeps s k abort (taken b) ls v found = (v, refl)
  enter_taken-Keeps s k chunk (taken b) ls v found =
      elim (Bool-cases (leb max_per_user_concurrent b.active || leb max_concurrent s.active)) [
        | inl full ↦ rw full (v, refl)
        | inr room ↦ rw room (
          chunk_IsValid k s b _ _ _ (found b refl) (omega arith) v,
          level-put_active slot key k t s b (found b refl) _ _ _,
        )
      ]

-- A step on the service, with what it does to the level of one key.
abbrev Pays : Slot → String → ℕ → Limits → Limits → ℕ → Type 0
Pays slot key now s s' n = IsValid s' × (level slot key now s' + unit * n ≤ level slot key now s)

apart_of :
    (slot other : Slot) (key k : String)
    → (rank other == rank slot && str_eq k key) ≡ false
    → (other ≢ slot) ⊎ (str_eq k key ≡ false)
apart_of slot other key k h = elim (Bool-cases (str_eq k key)) [
  | inl same ↦ inl (λ e. ground (arith, ap rank e))
  | inr differ ↦ inr differ
]

module _ (slot : Slot) (key : String) (s : Limits) (now : ℕ) (v : IsValid s) where
  take-Pays :
      (other : Slot) (k : String)
      → Pays slot key now s (take s other k now).0 (paid_by slot key s now (some (other, k)))
  take-Pays other k = elim (Bool-cases (rank other == rank slot && str_eq k key)) [
    | inl same ↦
        let e : other ≡ slot = rank-injective other slot (ground arith) in
        let f : k ≡ key = (eq_iff k key).0 (ground arith) in
        (take-IsValid s other k now v, rw (same, e, f) (level-take-paid slot key s now v))
    | inr apart ↦ (
      take-IsValid s other k now v,
      rw
          (
            apart,
            take-level_other other slot k key now (apart_of slot other key k apart) s now v
                (omega arith),
          )
          (omega arith),
    )
  ]

Pays-of-Keeps :
    (slot : Slot) (key : String) (now : ℕ) (s s' s'' : Limits) (n : ℕ)
    → Pays slot key now s s' n
    → Keeps slot key now s' s''
    → Pays slot key now s s'' n
Pays-of-Keeps slot key now s s' s'' n p k = (k.0, rw k.1 p.1)

enters-Pays :
    (slot : Slot) (key : String) (v : Service) (now user_id : ℕ) (kind : Kind)
    → IsValid v.limits
    → Pays slot key now v.limits
        (with_lease v.leases (enter v.limits user_id kind now)).limits
        (paid_by slot key v.limits now (asks (enters user_id kind)))
unfolding enter with_lease
enters-Pays slot key v now user_id kind h =
    elim (Bool-cases (user_id == 0 || ltb max_safe_integer user_id)) [
      | inl bad ↦ rw bad (h, omega arith)
      | inr good ↦
          let s' = (take v.limits (slot_of kind) (decimal user_id) now).0 in
          rw good (
            Pays-of-Keeps slot key now v.limits s' _ _
              (take-Pays slot key v.limits now h (slot_of kind) (decimal user_id))
              (enter_taken-Keeps slot key now s' (decimal user_id) kind _ v.leases
                (take-IsValid v.limits (slot_of kind) (decimal user_id) now h)
                (take-lookup v.limits (slot_of kind) (decimal user_id) now)))
    ]

pub step-Pays :
    (slot : Slot) (key : String) (v : Service) (now : ℕ) (c : Call)
    → IsValid v.limits
    → Pays slot key now v.limits (step v (now, c)).limits (paid slot key v (now, c))
unfolding step paid admit_ip admit_share
step-Pays slot key v now (admits_ip ip kind) h =
    take-Pays slot key v.limits now h (admission_slot kind) ip
step-Pays slot key v now (admits_share digest kind) h =
    take-Pays slot key v.limits now h (admission_slot kind) (String.◌++◌ "share:" digest)
step-Pays slot key v now (enters user_id kind) h = enters-Pays slot key v now user_id kind h
step-Pays slot key v now (releases i) h =
    let k = release_at-Keeps slot key now v.limits i v.leases now h in (k.0, omega (arith, k.1))

level_of_later :
    (slot : Slot) (from now : ℕ) (o : Option Bucket)
    → from ≤ now
    → level_of slot now o ≤ level_of slot from o + (now - from) * (policy_of slot).rate
level_of_later slot from now none le = omega arith
level_of_later chunks from now (some b) le = omega arith
level_of_later aborts from now (some b) le = omega arith
level_of_later admissions from now (some b) le = omega arith
level_of_later admission_aborts from now (some b) le = omega arith

level_later :
    (slot : Slot) (key : String) (from now : ℕ) (s : Limits)
    → from ≤ now
    → level slot key now s ≤ level slot key from s + (now - from) * (policy_of slot).rate
level_later slot key from now s le = level_of_later slot from now (lookup key (store_of slot s)) le

refill_split :
    (slot : Slot) (from now to : ℕ)
    → from ≤ now
    → now ≤ to
    → (now - from) * (policy_of slot).rate + (to - now) * (policy_of slot).rate
      ≡ (to - from) * (policy_of slot).rate
refill_split chunks from now to h k = omega arith
refill_split aborts from now to h k = omega arith
refill_split admissions from now to h k = omega arith
refill_split admission_aborts from now to h k = omega arith

InOrder-le : (from to : ℕ) (cs : List (ℕ × Call)) → InOrder from to cs → from ≤ to
InOrder-le from to [] o = o
InOrder-le from to ((now, c) ∷ cs) o = omega (arith, InOrder-le now to cs o.1)

-- The steps of a history pay for what they let through out of the first level and the refill.
run-Pays :
    (slot : Slot) (key : String) (from to : ℕ) (v : Service) (cs : List (ℕ × Call))
    → IsValid v.limits
    → InOrder from to cs
    → unit * paid_in slot key v cs
      ≤ level slot key from v.limits + (to - from) * (policy_of slot).rate
unfolding paid_in
run-Pays slot key from to v [] h o = omega arith
run-Pays slot key from to v ((now, c) ∷ cs) h o =
    let p = step-Pays slot key v now c h in
    let ih = run-Pays slot key now to (step v (now, c)) cs p.0 o.1 in
    omega (
      arith,
      p.1,
      ih,
      level_later slot key from now v.limits o.0,
      refill_split slot from now to o.0 (InOrder-le now to cs o.1),
    )

level_le_cap : (slot : Slot) (key : String) (t : ℕ) (s : Limits) → level slot key t s ≤ cap slot
level_le_cap slot key t s = elim (Option-cases (lookup key (store_of slot s))) [
  | inl e ↦ rw e (omega arith)
  | inr (b, e) ↦ rw e (omega arith)
]

pub init-IsValid : IsValid init.limits
unfolding init
init-IsValid = record {
  chunk = record { unique = tt; good = tt };
  abort = record { unique = tt; good = tt };
  admission = record { unique = tt; good = tt };
  admission_abort = record { unique = tt; good = tt };
}

-- From a well-formed state, whatever is called between two times, the tokens that one key of one
-- map gets come to at most the burst plus the refill of the time between, evictions included.
pub paid_in-le :
    (slot : Slot) (key : String) (from to : ℕ) (v : Service) (cs : List (ℕ × Call))
    → IsValid v.limits
    → InOrder from to cs
    → unit * paid_in slot key v cs
      ≤ unit * (policy_of slot).burst + (to - from) * (policy_of slot).rate
paid_in-le slot key from to v cs h o =
    omega (arith, run-Pays slot key from to v cs h o, level_le_cap slot key from v.limits)

run_from-IsValid :
    (v : Service) (cs : List (ℕ × Call)) → IsValid v.limits → IsValid (run v cs).limits
unfolding run
run_from-IsValid v [] h = h
run_from-IsValid v ((now, c) ∷ cs) h =
    run_from-IsValid (step v (now, c)) cs (step-Pays chunks "" v now c h).0

-- Every state that the service comes to from its start is well formed: in each map every key
-- stands once, no bucket holds more than its burst, and none was refilled after it was seen.
pub run-IsValid : (cs : List (ℕ × Call)) → IsValid (run init cs).limits
run-IsValid cs = run_from-IsValid init cs init-IsValid
