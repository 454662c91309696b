-- ===== src/RateLimit/Service.antt =====
-- backend/src/uploads/upload-rate-limit.ts: the public methods of `UploadRateLimitService` and the
-- release closures that `enter` hands out. A closure is a `Lease`: the key of the bucket that it
-- refers to, and its `released` flag. The service keeps them in order of admission.
-- A user id is a number that is at least 0; any other is turned down as 0 is.
pub mod Rate
pub mod Concurrency
mod Examples
use https_github_com_sv3t0v.Common.{
  ℕ, zero, suc, ◌+◌, ◌-◌, ◌/◌, ◌%◌, ◌^◌, max, String, Bool, true, false, ◌||◌, Option, none, some,
  List, [], ◌∷◌, ◌++◌, length, lookup, put, ltb, leb, ◌==◌, if◌then◌else◌,
}
use Prim.Native.String
use https_github_com_sv3t0v.RateLimit.{
  Kind, chunk, abort, Slot, chunks, aborts, admissions, admission_aborts, Bucket, Store, Limits,
  max_per_user_concurrent, max_concurrent, Taken, taken, throttled, take,
}

-- `String(n)` of a natural number.
abbrev digit : ℕ → String
digit d =
    if d == 0
    then "0"
    else if d == 1
    then "1"
    else if d == 2
    then "2"
    else if d == 3
    then "3"
    else if d == 4
    then "4"
    else if d == 5
    then "5"
    else if d == 6
    then "6"
    else if d == 7
    then "7"
    else if d == 8
    then "8"
    else "9"

decimal_from : ℕ → ℕ → String
decimal_from zero n = ""
decimal_from (suc fuel) n =
    let more = decimal_from fuel (n / 10) in
    if ltb n 10 then digit n else String.◌++◌ more (digit (n % 10))

pub decimal : ℕ → String
unfolding decimal_from
decimal n = decimal_from 20 n

abbrev pub max_safe_integer : ℕ
max_safe_integer = 9007199254740991

abbrev pub slot_of : Kind → Slot
slot_of chunk = chunks
slot_of abort = aborts

abbrev pub admission_slot : Kind → Slot
admission_slot chunk = admissions
admission_slot abort = admission_aborts

pub admit_ip : Limits → String → Kind → ℕ → Limits × Taken
admit_ip s ip kind now = take s (admission_slot kind) ip now

pub admit_share : Limits → String → Kind → ℕ → Limits × Taken
unfolding admit_ip
admit_share s digest kind now = admit_ip s (String.◌++◌ "share:" digest) kind now

pub record Lease : Type 0 where
  pub key : String
  pub released : Bool

pub data Entered : Type 0 where
  unauthorized no_op : Entered
  refused : ℕ → Entered
  leased : Lease → Entered

pub enter_taken : Limits → String → Kind → Taken → Limits × Entered
enter_taken s key kind (throttled n) = (s, refused n)
enter_taken s key abort (taken b) = (s, no_op)
enter_taken s key chunk (taken b) =
    if leb max_per_user_concurrent b.active || leb max_concurrent s.active
    then (s, refused 1)
    else (
      record s {
        chunk = put key (record b { active = b.active + 1 }) s.chunk;
        active = s.active + 1;
      },
      leased (record { key = key; released = false }),
    )

pub enter : Limits → ℕ → Kind → ℕ → Limits × Entered
unfolding enter_taken
enter s user_id kind now =
    if user_id == 0 || ltb max_safe_integer user_id
    then (s, unauthorized)
    else (let (s', r) = take s (slot_of kind) (decimal user_id) now in
        enter_taken s' (decimal user_id) kind r)

pub release_bucket : String → ℕ → Store → Store
release_bucket key now m = elim (lookup key m) [
  | none ↦ m
  | some b ↦ put key (record b { active = b.active - 1; seen_at = max b.seen_at now }) m
]

pub release : Limits → Lease → ℕ → Limits × Lease
unfolding release_bucket
release s l now = if l.released then (s, l) else (
  record s { chunk = release_bucket l.key now s.chunk; active = s.active - 1 },
  record l { released = true },
)

pub record Service : Type 0 where
  pub limits : Limits
  pub leases : List Lease

pub init : Service
init = record {
  limits = record {
    chunk = [];
    abort = [];
    admission = [];
    admission_abort = [];
    last_sweep = 0;
    active = 0;
  };
  leases = [];
}

pub data Call : Type 0 where
  admits_ip admits_share : String → Kind → Call
  enters : ℕ → Kind → Call
  releases : ℕ → Call

pub with_lease : List Lease → Limits × Entered → Service
with_lease ls (s, leased l) = record { limits = s; leases = ls ++ l ∷ [] }
with_lease ls (s, unauthorized) = record { limits = s; leases = ls }
with_lease ls (s, no_op) = record { limits = s; leases = ls }
with_lease ls (s, refused n) = record { limits = s; leases = ls }

-- The closure at place `i` is called; there is nothing to call past the end.
pub release_at : Limits → ℕ → List Lease → ℕ → Limits × List Lease
release_at s i [] now = (s, [])
release_at s zero (l ∷ ls) now = let (s', l') = release s l now in (s', l' ∷ ls)
release_at s (suc i) (l ∷ ls) now = let (s', ls') = release_at s i ls now in (s', l ∷ ls')

pub step : Service → ℕ × Call → Service
unfolding with_lease
step v (now, admits_ip ip kind) = record v { limits = (admit_ip v.limits ip kind now).0 }
step v (now, admits_share digest kind) = record v {
  limits = (admit_share v.limits digest kind now).0;
}
step v (now, enters user_id kind) = with_lease v.leases (enter v.limits user_id kind now)
step v (now, releases i) =
    let (s, ls) = release_at v.limits i v.leases now in record { limits = s; leases = ls }

pub run : Service → List (ℕ × Call) → Service
run v [] = v
run v (c ∷ cs) = run (step v c) cs
