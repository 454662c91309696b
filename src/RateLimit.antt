-- ===== src/RateLimit.antt =====
-- backend/src/uploads/upload-rate-limit.ts: `UploadRateLimitService`, the token buckets that admit
-- upload requests, and the count of uploads at work.
-- Time is in milliseconds and an argument of each call (`Date.now()`, read once a call).
-- A token is 2000 units and a rate counts half tokens a second, so a millisecond adds `rate` units
-- and all sums are exact; the source has doubles.
pub mod Level
pub mod Takes
pub mod Retry
pub mod Service
pub mod Interceptor
use https_github_com_sv3t0v.Common.{
  ℕ, ◌+◌, ◌-◌, ◌*◌, ◌/◌, min, max, String, Bool, ◌&&◌, Option, none, some, List, [], ◌∷◌, length,
  lookup, put, ltb, leb, ◌==◌, if◌then◌else◌,
}

abbrev pub unit : ℕ
unit = 2000

pub record Policy : Type 0 where
  pub rate : ℕ
  pub burst : ℕ

pub data Kind : Type 0 where
  chunk abort : Kind

-- The four maps of the service.
pub data Slot : Type 0 where
  chunks aborts admissions admission_aborts : Slot

abbrev pub policy_of : Slot → Policy
policy_of chunks = record { rate = 50; burst = 50 }
policy_of aborts = record { rate = 1; burst = 10 }
policy_of admissions = record { rate = 200; burst = 100 }
policy_of admission_aborts = record { rate = 20; burst = 20 }

abbrev pub max_per_user_concurrent : ℕ
max_per_user_concurrent = 4

abbrev pub max_concurrent : ℕ
max_concurrent = 32

abbrev pub max_keys : ℕ
max_keys = 10000

abbrev pub idle_ms : ℕ
idle_ms = 300000

pub record Bucket : Type 0 where
  pub tokens : ℕ
  pub refill_at : ℕ
  pub seen_at : ℕ
  pub active : ℕ

abbrev pub Store : Type 0
Store = List (String × Bucket)

pub record Limits : Type 0 where
  pub chunk : Store
  pub abort : Store
  pub admission : Store
  pub admission_abort : Store
  pub last_sweep : ℕ
  pub active : ℕ

abbrev pub store_of : Slot → Limits → Store
store_of chunks s = s.chunk
store_of aborts s = s.abort
store_of admissions s = s.admission
store_of admission_aborts s = s.admission_abort

abbrev pub with_store : Slot → Store → Limits → Limits
with_store chunks m s = record s { chunk = m }
with_store aborts m s = record s { abort = m }
with_store admissions m s = record s { admission = m }
with_store admission_aborts m s = record s { admission_abort = m }

abbrev pub is_idle : ℕ → Bucket → Bool
is_idle now b = b.active == 0 && leb idle_ms (now - b.seen_at)

pub evict : ℕ → Store → Store
evict now [] = []
evict now ((k, b) ∷ m) = if is_idle now b then evict now m else (k, b) ∷ evict now m

pub sweep : ℕ → Limits → Limits
sweep now s =
    if leb 1000 (now - s.last_sweep)
    then record {
      chunk = evict now s.chunk;
      abort = evict now s.abort;
      admission = evict now s.admission;
      admission_abort = evict now s.admission_abort;
      last_sweep = now;
      active = s.active;
    }
    else s

abbrev pub fresh : Policy → ℕ → Bucket
fresh p now = record { tokens = p.burst * unit; refill_at = now; seen_at = now; active = 0 }

pub refill : Policy → ℕ → Bucket → Bucket
refill p now b = record {
  tokens = min (p.burst * unit) (b.tokens + (now - b.refill_at) * p.rate);
  refill_at = max now b.refill_at;
  seen_at = max now b.seen_at;
  active = b.active;
}

-- `Math.max(1, Math.ceil((1 - tokens) / rate))`
pub retry_after : Policy → ℕ → ℕ
retry_after p tokens = max 1 ((unit - tokens + (p.rate * 1000 - 1)) / (p.rate * 1000))

-- `throttled n` is the exception with its Retry-After.
pub data Taken : Type 0 where
  taken : Bucket → Taken
  throttled : ℕ → Taken

-- The entry, refilled, pays for the request or turns it down.
pub spend : Limits → Slot → String → Bucket → Limits × Taken
unfolding retry_after
spend s slot key b =
    if ltb b.tokens unit
    then (
      with_store slot (put key b (store_of slot s)) s,
      throttled (retry_after (policy_of slot) b.tokens),
    )
    else (let paid = record b { tokens = b.tokens - unit } in
        (with_store slot (put key paid (store_of slot s)) s, taken paid))

-- `take` after the sweep, by what `store.get(key)` gives.
pub take_entry : Limits → Slot → String → ℕ → Option Bucket → Limits × Taken
unfolding spend refill
take_entry s slot key now (some b) = spend s slot key (refill (policy_of slot) now b)
take_entry s slot key now none =
    if leb max_keys (length (store_of slot s))
    then (s, throttled 60)
    else spend s slot key (refill (policy_of slot) now (fresh (policy_of slot) now))

pub take : Limits → Slot → String → ℕ → Limits × Taken
unfolding sweep take_entry
take s slot key now =
    let swept = sweep now s in take_entry swept slot key now (lookup key (store_of slot swept))
