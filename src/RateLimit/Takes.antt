-- ===== src/RateLimit/Takes.antt =====
-- What `take` does to the level of its key and of the others.
use https_github_com_sv3t0v.Common.{
  ℕ, ◌+◌, ◌-◌, ◌*◌, ◌≤◌, ◌<◌, String, ◌≡◌, ◌≢◌, ◌⊎◌, refl, sym, ◌∙◌, false, Option, none, some,
  length, arith, lookup, put, lookup-put, str_eq, Bool-cases, inl, inr, ltb, leb, leb→le,
}
use text.Mathlib.TextPositions.{eq_refl}
use https_github_com_sv3t0v.RateLimit.{
  unit, Slot, chunks, aborts, admissions, admission_aborts, policy_of, Bucket, Store, Limits,
  store_of, with_store, max_keys, fresh, refill, Taken, taken, throttled, spend, take_entry, take,
  sweep,
}
use https_github_com_sv3t0v.RateLimit.Level.{
  cap, level_of, level, IsGood, IsKept, IsValid, IsKept-of, put-IsKept, sweep-IsValid, level-sweep,
  lookup-IsGood,
}

abbrev refilled : Slot → ℕ → Bucket → Bucket
refilled slot now b = refill (policy_of slot) now b

refill-IsGood :
    (slot : Slot) (now : ℕ) (b : Bucket) → IsGood slot b → IsGood slot (refilled slot now b)
unfolding refill
refill-IsGood slot now b g = record { capped = omega arith; in_order = omega arith }

refill-tokens :
    (slot : Slot) (now : ℕ) (b : Bucket) → (refilled slot now b).tokens ≡ level_of slot now (some b)
unfolding refill
refill-tokens slot now b = refl

-- Refilling early or late makes no difference to the level.
refill-level :
    (slot : Slot) (now t : ℕ) (b : Bucket)
    → now ≤ t
    → level_of slot t (some (refilled slot now b)) ≡ level_of slot t (some b)
unfolding refill
refill-level chunks now t b le = omega arith
refill-level aborts now t b le = omega arith
refill-level admissions now t b le = omega arith
refill-level admission_aborts now t b le = omega arith

with_store-IsValid :
    (slot : Slot) (m : Store) (s : Limits)
    → IsKept slot m
    → IsValid s
    → IsValid (with_store slot m s)
with_store-IsValid chunks m s k v = assumption
with_store-IsValid aborts m s k v = assumption
with_store-IsValid admissions m s k v = assumption
with_store-IsValid admission_aborts m s k v = assumption

store_of-with_store :
    (slot : Slot) (m : Store) (s : Limits) → store_of slot (with_store slot m s) ≡ m
store_of-with_store chunks m s = refl
store_of-with_store aborts m s = refl
store_of-with_store admissions m s = refl
store_of-with_store admission_aborts m s = refl

store_of-with_store_ne :
    (slot other : Slot) (m : Store) (s : Limits)
    → slot ≢ other
    → store_of other (with_store slot m s) ≡ store_of other s
store_of-with_store_ne slot other m s h = ground arith

level-with_store :
    (slot : Slot) (key : String) (t : ℕ) (b : Bucket) (s : Limits)
    → level slot key t (with_store slot (put key b (store_of slot s)) s) ≡ level_of slot t (some b)
level-with_store slot key t b s =
    rw (store_of-with_store slot (put key b (store_of slot s)) s, lookup-put key key b, eq_refl key)

-- To store a good entry keeps the state well formed.
pub put_entry-IsValid :
    (slot : Slot) (key : String) (b : Bucket) (s : Limits)
    → IsGood slot b
    → IsValid s
    → IsValid (with_store slot (put key b (store_of slot s)) s)
put_entry-IsValid slot key b s g v =
    with_store-IsValid slot _ s (put-IsKept slot key b (store_of slot s) g (IsKept-of slot s v)) v

-- What one call promises about the level of its key.
abbrev pub Promise : Slot → String → ℕ → Limits → Limits → Taken → Type 0
Promise slot key now s s' (taken b) =
    (unit ≤ level slot key now s)
    × ((t : ℕ)
        → now ≤ t
        → level slot key t s' + unit ≤ level slot key now s + (t - now) * (policy_of slot).rate)
Promise slot key now s s' (throttled n) =
    ((level slot key now s < unit)
      ⊎ ((lookup key (store_of slot s') ≡ none) × (max_keys ≤ length (store_of slot s'))))
    × ((t : ℕ) → now ≤ t → level slot key t s' ≡ level slot key t s)

pay_level :
    (slot : Slot) (now t : ℕ) (b : Bucket)
    → now ≤ b.refill_at
    → now ≤ t
    → unit ≤ b.tokens
    → level_of slot t (some (record b { tokens = b.tokens - unit })) + unit
      ≤ b.tokens + (t - now) * (policy_of slot).rate
pay_level chunks now t b h le enough = omega arith
pay_level aborts now t b h le enough = omega arith
pay_level admissions now t b h le enough = omega arith
pay_level admission_aborts now t b h le enough = omega arith

module _ (s : Limits) (slot : Slot) (key : String) (now : ℕ) (b : Bucket) where
  abbrev paid : Bucket
  paid = record b { tokens = b.tokens - unit }

  spend-Promise :
      (o : Option Bucket)
      → level_of slot now o ≡ b.tokens
      → now ≤ b.refill_at
      → ((t : ℕ) → now ≤ t → level_of slot t (some b) ≡ level_of slot t o)
      → lookup key (store_of slot s) ≡ o
      → Promise slot key now s (spend s slot key b).0 (spend s slot key b).1
  unfolding spend
  spend-Promise o tokens at same found = elim (Bool-cases (ltb b.tokens unit)) [
    | inl short ↦ rw short (
      inl (rw (found, tokens) (ground arith)),
      λ t le. rw (found, level-with_store slot key t b s) (same t le),
    )
    | inr enough ↦ rw enough (
      rw (found, tokens) (ground arith),
      λ t le.
          rw (found, tokens, level-with_store slot key t paid s)
            (pay_level slot now t b at le (ground arith)),
    )
  ]

  spend-IsValid : IsGood slot b → IsValid s → IsValid (spend s slot key b).0
  unfolding spend
  spend-IsValid g v = elim (Bool-cases (ltb b.tokens unit)) [
    | inl short ↦ rw short (put_entry-IsValid slot key b s g v)
    | inr enough ↦ rw enough (
        put_entry-IsValid slot key paid s
          (record { capped = omega (arith, g.capped); in_order = g.in_order }) v)
  ]

fresh-IsGood : (slot : Slot) (now : ℕ) → IsGood slot (fresh (policy_of slot) now)
fresh-IsGood slot now = record { capped = omega arith; in_order = omega arith }

fresh-level :
    (slot : Slot) (now t : ℕ)
    → now ≤ t
    → level_of slot t (some (fresh (policy_of slot) now)) ≡ cap slot
fresh-level slot now t le = omega arith

refill_at-refill : (slot : Slot) (now : ℕ) (b : Bucket) → now ≤ (refilled slot now b).refill_at
unfolding refill
refill_at-refill slot now b = omega arith

module _ (s : Limits) (slot : Slot) (key : String) (now : ℕ) (v : IsValid s) where
  take_entry-Promise :
      (o : Option Bucket)
      → lookup key (store_of slot s) ≡ o
      → Promise slot key now s (take_entry s slot key now o).0 (take_entry s slot key now o).1
  unfolding take_entry
  take_entry-Promise (some b) e =
      spend-Promise s slot key now (refilled slot now b) (some b) (sym (refill-tokens slot now b))
        (refill_at-refill slot now b) (λ t le. refill-level slot now t b le) e
  take_entry-Promise none e = elim (Bool-cases (leb max_keys (length (store_of slot s)))) [
    | inl full ↦ rw full (inr (e, leb→le _ _ full), λ t le. refl)
    | inr room ↦
        let b = fresh (policy_of slot) now in
        rw room (
          spend-Promise s slot key now (refilled slot now b) none
            (sym (fresh-level slot now now (omega arith)) ∙ sym (refill-tokens slot now b))
            (refill_at-refill slot now b)
            (λ t le. refill-level slot now t b le ∙ fresh-level slot now t le) e)
  ]

  take_entry-IsValid :
      (o : Option Bucket)
      → lookup key (store_of slot s) ≡ o
      → IsValid (take_entry s slot key now o).0
  unfolding take_entry
  take_entry-IsValid (some b) e =
      let g = lookup-IsGood slot key (store_of slot s) b (IsKept-of slot s v).good e in
      spend-IsValid s slot key now (refilled slot now b) (refill-IsGood slot now b g) v
  take_entry-IsValid none e = elim (Bool-cases (leb max_keys (length (store_of slot s)))) [
    | inl full ↦ rw full v
    | inr room ↦
        let b = fresh (policy_of slot) now in
        rw room (
          spend-IsValid s slot key now (refilled slot now b)
            (refill-IsGood slot now b (fresh-IsGood slot now)) v)
  ]

-- Every call keeps the stores well formed.
pub take-IsValid :
    (s : Limits) (slot : Slot) (key : String) (now : ℕ)
    → IsValid s
    → IsValid (take s slot key now).0
unfolding take
take-IsValid s slot key now v =
    take_entry-IsValid (sweep now s) slot key now (sweep-IsValid now s v) _ refl

Promise-of-swept :
    (slot : Slot) (key : String) (now : ℕ) (s swept s' : Limits) (r : Taken)
    → ((t : ℕ) → now ≤ t → level slot key t swept ≡ level slot key t s)
    → Promise slot key now swept s' r
    → Promise slot key now s s' r
Promise-of-swept slot key now s swept s' (taken b) same p =
    let e = same now (omega arith) in (rw (← e) p.0, λ t le. rw (← e) (p.1 t le))
Promise-of-swept slot key now s swept s' (throttled n) same p =
    let e = same now (omega arith) in (rw (← e) p.0, λ t le. p.1 t le ∙ same t le)

-- A call is let through only with a whole token, which it pays: the level falls by a token and
-- then rises at the rate at most. A call that is turned down leaves the level as it was.
pub take-Promise :
    (s : Limits) (slot : Slot) (key : String) (now : ℕ)
    → IsValid s
    → Promise slot key now s (take s slot key now).0 (take s slot key now).1
unfolding take
take-Promise s slot key now v =
    Promise-of-swept slot key now s (sweep now s) _ _ (λ t le. level-sweep slot key now t s v le)
      (take_entry-Promise (sweep now s) slot key now (sweep-IsValid now s v) _ refl)

pub put_entry-level_other :
    (slot other : Slot) (key key' : String) (t : ℕ) (b : Bucket) (s : Limits)
    → (slot ≢ other) ⊎ (str_eq key key' ≡ false)
    → level other key' t (with_store slot (put key b (store_of slot s)) s) ≡ level other key' t s
put_entry-level_other slot other key key' t b s (inl h) =
    rw (store_of-with_store_ne slot other (put key b (store_of slot s)) s h)
put_entry-level_other chunks other key key' t b s (inr h) =
    ground (arith, lookup-put key key' b s.chunk)
put_entry-level_other aborts other key key' t b s (inr h) =
    ground (arith, lookup-put key key' b s.abort)
put_entry-level_other admissions other key key' t b s (inr h) =
    ground (arith, lookup-put key key' b s.admission)
put_entry-level_other admission_aborts other key key' t b s (inr h) =
    ground (arith, lookup-put key key' b s.admission_abort)

module _ (slot other : Slot) (key key' : String) (t : ℕ)
    (apart : (slot ≢ other) ⊎ (str_eq key key' ≡ false)) where
  spend-level_other :
      (s : Limits) (b : Bucket) → level other key' t (spend s slot key b).0 ≡ level other key' t s
  unfolding spend
  spend-level_other s b = ground (
    arith,
    put_entry-level_other slot other key key' t b s apart,
    put_entry-level_other slot other key key' t (record b { tokens = b.tokens - unit }) s apart,
  )

  take_entry-level_other :
      (s : Limits) (now : ℕ) (o : Option Bucket)
      → level other key' t (take_entry s slot key now o).0 ≡ level other key' t s
  unfolding take_entry
  take_entry-level_other s now (some b) = spend-level_other s (refilled slot now b)
  take_entry-level_other s now none = elim (Bool-cases (leb max_keys (length (store_of slot s)))) [
    | inl full ↦ rw full
    | inr room ↦ rw room (spend-level_other s (refilled slot now (fresh (policy_of slot) now)))
  ]

  -- A call changes the level of no other key, and of no other kind.
  pub take-level_other :
      (s : Limits) (now : ℕ)
      → IsValid s
      → now ≤ t
      → level other key' t (take s slot key now).0 ≡ level other key' t s
  unfolding take
  take-level_other s now v le =
      take_entry-level_other (sweep now s) now _ ∙ level-sweep other key' now t s v le

spend-lookup :
    (s : Limits) (slot : Slot) (key : String) (b c : Bucket)
    → (spend s slot key b).1 ≡ taken c
    → lookup key (store_of slot (spend s slot key b).0) ≡ some c
unfolding spend
spend-lookup s slot key b c e = elim (Bool-cases (ltb b.tokens unit)) [
  | inl short ↦ cc (rw short at e)
  | inr enough ↦
      let p = record b { tokens = b.tokens - unit } in
      rw
        (
          enough,
          store_of-with_store slot (put key p (store_of slot s)) s,
          lookup-put key key p (store_of slot s),
          eq_refl key,
        )
        (ground (arith, enough))
]

take_entry-lookup :
    (s : Limits) (slot : Slot) (key : String) (now : ℕ) (o : Option Bucket) (c : Bucket)
    → (take_entry s slot key now o).1 ≡ taken c
    → lookup key (store_of slot (take_entry s slot key now o).0) ≡ some c
unfolding take_entry
take_entry-lookup s slot key now (some b) c e = spend-lookup s slot key (refilled slot now b) c e
take_entry-lookup s slot key now none c e =
    elim (Bool-cases (leb max_keys (length (store_of slot s)))) [
      | inl full ↦ cc (rw full at e)
      | inr room ↦ rw room (
          spend-lookup s slot key (refilled slot now (fresh (policy_of slot) now)) c (rw room at e))
    ]

-- The bucket that `take` returns is the one that the map holds.
pub take-lookup :
    (s : Limits) (slot : Slot) (key : String) (now : ℕ) (c : Bucket)
    → (take s slot key now).1 ≡ taken c
    → lookup key (store_of slot (take s slot key now).0) ≡ some c
unfolding take
take-lookup s slot key now c e = take_entry-lookup (sweep now s) slot key now _ c e
