-- ===== src/RateLimit/Level.antt =====
-- The tokens that a key has at a time: what the service promises of its buckets, whether the map
-- holds an entry for the key or not.
use https_github_com_sv3t0v.Common.{
  ℕ, ◌+◌, ◌-◌, ◌*◌, ◌≤◌, min, String, ◌≡◌, refl, true, Option, none, some, [], ◌∷◌, All, arith,
  lookup, put, lookup-put, str_eq, eq_iff, Bool-cases, sym, inl, inr,
}
use https_github_com_sv3t0v.RateLimit.{
  unit, Slot, chunks, aborts, admissions, admission_aborts, policy_of, Bucket, Store, Limits,
  store_of, is_idle, evict, sweep,
}

abbrev pub cap : Slot → ℕ
cap slot = (policy_of slot).burst * unit

abbrev pub level_of : Slot → ℕ → Option Bucket → ℕ
level_of slot t none = cap slot
level_of slot t (some b) = min (cap slot) (b.tokens + (t - b.refill_at) * (policy_of slot).rate)

abbrev pub level : Slot → String → ℕ → Limits → ℕ
level slot key t s = level_of slot t (lookup key (store_of slot s))

-- Every key once.
abbrev pub Unique : Store → Type 0
Unique [] = Unit {0}
Unique ((k, b) ∷ m) = (lookup k m ≡ none) × Unique m

pub record IsGood (slot : Slot) (b : Bucket) : Type 0 where
  pub capped : b.tokens ≤ cap slot
  pub in_order : b.refill_at ≤ b.seen_at

-- A store as the service keeps it.
pub record IsKept (slot : Slot) (m : Store) : Type 0 where
  pub unique : Unique m
  pub good : All (λ e. IsGood slot e.1) m

pub record IsValid (s : Limits) : Type 0 where
  pub chunk : IsKept chunks s.chunk
  pub abort : IsKept aborts s.abort
  pub admission : IsKept admissions s.admission
  pub admission_abort : IsKept admission_aborts s.admission_abort

-- An entry that may be evicted has refilled to its burst: to drop it changes nothing.
pub level_of_idle :
    (slot : Slot) (now t : ℕ) (b : Bucket)
    → IsGood slot b
    → is_idle now b ≡ true
    → now ≤ t
    → level_of slot t (some b) ≡ cap slot
level_of_idle chunks now t b g h le = ground arith
level_of_idle aborts now t b g h le = ground arith
level_of_idle admissions now t b g h le = ground arith
level_of_idle admission_aborts now t b g h le = ground arith

pub evict-lookup-none :
    (now : ℕ) (k : String) (m : Store) → lookup k m ≡ none → lookup k (evict now m) ≡ none
unfolding evict lookup
evict-lookup-none now k [] h = refl
evict-lookup-none now k ((j, b) ∷ m) h = ground (arith, evict-lookup-none now k m)

evict-level :
    (slot : Slot) (now t : ℕ) (k : String) (m : Store)
    → IsKept slot m
    → now ≤ t
    → level_of slot t (lookup k (evict now m)) ≡ level_of slot t (lookup k m)
unfolding evict lookup
evict-level slot now t k [] v le = refl
evict-level slot now t k ((j, b) ∷ m) v le =
    let rest : IsKept slot m = record { unique = v.unique.1; good = v.good.1 } in
    let ih = evict-level slot now t k m rest le in
    elim (Bool-cases (str_eq j k)) [
      | inl same ↦ elim (Bool-cases (is_idle now b)) [
        | inl idle ↦
            let e : j ≡ k = (eq_iff j k).0 same in
            let gone : lookup k m ≡ none = rw e at (v.unique.0) in
            rw (idle, same, evict-lookup-none now k m gone)
              (sym (level_of_idle slot now t b v.good.0 idle le))
        | inr busy ↦ rw (busy, same) refl
      ]
      | inr other ↦ elim (Bool-cases (is_idle now b)) [
        | inl idle ↦ rw (idle, other) ih
        | inr busy ↦ rw (busy, other) ih
      ]
    ]

evict-IsGood :
    (slot : Slot) (now : ℕ) (m : Store)
    → All (λ e. IsGood slot e.1) m
    → All (λ e. IsGood slot e.1) (evict now m)
unfolding evict
evict-IsGood slot now [] g = tt
evict-IsGood slot now ((j, b) ∷ m) g = ground (arith, evict-IsGood slot now m g.1)

evict-Unique : (now : ℕ) (m : Store) → Unique m → Unique (evict now m)
unfolding evict
evict-Unique now [] u = tt
evict-Unique now ((j, b) ∷ m) u =
    ground (arith, evict-Unique now m u.1, evict-lookup-none now j m u.0)

evict-IsKept : (slot : Slot) (now : ℕ) (m : Store) → IsKept slot m → IsKept slot (evict now m)
evict-IsKept slot now m v = record {
  unique = evict-Unique now m v.unique;
  good = evict-IsGood slot now m v.good;
}

put-IsGood :
    (slot : Slot) (k : String) (b : Bucket) (m : Store)
    → IsGood slot b
    → All (λ e. IsGood slot e.1) m
    → All (λ e. IsGood slot e.1) (put k b m)
unfolding put
put-IsGood slot k b [] h g = (h, tt)
put-IsGood slot k b ((j, c) ∷ m) h g = ground (arith, put-IsGood slot k b m h g.1)

put-Unique : (k : String) (b : Bucket) (m : Store) → Unique m → Unique (put k b m)
unfolding put lookup
put-Unique k b [] u = (refl, tt)
put-Unique k b ((j, c) ∷ m) u =
    ground (arith, put-Unique k b m u.1, lookup-put k j b m, eq_iff k j, eq_iff j k)

pub put-IsKept :
    (slot : Slot) (k : String) (b : Bucket) (m : Store)
    → IsGood slot b
    → IsKept slot m
    → IsKept slot (put k b m)
put-IsKept slot k b m h v = record {
  unique = put-Unique k b m v.unique;
  good = put-IsGood slot k b m h v.good;
}

-- The sweep keeps the four stores well formed.
pub sweep-IsValid : (now : ℕ) (s : Limits) → IsValid s → IsValid (sweep now s)
unfolding sweep
sweep-IsValid now s v = ground (
  arith,
  evict-IsKept chunks now s.chunk v.chunk,
  evict-IsKept aborts now s.abort v.abort,
  evict-IsKept admissions now s.admission v.admission,
  evict-IsKept admission_aborts now s.admission_abort v.admission_abort,
)

pub IsKept-of : (slot : Slot) (s : Limits) → IsValid s → IsKept slot (store_of slot s)
IsKept-of chunks s v = v.chunk
IsKept-of aborts s v = v.abort
IsKept-of admissions s v = v.admission
IsKept-of admission_aborts s v = v.admission_abort

-- The sweep changes no key's level, now or later.
pub level-sweep :
    (slot : Slot) (key : String) (now t : ℕ) (s : Limits)
    → IsValid s
    → now ≤ t
    → level slot key t (sweep now s) ≡ level slot key t s
unfolding sweep
level-sweep chunks key now t s v le = ground (arith, evict-level chunks now t key s.chunk v.chunk)
level-sweep aborts key now t s v le = ground (arith, evict-level aborts now t key s.abort v.abort)
level-sweep admissions key now t s v le =
    ground (arith, evict-level admissions now t key s.admission v.admission)
level-sweep admission_aborts key now t s v le =
    ground (arith, evict-level admission_aborts now t key s.admission_abort v.admission_abort)

pub lookup-IsGood :
    (slot : Slot) (k : String) (m : Store) (b : Bucket)
    → All (λ e. IsGood slot e.1) m
    → lookup k m ≡ some b
    → IsGood slot b
unfolding lookup
lookup-IsGood slot k [] b g e = cc
lookup-IsGood slot k ((j, c) ∷ m) b g e = ground (arith, lookup-IsGood slot k m b g.1)
