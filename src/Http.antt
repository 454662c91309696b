-- ===== src/Http.antt =====
-- The results of the service methods: a value, or the HTTP exception that is thrown.
-- Also the values of a request or of the environment that the code takes for numbers, and
-- backend/src/common/database-size.ts.
use https_github_com_sv3t0v.Common.{
  ℕ, String, ◌≡◌, refl, Bool, true, false, leb, if◌then◌else◌, arith, ◌≤◌,
}

pub record HttpError : Type 0 where
  pub status : ℕ
  pub message : String

abbrev pub bad_request : String → HttpError
bad_request m = record { status = 400; message = m }

abbrev pub unauthorized_error : String → HttpError
unauthorized_error m = record { status = 401; message = m }

abbrev pub forbidden : String → HttpError
forbidden m = record { status = 403; message = m }

abbrev pub not_found : String → HttpError
not_found m = record { status = 404; message = m }

abbrev pub conflict : String → HttpError
conflict m = record { status = 409; message = m }

abbrev pub unavailable : String → HttpError
unavailable m = record { status = 503; message = m }

pub data Result {ℓ} (T : Type ℓ) : Type ℓ where
  err : HttpError → Result T
  ok : T → Result T

abbrev pub ◌>>=◌ {ℓ κ} : {S : Type ℓ} {T : Type κ} → Result S → (S → Result T) → Result T
err thrown >>= next = err thrown
ok value >>= next = next value

abbrev pub ◌>>◌ {ℓ} : {T : Type ℓ} → Result (Unit {0}) → Result T → Result T
check >> next = check >>= λ done. next

infixl 5 ◌>>=◌ ◌>>◌
-- `if (test) throw error`
abbrev pub throw_if : Bool → HttpError → Result (Unit {0})
throw_if true e = err e
throw_if false e = ok tt

-- A check that goes through did not throw.
pub throw_if-eq-ok : (b : Bool) (e : HttpError) (u : Unit {0}) → throw_if b e ≡ ok u → b ≡ false
throw_if-eq-ok true e u h = cc
throw_if-eq-ok false e u h = refl

-- What a JSON value is as a number.
pub data JsNumber : Type 0 where
  nat : ℕ → JsNumber
  negative fractional non_finite not_number : JsNumber

abbrev pub max_safe : ℕ
max_safe = 9007199254740991

-- `parseDatabaseSize` of a sum of numbers that the database holds.
unfoldable pub parse_database_size : ℕ → Result ℕ
parse_database_size n =
    if leb n max_safe then ok n else err (bad_request "Invalid storage size metadata")

pub parse_database_size-eq-ok :
    (n : ℕ) {m : ℕ} → parse_database_size n ≡ ok m → (m ≡ n) × (n ≤ max_safe)
unfolding parse_database_size
parse_database_size-eq-ok n e = ground arith
