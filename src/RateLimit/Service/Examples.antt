-- ===== src/RateLimit/Service/Examples.antt =====
-- Runs of the upload rate limiter on concrete calls.
use https_github_com_sv3t0v.Common.{
  ℕ, ◌+◌, ◌-◌, ◌*◌, ◌≤◌, ◌≡◌, refl, false, List, [], ◌∷◌, ◌++◌, arith, lookup, put,
}
use https_github_com_sv3t0v.RateLimit.{unit, chunk, chunks, aborts, Limits, take, evict}
use https_github_com_sv3t0v.RateLimit.Level.{IsValid}
use https_github_com_sv3t0v.RateLimit.Takes.{Promise, take-Promise}
use https_github_com_sv3t0v.RateLimit.Retry.{Waits, take-Waits}
use https_github_com_sv3t0v.RateLimit.Interceptor.{
  aborted, closed, processed, finished, installed, handle_all, mark_upload_processing,
  released_once, kept_while_processing, processing, Request,
}
use https_github_com_sv3t0v.RateLimit.Service.{
  Call, enters, releases, init, run, step, enter, enter_taken, with_lease, decimal, release,
  release_at, admit_ip,
}
use https_github_com_sv3t0v.RateLimit.Service.Rate.{paid_in, paid_in-le, init-IsValid, run-IsValid}
use https_github_com_sv3t0v.RateLimit.Service.Concurrency.{IsAccounted, run-IsAccounted}

abbrev history : List (ℕ × Call)
history =
    (5, enters 7 chunk)
    ∷ (6, enters 7 chunk)
    ∷ (7, releases 0)
    ∷ (8, releases 0)
    ∷ (9, enters 7 chunk)
    ∷ (10, enters 7 chunk)
    ∷ (11, enters 7 chunk)
    ∷ (12, enters 7 chunk)
    ∷ []

service : Unit {0}
unfolding run step enter enter_taken with_lease decimal release release_at admit_ip take lookup put
    evict init
service = tt

run_test : (run init history).limits.active ≡ 4
unfolding service
run_test = refl

decimal_test : decimal 9007 ≡ "9007"
unfolding decimal
decimal_test = refl

run-IsAccounted_example : IsAccounted (run init history).limits (run init history).leases
run-IsAccounted_example = run-IsAccounted history

paid_in-le_example : unit * paid_in chunks "7" init history ≤ unit * 50 + (12 - 5) * 50
paid_in-le_example = paid_in-le chunks "7" 5 12 init history init-IsValid (omega arith)

take-Promise_example :
    Promise chunks "7" 5 init.limits
      (take init.limits chunks "7" 5).0
      (take init.limits chunks "7" 5).1
take-Promise_example = take-Promise init.limits chunks "7" 5 init-IsValid

abbrev spent : Limits
spent = record {
  chunk = [];
  abort = ("7", record { tokens = 0; refill_at = 100; seen_at = 100; active = 0 }) ∷ [];
  admission = [];
  admission_abort = [];
  last_sweep = 0;
  active = 0;
}

spent-IsValid : IsValid spent
unfolding lookup
spent-IsValid = record {
  chunk = record { unique = tt; good = tt };
  abort = record {
    unique = (refl, tt);
    good = (record { capped = omega arith; in_order = omega arith }, tt);
  };
  admission = record { unique = tt; good = tt };
  admission_abort = record { unique = tt; good = tt };
}

take-Waits_example : Waits aborts "7" 100 spent 2
unfolding service
take-Waits_example = take-Waits spent aborts "7" 100 2 spent-IsValid refl

released_once_example :
    ((handle_all installed (aborted ∷ closed ∷ [])).calls ≤ 1)
    × ((handle_all installed ((processed ∷ closed ∷ []) ++ finished ∷ aborted ∷ [])).calls ≡ 1)
released_once_example =
    released_once (aborted ∷ closed ∷ []) (processed ∷ closed ∷ []) (aborted ∷ [])

abbrev marked : Request
marked = record installed { phase = processing }

kept_while_processing_example : (handle_all marked (aborted ∷ closed ∷ [])).released ≡ false
unfolding mark_upload_processing
kept_while_processing_example =
    kept_while_processing installed marked (aborted ∷ closed ∷ []) refl ((λ e. cc), ((λ e. cc), tt))

run-IsValid_example : IsValid (run init history).limits
run-IsValid_example = run-IsValid history
