-- ===== src/RateLimit/Interceptor.antt =====
-- backend/src/uploads/upload-rate-limit.ts: `UploadRateLimitInterceptor`, which takes a lease before
-- the multipart body is read, and `markUploadProcessing`, by which a handler keeps it after the
-- client has gone. What the request, the response and the handler do is a list of events.
use https_github_com_sv3t0v.Common.{
  ℕ, ◌+◌, ◌≤◌, ◌≡◌, ◌≢◌, refl, Bool, true, false, ◌||◌, Option, none, some, List, [], ◌∷◌, ◌++◌,
  All, arith, if◌then◌else◌,
}
use https_github_com_sv3t0v.RateLimit.Service.{Entered, unauthorized, no_op, refused, leased}

pub data Phase : Type 0 where
  ingress processing : Phase

-- The lease of a request, its two listeners, and how often the service's own release was called.
pub record Request : Type 0 where
  pub phase : Phase
  pub released : Bool
  pub on_aborted : Bool
  pub on_close : Bool
  pub request_aborted : Bool
  pub calls : ℕ

pub data Event : Type 0 where
  aborted closed processed finished : Event

pub lease_release : Request → Request
lease_release r = if r.released then r else record r { released = true; calls = r.calls + 1 }

pub disconnected_in : Phase → Request → Request
unfolding lease_release
disconnected_in ingress r = lease_release r
disconnected_in processing r = r

pub disconnected : Request → Request
unfolding disconnected_in
disconnected r = disconnected_in r.phase r

-- `none` is the exception "Upload request cancelled".
unfoldable pub mark_upload_processing : Request → Option Request
mark_upload_processing r =
    if r.request_aborted || r.released then none else some (record r { phase = processing })

pub cleanup : Request → Request
unfolding lease_release
cleanup r = lease_release (record r { on_aborted = false; on_close = false })

abbrev or_same : Request → Option Request → Request
or_same r none = r
or_same r (some q) = q

-- `once` listeners go off at their first event.
pub handle : Request → Event → Request
unfolding disconnected cleanup mark_upload_processing
handle r aborted =
    if r.on_aborted
    then disconnected (record r { on_aborted = false; request_aborted = true })
    else record r { request_aborted = true }
handle r closed = if r.on_close then disconnected (record r { on_close = false }) else r
handle r processed = or_same r (mark_upload_processing r)
handle r finished = cleanup r

pub handle_all : Request → List Event → Request
handle_all r [] = r
handle_all r (e ∷ es) = handle_all (handle r e) es

pub data Intercepted : Type 0 where
  -- The exception is thrown on, with a Retry-After header where it is a throttle.
  rejected : Option ℕ → Intercepted
  passed : Request → Intercepted

abbrev pub installed : Request
installed = record {
  phase = ingress;
  released = false;
  on_aborted = true;
  on_close = true;
  request_aborted = false;
  calls = 0;
}

-- `throws` tells whether `next.handle()` throws before it gives an observable.
pub intercept : Entered → Bool → Intercepted
unfolding cleanup
intercept unauthorized throws = rejected none
intercept (refused n) throws = rejected (some n)
intercept no_op throws = passed (if throws then cleanup installed else installed)
intercept (leased l) throws = passed (if throws then cleanup installed else installed)

abbrev Counted : Request → Type 0
Counted r = r.calls ≡ (if r.released then 1 else 0)

handle-Counted : (r : Request) (e : Event) → Counted r → Counted (handle r e)
unfolding handle
handle-Counted r aborted h = ground arith
handle-Counted r closed h = ground arith
handle-Counted r processed h = ground arith
handle-Counted r finished h = ground arith

handle_all-Counted : (r : Request) (es : List Event) → Counted r → Counted (handle_all r es)
unfolding handle_all
handle_all-Counted r [] h = h
handle_all-Counted r (e ∷ es) h = handle_all-Counted (handle r e) es (handle-Counted r e h)

handle-released : (r : Request) (e : Event) → r.released ≡ true → (handle r e).released ≡ true
unfolding handle
handle-released r aborted h = ground arith
handle-released r closed h = ground arith
handle-released r processed h = ground arith
handle-released r finished h = ground arith

released_stays :
    (r : Request) (es : List Event) → r.released ≡ true → (handle_all r es).released ≡ true
unfolding handle_all
released_stays r [] h = h
released_stays r (e ∷ es) h = released_stays (handle r e) es (handle-released r e h)

finished-released : (r : Request) → (handle r finished).released ≡ true
unfolding handle
finished-released r = ground arith

finish_releases :
    (r : Request) (before after : List Event)
    → (handle_all r (before ++ finished ∷ after)).released ≡ true
unfolding handle_all
finish_releases r [] after = released_stays (handle r finished) after (finished-released r)
finish_releases r (e ∷ before) after = finish_releases (handle r e) before after

-- However the client, the response and the handler interleave, the service's release is called at
-- most once, and once the observable has finished it has been called exactly once.
pub released_once :
    (es before after : List Event)
    → ((handle_all installed es).calls ≤ 1)
      × ((handle_all installed (before ++ finished ∷ after)).calls ≡ 1)
released_once es before after = (
  ground (arith, handle_all-Counted installed es refl),
  ground (
    arith,
    handle_all-Counted installed (before ++ finished ∷ after) refl,
    finish_releases installed before after,
  ),
)

-- An event that is not the end of the observable.
abbrev pub IsUnfinished : Event → Type 0
IsUnfinished e = e ≢ finished

abbrev IsHeld : Request → Type 0
IsHeld r = (r.phase ≡ processing) × (r.released ≡ false)

handle-IsHeld : (r : Request) (e : Event) → e ≢ finished → IsHeld r → IsHeld (handle r e)
unfolding handle
handle-IsHeld r aborted n h = ground arith
handle-IsHeld r closed n h = ground arith
handle-IsHeld r processed n h = ground arith
handle-IsHeld r finished n h = absurd (n refl)

handle_all-IsHeld :
    (r : Request) (es : List Event) → All IsUnfinished es → IsHeld r → IsHeld (handle_all r es)
unfolding handle_all
handle_all-IsHeld r [] a h = h
handle_all-IsHeld r (e ∷ es) a h = handle_all-IsHeld (handle r e) es a.1 (handle-IsHeld r e a.0 h)

-- A handler that has marked the request holds its lease until the observable finishes, whatever
-- the client does in between.
pub kept_while_processing :
    (r marked : Request) (es : List Event)
    → mark_upload_processing r ≡ some marked
    → All IsUnfinished es
    → (handle_all marked es).released ≡ false
unfolding mark_upload_processing
kept_while_processing r marked es e a = (handle_all-IsHeld marked es a (ground arith)).1
