-- ===== src/Api/RateLimit.antt =====
-- internal/api/ratelimit.go. The clock, in nanoseconds, does not run backwards; the mutex makes a run a
-- sequence of calls.
pub mod Calls
pub mod Bounds
use doupro.Base.{
  Bool, true, false, Option, none, some, List, [], ◌∷◌, ℕ, ◌+◌, Text, text_eq, if◌then◌else◌, ltb,
  leb,
}

pub record Bucket : Type 0 where
  pub count : ℕ
  pub window_ends : ℕ

-- The map `buckets`, from a client's address; a write adds an entry in front.
abbrev pub Buckets : Type 0
Buckets = List (Text × Bucket)

abbrev pub bucket_of : Text → Buckets → Option Bucket
bucket_of key [] = none
bucket_of key ((k, b) ∷ bs) = let rest = bucket_of key bs in if text_eq k key then some b else rest

pub record RateLimiter : Type 0 where
  pub limit : ℕ
  pub window : ℕ
  pub buckets : Buckets

abbrev pub new_rate_limiter : ℕ → ℕ → RateLimiter
new_rate_limiter limit window = record { limit = limit; window = window; buckets = [] }

-- The bucket that counts a call: a new one, where there is none or its window has ended.
abbrev pub current_bucket : ℕ → ℕ → Option Bucket → Bucket
current_bucket window now none = record { count = 0; window_ends = now + window }
current_bucket window now (some b) =
    if ltb b.window_ends now then record { count = 0; window_ends = now + window } else b

unfoldable pub allow : Text → ℕ → RateLimiter → Bool × RateLimiter
allow key now l =
    let b = current_bucket l.window now (bucket_of key l.buckets) in
    let b' = record b { count = b.count + 1 } in
    (leb b'.count l.limit, record l { buckets = (key, b') ∷ l.buckets })

-- What a request gets: the handler's answer, or the status 429.
pub data Answer : Type 0 where
  handled too_many_requests : Answer

-- `clientIP`, for `net.SplitHostPort`
abbrev pub client_ip : (Text → Option Text) → Text → Text
client_ip split_host_port address = elim (split_host_port address) [
  | some host ↦ host
  | none ↦ address
]

-- `wrap`
unfoldable pub wrap : (Text → Option Text) → Text → ℕ → RateLimiter → Answer × RateLimiter
unfolding allow
wrap split_host_port address now l =
    let (ok_, l') = allow (client_ip split_host_port address) now l in
    (if ok_ then handled else too_many_requests, l')

-- Requests, each an address and the time of its arrival.
abbrev pub serve_all :
    (Text → Option Text) → List (Text × ℕ) → RateLimiter → List (Text × Answer) × RateLimiter
serve_all split_host_port [] l = ([], l)
serve_all split_host_port ((address, now) ∷ rs) l =
    let (answer, l1) = wrap split_host_port address now l in
    let (answers, l2) = serve_all split_host_port rs l1 in
    ((client_ip split_host_port address, answer) ∷ answers, l2)
