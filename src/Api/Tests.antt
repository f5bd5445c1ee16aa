-- ===== src/Api/Tests.antt =====
-- The rate limiter's theorems at a limit of two requests in ten units of time.
use doupro.Base.{◌≡◌, ◌≤◌, ◌-◌, ◌+◌, refl, none, List, [], ◌∷◌, ℕ, Text, codes, arith, Option}
use doupro.Api.RateLimit.{RateLimiter, new_rate_limiter, wrap, serve_all, handled}
use doupro.Api.RateLimit.Bounds.{handled_of, serve_all-le, handled_again}

abbrev no_port : Text → Option Text
no_port address = none

abbrev alice : Text
alice = codes "10.0.0.1"

abbrev requests : List (Text × ℕ)
requests = (alice, 100) ∷ (alice, 101) ∷ (codes "10.0.0.2", 101) ∷ (alice, 107) ∷ (alice, 110) ∷ []

serve_all-le_example :
    handled_of alice (serve_all no_port requests (new_rate_limiter 2 10)).0 ≤ 2 + 2
serve_all-le_example = serve_all-le no_port alice requests 100 (new_rate_limiter 2 10) (omega arith)

abbrev started : RateLimiter
started = record {
  limit = 2;
  window = 10;
  buckets = (alice, record { count = 1; window_ends = 110 }) ∷ [];
}

handled_again_example :
    (handled_of alice (serve_all no_port requests started).0 ≤ 2 - 1)
    × ((wrap no_port alice 111 (serve_all no_port requests started).1).0 ≡ handled)
handled_again_example =
    handled_again no_port alice alice requests 100 111 started
      (record { count = 1; window_ends = 110 }) refl (omega arith) (omega arith) (omega arith) refl
