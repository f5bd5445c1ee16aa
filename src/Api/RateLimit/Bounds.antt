-- ===== src/Api/RateLimit/Bounds.antt =====
-- How many requests of a client are handled, and when one is again.
use doupro.Base.{
  subst, sym, ◌≡◌, refl, ap, ◌∙◌, Option, none, some, List, [], ◌∷◌, ℕ, ◌+◌, ◌-◌, ◌≤◌, ◌<◌, Text,
  text_eq, text_eq_iff, if◌then◌else◌, arith, Bool-cases, inl, inr,
}
use doupro.Api.RateLimit.{
  Bucket, bucket_of, RateLimiter, allow, Answer, handled, too_many_requests, client_ip, wrap,
  serve_all,
}
use doupro.Api.RateLimit.Calls.{
  allow-limit, bucket_of-allow, taken, not_taken, allow_counting, IsOver, IsOver-or_counting,
  current_bucket-over, allow_starting,
}

-- The requests of a client that were handled.
abbrev pub handled_of : Text → List (Text × Answer) → ℕ
handled_of key [] = 0
handled_of key ((k, handled) ∷ as_) = (if text_eq k key then 1 else 0) + handled_of key as_
handled_of key ((k, too_many_requests) ∷ as_) = handled_of key as_

-- The times do not fall, and lie between two bounds.
abbrev pub Within : ℕ → ℕ → List (Text × ℕ) → Type 0
Within lo hi [] = Unit
Within lo hi ((address, now) ∷ rs) = (lo ≤ now) × (now ≤ hi) × Within now hi rs

module _ (split : Text → Option Text) where
  handled_of-wrap :
      (key address : Text) (now : ℕ) (l : RateLimiter) (answers : List (Text × Answer))
      → handled_of key ((client_ip split address, (wrap split address now l).0) ∷ answers)
        ≡ taken key (client_ip split address) (allow (client_ip split address) now l).0
          + handled_of key answers
  unfolding wrap
  handled_of-wrap key address now l answers =
      elim (Bool-cases (allow (client_ip split address) now l).0) [
        | inl ok_ ↦ rw ok_ (ground arith)
        | inr refused ↦ rw refused (ground arith)
      ]

  wrap-allow :
      (address : Text) (now : ℕ) (l : RateLimiter)
      → (wrap split address now l).1 ≡ (allow (client_ip split address) now l).1
  unfolding wrap
  wrap-allow address now l = refl

  -- While the bucket counts, no more are handled than it still lets through, and its window stays.
  run_counting :
      (key : Text) (rs : List (Text × ℕ)) (lo hi : ℕ) (l : RateLimiter) (b : Bucket)
      → Within lo hi rs
      → bucket_of key l.buckets ≡ some b
      → hi ≤ b.window_ends
      → (handled_of key (serve_all split rs l).0 ≤ l.limit - b.count)
        × ((b' : Bucket) × (bucket_of key (serve_all split rs l).1.buckets ≡ some b')
            × (b'.window_ends ≡ b.window_ends))
  run_counting key [] lo hi l b h e ends = (omega arith, (b, e, refl))
  run_counting key ((address, now) ∷ rs) lo hi l b (from, until, h) e ends =
      let k = client_ip split address in
      let (b', e', same, room) = allow_counting key k now l b e (omega arith) in
      let l1 = (wrap split address now l).1 in
      let is_l1 = wrap-allow address now l in
      let (limits, _) = allow-limit k now l in
      let (least, (b2, e2, same2)) =
        run_counting key rs now hi l1 b' h
          (ap (λ (u : RateLimiter). bucket_of key u.buckets) is_l1 ∙ e') (omega arith) in
      let limit1 : l1.limit ≡ l.limit = ap (λ (u : RateLimiter). u.limit) is_l1 ∙ limits in
      (
        omega (arith, handled_of-wrap key address now l (serve_all split rs l1).0),
        (b2, e2, same2 ∙ same),
      )

  room_of : ℕ → Option Bucket → ℕ
  room_of limit none = 0
  room_of limit (some b) = limit - b.count

  run_bound :
      (key : Text) (rs : List (Text × ℕ)) (lo hi : ℕ) (l : RateLimiter)
      → Within lo hi rs
      → hi ≤ lo + l.window
      → handled_of key (serve_all split rs l).0
        ≤ room_of l.limit (bucket_of key l.buckets) + l.limit
  unfolding room_of
  run_bound key [] lo hi l h span = omega arith
  run_bound key ((address, now) ∷ rs) lo hi l (from, until, h) span =
      let k = client_ip split address in
      let l1 = (wrap split address now l).1 in
      let is_l1 = wrap-allow address now l in
      let (limits, windows) = allow-limit k now l in
      let limit1 : l1.limit ≡ l.limit = ap (λ (u : RateLimiter). u.limit) is_l1 ∙ limits in
      let window1 : l1.window ≡ l.window = ap (λ (u : RateLimiter). u.window) is_l1 ∙ windows in
      let moved : bucket_of key l1.buckets ≡ bucket_of key (allow k now l).1.buckets =
        ap (λ (u : RateLimiter). bucket_of key u.buckets) is_l1 in
      let total = handled_of-wrap key address now l (serve_all split rs l1).0 in
      let ih = run_bound key rs now hi l1 h (omega arith) in
      elim (IsOver-or_counting now (bucket_of key l.buckets)) [
        | inr (b, e, counting) ↦
            let (b', e', _, room) = allow_counting key k now l b e counting in
            let ih' =
              subst (λ o. handled_of key (serve_all split rs l1).0 ≤ room_of l1.limit o + l1.limit)
                (moved ∙ e') ih in
            subst
              (λ o.
                handled_of key ((k, (wrap split address now l).0) ∷ (serve_all split rs l1).0)
                ≤ room_of l.limit o + l.limit)
              (sym e) (omega arith)
        | inl over ↦ elim (Bool-cases (text_eq k key)) [
          | inl same ↦
              let (e1, room) = allow_starting key k now l over ((text_eq_iff k key).0 same) in
              let (least, _) =
                run_counting key rs now hi l1 (record { count = 1; window_ends = now + l.window }) h
                  (moved ∙ e1) (omega arith) in
              let all_ : handled_of key
                    ((k, (wrap split address now l).0) ∷ (serve_all split rs l1).0)
                  ≤ l.limit =
                omega (arith, total, room, least, limit1) in
              omega (arith, all_)
          | inr other ↦
              let idle : taken key k (allow k now l).0 ≡ 0 =
                not_taken key k (allow k now l).0 other in
              let e1 : bucket_of key l1.buckets ≡ bucket_of key l.buckets =
                moved ∙ bucket_of-allow key k now l ∙ ground arith in
              let ih' =
                subst
                  (λ o. handled_of key (serve_all split rs l1).0 ≤ room_of l1.limit o + l1.limit) e1
                  ih in
              let ih2 =
                subst
                  (λ n.
                    handled_of key (serve_all split rs l1).0
                    ≤ room_of n (bucket_of key l.buckets) + n)
                  limit1 ih' in
              let all_ : handled_of key
                    ((k, (wrap split address now l).0) ∷ (serve_all split rs l1).0)
                  ≤ room_of l.limit (bucket_of key l.buckets) + l.limit =
                omega (arith, total, idle, ih2) in
              all_
        ]
      ]

  room_le : (limit : ℕ) (o : Option Bucket) → room_of limit o ≤ limit
  unfolding room_of
  room_le limit none = omega arith
  room_le limit (some b) = omega arith

  -- In any span of one window, wherever it lies and whatever other clients send, no more than twice
  -- the limit of a client's requests are handled.
  pub serve_all-le :
      (key : Text) (rs : List (Text × ℕ)) (from : ℕ) (l : RateLimiter)
      → Within from (from + l.window) rs
      → handled_of key (serve_all split rs l).0 ≤ l.limit + l.limit
  serve_all-le key rs from l h = omega (
    arith,
    run_bound key rs from (from + l.window) l h (omega arith),
    room_le l.limit (bucket_of key l.buckets),
  )

  wrap_over :
      (address : Text) (now : ℕ) (l : RateLimiter)
      → IsOver now (bucket_of (client_ip split address) l.buckets)
      → 0 < l.limit
      → (wrap split address now l).0 ≡ handled
  unfolding wrap allow
  wrap_over address now l over positive =
      let fresh =
        current_bucket-over l.window now (bucket_of (client_ip split address) l.buckets) over in
      ground (arith, fresh)

  serve_all-limit :
      (rs : List (Text × ℕ)) (l : RateLimiter) → (serve_all split rs l).1.limit ≡ l.limit
  serve_all-limit [] l = refl
  serve_all-limit ((address, now) ∷ rs) l =
      serve_all-limit rs (wrap split address now l).1
      ∙ ap (λ (u : RateLimiter). u.limit) (wrap-allow address now l)
      ∙ (allow-limit (client_ip split address) now l).0

  -- However many requests a client sends while its window lasts, no more are handled than the limit
  -- leaves, and its first request after the end of that window is handled, if the limit is not zero:
  -- refused requests do not prolong the wait.
  pub handled_again :
      (key address : Text) (rs : List (Text × ℕ)) (from now : ℕ) (l : RateLimiter) (b : Bucket)
      → bucket_of key l.buckets ≡ some b
      → Within from b.window_ends rs
      → b.window_ends < now
      → 0 < l.limit
      → client_ip split address ≡ key
      → (handled_of key (serve_all split rs l).0 ≤ l.limit - b.count)
        × ((wrap split address now (serve_all split rs l).1).0 ≡ handled)
  handled_again key address rs from now l b e h late positive is_key =
      let (least, (b', e', ends)) = run_counting key rs from b.window_ends l b h e (omega arith) in
      (
        least,
        wrap_over address now (serve_all split rs l).1
            (subst (λ t. IsOver now (bucket_of t (serve_all split rs l).1.buckets)) (sym is_key)
              (subst (λ o. IsOver now o) (sym e') (omega (arith, ends, late))))
            (omega (arith, serve_all-limit rs l)),
      )
