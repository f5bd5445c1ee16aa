-- ===== src/Api/RateLimit/Calls.antt =====
-- What one call does to the bucket of a client.
use doupro.Base.{
  ◌⊎◌, subst, sym, Bool, false, ◌≡◌, refl, ap, ◌∙◌, Option, none, some, ℕ, ◌+◌, ◌-◌, ◌≤◌, ◌<◌, Text,
  text_eq, text_eq_iff, if◌then◌else◌, ltb, arith, Bool-cases, inl, inr,
}
use doupro.Api.RateLimit.{Bucket, bucket_of, RateLimiter, current_bucket, allow}

pub allow-limit :
    (key : Text) (now : ℕ) (l : RateLimiter)
    → ((allow key now l).1.limit ≡ l.limit) × ((allow key now l).1.window ≡ l.window)
unfolding allow
allow-limit key now l = (refl, refl)

pub bucket_of-allow :
    (k key : Text) (now : ℕ) (l : RateLimiter)
    → bucket_of k (allow key now l).1.buckets ≡ (
        if text_eq key k
        then some (
            let b = current_bucket l.window now (bucket_of key l.buckets) in
            record b { count = b.count + 1 })
        else bucket_of k l.buckets)
unfolding allow
bucket_of-allow k key now l = refl

abbrev pub taken : Text → Text → Bool → ℕ
taken key k ok_ = if ok_ then if text_eq k key then 1 else 0 else 0

pub not_taken : (key k : Text) (b : Bool) → text_eq k key ≡ false → taken key k b ≡ 0
not_taken key k b h = ground arith

-- A call while the client's bucket counts.
pub allow_counting :
    (key k : Text) (now : ℕ) (l : RateLimiter) (b : Bucket)
    → bucket_of key l.buckets ≡ some b
    → now ≤ b.window_ends
    → (b' : Bucket) × (bucket_of key (allow k now l).1.buckets ≡ some b')
      × (b'.window_ends ≡ b.window_ends)
      × (taken key k (allow k now l).0 + (l.limit - b'.count) ≤ l.limit - b.count)
unfolding allow
allow_counting key k now l b e h = elim (Bool-cases (text_eq k key)) [
  | inl same ↦
      let is_key : k ≡ key = (text_eq_iff k key).0 same in
      let is_b : bucket_of k l.buckets ≡ some b = ap (λ t. bucket_of t l.buckets) is_key ∙ e in
      (record b { count = b.count + 1 }, ground (arith, is_b), refl, ground (arith, is_b))
  | inr other ↦ (b, ground arith, refl, ground arith)
]

abbrev pub IsOver : ℕ → Option Bucket → Type 0
IsOver now none = Unit
IsOver now (some b) = b.window_ends < now

pub IsOver-or_counting :
    (now : ℕ) (o : Option Bucket)
    → IsOver now o ⊎ ((b : Bucket) × (o ≡ some b) × (now ≤ b.window_ends))
IsOver-or_counting now none = inl tt
IsOver-or_counting now (some b) = elim (Bool-cases (ltb b.window_ends now)) [
  | inl over ↦ inl (ground arith)
  | inr not_over ↦ inr (b, refl, ground arith)
]

pub current_bucket-over :
    (window now : ℕ) (o : Option Bucket)
    → IsOver now o
    → current_bucket window now o ≡ record { count = 0; window_ends = now + window }
current_bucket-over window now none h = refl
current_bucket-over window now (some b) h = ground arith

-- A call that starts the client's window.
pub allow_starting :
    (key k : Text) (now : ℕ) (l : RateLimiter)
    → IsOver now (bucket_of key l.buckets)
    → k ≡ key
    → (bucket_of key (allow k now l).1.buckets
        ≡ some (record { count = 1; window_ends = now + l.window }))
      × (taken key k (allow k now l).0 + (l.limit - 1) ≤ l.limit)
unfolding allow
allow_starting key k now l over same =
    let over_k : IsOver now (bucket_of k l.buckets) =
      subst (λ t. IsOver now (bucket_of t l.buckets)) (sym same) over in
    let fresh = current_bucket-over l.window now (bucket_of k l.buckets) over_k in
    (ground (arith, fresh, text_eq_iff k key, same), ground (arith, fresh))
