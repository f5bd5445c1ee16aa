-- ===== src/Notifier/Queue/Claims.antt =====
-- Which row a claim takes.
use doupro.Base.{
  inl, inr, true, false, ◌≡◌, refl, ap, ◌∙◌, Option, none, some, List, [], ◌∷◌, ℕ, suc, ◌+◌, arith,
  All, get_elem?, Bool-cases,
}
use doupro.Notifier.Queue.{Row, change_at, is_ready, sooner, earliest, claimed, claim_found, claim}
use doupro.Notifier.Queue.Order.{stored_le_trans, stored_le_total, stored_le_refl}
use doupro.Store.Time.{Time, stored_le}

-- Every ready row is due no sooner than the row.
abbrev pub IsFirst : Time → Row → List Row → Type 0
IsFirst now r rows =
    All (λ x. is_ready now x ≡ true → stored_le r.next_attempt_at x.next_attempt_at ≡ true) rows

-- What is found from `rows`, the first of which has the `id` `i`.
abbrev Finds : Time → ℕ → List Row → Option (ℕ × Row) → Type 0
Finds now i rows none = All (λ x. is_ready now x ≡ false) rows
Finds now i rows (some (j, r)) =
    (k : ℕ) × (j ≡ k + i)
    × (get_elem? rows k ≡ some r)
    × (is_ready now r ≡ true)
    × IsFirst now r rows

IsFirst-widen :
    (now : Time) (r s : Row) (rows : List Row)
    → stored_le r.next_attempt_at s.next_attempt_at ≡ true
    → IsFirst now s rows
    → IsFirst now r rows
IsFirst-widen now r s [] h f = tt
IsFirst-widen now r s (x ∷ rows) h (first, f) = (
  λ ready. stored_le_trans r.next_attempt_at s.next_attempt_at x.next_attempt_at h (first ready),
  IsFirst-widen now r s rows h f,
)

IsFirst-none :
    (now : Time) (r : Row) (rows : List Row)
    → All (λ x. is_ready now x ≡ false) rows
    → IsFirst now r rows
IsFirst-none now r [] h = tt
IsFirst-none now r (x ∷ rows) (unready, h) = (λ ready. ground arith, IsFirst-none now r rows h)

sooner-Finds :
    (now : Time) (i : ℕ) (r : Row) (rows : List Row) (found : Option (ℕ × Row))
    → is_ready now r ≡ true
    → Finds now (suc i) rows found
    → Finds now i (r ∷ rows) (sooner i r found)
sooner-Finds now i r rows none ready h = (
  0,
  omega arith,
  refl,
  ready,
  (λ _. stored_le_refl r.next_attempt_at, IsFirst-none now r rows h),
)
sooner-Finds now i r rows (some (j, s)) ready (k, e, at, s_ready, first) =
    elim (Bool-cases (stored_le r.next_attempt_at s.next_attempt_at)) [
      | inl le ↦ rw le (
        0,
        omega arith,
        refl,
        ready,
        (λ _. stored_le_refl r.next_attempt_at, IsFirst-widen now r s rows le first),
      )
      | inr gt ↦ rw gt (
        suc k,
        ground arith,
        at,
        s_ready,
        (λ _. stored_le_total r.next_attempt_at s.next_attempt_at gt, first),
      )
    ]

miss-Finds :
    (now : Time) (i : ℕ) (r : Row) (rows : List Row) (found : Option (ℕ × Row))
    → is_ready now r ≡ false
    → Finds now (suc i) rows found
    → Finds now i (r ∷ rows) found
miss-Finds now i r rows none unready h = (unready, h)
miss-Finds now i r rows (some (j, s)) unready (k, e, at, s_ready, first) =
    (suc k, ground arith, at, s_ready, (λ ready. ground arith, first))

earliest-Finds : (now : Time) (i : ℕ) (rows : List Row) → Finds now i rows (earliest now i rows)
earliest-Finds now i [] = tt
earliest-Finds now i (r ∷ rows) = elim (Bool-cases (is_ready now r)) [
  | inl ready ↦ rw ready (
      sooner-Finds now i r rows (earliest now (suc i) rows) ready (earliest-Finds now (suc i) rows))
  | inr unready ↦ rw unready (
      miss-Finds now i r rows (earliest now (suc i) rows) unready (earliest-Finds now (suc i) rows))
]

-- What a claim may return and leave: nothing and the same rows, if none is ready; or a ready row that
-- no ready row is due before, with one attempt more and a lease, in its place among the others.
abbrev pub IsClaim : Time → ℕ → List Row → Option (ℕ × Row) × List Row → Type 0
IsClaim now lease rows (none, after) = All (λ x. is_ready now x ≡ false) rows × (after ≡ rows)
IsClaim now lease rows (some (i, taken), after) =
    (r : Row) × (get_elem? rows i ≡ some r)
    × (is_ready now r ≡ true)
    × (taken ≡ claimed now lease r)
    × (after ≡ change_at i (claimed now lease) rows)
    × IsFirst now r rows

claim_found-IsClaim :
    (now : Time) (lease : ℕ) (rows : List Row) (found : Option (ℕ × Row))
    → Finds now 0 rows found
    → IsClaim now lease rows (claim_found now lease found rows)
claim_found-IsClaim now lease rows none h = (h, refl)
claim_found-IsClaim now lease rows (some (j, r)) (k, e, at, ready, first) =
    let same : j ≡ k = omega (arith, e) in
    (r, ap (get_elem? rows) same ∙ at, ready, refl, refl, first)

-- A claim returns nothing and changes nothing exactly if no row is ready, that is, pending and due or
-- with a lease that is over. Otherwise it takes a ready row that no other one is due before, as the
-- database compares, returns it with its attempt counted, and changes no other row.
pub claim-IsClaim :
    (now : Time) (lease : ℕ) (rows : List Row) → IsClaim now lease rows (claim now lease rows)
unfolding claim
claim-IsClaim now lease rows =
    claim_found-IsClaim now lease rows (earliest now 0 rows) (earliest-Finds now 0 rows)
