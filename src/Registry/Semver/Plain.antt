-- ===== src/Registry/Semver/Plain.antt =====
-- The characters of a version tag.
use doupro.Base.{
  false, ◌≡◌, ◌≢◌, refl, sym, ◌∙◌, Option, none, some, [], ◌∷◌, ℕ, Text, has_char, arith,
  Bool-cases, inl, inr,
}
use doupro.Registry.Semver.{
  ◌>>=◌, is_digit, span_digits, drop_v, dot, some_digits, at_end, SemanticVersion,
  parse_semantic_version,
}

module _ (c : ℕ) (not_digit : is_digit c ≡ false) (not_dot : c ≢ b'.') (not_v : c ≢ b'v') where
  span_digits-has : (s : Text) → has_char c (span_digits s).1 ≡ has_char c s
  span_digits-has [] = refl
  span_digits-has (d ∷ s) = elim (Bool-cases (is_digit d)) [
    | inl digit ↦ ground (arith, span_digits-has s)
    | inr other ↦ ground arith
  ]

  some_digits-has :
      (s : Text) (r : Text × Text) → some_digits s ≡ some r → has_char c s ≡ has_char c r.1
  some_digits-has s r h = ground (arith, span_digits-has s)

  dot-has : (s r : Text) → dot s ≡ some r → has_char c s ≡ has_char c r
  dot-has [] r h = absurd (ground arith)
  dot-has (d ∷ s) r h = ground arith

  drop_v-has : (s : Text) → has_char c (drop_v s) ≡ has_char c s
  drop_v-has [] = refl
  drop_v-has (d ∷ s) = ground arith

  at_end-has : (s : Text) (u : Unit {0}) → at_end s ≡ some u → has_char c s ≡ false
  at_end-has [] u h = refl
  at_end-has (d ∷ s) u h = absurd (ground arith)

  bind-some :
      {A B : Type 0} (o : Option A) (f : A → Option B) (b : B)
      → (o >>= f) ≡ some b
      → (a : A) × (o ≡ some a) × (f a ≡ some b)
  bind-some none f b h = absurd (ground arith)
  bind-some (some a) f b h = (a, refl, h)

  -- A version tag holds only digits, dots and a `v`.
  pub parse_semantic_version-has :
      (tag : Text) (v : SemanticVersion)
      → parse_semantic_version tag ≡ some v
      → has_char c tag ≡ false
  unfolding parse_semantic_version
  parse_semantic_version-has tag v h =
      let (p, e1, h1) = bind-some (some_digits (drop_v tag)) _ v h in
      let (r2, e2, h2) = bind-some (dot p.1) _ v h1 in
      let (q, e3, h3) = bind-some (some_digits r2) _ v h2 in
      let (r4, e4, h4) = bind-some (dot q.1) _ v h3 in
      let (s, e5, h5) = bind-some (some_digits r4) _ v h4 in
      let (u, e6, h6) = bind-some (at_end s.1) _ v h5 in
      sym (drop_v-has tag)
      ∙ some_digits-has (drop_v tag) p e1
      ∙ dot-has p.1 r2 e2
      ∙ some_digits-has r2 q e3
      ∙ dot-has q.1 r4 e4
      ∙ some_digits-has r4 s e5
      ∙ at_end-has s.1 u e6
