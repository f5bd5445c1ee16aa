-- ===== src/Registry/Semver/Order.antt =====
-- That the order of the tags does not decide which version is chosen.
use doupro.Base.{
  All-IsOneOf, false, ◌≡◌, refl, sym, ap, ◌∙◌, subst, inl, inr, Option, none, some, List, Text,
  arith, All, Option-cases, IsOneOf,
}
use doupro.Registry.Semver.{
  select_above, SemanticVersion, Scope, Choice, parse_semantic_version, greater, tag_of,
  select_semver_candidates,
}
use doupro.Registry.Semver.Best.{
  IsCandidate, IsChosen, IsCovered, IsBelow, select_semver_candidates-IsBest,
}

greater-antisym : (v u : SemanticVersion) → greater v u ≡ false → greater u v ≡ false → v ≡ u
greater-antisym v u h k = ground arith

abbrev version_of : Option Text → Option SemanticVersion
version_of none = none
version_of (some tag) = parse_semantic_version tag

module _ (scope : Scope) (current : SemanticVersion) where
  -- A candidate of one list is not above the choice from another that has it too.
  not_above :
      (tags : List Text) (c : Choice) (tag : Text) (v : SemanticVersion)
      → All (IsCovered scope current c) tags
      → IsOneOf tags tag
      → IsCandidate scope current tag v
      → (t : Text) × (u : SemanticVersion) × (c ≡ some (t, u)) × (greater v u ≡ false)
  not_above tags none tag v h given cand =
      let below =
        subst (IsBelow scope current none) cand.version
          (All-IsOneOf (IsCovered scope current none) tags tag h given) in
      absurd (ground (arith, below, cand.newer, cand.compatible))
  not_above tags (some (t, u)) tag v h given cand =
      let below =
        subst (IsBelow scope current (some (t, u))) cand.version
          (All-IsOneOf (IsCovered scope current (some (t, u))) tags tag h given) in
      (t, u, refl, ground (arith, below, cand.newer, cand.compatible))

  same_version :
      (tags tags' : List Text) (c c' : Choice)
      → All (IsOneOf tags') tags
      → All (IsOneOf tags) tags'
      → IsChosen scope current tags c
      → IsChosen scope current tags' c'
      → All (IsCovered scope current c) tags
      → All (IsCovered scope current c') tags'
      → version_of (tag_of c) ≡ version_of (tag_of c')
  same_version tags tags' none none sub sub' h h' k k' = refl
  same_version tags tags' none (some (t', u')) sub sub' h (given', cand') k k' =
      let (t, u, e, _) =
        not_above tags none t' u' k (All-IsOneOf (IsOneOf tags) tags' t' sub' given') cand' in
      absurd (ground arith)
  same_version tags tags' (some (t, u)) none sub sub' (given, cand) h' k k' =
      let (t', u', e, _) =
        not_above tags' none t u k' (All-IsOneOf (IsOneOf tags') tags t sub given) cand in
      absurd (ground arith)
  same_version tags tags' (some (t, u)) (some (t', u')) sub sub' (given, cand) (given', cand') k
        k' =
      let (_, _, e1, under1) =
        not_above tags (some (t, u)) t' u' k (All-IsOneOf (IsOneOf tags) tags' t' sub' given')
          cand' in
      let (_, _, e2, under2) =
        not_above tags' (some (t', u')) t u k' (All-IsOneOf (IsOneOf tags') tags t sub given)
          cand in
      cand.version
      ∙ ap some (greater-antisym u u' (ground arith) (ground arith))
      ∙ sym cand'.version

no_candidates :
    (scope : Scope) (tags : List Text) (current_tag : Text)
    → parse_semantic_version current_tag ≡ none
    → select_semver_candidates tags current_tag scope ≡ none
unfolding select_semver_candidates
no_candidates scope tags current_tag bad = ap (select_above tags scope) bad

-- The order in which the loop meets the tags, which Go leaves open, does not decide which version is
-- chosen: two lists of the same tags have candidates of the same version, for every current tag and
-- scope.
select_semver_candidates_order :
    (scope : Scope) (tags tags' : List Text) (current_tag : Text)
    → All (IsOneOf tags') tags
    → All (IsOneOf tags) tags'
    → version_of (select_semver_candidates tags current_tag scope)
      ≡ version_of (select_semver_candidates tags' current_tag scope)
select_semver_candidates_order scope tags tags' current_tag sub sub' =
    elim (Option-cases (parse_semantic_version current_tag)) [
      | inl bad ↦ ap version_of (
          no_candidates scope tags current_tag bad
          ∙ sym (no_candidates scope tags' current_tag bad))
      | inr (current, e) ↦
          let b = select_semver_candidates-IsBest scope current tags current_tag e in
          let b' = select_semver_candidates-IsBest scope current tags' current_tag e in
          ap version_of b.is_result
          ∙ same_version scope current tags tags' b.choice b'.choice sub sub' b.chosen b'.chosen
              b.covered b'.covered
          ∙ sym (ap version_of b'.is_result)
    ]
