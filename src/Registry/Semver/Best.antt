-- ===== src/Registry/Semver/Best.antt =====
-- The tag that is chosen for a scope is the highest compatible one.
use doupro.Base.{
  IsOneOf-self, Bool, true, false, ◌&&◌, ◌≡◌, refl, sym, ap, subst, ◌⊎◌, inl, inr, Option, none,
  some, List, [], ◌∷◌, Text, if◌then◌else◌, arith, All, Bool-cases, if_both, IsOneOf,
}
use doupro.Registry.Semver.{
  select_above, SemanticVersion, Scope, major, minor, patch, Choice, Choices, choice_of,
  parse_semantic_version, greater, is_compatible, is_better, offer_scope, offer_each, offered,
  offer, offer_all, no_choices, tag_of, select_semver_candidates,
}

not_greater_trans :
    (v u w : SemanticVersion) → greater v u ≡ false → greater w u ≡ true → greater v w ≡ false
not_greater_trans v u w h k = ground arith

not_greater_self : (v : SemanticVersion) → greater v v ≡ false
not_greater_self v = ground arith

and_right : (a b : Bool) → (a && b) ≡ true → b ≡ true
and_right a b h = ground arith

and_left : (a b : Bool) → (a && b) ≡ true → a ≡ true
and_left a b h = ground arith

of_all :
    (current : SemanticVersion) (tag : Text) (v : SemanticVersion) (cs : Choices) (s : Scope)
    → choice_of s (offer_each current tag v cs) ≡ offer_scope s current tag v (choice_of s cs)
of_all current tag v cs major = refl
of_all current tag v cs minor = refl
of_all current tag v cs patch = refl

module _ (scope : Scope) (current : SemanticVersion) where
  -- The tag is a version that the scope admits.
  pub record IsCandidate (tag : Text) (v : SemanticVersion) : Type 0 where
    pub version : parse_semantic_version tag ≡ some v
    pub newer : greater v current ≡ true
    pub compatible : is_compatible scope v current ≡ true

  abbrev pub IsChosen : List Text → Choice → Type 0
  IsChosen tags none = Unit
  IsChosen tags (some (tag, v)) = IsOneOf tags tag × IsCandidate tag v

  -- No version is above the choice, unless the scope does not admit it.
  abbrev pub IsBelow : Choice → Option SemanticVersion → Type 0
  IsBelow c none = Unit
  IsBelow none (some v) = (greater v current && is_compatible scope v current) ≡ false
  IsBelow (some (tag, u)) (some v) =
      ((greater v current && is_compatible scope v current) ≡ false) ⊎ (greater v u ≡ false)

  abbrev pub IsCovered : Choice → Text → Type 0
  IsCovered c tag = IsBelow c (parse_semantic_version tag)

  abbrev offer_one : Text → Option SemanticVersion → Choice → Choice
  offer_one tag none c = c
  offer_one tag (some v) c = if greater v current then offer_scope scope current tag v c else c

  chosen_of :
      (tag : Text) (o : Option SemanticVersion) (cs : Choices)
      → choice_of scope (offered current tag o cs) ≡ offer_one tag o (choice_of scope cs)
  chosen_of tag none cs = refl
  chosen_of tag (some v) cs = elim (Bool-cases (greater v current)) [
    | inl newer ↦ rw newer (of_all current tag v cs scope)
    | inr older ↦ rw older refl
  ]

  choice_of-offer :
      (tag : Text) (cs : Choices)
      → choice_of scope (offer current tag cs)
        ≡ offer_one tag (parse_semantic_version tag) (choice_of scope cs)
  choice_of-offer tag cs = chosen_of tag (parse_semantic_version tag) cs

  offer_one-IsChosen :
      (tags : List Text) (tag : Text) (o : Option SemanticVersion) (c : Choice)
      → IsOneOf tags tag
      → parse_semantic_version tag ≡ o
      → IsChosen tags c
      → IsChosen tags (offer_one tag o c)
  offer_one-IsChosen tags tag none c given e h = h
  offer_one-IsChosen tags tag (some v) c given e h =
      if_both (IsChosen tags) (greater v current)
        (λ newer.
          if_both (IsChosen tags) (is_compatible scope v current && is_better v c)
            (λ fits. (given, record { version = e; newer = newer; compatible = ground arith }))
            (λ _. h))
        (λ _. h)

  offer_one-IsBelow :
      (tag : Text) (o p : Option SemanticVersion) (c : Choice)
      → IsBelow c p
      → IsBelow (offer_one tag o c) p
  offer_one-IsBelow tag o none c h = tt
  offer_one-IsBelow tag none (some u) c h = h
  offer_one-IsBelow tag (some v) (some u) none h =
      if_both (λ c. IsBelow c (some u)) (greater v current)
        (λ _.
          if_both (λ c. IsBelow c (some u)) (is_compatible scope v current && is_better v none)
            (λ _. inl h) (λ _. h))
        (λ _. h)
  offer_one-IsBelow tag (some v) (some u) (some (t, w)) h =
      if_both (λ c. IsBelow c (some u)) (greater v current)
        (λ _.
          if_both (λ c. IsBelow c (some u)) (is_compatible scope v current && greater v w)
            (λ fits. elim h [
              | inl out ↦ inl out
              | inr under ↦ inr (not_greater_trans u w v under (and_right _ _ fits))
            ])
            (λ _. h))
        (λ _. h)

  offer_one_covers :
      (tag : Text) (o : Option SemanticVersion) (c : Choice) → IsBelow (offer_one tag o c) o
  offer_one_covers tag none c = tt
  offer_one_covers tag (some v) none =
      if_both (λ c. IsBelow c (some v)) (greater v current)
        (λ _.
          if_both (λ c. IsBelow c (some v)) (is_compatible scope v current && is_better v none)
            (λ _. inr (not_greater_self v)) (λ unfit. ground arith))
        (λ older. ground arith)
  offer_one_covers tag (some v) (some (t, w)) =
      if_both (λ c. IsBelow c (some v)) (greater v current)
        (λ _.
          if_both (λ c. IsBelow c (some v)) (is_compatible scope v current && greater v w)
            (λ _. inr (not_greater_self v))
            (λ unfit. elim (Bool-cases (greater v w)) [
              | inl above ↦ inl (ground arith)
              | inr under ↦ inr under
            ]))
        (λ older. inl (ground arith))

  offer_all-IsChosen :
      (all_ tags : List Text) (cs : Choices)
      → All (IsOneOf all_) tags
      → IsChosen all_ (choice_of scope cs)
      → IsChosen all_ (choice_of scope (offer_all current tags cs))
  offer_all-IsChosen all_ [] cs m h = h
  offer_all-IsChosen all_ (tag ∷ tags) cs (given, m) h =
      offer_all-IsChosen all_ tags (offer current tag cs) m (
        subst (IsChosen all_) (sym (choice_of-offer tag cs)) (
          offer_one-IsChosen all_ tag (parse_semantic_version tag) (choice_of scope cs) given refl
            h))

  offer_all-IsBelow :
      (tags : List Text) (cs : Choices) (p : Option SemanticVersion)
      → IsBelow (choice_of scope cs) p
      → IsBelow (choice_of scope (offer_all current tags cs)) p
  offer_all-IsBelow [] cs p h = h
  offer_all-IsBelow (tag ∷ tags) cs p h = offer_all-IsBelow tags (offer current tag cs) p (
      subst (λ c. IsBelow c p) (sym (choice_of-offer tag cs))
        (offer_one-IsBelow tag (parse_semantic_version tag) p (choice_of scope cs) h))

  offer_all-IsCovered :
      (tags : List Text) (cs : Choices)
      → All (IsCovered (choice_of scope (offer_all current tags cs))) tags
  offer_all-IsCovered [] cs = tt
  offer_all-IsCovered (tag ∷ tags) cs = (
    offer_all-IsBelow tags (offer current tag cs) (parse_semantic_version tag) (
        subst (λ c. IsBelow c (parse_semantic_version tag)) (sym (choice_of-offer tag cs))
          (offer_one_covers tag (parse_semantic_version tag) (choice_of scope cs))),
    offer_all-IsCovered tags (offer current tag cs),
  )

  start-IsChosen : (tags : List Text) → IsChosen tags (choice_of scope no_choices)
  start-IsChosen tags = nothing scope
    where
      nothing : (s : Scope) → IsChosen tags (choice_of s no_choices)
      nothing major = tt
      nothing minor = tt
      nothing patch = tt

  -- The tag is one of those given that the scope admits, and none of these is above it; where there is
  -- no tag, the scope admits none.
  pub record IsBest (tags : List Text) (result : Option Text) : Type 0 where
    pub choice : Choice
    pub is_result : result ≡ tag_of choice
    pub chosen : IsChosen tags choice
    pub covered : All (IsCovered choice) tags

  -- For a current tag that is a strict version, the candidate of each scope is the highest of the tags
  -- that are strict versions above the current one and compatible with it in that scope, and there is
  -- none exactly where there is no such tag.
  pub select_semver_candidates-IsBest :
      (tags : List Text) (current_tag : Text)
      → parse_semantic_version current_tag ≡ some current
      → IsBest tags (select_semver_candidates tags current_tag scope)
  unfolding select_semver_candidates
  select_semver_candidates-IsBest tags current_tag e = record {
    choice = choice_of scope (offer_all current tags no_choices);
    is_result = ap (select_above tags scope) e;
    chosen = offer_all-IsChosen tags tags no_choices (IsOneOf-self tags) (start-IsChosen tags);
    covered = offer_all-IsCovered tags no_choices;
  }
