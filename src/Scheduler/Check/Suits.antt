-- ===== src/Scheduler/Check/Suits.antt =====
-- What a candidate is an update to.
use doupro.Base.{
  Bool, true, false, not, ◌≡◌, refl, sym, ap, subst, ◌∙◌, ◌⊎◌, inl, inr, Option, none, some, List,
  Text, includes, arith, Bool-cases, Option-cases, IsOneOf,
}
use doupro.Registry.Ref.{parse_ref, replace_tag}
use doupro.Registry.Ref.Replaced.{IsPlain, is_usual, parse_ref-replace_tag}
use doupro.Registry.Semver.{
  SemanticVersion, Scope, parse_semantic_version, select_semver_candidates, tag_of,
}
use doupro.Registry.Semver.Best.{IsCandidate, IsChosen, select_semver_candidates-IsBest}
use doupro.Registry.Semver.Plain.{parse_semantic_version-has}
use doupro.Scheduler.Check.{Tags, keys, digest_of, Found, moved, or_newer, candidate_for}

parse_semantic_version-IsPlain :
    (tag : Text) (v : SemanticVersion) → parse_semantic_version tag ≡ some v → IsPlain tag
parse_semantic_version-IsPlain tag v h = (
  parse_semantic_version-has b'/' refl (λ e. ground arith) (λ e. ground arith) tag v h,
  parse_semantic_version-has b':' refl (λ e. ground arith) (λ e. ground arith) tag v h,
)

-- The tag that is chosen, and what it is.
chosen_tag :
    (scope : Scope) (tags : List Text) (current : SemanticVersion) (current_tag tag : Text)
    → parse_semantic_version current_tag ≡ some current
    → select_semver_candidates tags current_tag scope ≡ some tag
    → (v : SemanticVersion) × IsOneOf tags tag × IsCandidate scope current tag v
chosen_tag scope tags current current_tag tag e h =
    let best = select_semver_candidates-IsBest scope current tags current_tag e in
    go best.choice best.chosen (sym best.is_result ∙ h)
  where
    go :
        (choice : Option (Text × SemanticVersion))
        → IsChosen scope current tags choice
        → tag_of choice ≡ some tag
        → (v : SemanticVersion) × IsOneOf tags tag × IsCandidate scope current tag v
    go none c k = absurd (ground arith)
    go (some (t, v)) (one_of, candidate) k =
        let same : t ≡ tag = ground arith in
        (
          v,
          subst (λ s. IsOneOf tags s) same one_of,
          subst (λ s. IsCandidate scope current s v) same candidate,
        )

-- The registry has another image under the same tag; or, under a newer version that the scope admits,
-- an image that the container does not run, in the same repository.
abbrev pub Suits : Text → List Text → Text → Tags → Scope → Found → Type 0
Suits image local remote tags scope f =
    ((f.image ≡ image) × (f.version ≡ (parse_ref image).tag) × (includes local remote ≡ false))
    ⊎ ((current : SemanticVersion) × (v : SemanticVersion) × (parse_semantic_version
            (parse_ref image).tag
          ≡ some current)
        × IsCandidate scope current f.version v
        × IsOneOf (keys tags) f.version
        × (includes local (digest_of f.version tags) ≡ false)
        × (parse_ref f.image ≡ record (parse_ref image) { tag = f.version }))

module _ (image : Text) (local : List Text) (remote : Text) (tags : Tags) (scope : Scope) where
  moved-Suits :
      (b : Bool) (f : Found)
      → not (includes local remote) ≡ b
      → moved b image (parse_ref image).tag ≡ some f
      → Suits image local remote tags scope f
  moved-Suits false f e h = absurd (ground arith)
  moved-Suits true f e h =
      inl (sym (ap (λ o. image_of o) h), sym (ap (λ o. version_of o) h), ground arith)
    where
      image_of : Option Found → Text
      image_of none = image
      image_of (some g) = g.image

      version_of : Option Found → Text
      version_of none = image
      version_of (some g) = g.version

  newer-Suits :
      (current : SemanticVersion) (old : Option Found) (o : Option Text) (f : Found)
      → is_usual (parse_ref image) ≡ true
      → parse_semantic_version (parse_ref image).tag ≡ some current
      → ((g : Found) → old ≡ some g → Suits image local remote tags scope g)
      → select_semver_candidates (keys tags) (parse_ref image).tag scope ≡ o
      → or_newer local tags (parse_ref image) old o ≡ some f
      → Suits image local remote tags scope f
  newer-Suits current old none f usual e olds selected h = olds f h
  newer-Suits current old (some tag) f usual e olds selected h =
      elim (Bool-cases (includes local (digest_of tag tags))) [
        | inl here ↦ olds f (ground arith)
        | inr fresh ↦
            let r = parse_ref image in
            let (v, one_of, candidate) =
              chosen_tag scope (keys tags) current r.tag tag e selected in
            let is_f : record { image = replace_tag r tag; version = tag } ≡ f = ground arith in
            subst (Suits image local remote tags scope) is_f (
              inr (
                current,
                v,
                e,
                candidate,
                one_of,
                fresh,
                parse_ref-replace_tag image tag
                    (parse_semantic_version-IsPlain tag v candidate.version) usual,
              ))
      ]

  -- A candidate of a check is the same reference, if the registry has another image under its tag than
  -- the container runs; or it reads back as the same repository under a listed version above the
  -- current one that the scope admits, whose image the container does not run. The reference is one that
  -- Docker's own client would write.
  pub candidate_for-Suits :
      (f : Found)
      → is_usual (parse_ref image) ≡ true
      → candidate_for image local remote tags scope ≡ some f
      → Suits image local remote tags scope f
  unfolding candidate_for
  candidate_for-Suits f usual h =
      let r = parse_ref image in
      let old = moved (not (includes local remote)) image r.tag in
      let olds = λ (g : Found). moved-Suits (not (includes local remote)) g refl in
      elim (Option-cases (parse_semantic_version r.tag)) [
        | inl loose ↦ olds f (ground arith)
        | inr (current, e) ↦
            newer-Suits current old (select_semver_candidates (keys tags) r.tag scope) f usual e
              olds refl (ground arith)
      ]
