-- ===== src/Registry/Tests.antt =====
-- The candidates among the tags of the source's own test, and references with one of them.
use doupro.Base.{◌≡◌, refl, true, some, List, [], ◌∷◌, Text, codes}
use doupro.Registry.Ref.{parse_ref, replace_tag}
use doupro.Registry.Ref.Replaced.{is_usual, parse_ref-replace_tag}
use doupro.Registry.Semver.{
  SemanticVersion, major, minor, patch, parse_semantic_version, select_semver_candidates,
}
use doupro.Registry.Semver.Best.{IsBest, select_semver_candidates-IsBest}

abbrev tags : List Text
tags =
    codes "1.2.3"
    ∷ codes "1.2.5"
    ∷ codes "1.4.0"
    ∷ codes "2.0.0"
    ∷ codes "2.1.0-rc1"
    ∷ codes "latest"
    ∷ []

abbrev current : SemanticVersion
current = record { major = 1; minor = 2; patch = 3 }

parsed : parse_semantic_version (codes "1.2.3") ≡ some current
unfolding parse_semantic_version
parsed = refl

candidates :
    (select_semver_candidates tags (codes "1.2.3") major ≡ some (codes "2.0.0"))
    × (select_semver_candidates tags (codes "1.2.3") minor ≡ some (codes "1.4.0"))
    × (select_semver_candidates tags (codes "1.2.3") patch ≡ some (codes "1.2.5"))
unfolding select_semver_candidates parse_semantic_version
candidates = (refl, refl, refl)

-- Out of range every number is the largest one.
huge :
    parse_semantic_version (codes "v99999999999999999999.0.1")
    ≡ some (record { major = 9_223_372_036_854_775_807; minor = 0; patch = 1 })
unfolding parse_semantic_version
huge = refl

select_semver_candidates-IsBest_example :
    IsBest minor current tags (select_semver_candidates tags (codes "1.2.3") minor)
select_semver_candidates-IsBest_example =
    select_semver_candidates-IsBest minor current tags (codes "1.2.3") parsed

abbrev few : List Text
few = codes "1.2.5" ∷ codes "v1.2.5" ∷ []

abbrev reversed : List Text
reversed = codes "v1.2.5" ∷ codes "1.2.5" ∷ []

abbrev image : Text
image = codes "docker.io/redis:1.2.3"

image_usual : is_usual (parse_ref image) ≡ true
unfolding parse_ref
image_usual = refl

image_replaced : replace_tag (parse_ref image) (codes "1.2.5") ≡ codes "redis:1.2.5"
unfolding parse_ref replace_tag
image_replaced = refl

parse_ref-replace_tag_example :
    parse_ref (replace_tag (parse_ref image) (codes "1.2.5"))
    ≡ record (parse_ref image) { tag = codes "1.2.5" }
parse_ref-replace_tag_example = parse_ref-replace_tag image (codes "1.2.5") (refl, refl) image_usual
