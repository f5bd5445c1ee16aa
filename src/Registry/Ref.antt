-- ===== src/Registry/Ref.antt =====
-- Image references: `ParseRef` and `ClassifyUpdate` of internal/registry/registry.go, and `ReplaceTag` of
-- internal/registry/semver.go.
pub mod Parts
pub mod Replaced
use doupro.Base.{
  Bool, true, false, not, ◌&&◌, ◌||◌, ◌++◌, Option, none, some, [], ◌∷◌, ℕ, Text, codes, text_eq,
  starts_with, strip_prefix, has_char, if◌then◌else◌, ◌==◌,
}

pub record Ref : Type 0 where
  pub registry : Text
  pub repository : Text
  pub tag : Text

abbrev behind_char : ℕ → Option (Text × Text) → Option (Text × Text)
behind_char c none = none
behind_char c (some (a, b)) = some (c ∷ a, b)

-- The parts around the first such character, which `strings.Index` finds.
abbrev pub split_first : ℕ → Text → Option (Text × Text)
split_first c [] = none
split_first c (d ∷ s) =
    let rest = split_first c s in if d == c then some ([], s) else behind_char d rest

abbrev or_here : ℕ → ℕ → Text → Option (Text × Text) → Option (Text × Text)
or_here c d s (some (a, b)) = some (d ∷ a, b)
or_here c d s none = if d == c then some ([], s) else none

-- The parts around the last such character, which `strings.LastIndex` finds.
abbrev pub split_last : ℕ → Text → Option (Text × Text)
split_last c [] = none
split_last c (d ∷ s) = or_here c d s (split_last c s)

abbrev pub hub : Text
hub = codes "registry-1.docker.io"

-- Whether the first part of a reference is a registry.
abbrev pub is_host : Text → Bool
is_host s = has_char b'.' s || has_char b':' s || text_eq s (codes "localhost")

-- The registry, and what follows it.
abbrev pub registry_part : Option (Text × Text) → Text → Text × Text
registry_part none image = (hub, image)
registry_part (some (first, rest)) image = if is_host first then (first, rest) else (hub, image)

abbrev pub tag_part : Option (Text × Text) → Text → Text × Text
tag_part none s = (s, codes "latest")
tag_part (some (repo, tag)) s = (repo, tag)

abbrev pub canonical : Text → Text
canonical registry =
    if text_eq registry (codes "docker.io") || text_eq registry (codes "index.docker.io")
    then hub
    else registry

abbrev pub qualified : Text → Text → Text
qualified registry repo =
    if text_eq registry hub && not (has_char b'/' repo) then codes "library/" ++ repo else repo

-- `ParseRef`, once the registry is split off
abbrev pub ref_of : Text → Text → Ref
ref_of registry remainder =
    let (repo, tag) = tag_part (split_last b':' remainder) remainder in
    let r = canonical registry in record { registry = r; repository = qualified r repo; tag = tag }

-- `ParseRef`
unfoldable pub parse_ref : Text → Ref
parse_ref image =
    let (registry, remainder) = registry_part (split_first b'/' image) image in
    ref_of registry remainder

abbrev pub shortened : Option Text → Text → Text
shortened (some (c ∷ s)) repo = c ∷ s
shortened _ repo = repo

-- `ReplaceTag`
unfoldable pub replace_tag : Ref → Text → Text
replace_tag ref tag =
    let prefix =
      if not (text_eq ref.registry hub)
      then ref.registry ++ (b'/' ∷ ref.repository)
      else shortened (strip_prefix (codes "library/") ref.repository) ref.repository in
    prefix ++ (b':' ∷ tag)

-- `ClassifyUpdate`
unfoldable classify_update : Text → Text → Bool → Text
classify_update current available update_available =
    if not update_available
    then []
    else if not (text_eq current [])
        && not (text_eq available [])
        && not (starts_with (codes "sha256:") current)
        && not (starts_with (codes "sha256:") available)
        && text_eq current available
    then codes "rebuild"
    else codes "version"
