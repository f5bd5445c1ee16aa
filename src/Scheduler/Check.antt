-- ===== src/Scheduler/Check.antt =====
-- How `checkOneContainer` of internal/scheduler/check.go finds and stores the candidates of a container,
-- once the registry has answered: a failed listing of the tags gives none. Versions for display, and
-- what comes before the answer, are left out.
pub mod Suits
use doupro.Base.{
  Bool, true, false, not, Option, none, some, List, [], ◌∷◌, Text, codes, text_eq, includes,
  if◌then◌else◌,
}
use doupro.Store.Time.{Time}
use doupro.Store.Candidates.{UpdateCandidate, Candidates, replace_update_candidates}
use doupro.Store.Containers.{Containers, set_update_available}
use doupro.Store.Schedules.{is_some}
use doupro.Registry.Ref.{Ref, parse_ref, replace_tag}
use doupro.Registry.Semver.{
  Scope, major, minor, patch, parse_semantic_version, select_semver_candidates,
}

-- The map from tags to digests that the registry lists.
abbrev pub Tags : Type 0
Tags = List (Text × Text)

abbrev pub keys : Tags → List Text
keys [] = []
keys ((tag, digest) ∷ tags) = tag ∷ keys tags

abbrev pub digest_of : Text → Tags → Text
digest_of tag [] = []
digest_of tag ((t, digest) ∷ tags) =
    let rest = digest_of tag tags in if text_eq t tag then digest else rest

-- The image of a candidate, and its version.
pub record Found : Type 0 where
  pub image : Text
  pub version : Text

-- The tag that moved.
abbrev pub moved : Bool → Text → Text → Option Found
moved false image tag = none
moved true image tag = some (record { image = image; version = tag })

-- A newer tag takes its place, unless the container runs it already.
abbrev pub or_newer : List Text → Tags → Ref → Option Found → Option Text → Option Found
or_newer local tags ref old none = old
or_newer local tags ref old (some tag) =
    if includes local (digest_of tag tags)
    then old
    else some (record { image = replace_tag ref tag; version = tag })

abbrev pub is_strict_semver_tag : Text → Bool
is_strict_semver_tag tag = is_some (parse_semantic_version tag)

-- The entry of the map `candidates` for a scope; `local` are the digests of the container's image, and
-- `remote` is the one that the registry has for its tag.
unfoldable pub candidate_for : Text → List Text → Text → Tags → Scope → Option Found
candidate_for image local remote tags scope =
    let ref = parse_ref image in
    let old = moved (not (includes local remote)) image ref.tag in
    if is_strict_semver_tag ref.tag
    then or_newer local tags ref old (select_semver_candidates (keys tags) ref.tag scope)
    else old

abbrev listed : Text → Text → Time → Option Found → List UpdateCandidate → List UpdateCandidate
listed id scope now none cs = cs
listed id scope now (some f) cs =
    record {
      container_id = id;
      scope = scope;
      image = f.image;
      version = f.version;
      detected_at = now;
    }
    ∷ cs

-- `candidateList`
abbrev pub candidate_list : Text → Text → List Text → Text → Tags → Time → List UpdateCandidate
candidate_list id image local remote tags now =
    let of_scope = candidate_for image local remote tags in
    listed id (codes "patch") now (of_scope patch) (
      listed id (codes "minor") now (of_scope minor)
        (listed id (codes "major") now (of_scope major) []))

abbrev is_none_listed : List UpdateCandidate → Bool
is_none_listed [] = true
is_none_listed (c ∷ cs) = false

-- What the check writes to both tables.
unfoldable record_check :
    Text → Text → List Text → Text → Tags → Time → Candidates × Containers → Candidates × Containers
record_check id image local remote tags now (table, rows) =
    let found = candidate_list id image local remote tags now in
    let has_update =
      if is_strict_semver_tag (parse_ref image).tag
      then not (is_none_listed found)
      else not (includes local remote) in
    (replace_update_candidates id found now table, set_update_available id has_update rows)
