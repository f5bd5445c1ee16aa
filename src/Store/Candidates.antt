-- ===== src/Store/Candidates.antt =====
-- The table `update_candidates` of internal/store/update_candidates.go: what each container could be
-- updated to, by the scope of the update. A failure of the database is left out.
pub mod Rows
pub mod Detected
use doupro.Base.{
  Bool, true, false, ◌&&◌, not, Option, none, some, List, [], ◌∷◌, Text, codes, text_eq,
  if◌then◌else◌, keep,
}
use doupro.Store.Time.{Time}

pub record UpdateCandidate : Type 0 where
  pub container_id : Text
  pub scope : Text
  pub image : Text
  pub version : Text
  pub detected_at : Time

abbrev pub Candidates : Type 0
Candidates = List UpdateCandidate

-- The row of a container and a scope.
abbrev pub is_row : Text → Text → UpdateCandidate → Bool
is_row id scope c = text_eq c.container_id id && text_eq c.scope scope

-- `GetUpdateCandidate`
unfoldable pub get_update_candidate : Text → Text → Candidates → Option UpdateCandidate
get_update_candidate id scope [] = none
get_update_candidate id scope (c ∷ cs) =
    let rest = get_update_candidate id scope cs in if is_row id scope c then some c else rest

abbrev pub delete_candidate : Text → Text → Candidates → Candidates
delete_candidate id scope cs = keep (λ c. not (is_row id scope c)) cs

-- When the candidate was detected: earlier, if the row has its image already.
abbrev pub detected : Text → Time → Option UpdateCandidate → Time
detected image now none = now
detected image now (some old) = if text_eq old.image image then old.detected_at else now

-- `INSERT … ON CONFLICT (container_id, scope) DO UPDATE`; `updated_at`, which nothing reads, is left out.
unfoldable pub upsert_candidate : Text → Time → UpdateCandidate → Candidates → Candidates
upsert_candidate id now c table =
    record c {
      container_id = id;
      detected_at = detected c.image now (get_update_candidate id c.scope table);
    }
    ∷ delete_candidate id c.scope table

abbrev pub upsert_all : Text → Time → List UpdateCandidate → Candidates → Candidates
upsert_all id now [] table = table
upsert_all id now (c ∷ cs) table = upsert_all id now cs (upsert_candidate id now c table)

-- The map `wanted`.
abbrev pub wanted : Text → List UpdateCandidate → Bool
wanted scope [] = false
wanted scope (c ∷ cs) = if text_eq c.scope scope then true else wanted scope cs

abbrev pub drop_unwanted : Text → List UpdateCandidate → List Text → Candidates → Candidates
drop_unwanted id cs [] table = table
drop_unwanted id cs (scope ∷ scopes) table =
    drop_unwanted id cs scopes (if wanted scope cs then table else delete_candidate id scope table)

abbrev pub all_scopes : List Text
all_scopes = codes "patch" ∷ codes "minor" ∷ codes "major" ∷ []

-- `ReplaceUpdateCandidates`
unfoldable pub replace_update_candidates :
    Text → List UpdateCandidate → Time → Candidates → Candidates
replace_update_candidates id cs now table =
    drop_unwanted id cs all_scopes (upsert_all id now cs table)

-- `ClearUpdateCandidates`
unfoldable pub clear_update_candidates : Text → Candidates → Candidates
clear_update_candidates id table = keep (λ c. not (text_eq c.container_id id)) table
