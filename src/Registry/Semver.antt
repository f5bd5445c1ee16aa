-- ===== src/Registry/Semver.antt =====
-- internal/registry/semver.go. The keys of the map `tags` are a list, in the order in which the loop
-- happens to meet them; the digests that they map to are not read. `int` has 64 bits.
pub mod Best
pub mod Order
pub mod Plain
use doupro.Base.{
  Bool, true, false, ◌&&◌, ◌||◌, not, Option, none, some, List, [], ◌∷◌, ℕ, ◌+◌, ◌-◌, ◌*◌, Text,
  codes, text_eq, if◌then◌else◌, ltb, leb, ◌==◌, min,
}
use Prim.Native.Nat.{◌^◌}

abbrev is_digit : ℕ → Bool
is_digit c = leb b'0' c && leb c b'9'

-- `[0-9]+`, greedily, and what follows
abbrev span_digits : Text → Text × Text
span_digits [] = ([], [])
span_digits (c ∷ s) =
    let (digits, rest) = span_digits s in if is_digit c then (c ∷ digits, rest) else ([], c ∷ s)

abbrev number_from : ℕ → Text → ℕ
number_from n [] = n
number_from n (c ∷ s) = number_from (n * 10 + (c - b'0')) s

-- `strconv.Atoi`, whose error is not looked at: out of range it returns the largest number.
abbrev pub atoi : Text → ℕ
atoi digits = min (number_from 0 digits) (2 ^ 63 - 1)

abbrev drop_v : Text → Text
drop_v [] = []
drop_v (c ∷ s) = if c == b'v' then s else c ∷ s

abbrev dot : Text → Option Text
dot [] = none
dot (c ∷ s) = if c == b'.' then some s else none

abbrev some_digits : Text → Option (Text × Text)
some_digits s =
    let (digits, rest) = span_digits s in elim digits [ [] ↦ none | c ∷ d ↦ some (c ∷ d, rest) ]

infixl 5 ◌>>=◌
abbrev ◌>>=◌ : {A B : Type 0} → Option A → (A → Option B) → Option B
none >>= f = none
some a >>= f = f a

abbrev at_end : Text → Option (Unit {0})
at_end [] = some tt
at_end (c ∷ s) = none

pub record SemanticVersion : Type 0 where
  pub major : ℕ
  pub minor : ℕ
  pub patch : ℕ

unfoldable pub parse_semantic_version : Text → Option SemanticVersion
parse_semantic_version tag = do
  (major, r1) ← some_digits (drop_v tag)
  r2 ← dot r1
  (minor, r3) ← some_digits r2
  r4 ← dot r3
  (patch, r5) ← some_digits r4
  _ ← at_end r5
  some (record { major = atoi major; minor = atoi minor; patch = atoi patch })

abbrev pub greater : SemanticVersion → SemanticVersion → Bool
greater v u =
    if not (v.major == u.major)
    then ltb u.major v.major
    else if not (v.minor == u.minor)
    then ltb u.minor v.minor
    else ltb u.patch v.patch

pub data Scope : Type 0 where
  major minor patch : Scope

abbrev pub is_compatible : Scope → SemanticVersion → SemanticVersion → Bool
is_compatible major v current = true
is_compatible minor v current = v.major == current.major
is_compatible patch v current = v.major == current.major && v.minor == current.minor

-- An entry of the map `choices`.
abbrev pub Choice : Type 0
Choice = Option (Text × SemanticVersion)

abbrev is_better : SemanticVersion → Choice → Bool
is_better v none = true
is_better v (some (tag, u)) = greater v u

-- The map `choices`, by scope.
pub record Choices : Type 0 where
  pub of_major : Choice
  pub of_minor : Choice
  pub of_patch : Choice

abbrev offer_scope : Scope → SemanticVersion → Text → SemanticVersion → Choice → Choice
offer_scope scope current tag v c =
    if is_compatible scope v current && is_better v c then some (tag, v) else c

-- The inner loop, over the scopes.
abbrev offer_each : SemanticVersion → Text → SemanticVersion → Choices → Choices
offer_each current tag v cs = record {
  of_major = offer_scope major current tag v cs.of_major;
  of_minor = offer_scope minor current tag v cs.of_minor;
  of_patch = offer_scope patch current tag v cs.of_patch;
}

-- The body of the loop over the tags, for what the tag parses to.
abbrev offered : SemanticVersion → Text → Option SemanticVersion → Choices → Choices
offered current tag none cs = cs
offered current tag (some v) cs = if greater v current then offer_each current tag v cs else cs

abbrev offer : SemanticVersion → Text → Choices → Choices
offer current tag cs = offered current tag (parse_semantic_version tag) cs

abbrev offer_all : SemanticVersion → List Text → Choices → Choices
offer_all current [] cs = cs
offer_all current (tag ∷ tags) cs = offer_all current tags (offer current tag cs)

abbrev no_choices : Choices
no_choices = record { of_major = none; of_minor = none; of_patch = none }

abbrev pub choice_of : Scope → Choices → Choice
choice_of major cs = cs.of_major
choice_of minor cs = cs.of_minor
choice_of patch cs = cs.of_patch

abbrev pub tag_of : Choice → Option Text
tag_of none = none
tag_of (some (tag, v)) = some tag

-- The result's entry for a scope, for what the current tag parses to.
abbrev select_above : List Text → Scope → Option SemanticVersion → Option Text
select_above tags scope none = none
select_above tags scope (some current) =
    tag_of (choice_of scope (offer_all current tags no_choices))

unfoldable pub select_semver_candidates : List Text → Text → Scope → Option Text
select_semver_candidates tags current_tag scope =
    select_above tags scope (parse_semantic_version current_tag)
