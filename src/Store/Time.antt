-- ===== src/Store/Time.antt =====
-- Instants, as Go compares them and as the database does: it stores them as texts in the format
-- RFC3339Nano and compares the texts. The years are those of four digits, in UTC, so that the part
-- of the text before the fraction has one width and is ordered as the seconds are.
use doupro.Base.{
  Bool, true, false, ◌≡◌, ◌≢◌, ◌<◌, ℕ, [], ◌∷◌, ◌++◌, Text, codes, if◌then◌else◌, ltb, ◌==◌, arith,
  ◌+◌, ◌&&◌,
}
use Prim.Native.Nat.{◌/◌, ◌%◌}

-- The seconds since the epoch, and the nanoseconds within the second.
pub record Time : Type 0 where
  pub second : ℕ
  pub nano : ℕ

-- `t.Before(u)`
abbrev pub before : Time → Time → Bool
before t u = if t.second == u.second then ltb t.nano u.nano else ltb t.second u.second

-- `t.Add(d)` for a duration of whole seconds
abbrev pub add_seconds : ℕ → Time → Time
add_seconds d t = record t { second = t.second + d }

abbrev digit : ℕ → ℕ
digit n = b'0' + n % 10

-- The nine digits of the nanoseconds.
abbrev digits : ℕ → Text
digits n =
    digit (n / 100_000_000)
    ∷ digit (n / 10_000_000)
    ∷ digit (n / 1_000_000)
    ∷ digit (n / 100_000)
    ∷ digit (n / 10_000)
    ∷ digit (n / 1_000)
    ∷ digit (n / 100)
    ∷ digit (n / 10)
    ∷ digit n
    ∷ []

abbrev is_blank : Text → Bool
is_blank [] = true
is_blank (c ∷ s) = false

-- Without the trailing zeros.
trim_zeros : Text → Text
trim_zeros [] = []
trim_zeros (c ∷ s) = let r = trim_zeros s in if is_blank r && c == b'0' then [] else c ∷ r

-- What RFC3339Nano writes behind the seconds.
unfoldable pub fraction : ℕ → Text
unfolding trim_zeros
fraction n = if n == 0 then codes "Z" else b'.' ∷ (trim_zeros (digits n) ++ codes "Z")

-- `<=` on texts, by their bytes
abbrev pub text_leb : Text → Text → Bool
text_leb [] t = true
text_leb (c ∷ s) [] = false
text_leb (c ∷ s) (d ∷ t) = let rest = text_leb s t in if c == d then rest else ltb c d

-- `<=` of the database, between two stored instants
unfoldable pub stored_le : Time → Time → Bool
stored_le t u =
    if t.second == u.second
    then text_leb (fraction t.nano) (fraction u.nano)
    else ltb t.second u.second

-- Between two instants of different seconds the database compares as Go does.
stored_le_of_ne : (t u : Time) → t.second ≢ u.second → stored_le t u ≡ before t u
unfolding stored_le
stored_le_of_ne t u h = ground arith

-- Within a second the database does not compare as Go does: a whole second is before every later
-- instant of that second, and yet its stored text is not below that instant's.
stored_le_whole_second :
    (t u : Time)
    → t.second ≡ u.second
    → t.nano ≡ 0
    → 0 < u.nano
    → (before t u ≡ true) × (stored_le t u ≡ false)
unfolding stored_le fraction
stored_le_whole_second t u e z p = ground arith
