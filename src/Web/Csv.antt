-- ===== src/Web/Csv.antt =====
-- JavaScript's `split`, `join` and `trim`, as web/static/combobox.js uses them on its hidden field.
pub mod Laws
use doupro.Base.{
  ℕ, Bool, true, false, List, [], ◌∷◌, ◌++◌, ◌&&◌, ◌||◌, Text, leb, ◌==◌, if◌then◌else◌,
}

abbrev push_head : ℕ → List Text → List Text
push_head c [] = (c ∷ []) ∷ []
push_head c (x ∷ xs) = (c ∷ x) ∷ xs

-- `s.split(d)` at a separator of one code unit
unfoldable pub split : ℕ → Text → List Text
split d [] = [] ∷ []
split d (c ∷ s) = let rest = split d s in if c == d then [] ∷ rest else push_head c rest

-- `xs.join(d)`
unfoldable pub join : ℕ → List Text → Text
join d [] = []
join d (x ∷ []) = x
join d (x ∷ y ∷ ys) = x ++ (d ∷ join d (y ∷ ys))

-- The white space and line terminators of ECMAScript.
unfoldable pub is_space : ℕ → Bool
is_space c =
    (leb 9 c && leb c 13)
    || c == 32
    || c == 0xA0
    || c == 0x1680
    || (leb 0x2000 c && leb c 0x200A)
    || c == 0x2028
    || c == 0x2029
    || c == 0x202F
    || c == 0x205F
    || c == 0x3000
    || c == 0xFEFF

abbrev pub is_empty : Text → Bool
is_empty [] = true
is_empty (c ∷ s) = false

unfoldable pub trim_start : Text → Text
trim_start [] = []
trim_start (c ∷ s) = if is_space c then trim_start s else c ∷ s

unfoldable pub trim_end : Text → Text
trim_end [] = []
trim_end (c ∷ s) = let r = trim_end s in if is_empty r && is_space c then [] else c ∷ r

-- `s.trim()`
unfoldable pub trim : Text → Text
unfolding trim_start trim_end is_space
trim s = trim_end (trim_start s)

-- `.map((s) => s.trim()).filter(Boolean)`
abbrev pub trimmed : List Text → List Text
trimmed [] = []
trimmed (x ∷ xs) = let y = trim x in let ys = trimmed xs in if is_empty y then ys else y ∷ ys
