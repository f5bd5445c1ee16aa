-- ===== src/Web/Html.antt =====
-- `escapeHtml` of web/static/combobox.js.
use doupro.Base.{
  ℕ, zero, suc, ◌≡◌, ◌≢◌, refl, ap, [], ◌∷◌, ◌++◌, arith, Text, codes, starts_with, ◌==◌,
  if◌then◌else◌, All, All-append,
}

-- The table of the four characters that are replaced.
escape_char : ℕ → Text
escape_char c =
    if c == b'&'
    then codes "&amp;"
    else if c == b'<'
    then codes "&lt;"
    else if c == b'>'
    then codes "&gt;"
    else if c == b'"'
    then codes "&quot;"
    else c ∷ []

unfoldable pub escape_html : Text → Text
unfolding escape_char
escape_html [] = []
escape_html (c ∷ s) = escape_char c ++ escape_html s

-- How a browser reads a text that may begin with one of the four character references: the
-- character, and how many code units of the reference follow the first.
abbrev reference : Text → ℕ → ℕ × ℕ
reference s c =
    if starts_with (codes "&amp;") s
    then (b'&', 4)
    else if starts_with (codes "&lt;") s
    then (b'<', 3)
    else if starts_with (codes "&gt;") s
    then (b'>', 3)
    else if starts_with (codes "&quot;") s
    then (b'"', 5)
    else (c, 0)

-- The text that a browser shows for a piece of HTML with no tags.
shown_after : ℕ → Text → Text
shown_after n [] = []
shown_after (suc n) (c ∷ s) = shown_after n s
shown_after zero (c ∷ s) = let (d, n) = reference (c ∷ s) c in d ∷ shown_after n s

unfoldable pub shown : Text → Text
unfolding shown_after
shown s = shown_after 0 s

shown_after-escape_char :
    (c : ℕ) (s : Text) → shown_after 0 (escape_char c ++ s) ≡ c ∷ shown_after 0 s
unfolding shown_after escape_char
shown_after-escape_char c s = ground arith

shown-escape_html : (s : Text) → shown (escape_html s) ≡ s
unfolding shown escape_html
shown-escape_html [] = refl
shown-escape_html (c ∷ s) = rw shown_after-escape_char (ap (◌∷◌ c) (shown-escape_html s))

abbrev IsInert : ℕ → Type 0
IsInert c = (c ≢ b'<') × (c ≢ b'>') × (c ≢ b'"')

escape_char-IsInert : (c : ℕ) → All IsInert (escape_char c)
unfolding escape_char
escape_char-IsInert c = ground arith

escape_html-IsInert : (s : Text) → All IsInert (escape_html s)
unfolding escape_html
escape_html-IsInert [] = tt
escape_html-IsInert (c ∷ s) =
    All-append IsInert (escape_char c) (escape_html s) (escape_char-IsInert c)
      (escape_html-IsInert s)

-- A browser shows an escaped text as the text itself, and the escaped text opens no tag and closes no
-- double-quoted attribute.
escape_html-shown : (s : Text) → (shown (escape_html s) ≡ s) × All IsInert (escape_html s)
escape_html-shown s = (shown-escape_html s, escape_html-IsInert s)
