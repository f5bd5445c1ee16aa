-- ===== src/Web/Csrf.antt =====
-- web/static/csrf.js: the token that every `fetch` and every form submission carries.
-- `decodeURIComponent` is the parameter `decode`.
pub mod Cookies
use doupro.Base.{
  ℕ, Bool, true, false, not, ◌&&◌, ◌||◌, Option, none, some, List, [], ◌∷◌, ◌++◌, Text, codes,
  text_eq, starts_with, if◌then◌else◌, ◌==◌, leb, ◌-◌,
}

abbrev pub csrf_cookie : Text
csrf_cookie = codes "doupro_csrf"

abbrev pub csrf_header : Text
csrf_header = codes "x-csrf-token"

-- `([^;]*)`: the longest prefix with no semicolon
unfoldable pub until_semicolon : Text → Text
until_semicolon [] = []
until_semicolon (c ∷ s) = let rest = until_semicolon s in if c == b';' then [] else c ∷ rest

-- The text behind a prefix, if it begins with it.
unfoldable pub after : Text → Text → Option Text
after [] t = some t
after (c ∷ p) [] = none
after (c ∷ p) (d ∷ t) = let rest = after p t in if c == d then rest else none

-- `; name=` at a position behind the first, the leftmost one
unfoldable pub find_after_semicolon : Text → Text → Option Text
unfolding after until_semicolon
find_after_semicolon name [] = none
find_after_semicolon name (c ∷ s) =
    let later = find_after_semicolon name s in
    elim (after (codes "; " ++ (name ++ codes "=")) (c ∷ s)) [
      | some rest ↦ some (until_semicolon rest)
      | none ↦ later
    ]

-- `document.cookie.match(new RegExp('(?:^|; )' + name + '=([^;]*)'))`, its first group, for a name
-- with no special characters
unfoldable pub match_cookie : Text → Text → Option Text
unfolding after until_semicolon find_after_semicolon
match_cookie name cookie = elim (after (name ++ codes "=") cookie) [
  | some rest ↦ some (until_semicolon rest)
  | none ↦ find_after_semicolon name cookie
]

-- `c.toUpperCase()` of an ASCII letter
abbrev pub upper_char : ℕ → ℕ
upper_char c = if leb b'a' c && leb c b'z' then c - 32 else c

-- `method.toUpperCase()`; a method is an ASCII token
abbrev pub to_upper_case : Text → Text
to_upper_case [] = []
to_upper_case (c ∷ s) = upper_char c ∷ to_upper_case s

-- The request that a call of `fetch` makes: the `init.method` that was given, and the headers by
-- their lower-case names, the first of a name counting.
pub record Init : Type 0 where
  pub method : Option Text
  pub headers : List (Text × Text)

-- `headers.set(name, value)` and `headers.get(name)`; also the value of the first input of a name,
-- which is appended if there is none
abbrev pub set_entry : Text → Text → List (Text × Text) → List (Text × Text)
set_entry name value [] = (name, value) ∷ []
set_entry name value ((n, v) ∷ hs) =
    let rest = set_entry name value hs in
    if text_eq n name then (name, value) ∷ hs else (n, v) ∷ rest

abbrev pub get_entry : Text → List (Text × Text) → Option Text
get_entry name [] = none
get_entry name ((n, v) ∷ hs) =
    let rest = get_entry name hs in if text_eq n name then some v else rest

-- `init.method || 'GET'`, in capitals
unfoldable pub method_of : Init → Text
method_of init = elim init.method [
  | none ↦ codes "GET"
  | some m ↦ if text_eq m [] then codes "GET" else to_upper_case m
]

-- A form with its fields by name; `querySelector` finds the first input of a name.
pub record Form : Type 0 where
  pub tag_name : Text
  pub form_method : Text
  pub fields : List (Text × Text)

module _ (decode : Text → Text) where
  unfoldable pub get_cookie : Text → Text → Text
  get_cookie name cookie = elim (match_cookie name cookie) [ none ↦ [] | some m ↦ decode m ]

  -- `window.fetch`: what is handed to the original `fetch`
  unfoldable pub patched_init : Text → Init → Init
  patched_init cookie init =
      let method = method_of init in
      if not (text_eq method (codes "GET")) && not (text_eq method (codes "HEAD"))
      then record init {
        headers = set_entry csrf_header (get_cookie csrf_cookie cookie) init.headers;
      }
      else init

  -- the `submit` listener
  unfoldable pub on_submit : Text → Form → Form
  on_submit cookie form =
      if not (text_eq form.tag_name (codes "FORM"))
        || not (text_eq (to_upper_case form.form_method) (codes "POST"))
      then form
      else record form {
        fields = set_entry (codes "csrf_token") (get_cookie csrf_cookie cookie) form.fields;
      }
