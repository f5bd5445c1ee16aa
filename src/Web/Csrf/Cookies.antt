-- ===== src/Web/Csrf/Cookies.antt =====
-- The cookie that web/static/csrf.js reads out of `document.cookie`, which lists a site's cookies as
-- `name=value`, separated by a semicolon and a space.
use doupro.Base.{
  ◌≡◌, ◌≢◌, refl, none, some, List, [], ◌∷◌, ◌++◌, arith, Text, codes, text_eq, if◌then◌else◌, All,
}
use doupro.Web.Csrf.{after, until_semicolon, find_after_semicolon, match_cookie, get_entry}

abbrev pub NoSemicolon : Text → Type 0
NoSemicolon s = All (λ c. c ≢ b';') s

abbrev pub IsCookieName : Text → Type 0
IsCookieName s = All (λ c. (c ≢ b';') × (c ≢ b'=')) s

pub record IsCookie (e : Text × Text) : Type 0 where
  pub name_free : IsCookieName e.0
  pub value_free : NoSemicolon e.1

-- The cookies behind the first.
abbrev print_tail : List (Text × Text) → Text
print_tail [] = []
print_tail ((n, v) ∷ jar) = b';' ∷ b' ' ∷ (n ++ (b'=' ∷ (v ++ print_tail jar)))

-- `document.cookie`, for a list of names with their values
abbrev pub print_jar : List (Text × Text) → Text
print_jar [] = []
print_jar ((n, v) ∷ jar) = n ++ (b'=' ∷ (v ++ print_tail jar))

after-name :
    (name n rest : Text)
    → IsCookieName name
    → IsCookieName n
    → after (name ++ codes "=") (n ++ (b'=' ∷ rest)) ≡ (if text_eq n name then some rest else none)
unfolding after
after-name [] [] rest h k = refl
after-name [] (d ∷ n) rest h k = ground arith
after-name (c ∷ name) [] rest h k = ground arith
after-name (c ∷ name) (d ∷ n) rest (_, h) (_, k) = ground (arith, after-name name n rest h k)

until_semicolon-tail :
    (v : Text) (jar : List (Text × Text))
    → NoSemicolon v
    → until_semicolon (v ++ print_tail jar) ≡ v
unfolding until_semicolon
until_semicolon-tail [] [] h = refl
until_semicolon-tail [] ((n, w) ∷ jar) h = refl
until_semicolon-tail (c ∷ v) jar (p, h) = ground (arith, until_semicolon-tail v jar h)

find_skip :
    (name v rest : Text)
    → NoSemicolon v
    → find_after_semicolon name (v ++ rest) ≡ find_after_semicolon name rest
unfolding find_after_semicolon
find_skip name [] rest h = refl
find_skip name (c ∷ v) rest (p, h) = ground (arith, find_skip name v rest h)

name-NoSemicolon : (n : Text) → IsCookieName n → NoSemicolon n
name-NoSemicolon [] h = tt
name-NoSemicolon (c ∷ n) (p, h) = (p.0, name-NoSemicolon n h)

find-tail :
    (name : Text) (jar : List (Text × Text))
    → IsCookieName name
    → All IsCookie jar
    → find_after_semicolon name (print_tail jar) ≡ get_entry name jar
unfolding find_after_semicolon
find-tail name [] h hs = refl
find-tail name ((n, v) ∷ jar) h (k, ks) = ground (
  arith,
  after-name name n (v ++ print_tail jar) h k.name_free,
  until_semicolon-tail v jar k.value_free,
  find_skip name n (b'=' ∷ (v ++ print_tail jar)) (name-NoSemicolon n k.name_free),
  find_skip name v (print_tail jar) k.value_free,
  find-tail name jar h ks,
)

match_nil : (name : Text) → match_cookie name [] ≡ none
unfolding match_cookie
match_nil [] = refl
match_nil (c ∷ name) = refl

-- The regular expression finds exactly the cookie of the name: the value of the first one that the
-- site has, and nothing if it has none. The names hold no semicolon and no equals sign, the values
-- no semicolon.
pub match_cookie-print_jar :
    (name : Text) (jar : List (Text × Text))
    → IsCookieName name
    → All IsCookie jar
    → match_cookie name (print_jar jar) ≡ get_entry name jar
unfolding match_cookie
match_cookie-print_jar name [] h hs = match_nil name
match_cookie-print_jar name ((n, v) ∷ jar) h (k, ks) = ground (
  arith,
  after-name name n (v ++ print_tail jar) h k.name_free,
  until_semicolon-tail v jar k.value_free,
  find_skip name n (b'=' ∷ (v ++ print_tail jar)) (name-NoSemicolon n k.name_free),
  find_skip name v (print_tail jar) k.value_free,
  find-tail name jar h ks,
)
