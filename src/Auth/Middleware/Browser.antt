-- ===== src/Auth/Middleware/Browser.antt =====
-- The script web/static/csrf.js against the middleware's double-submit check.
use doupro.Base.{
  ◌≡◌, ◌≢◌, refl, ap, ◌∙◌, true, Option, none, some, List, [], ◌∷◌, arith, Text, codes,
  text_eq_refl, text_eq_iff, All,
}
use doupro.Web.Csrf.{
  Init, csrf_cookie, csrf_header, get_entry, set_entry, get_cookie, method_of, patched_init, Form,
  on_submit, to_upper_case,
}
use doupro.Web.Csrf.Cookies.{IsCookie, print_jar, match_cookie-print_jar}
use doupro.Auth.Middleware.{Request, valid_csrf}

abbrev pub or_blank : Option Text → Text
or_blank none = []
or_blank (some s) = s

get_entry-set_entry :
    (name value : Text) (es : List (Text × Text))
    → get_entry name (set_entry name value es) ≡ some value
get_entry-set_entry name value [] = ground (arith, text_eq_refl name)
get_entry-set_entry name value ((n, v) ∷ es) =
    ground (arith, text_eq_refl name, get_entry-set_entry name value es)

valid_csrf_of_header :
    (r : Request) (token : Text)
    → token ≢ []
    → r.csrf_cookie ≡ some token
    → r.csrf_header ≡ token
    → valid_csrf r ≡ true
unfolding valid_csrf
valid_csrf_of_header r [] full sent e = absurd (full refl)
valid_csrf_of_header r (c ∷ s) full sent e = ground (arith, text_eq_refl s)

valid_csrf_of_field :
    (r : Request) (token : Text)
    → token ≢ []
    → r.csrf_cookie ≡ some token
    → r.csrf_header ≡ []
    → r.csrf_field ≡ token
    → valid_csrf r ≡ true
unfolding valid_csrf
valid_csrf_of_field r [] full sent b e = absurd (full refl)
valid_csrf_of_field r (c ∷ s) full sent b e = ground (arith, text_eq_refl s)

-- A token that `decodeURIComponent` leaves alone: it holds no percent sign.
abbrev pub NoPercent : Text → Type 0
NoPercent s = All (λ c. c ≢ b'%') s

csrf_cookie-name : All (λ c. (c ≢ b';') × (c ≢ b'=')) csrf_cookie
csrf_cookie-name = omega arith

module _ (decode : Text → Text) (plain : (s : Text) → NoPercent s → decode s ≡ s) where
  get_cookie-print_jar :
      (jar : List (Text × Text)) (token : Text)
      → All IsCookie jar
      → get_entry csrf_cookie jar ≡ some token
      → NoPercent token
      → get_cookie decode csrf_cookie (print_jar jar) ≡ token
  unfolding get_cookie
  get_cookie-print_jar jar token h e np =
      ground (arith, match_cookie-print_jar csrf_cookie jar csrf_cookie-name h, plain token np)

  patched_init-header :
      (cookie : Text) (init : Init)
      → method_of init ≢ codes "GET"
      → method_of init ≢ codes "HEAD"
      → get_entry csrf_header (patched_init decode cookie init).headers
        ≡ some (get_cookie decode csrf_cookie cookie)
  unfolding patched_init
  patched_init-header cookie init g h = ground (
    arith,
    text_eq_iff (method_of init) (codes "GET"),
    text_eq_iff (method_of init) (codes "HEAD"),
    get_entry-set_entry csrf_header (get_cookie decode csrf_cookie cookie) init.headers,
  )

  on_submit-field :
      (cookie : Text) (form : Form)
      → form.tag_name ≡ codes "FORM"
      → to_upper_case form.form_method ≡ codes "POST"
      → get_entry (codes "csrf_token") (on_submit decode cookie form).fields
        ≡ some (get_cookie decode csrf_cookie cookie)
  unfolding on_submit
  on_submit-field cookie form g h = ground (
    arith,
    text_eq_iff form.tag_name (codes "FORM"),
    text_eq_iff (to_upper_case form.form_method) (codes "POST"),
    get_entry-set_entry (codes "csrf_token") (get_cookie decode csrf_cookie cookie) form.fields,
  )

  module _ (r : Request) (jar : List (Text × Text)) (token : Text) (cookies : All IsCookie jar)
      (mine : get_entry csrf_cookie jar ≡ some token) (np : NoPercent token) (full : token ≢ [])
      (sent : r.csrf_cookie ≡ some token) where
    -- The request that a patched `fetch` makes passes the CSRF check whatever its method, unless the
    -- method is GET or HEAD, which need no check. The browser holds the CSRF cookie, with a token
    -- that is not empty and has no percent sign, and sends it along.
    pub patched_init-valid_csrf :
        (init : Init)
        → method_of init ≢ codes "GET"
        → method_of init ≢ codes "HEAD"
        → r.csrf_header
          ≡ or_blank (get_entry csrf_header (patched_init decode (print_jar jar) init).headers)
        → valid_csrf r ≡ true
    patched_init-valid_csrf init g h e = valid_csrf_of_header r token full sent (
        e
        ∙ ap or_blank (patched_init-header (print_jar jar) init g h)
        ∙ get_cookie-print_jar jar token cookies mine np)

    -- The submission of a form by POST passes the CSRF check, under the same conditions on the cookie
    -- and its token, if the browser sends the form's field and no CSRF header.
    on_submit-valid_csrf :
        (form : Form)
        → form.tag_name ≡ codes "FORM"
        → to_upper_case form.form_method ≡ codes "POST"
        → r.csrf_header ≡ []
        → r.csrf_field
          ≡ or_blank (get_entry (codes "csrf_token") (on_submit decode (print_jar jar) form).fields)
        → valid_csrf r ≡ true
    on_submit-valid_csrf form g h b e = valid_csrf_of_field r token full sent b (
        e
        ∙ ap or_blank (on_submit-field (print_jar jar) form g h)
        ∙ get_cookie-print_jar jar token cookies mine np)
