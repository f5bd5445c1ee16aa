-- ===== src/Auth/Tests.antt =====
-- The middleware's theorems at concrete requests.
use doupro.Base.{
  ◌≡◌, ◌≢◌, refl, ◌↔◌, true, false, none, some, [], ◌∷◌, Text, List, codes, arith, text_eq_iff,
}
use doupro.Web.Csrf.{
  Init, Form, get_entry, csrf_header, patched_init, on_submit, method_of, get_cookie, match_cookie,
  after,
}
use doupro.Web.Csrf.Cookies.{print_jar}
use doupro.Auth.Access.{AccessControl, write, write_containers, can}
use doupro.Auth.Access.Laws.{Granted}
use doupro.Auth.Middleware.{
  User, Principals, Request, serve, require_auth, guarded, valid_csrf, user_principal,
  csrf_safe_method, with_user, is_change_password_path, require_permission,
}
use doupro.Auth.Middleware.Grants.{Grants, require_auth_iff, guarded-Granted}
use doupro.Auth.Middleware.Browser.{patched_init-valid_csrf, or_blank}

abbrev writer : AccessControl
writer = record {
  role = write;
  may_view_logs = true;
  may_manage_schedules = false;
  may_manage_notifications = false;
  may_view_stats = false;
  protected = false;
}

abbrev ann : User
ann = record { username = codes "ann"; must_change_password = false; access = writer }

abbrev plain_text : Text → Text
plain_text s = s

abbrev only_ann : Principals
only_ann = record {
  hash_token = plain_text;
  session_user = λ t. some ann;
  authenticate_api_key = λ k. none;
}

abbrev update_request : Request
update_request = record {
  method = codes "POST";
  path = codes "/api/v1/containers/1/update";
  trusted_local = false;
  authorization = [];
  session_cookie = some (codes "s");
  csrf_cookie = some (codes "beef");
  csrf_header = codes "beef";
  csrf_field = [];
}

abbrev form_request : Request
form_request = record update_request { csrf_header = []; csrf_field = codes "beef" }

require_auth_iff_example :
    (require_auth only_ann update_request ≡ serve (user_principal ann))
    ↔ Grants only_ann update_request (user_principal ann)
require_auth_iff_example = require_auth_iff only_ann update_request (user_principal ann)

update_guarded : guarded only_ann write_containers update_request ≡ serve (user_principal ann)
unfolding guarded require_auth require_permission with_user valid_csrf csrf_safe_method
    is_change_password_path after can
update_guarded = refl

guarded-Granted_example :
    Grants only_ann update_request (user_principal ann) × Granted writer write_containers
guarded-Granted_example =
    guarded-Granted only_ann write_containers update_request (user_principal ann) update_guarded

abbrev jar : List (Text × Text)
jar = (codes "theme", codes "dark") ∷ (codes "doupro_csrf", codes "beef") ∷ []

abbrev post : Init
post = record { method = some (codes "post"); headers = [] }

post_not_get : method_of post ≢ codes "GET"
unfolding method_of
post_not_get = ground (arith, text_eq_iff (codes "POST") (codes "GET"))

post_not_head : method_of post ≢ codes "HEAD"
unfolding method_of
post_not_head = ground (arith, text_eq_iff (codes "POST") (codes "HEAD"))

post_header :
    update_request.csrf_header
    ≡ or_blank (get_entry csrf_header (patched_init plain_text (print_jar jar) post).headers)
unfolding patched_init method_of get_cookie match_cookie
post_header = refl

patched_init-valid_csrf_example : valid_csrf update_request ≡ true
patched_init-valid_csrf_example =
    patched_init-valid_csrf plain_text (λ s p. refl) update_request jar (codes "beef") (omega arith)
      refl (omega arith) (ground arith) refl post post_not_get post_not_head post_header

abbrev form : Form
form = record { tag_name = codes "FORM"; form_method = codes "post"; fields = [] }

form_field :
    form_request.csrf_field
    ≡ or_blank (get_entry (codes "csrf_token") (on_submit plain_text (print_jar jar) form).fields)
unfolding on_submit get_cookie match_cookie
form_field = refl
