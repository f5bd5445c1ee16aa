-- ===== src/Auth/Middleware.antt =====
-- `RequireAuth` and `RequirePermission` of internal/auth/middleware.go. The store's lookups and the
-- hash of a token are an interface; a failed lookup is `none`.
pub mod Grants
pub mod Browser
use doupro.Base.{
  ℕ, Bool, true, false, not, ◌&&◌, ◌||◌, Option, none, some, List, [], ◌∷◌, Text, codes, text_eq,
  starts_with, if◌then◌else◌,
}
use doupro.Auth.Access.{Role, admin, Permission, AccessControl, can}
use doupro.Web.Csrf.{after}

pub record User : Type 0 where
  pub username : Text
  pub must_change_password : Bool
  pub access : AccessControl

-- What the middleware asks of the store (`SessionUser`, `AuthenticateAPIKey`) and of SHA-256.
pub record Principals : Type 0 where
  pub hash_token : Text → Text
  pub session_user : Text → Option User
  pub authenticate_api_key : Text → Option AccessControl

-- The parts of a request that the middleware reads. A header or form field that is missing is the
-- empty text, as in net/http.
pub record Request : Type 0 where
  pub method : Text
  pub path : Text
  pub trusted_local : Bool
  pub authorization : Text
  pub session_cookie : Option Text
  pub csrf_cookie : Option Text
  pub csrf_header : Text
  pub csrf_field : Text

-- What the request's context says of its principal once it is let through.
pub record Principal : Type 0 where
  pub actor : Text
  pub user : Option User
  pub access : AccessControl

-- The next handler runs, or an answer is written: a JSON body with a status and a code, a plain
-- error, or a redirection.
pub data Response : Type 0 where
  serve : Principal → Response
  json_error : ℕ → Text → Response
  plain_error : ℕ → Response
  redirect : Text → Response

abbrev is_api : Request → Bool
is_api r = starts_with (codes "/api/") r.path

unfoldable pub write_forbidden : Request → Response
write_forbidden r = if is_api r then json_error 403 (codes "forbidden") else plain_error 403

unfoldable pub write_csrf_required : Request → Response
write_csrf_required r =
    if is_api r then json_error 403 (codes "csrf_token_invalid") else plain_error 403

unfoldable pub write_password_change_required : Request → Response
write_password_change_required r =
    if is_api r
    then json_error 403 (codes "password_change_required")
    else redirect (codes "/change-password")

unfoldable pub write_unauthorized : Request → Response
write_unauthorized r =
    if is_api r then json_error 401 (codes "unauthenticated") else redirect (codes "/login")

unfoldable pub is_change_password_path : Text → Bool
is_change_password_path p =
    text_eq p (codes "/change-password")
    || text_eq p (codes "/api/v1/auth/password")
    || text_eq p (codes "/api/v1/auth/logout")

unfoldable pub csrf_safe_method : Text → Bool
csrf_safe_method m =
    text_eq m (codes "GET") || text_eq m (codes "HEAD") || text_eq m (codes "OPTIONS")

abbrev is_blank : Text → Bool
is_blank [] = true
is_blank (c ∷ s) = false

abbrev submitted_token : Request → Text
submitted_token r = if is_blank r.csrf_header then r.csrf_field else r.csrf_header

unfoldable pub valid_csrf : Request → Bool
valid_csrf r = elim r.csrf_cookie [
  | none ↦ false
  | some value ↦
      not (is_blank value)
      && not (is_blank (submitted_token r))
      && text_eq value (submitted_token r)
]

abbrev pub admin_access : AccessControl
admin_access = record {
  role = admin;
  may_view_logs = false;
  may_manage_schedules = false;
  may_manage_notifications = false;
  may_view_stats = false;
  protected = false;
}

abbrev pub local_principal : Principal
local_principal = record { actor = codes "local-socket"; user = none; access = admin_access }

abbrev pub key_principal : AccessControl → Principal
key_principal a = record { actor = codes "api-key"; user = none; access = a }

abbrev pub user_principal : User → Principal
user_principal u = record { actor = u.username; user = some u; access = u.access }

-- The cookie's branch, for the user whom the session belongs to.
unfoldable pub with_user : Request → User → Response
unfolding write_password_change_required write_csrf_required
with_user r u =
    if u.must_change_password && not (is_change_password_path r.path)
    then write_password_change_required r
    else if not (csrf_safe_method r.method) && not (valid_csrf r)
    then write_csrf_required r
    else serve (user_principal u)

-- What `RequirePermission` makes of the request that was let through.
unfoldable pub require_permission : Permission → Request → Response → Response
unfolding write_forbidden
require_permission permission r (serve q) =
    if can q.access permission then serve q else write_forbidden r
require_permission permission r answer = answer

module _ (p : Principals) where
  abbrev by_api_key : Request → Text → Response
  by_api_key r key = elim (p.authenticate_api_key (p.hash_token key)) [
    | none ↦ write_unauthorized r
    | some a ↦ serve (key_principal a)
  ]

  abbrev by_session : Request → Response
  by_session r = elim r.session_cookie [
    | none ↦ write_unauthorized r
    | some c ↦ elim (p.session_user (p.hash_token c)) [
      | none ↦ write_unauthorized r
      | some u ↦ with_user r u
    ]
  ]

  unfoldable pub require_auth : Request → Response
  unfolding write_unauthorized
  require_auth r =
      if r.trusted_local
      then serve local_principal
      else elim (after (codes "Bearer ") r.authorization) [
        | some key ↦ by_api_key r key
        | none ↦ by_session r
      ]

  -- a handler behind `RequirePermission`, inside `RequireAuth`, as the routes are registered
  unfoldable pub guarded : Permission → Request → Response
  unfolding require_permission
  guarded permission r = require_permission permission r (require_auth r)
