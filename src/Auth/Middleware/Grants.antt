-- ===== src/Auth/Middleware/Grants.antt =====
-- Which requests reach a handler.
use doupro.Base.{
  ◌≡◌, ◌↔◌, ◌⊎◌, inl, inr, true, false, none, some, arith, Text, codes, Option-cases, Bool-cases,
}
use doupro.Web.Csrf.{after}
use doupro.Auth.Access.{Permission, AccessControl, can}
use doupro.Auth.Access.Laws.{Granted, can_iff}
use doupro.Auth.Middleware.{
  User, Principals, Request, Principal, Response, serve, local_principal, key_principal,
  user_principal, is_change_password_path, csrf_safe_method, valid_csrf, with_user, require_auth,
  guarded, require_permission,
}

module _ (p : Principals) (r : Request) where
  -- How a request may be authenticated: it came over the local socket; or it carries the API key of
  -- an assignment; or it carries no key, but the session cookie of a user, who need not change the
  -- password first or is about to, with a safe method or a valid CSRF token.
  pub data Grants : Principal → Type 0 where
    by_socket : (q : Principal) → r.trusted_local ≡ true → q ≡ local_principal → Grants q
    by_key :
        (q : Principal) (key : Text) (a : AccessControl)
        → r.trusted_local ≡ false
        → after (codes "Bearer ") r.authorization ≡ some key
        → p.authenticate_api_key (p.hash_token key) ≡ some a
        → q ≡ key_principal a
        → Grants q
    by_cookie :
        (q : Principal) (c : Text) (u : User)
        → r.trusted_local ≡ false
        → after (codes "Bearer ") r.authorization ≡ none
        → r.session_cookie ≡ some c
        → p.session_user (p.hash_token c) ≡ some u
        → (u.must_change_password ≡ false) ⊎ (is_change_password_path r.path ≡ true)
        → (csrf_safe_method r.method ≡ true) ⊎ (valid_csrf r ≡ true)
        → q ≡ user_principal u
        → Grants q

module _ (p : Principals) (r : Request) where
  with_user_sound :
      (q : Principal) (u : User)
      → with_user r u ≡ serve q
      → ((u.must_change_password ≡ false) ⊎ (is_change_password_path r.path ≡ true))
        × ((csrf_safe_method r.method ≡ true) ⊎ (valid_csrf r ≡ true))
        × (q ≡ user_principal u)
  unfolding with_user
  with_user_sound q u e = ground arith

  with_user_complete :
      (u : User)
      → (u.must_change_password ≡ false) ⊎ (is_change_password_path r.path ≡ true)
      → (csrf_safe_method r.method ≡ true) ⊎ (valid_csrf r ≡ true)
      → with_user r u ≡ serve (user_principal u)
  unfolding with_user
  with_user_complete u m k = ground arith

  require_auth_sound : (q : Principal) → require_auth p r ≡ serve q → Grants p r q
  unfolding require_auth
  require_auth_sound q e = elim (Bool-cases r.trusted_local) [
    | inl t ↦ by_socket q t (ground arith)
    | inr t ↦ elim (Option-cases (after (codes "Bearer ") r.authorization)) [
      | inr (key, h) ↦ elim (Option-cases (p.authenticate_api_key (p.hash_token key))) [
        | inl f ↦ absurd (ground arith)
        | inr (a, f) ↦ by_key q key a t h f (ground arith)
      ]
      | inl h ↦ elim (Option-cases r.session_cookie) [
        | inl s ↦ absurd (ground arith)
        | inr (c, s) ↦ elim (Option-cases (p.session_user (p.hash_token c))) [
          | inl f ↦ absurd (ground arith)
          | inr (u, f) ↦
              let (m, k, same) = with_user_sound q u (ground arith) in
              by_cookie q c u t h s f m k same
        ]
      ]
    ]
  ]

  require_auth_complete : {q : Principal} → Grants p r q → require_auth p r ≡ serve q
  unfolding require_auth
  require_auth_complete (by_socket q t e) = rw (t, e)
  require_auth_complete (by_key q key a t h f e) = ground arith
  require_auth_complete (by_cookie q c u t h s f m k e) = ground (arith, with_user_complete u m k)

-- A request reaches the handler, as a principal, exactly if it is authenticated as that principal.
pub require_auth_iff :
    (p : Principals) (r : Request) (q : Principal) → (require_auth p r ≡ serve q) ↔ Grants p r q
require_auth_iff p r q = (require_auth_sound p r q, require_auth_complete p r)

guarded_sound :
    (permission : Permission) (r : Request) (q : Principal) (answer : Response)
    → require_permission permission r answer ≡ serve q
    → (answer ≡ serve q) × (can q.access permission ≡ true)
unfolding require_permission
guarded_sound permission r q (serve q') e = ground arith
guarded_sound permission r q _ e = cc

-- A handler behind a permission runs only for an authenticated principal whose assignment grants
-- that permission, by its role or by a flag.
pub guarded-Granted :
    (p : Principals) (permission : Permission) (r : Request) (q : Principal)
    → guarded p permission r ≡ serve q
    → Grants p r q × Granted q.access permission
unfolding guarded
guarded-Granted p permission r q e =
    let (served, allowed) = guarded_sound permission r q (require_auth p r) e in
    (require_auth_sound p r q served, (can_iff q.access permission).0 allowed)
