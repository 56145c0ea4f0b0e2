-- ===== src/Security/Access.antt =====
-- Who may call a handler: `current_principal` and the permission dependencies of
-- backend/app/security/auth.py. FastAPI runs them before the handler, and takes the principal from
-- the bearer token of the request.
pub mod Laws
use kosmohack_final.Models.Accounts.{User, AuthSession}
use kosmohack_final.Security.Accounts.{get_user, get_session, minutes, Tables, Claims, Library}
use kosmohack_final.Session.{forbidden_error, ok, ErrorCode, err, Result, traceq_error, TraceqError}
use kosmohack_final.Prelude.{
  none, [], ◌-◌, ◌||◌, ◌&&◌, contains, select, ltb, ◌∷◌, ◌==◌, some, if◌then◌else◌, map, false, not,
  is_none, any, Bool, Option, ℕ, List, Text,
}

pub record Principal : Type 0 where
  pub user_id : ℕ
  pub username : Text
  pub session_id : ℕ
  pub permissions : List Text

abbrev pub has_role : ℕ → ℕ → Tables → Bool
has_role user_id role_id db =
    any (λ r. (r.user_id == user_id) && (r.role_id == role_id)) db.user_roles

-- The join of `_permissions_for_user`.
abbrev pub permissions_for_user : ℕ → Tables → List Text
permissions_for_user user_id db =
    map (λ p. p.name)
      (select
        (λ p.
          any (λ rp. (rp.permission_id == p.id) && has_role user_id rp.role_id db)
            db.role_permissions)
        db.permissions)

abbrev pub invalid_access_token : TraceqError
invalid_access_token = traceq_error ErrorCode.invalid_access_token 401

abbrev pub is_active : ℕ → AuthSession → Bool
is_active now session = is_none session.revoked_at && ltb now session.expires_at

-- `user` and `session` are the rows that the claims name.
abbrev pub admit : ℕ → Claims → Option User → Option AuthSession → Tables → Result Principal
admit now claims (some user) (some session) db =
    if user.enabled && ((session.user_id == claims.user_id) && is_active now session)
    then ok (record {
      user_id = user.id;
      username = user.username;
      session_id = claims.session_id;
      permissions = permissions_for_user user.id db;
    })
    else err invalid_access_token
admit now claims _ _ db = err invalid_access_token

-- The credentials are the token of an `Authorization: Bearer` header, when there is one.
unfoldable pub current_principal :
    Library → (now : ℕ) → (credentials : Option Text) → Tables → Result Principal
current_principal lib now none db = err (traceq_error ErrorCode.authentication_required 401)
current_principal lib now (some token) db = elim (lib.decode now token) [
  | none ↦ err invalid_access_token
  | some claims ↦
      admit now claims (get_user claims.user_id db) (get_session claims.session_id db) db
]

unfoldable pub require_permission : (permission : Text) → Principal → Result Principal
require_permission permission principal =
    if contains permission principal.permissions then ok principal else err forbidden_error

abbrev pub is_fresh : ℕ → (freshness_minutes : ℕ) → AuthSession → Bool
is_fresh now freshness_minutes session =
    not (ltb session.last_authenticated_at (now - minutes freshness_minutes))

unfoldable pub require_critical_permission :
    (permission : Text) (freshness_minutes now : ℕ) → Principal → Tables → Result Principal
require_critical_permission permission freshness_minutes now principal db =
    if not (contains permission principal.permissions)
    then err forbidden_error
    else elim (get_session principal.session_id db) [
      | none ↦ err (traceq_error ErrorCode.session_revoked 401)
      | some session ↦
          if not (is_active now session)
          then err (traceq_error ErrorCode.session_revoked 401)
          else if not (is_fresh now freshness_minutes session)
          then err (traceq_error ErrorCode.fresh_auth_required 403)
          else ok principal
    ]

abbrev pub shares : List Text → List Text → Bool
shares allowed [] = false
shares allowed (p ∷ ps) = contains p allowed || shares allowed ps

unfoldable pub require_any_permission : (allowed : List Text) → Principal → Result Principal
require_any_permission allowed principal =
    if shares allowed principal.permissions then ok principal else err forbidden_error
