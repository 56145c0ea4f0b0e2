-- ===== src/Security/Auth.antt =====
-- Log-in, rotation of refresh tokens and log-out, backend/app/api/auth.py, with the tokens of
-- backend/app/security/auth.py.
pub mod Rotation
pub mod Lockout
use kosmohack_final.Security.Accounts.{
  Claims, Library, Settings, Tables, Fresh, TokenResponse, minutes, hours, find_user, get_user,
  get_session, find_token, write_audit, save_user, is_after,
}
use kosmohack_final.Models.Accounts.{
  Permission, RolePermission, UserRole, AuthSession, User, RefreshToken,
}
use kosmohack_final.Models.Log.{AuditEntry, AuditTarget, AuditOutcome, AuditAction}
use kosmohack_final.Session.{
  raise_if, gets, or_raise, ◌>>=◌, pure, commit, ◌>>◌, modify, ErrorCode, skip, raise, traceq_error,
  Action, TraceqError,
}
use kosmohack_final.Prelude.{
  not, ◌&&◌, ltb, [], ◌==◌, false, is_none, leb, none, ◌∷◌, some, ◌+◌, Bool, ◌*◌, update, ◌++◌,
  find, if◌then◌else◌, suc, ℕ, List, Text, Option,
}

-- A failed attempt: the fifth locks the account for fifteen minutes.
unfoldable pub count_failure : ℕ → User → User
count_failure now user =
    let attempts = suc user.failed_login_attempts in
    if leb 5 attempts
    then record user { failed_login_attempts = 0; locked_until = some (now + minutes 15) }
    else record user { failed_login_attempts = attempts }

abbrev pub save_failure : ℕ → Option User → Tables → Tables
save_failure now none db = db
save_failure now (some user) db = save_user user.id (count_failure now) db

abbrev pub target_of : Option User → Text → ℕ
target_of none username = username
target_of (some user) username = user.id

abbrev pub is_locked : ℕ → Option User → Bool
is_locked now none = false
is_locked now (some user) = is_after user.locked_until now

abbrev pub audit_failure : Fresh → AuditOutcome → Option User → Text → Tables → Tables
audit_failure fresh outcome user username =
    write_audit AuditAction.login_failure outcome none none AuditTarget.user
      (target_of user username) fresh.request_id

abbrev pub locked_out : Fresh → Option User → Text → Action Tables TokenResponse
locked_out fresh user username = do
  modify (audit_failure fresh AuditOutcome.locked user username)
  commit
  raise (traceq_error ErrorCode.account_temporarily_locked 423)

abbrev pub denied : Fresh → Option User → Text → Action Tables TokenResponse
denied fresh user username = do
  modify (save_failure fresh.now user)
  modify (audit_failure fresh AuditOutcome.denied user username)
  commit
  raise (traceq_error ErrorCode.invalid_credentials 401)

abbrev pub invalid_refresh_token : TraceqError
invalid_refresh_token = traceq_error ErrorCode.invalid_refresh_token 401

module _ (lib : Library) (settings : Settings) where
  abbrev pub open_session : ℕ → ℕ → User → Tables → Tables
  open_session now session_id user db = elim (get_session session_id db) [
    | none ↦ record db {
      sessions =
          db.sessions
          ++ record {
            id = session_id;
            user_id = user.id;
            last_authenticated_at = now;
            expires_at = now + hours settings.refresh_token_ttl_hours;
            revoked_at = none;
          }
            ∷ [];
    }
    | some session ↦ record db {
      sessions =
          update (λ s. s.id == session_id)
            (λ s. record s {
              last_authenticated_at = now;
              expires_at = now + hours settings.refresh_token_ttl_hours;
            })
            db.sessions;
    }
  ]

  abbrev pub new_token : Fresh → ℕ → User → RefreshToken
  new_token fresh session_id user = record {
    user_id = user.id;
    session_id = session_id;
    token_hash = lib.token_hash fresh.refresh_token;
    expires_at = fresh.now + hours settings.refresh_token_ttl_hours;
    revoked_at = none;
    replaced_by_hash = none;
  }

  -- `_token_response`, as the response and the tables after it.
  abbrev pub token_response : Fresh → ℕ → User → Tables → Tables
  token_response fresh session_id user db =
      let db' = open_session fresh.now session_id user db in
      record db' { tokens = db'.tokens ++ new_token fresh session_id user ∷ [] }

  abbrev pub response : Fresh → ℕ → User → TokenResponse
  response fresh session_id user = record {
    access_token = lib.encode (record {
      user_id = user.id;
      session_id = session_id;
      issued_at = fresh.now;
      expires = fresh.now + minutes settings.access_token_ttl_minutes;
    });
    refresh_token = fresh.refresh_token;
    expires_in = 60 * settings.access_token_ttl_minutes;
  }

  abbrev pub credentials_hold : Option User → Text → Bool
  credentials_hold none password = false
  credentials_hold (some user) password =
      user.enabled && lib.verify_password user.password_hash password

  abbrev pub welcome : Fresh → Option User → Action Tables TokenResponse
  welcome fresh none = raise (traceq_error ErrorCode.invalid_credentials 401)
  welcome fresh (some user) = do
    modify (save_user user.id (λ u. record u { failed_login_attempts = 0; locked_until = none }))
    modify (token_response fresh fresh.session_id user)
    modify (
        write_audit AuditAction.login_success AuditOutcome.success (some user.id)
          (some fresh.session_id) AuditTarget.user user.id fresh.request_id)
    commit
    pure (response fresh fresh.session_id user)

  unfoldable pub login : Fresh → (username password : Text) → Action Tables TokenResponse
  login fresh username password = do
    user ← gets (find_user username)
    if is_locked fresh.now user
        then locked_out fresh user username
        else if not (credentials_hold user password)
        then denied fresh user username
        else welcome fresh user

  abbrev pub is_usable : ℕ → RefreshToken → Bool
  is_usable now token = is_none token.revoked_at && ltb now token.expires_at

  abbrev pub spend : Fresh → RefreshToken → RefreshToken
  spend fresh t = record t {
    revoked_at = some fresh.now;
    replaced_by_hash = some (lib.token_hash fresh.refresh_token);
  }

  unfoldable pub refresh : Fresh → (refresh_token : Text) → Action Tables TokenResponse
  refresh fresh refresh_token = do
    let hashed = lib.token_hash refresh_token
    token ← do or_raise (← gets (find_token hashed)) invalid_refresh_token
    raise_if (not (is_usable fresh.now token)) invalid_refresh_token
    user ← do or_raise (← gets (get_user token.user_id)) invalid_refresh_token
    raise_if (not user.enabled) invalid_refresh_token
    modify (token_response fresh token.session_id user)
    modify
        (λ db. record db { tokens = update (λ t. t.token_hash == hashed) (spend fresh) db.tokens })
    modify (
        write_audit AuditAction.refresh_rotation AuditOutcome.success (some user.id)
          (some token.session_id) AuditTarget.session token.session_id fresh.request_id)
    commit
    pure (response fresh token.session_id user)

  abbrev pub revoke_token : ℕ → RefreshToken → RefreshToken
  revoke_token now t = if is_none t.revoked_at then record t { revoked_at = some now } else t

  abbrev pub revoke_session : ℕ → AuthSession → AuthSession
  revoke_session now s = if is_none s.revoked_at then record s { revoked_at = some now } else s

  abbrev pub end_session : Fresh → RefreshToken → Tables → Tables
  end_session fresh token db =
      write_audit AuditAction.logout AuditOutcome.success (some token.user_id)
        (some token.session_id) AuditTarget.session token.session_id fresh.request_id
        (record db {
          sessions = update (λ s. s.id == token.session_id) (revoke_session fresh.now) db.sessions;
          tokens =
              update (λ t. t.session_id == token.session_id) (revoke_token fresh.now) db.tokens;
        })

  abbrev pub close_session : Fresh → Option RefreshToken → Action Tables (Unit {0})
  close_session fresh none = skip
  close_session fresh (some token) =
      if is_none token.revoked_at then (modify (end_session fresh token) >> commit) else skip

  unfoldable pub logout : Fresh → (refresh_token : Text) → Action Tables (Unit {0})
  logout fresh refresh_token = do
    token ← gets (find_token (lib.token_hash refresh_token))
    close_session fresh token
