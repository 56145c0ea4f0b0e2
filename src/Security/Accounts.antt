-- ===== src/Security/Accounts.antt =====
-- The tables of the accounts, and what backend/app/api/auth.py and backend/app/security/auth.py take
-- from libraries and read of a request. Argon2, SHA-256 and PyJWT are the functions of `Library`;
-- random tokens and identifiers, and the time, are arguments.
use kosmohack_final.Models.Accounts.{
  Permission, RolePermission, UserRole, AuthSession, User, RefreshToken,
}
use kosmohack_final.Models.Log.{AuditEntry, AuditTarget, AuditOutcome, AuditAction}
use kosmohack_final.Prelude.{
  ltb, [], ◌==◌, false, none, ◌∷◌, some, Bool, ◌*◌, update, ◌++◌, find, ℕ, List, Text, Option,
}

pub record Claims : Type 0 where
  pub user_id : ℕ
  pub session_id : ℕ
  pub issued_at : ℕ
  pub expires : ℕ

pub record Library : Type 0 where
  pub verify_password : (password_hash password : Text) → Bool
  pub token_hash : Text → Text
  pub encode : Claims → Text
  -- The claims of a token that is signed with our key, is not expired at the time and has both
  -- identifiers.
  pub decode : ℕ → Text → Option Claims

pub record Settings : Type 0 where
  pub access_token_ttl_minutes : ℕ
  pub refresh_token_ttl_hours : ℕ

pub record Tables : Type 0 where
  pub users : List User
  pub sessions : List AuthSession
  pub tokens : List RefreshToken
  pub user_roles : List UserRole
  pub role_permissions : List RolePermission
  pub permissions : List Permission
  pub audits : List AuditEntry

-- `timedelta(minutes=...)` and `timedelta(hours=...)`, in microseconds
abbrev pub minutes : ℕ → ℕ
minutes n = 60000000 * n

abbrev pub hours : ℕ → ℕ
hours n = 3600000000 * n

-- What is drawn or read once for a request.
pub record Fresh : Type 0 where
  pub now : ℕ
  pub session_id : ℕ
  pub refresh_token : Text
  pub request_id : Text

pub record TokenResponse : Type 0 where
  pub access_token : Text
  pub refresh_token : Text
  pub expires_in : ℕ

abbrev pub find_user : Text → Tables → Option User
find_user username db = find (λ u. u.username == username) db.users

abbrev pub get_user : ℕ → Tables → Option User
get_user id db = find (λ u. u.id == id) db.users

abbrev pub get_session : ℕ → Tables → Option AuthSession
get_session id db = find (λ s. s.id == id) db.sessions

abbrev pub find_token : Text → Tables → Option RefreshToken
find_token hash db = find (λ t. t.token_hash == hash) db.tokens

abbrev pub write_audit :
    AuditAction → AuditOutcome → Option ℕ → Option ℕ → AuditTarget → ℕ → Text → Tables → Tables
write_audit action outcome actor session target id request_id db = record db {
  audits =
      db.audits
      ++ record {
        action = action;
        outcome = outcome;
        actor_user_id = actor;
        session_id = session;
        target_type = some target;
        target_id = some id;
        request_id = some request_id;
      }
        ∷ [];
}

-- The attributes of the user's row are assigned.
abbrev pub save_user : ℕ → (User → User) → Tables → Tables
save_user id f db = record db { users = update (λ u. u.id == id) f db.users }

-- A time that is set and lies after now.
abbrev pub is_after : Option ℕ → ℕ → Bool
is_after none now = false
is_after (some t) now = ltb now t
