-- ===== src/Tests/Access.antt =====
-- backend/app/api/auth.py and backend/app/security/auth.py on one account. The password of user 1
-- is 40, hashed as itself; so are the tokens.
use kosmohack_final.Security.Access.Laws.{critical_iff, logged_out_no_access}
use kosmohack_final.Security.Auth.Rotation.{refresh_once}
use kosmohack_final.Security.Auth.Lockout.{five_failures_lock, after}
use kosmohack_final.Models.Accounts.{RefreshToken, AuthSession, User}
use kosmohack_final.Security.Access.{
  Principal, invalid_access_token, require_critical_permission, current_principal,
}
use kosmohack_final.Prelude.{
  ◌+◌, ◌≤◌, arith, ◌<◌, refl, contains, ◌↔◌, true, [], ◌≡◌, ◌==◌, none, some, ℕ, ◌∷◌, Text,
}
use kosmohack_final.Security.Auth.{invalid_refresh_token, login, logout, refresh}
use kosmohack_final.Security.Accounts.{minutes, get_session, Settings, Tables, Fresh, Library}
use kosmohack_final.Session.{ErrorCode, traceq_error, ok, err, request}

abbrev library : Library
library = record {
  verify_password = λ hash password. hash == password;
  token_hash = λ token. token;
  encode = λ claims. claims.session_id;
  decode =
      λ now token. some (record { user_id = 1; session_id = token; issued_at = 0; expires = 100 });
}

abbrev settings : Settings
settings = record { access_token_ttl_minutes = 15; refresh_token_ttl_hours = 8 }

abbrev operator : User
operator = record {
  id = 1;
  username = 50;
  password_hash = 40;
  enabled = true;
  failed_login_attempts = 0;
  locked_until = none;
}

abbrev session : AuthSession
session = record {
  id = 60;
  user_id = 1;
  last_authenticated_at = 5;
  expires_at = 1000;
  revoked_at = none;
}

abbrev token : Text → RefreshToken
token hash = record {
  user_id = 1;
  session_id = 60;
  token_hash = hash;
  expires_at = 1000;
  revoked_at = none;
  replaced_by_hash = none;
}

abbrev accounts : Tables
accounts = record {
  users = operator ∷ [];
  sessions = session ∷ [];
  tokens = token 71 ∷ token 72 ∷ [];
  user_roles = [];
  role_permissions = [];
  permissions = [];
  audits = [];
}

abbrev at : ℕ → Fresh
at now = record { now = now; session_id = 61; refresh_token = 73; request_id = 1 }

refresh_once_example :
    let db' = (request (refresh library settings (at 10) 71) accounts).1 in
    request (refresh library settings (at 20) 71) db' ≡ (err invalid_refresh_token, db')
unfolding refresh
refresh_once_example = refresh_once library settings (at 10) (at 20) 71 accounts _ _ refl

logged_out_no_access_example :
    current_principal library 20 (some 60) (request (logout library settings (at 10) 71) accounts).1
    ≡ err invalid_access_token
logged_out_no_access_example =
    logged_out_no_access library settings (at 10) 71 60 20 accounts (token 71)
      (record { user_id = 1; session_id = 60; issued_at = 0; expires = 100 }) refl refl refl refl

five_failures_lock_example :
    let wrong : ℕ → Fresh × Text = λ now. (at now, 41) in
    let try = after library settings 50 in
    (request (login library settings (at 16) 50 40) (
      try
        (wrong 15)
        (try (wrong 14) (try (wrong 13) (try (wrong 12) (try (wrong 11) accounts)))))).0
    ≡ err (traceq_error ErrorCode.account_temporarily_locked 423)
five_failures_lock_example =
    five_failures_lock library settings 50 (at 11, 41) (at 12, 41) (at 13, 41) (at 14, 41)
      (at 15, 41) (at 16, 40) accounts operator refl refl (refl, (refl, (refl, (refl, (refl, tt)))))
      (omega arith)

abbrev principal : Principal
principal = record { user_id = 1; username = 50; session_id = 60; permissions = 3 ∷ [] }

critical_iff_example : (require_critical_permission 3 30 10 principal accounts ≡ ok principal) ↔ (
    (contains 3 (3 ∷ []) ≡ true)
    × ((s : AuthSession) × (get_session 60 accounts ≡ some s)
        × (s.revoked_at ≡ none)
        × (10 < s.expires_at)
        × (10 ≤ s.last_authenticated_at + minutes 30)))
critical_iff_example = critical_iff 3 30 10 principal accounts
