-- ===== src/Models/Accounts.antt =====
-- The accounts, their sessions and their roles.
use kosmohack_final.Prelude.{Bool, Text, Option, ℕ}

pub record User : Type 0 where
  pub id : ℕ
  pub username : Text
  pub password_hash : Text
  pub enabled : Bool
  pub failed_login_attempts : ℕ
  pub locked_until : Option ℕ

pub record RefreshToken : Type 0 where
  pub user_id : ℕ
  pub session_id : ℕ
  pub token_hash : Text
  pub expires_at : ℕ
  pub revoked_at : Option ℕ
  pub replaced_by_hash : Option Text

pub record AuthSession : Type 0 where
  pub id : ℕ
  pub user_id : ℕ
  pub last_authenticated_at : ℕ
  pub expires_at : ℕ
  pub revoked_at : Option ℕ

pub record UserRole : Type 0 where
  pub user_id : ℕ
  pub role_id : ℕ

pub record RolePermission : Type 0 where
  pub role_id : ℕ
  pub permission_id : ℕ

pub record Permission : Type 0 where
  pub id : ℕ
  pub name : Text
