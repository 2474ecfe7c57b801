-- ===== src/Accounts/Middleware.antt =====
-- src/middleware/auth.js: who a request is from, and what its role may do.
pub mod Access
use obs_system_backend_berka.Base.{
  Text, same_text, same_text_refl, same_text_eq, ℕ, suc, ◌+◌, ◌-◌, ◌*◌, ◌/◌, Bool, true, false, not,
  ◌&&◌, ◌||◌, Option, none, some, List, [], ◌∷◌, ltb, leb, ◌==◌, if◌then◌else◌, find, any,
  update_where, Result, err, ok, ◌>>=◌, ◌>>◌, throw_if, or_throw, length,
}
use obs_system_backend_berka.Classroom.{Role, student, faculty, admin}
use obs_system_backend_berka.Accounts.{
  Claims, Packages, Config, User, RefreshToken, PasswordReset, EmailVerification, Member, Accounts,
  AuthError, email_taken, number_taken, department_not_found, number_missing, credentials_missing,
  wrong_credentials, unique_violation, account_locked, attempts_left, now_locked, invalid_token,
  user_not_found, hash_mismatch, Reply, set_users, set_refresh_tokens, set_password_resets,
  set_email_verifications, update_user, user_by_email, user_by_id, set_lock, activate,
  set_last_login, set_password, verify_token, generate_token,
}

-- A refusal: status 401 or 403 with its code.
pub data Refusal : Type 0 where
  auth_required bad_token no_user account_disabled forbidden : Refusal

abbrev pub same_role : Role → Role → Bool
same_role student student = true
same_role faculty faculty = true
same_role admin admin = true
same_role _ _ = false

-- `authenticate`; `none` is a request with no bearer token.
unfoldable pub authenticate : Packages → Option Text → ℕ → Accounts → Result Refusal User
authenticate pk header now s = do
  token ← or_throw header auth_required
  claims ← or_throw (verify_token pk token now) bad_token
  u ← or_throw (user_by_id claims.user_id s) no_user
  throw_if (not u.is_active) account_disabled
  ok u

-- `authorize`; the user is the one that `authenticate` attached.
unfoldable pub authorize : List Role → Option User → Result Refusal (Unit {0})
authorize roles user = do
  u ← or_throw user auth_required
  throw_if (not (any (same_role u.role) roles)) forbidden
  ok tt

abbrev pub active_only : Option User → Option User
active_only none = none
active_only (some u) = if u.is_active then some u else none

abbrev pub user_of_claims : Option Claims → Accounts → Option User
user_of_claims none s = none
user_of_claims (some claims) s = active_only (user_by_id claims.user_id s)

-- `optionalAuth`: the user of a valid token, or none.
unfoldable pub optional_auth : Packages → Option Text → ℕ → Accounts → Option User
optional_auth pk none now s = none
optional_auth pk (some token) now s = user_of_claims (verify_token pk token now) s
