-- ===== src/Accounts/Calls.antt =====
-- Any sequence of calls of src/services/authService.js: what the account tables keep.
pub mod Safety
use obs_system_backend_berka.Base.{
  Text, same_text, same_text_refl, same_text_eq, ℕ, suc, ◌+◌, ◌≤◌, ◌≡◌, refl, sym, ap, ◌∙◌, inl,
  inr, Bool, true, false, not, ◌&&◌, ◌||◌, Option, none, some, List, [], ◌∷◌, arith, ltb, leb, ◌==◌,
  ==_iff, if◌then◌else◌, Bool-cases, Option-cases, Result-cases, find, any, count, update_where,
  Result, err, ok, All, All-update_where, All-find, Ensures, Ensures-bind, Ensures-or_throw,
  Ensures-throw_if, or_throw, ◌>>=◌,
}
use obs_system_backend_berka.Classroom.{Role, student, faculty, admin}
use obs_system_backend_berka.Accounts.{
  Claims, Packages, Config, User, RefreshToken, PasswordReset, EmailVerification, Member, Accounts,
  AuthError, invalid_token, unique_violation, user_by_email, user_by_id, update_user, set_lock,
  activate, set_last_login, set_password, generate_token,
}
use obs_system_backend_berka.Accounts.Login.{
  Session, is_locked, judge, reset_lock, reset_expired, count_failure, sign_in, max_attempts,
  open_session, after_sign_in, login_user, login, logout, has_refresh_token, claims_of,
}
use obs_system_backend_berka.Accounts.Reset.{
  use_reset, is_unused_of, has_reset_token, reset_row, issue_reset, forgot_user, forgot_password,
  finish_reset, reset_request, reset_password, apply_reset,
}
use obs_system_backend_berka.Accounts.Registration.{
  Request, new_user, create_member, create_rows, register, verify_email, resend_user,
  resend_verification,
}

-- The calls that write, each with its time or the salt that it draws.
pub data Call : Type 0 where
  call_register : Request → ℕ → Call
  call_verify_email : Text → ℕ → Call
  call_resend_verification : ℕ → Call
  call_login : Option ℕ → Option ℕ → ℕ → Call
  call_logout : Text → Call
  call_forgot_password : ℕ → ℕ → Call
  call_reset_password : Text → ℕ → ℕ → ℕ → Call

-- The tables after a call in a transaction.
abbrev pub or_before : Accounts → Result AuthError Accounts → Accounts
or_before s (err e) = s
or_before s (ok t) = t

unfoldable pub step : Packages → Config → Call → Accounts → Accounts
unfolding register verify_email resend_verification login logout forgot_password reset_password
step pk cfg (call_register q salt) s = or_before s (register pk q salt s)
step pk cfg (call_verify_email token now) s = or_before s (verify_email pk token now s)
step pk cfg (call_resend_verification email) s = resend_verification email s
step pk cfg (call_login email password now) s = (login pk cfg email password now s).1
step pk cfg (call_logout token) s = logout token s
step pk cfg (call_forgot_password email now) s = (forgot_password pk cfg email now s).1
step pk cfg (call_reset_password token password salt now) s =
    (reset_password pk token password salt now s).1

unfoldable pub run : Packages → Config → List Call → Accounts → Accounts
unfolding step
run pk cfg [] s = s
run pk cfg (c ∷ cs) s = run pk cfg cs (step pk cfg c s)

abbrev pub has_lock : Option ℕ → Bool
has_lock none = false
has_lock (some until) = true

-- Five wrong passwords in a row lock the account.
abbrev pub IsGuarded : User → Type 0
IsGuarded u = (ltb u.failed_login_attempts max_attempts || has_lock u.locked_until) ≡ true

-- No user has two reset tokens that can be used, and five wrong passwords lock an account.
abbrev pub IsSafe : Accounts → Type 0
IsSafe s =
    ((user_id : ℕ) → count (is_unused_of user_id) s.password_resets ≤ 1) × All IsGuarded s.users
