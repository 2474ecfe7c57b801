-- ===== src/Accounts/Reset.antt =====
-- The password reset of src/services/authService.js.
pub mod Recovery
use obs_system_backend_berka.Base.{
  Text, same_text, same_text_refl, same_text_eq, ℕ, suc, ◌+◌, ◌-◌, ◌*◌, ◌/◌, Bool, true, false, not,
  ◌&&◌, ◌||◌, Option, none, some, List, [], ◌∷◌, ltb, leb, ◌==◌, if◌then◌else◌, find, any,
  update_where, Result, err, ok, ◌>>=◌, ◌>>◌, throw_if, or_throw, length,
}
use obs_system_backend_berka.Accounts.{
  Claims, Packages, Config, User, RefreshToken, PasswordReset, EmailVerification, Member, Accounts,
  AuthError, email_taken, number_taken, department_not_found, number_missing, credentials_missing,
  wrong_credentials, unique_violation, account_locked, attempts_left, now_locked, invalid_token,
  user_not_found, hash_mismatch, Reply, set_users, set_refresh_tokens, set_password_resets,
  set_email_verifications, update_user, user_by_email, user_by_id, set_lock, activate,
  set_last_login, set_password, verify_token, generate_token,
}
use obs_system_backend_berka.Accounts.Login.{revoke}

abbrev pub use_reset : PasswordReset → PasswordReset
use_reset r = record {
  user_id = r.user_id;
  token = r.token;
  expires_at = r.expires_at;
  is_used = true;
}

abbrev pub is_unused_of : ℕ → PasswordReset → Bool
is_unused_of user_id r = (r.user_id == user_id) && not r.is_used

abbrev pub has_reset_token : Text → List PasswordReset → Bool
has_reset_token token rows = any (λ (r : PasswordReset). same_text r.token token) rows

abbrev pub reset_row : Config → ℕ → Text → ℕ → PasswordReset
reset_row cfg user_id token now = record {
  user_id = user_id;
  token = token;
  expires_at = now + cfg.reset_token_expiry * 1000;
  is_used = false;
}

abbrev pub reset_claims : User → Claims
reset_claims u = record { user_id = u.id; email = u.email; role = none }

-- The reset token of a user that was found: the old ones are used up first; the token is unique.
abbrev pub issue_reset : Packages → Config → ℕ → User → Accounts → Reply (Option Text)
issue_reset pk cfg now u s =
    let token : Text = generate_token pk (reset_claims u) cfg.reset_token_expiry now in
    let old : List PasswordReset = update_where (is_unused_of u.id) use_reset s.password_resets in
    if has_reset_token token old
    then (err unique_violation, set_password_resets old s)
    else (ok (some token), set_password_resets (reset_row cfg u.id token now ∷ old) s)

abbrev pub forgot_user : Packages → Config → ℕ → Option User → Accounts → Reply (Option Text)
forgot_user pk cfg now none s = (ok none, s)
forgot_user pk cfg now (some u) s = issue_reset pk cfg now u s

-- `forgotPassword`, with the token that the mail carries.
unfoldable pub forgot_password : Packages → Config → ℕ → ℕ → Accounts → Reply (Option Text)
forgot_password pk cfg email now s = forgot_user pk cfg now (user_by_email email s) s

-- `isValid` of a password reset.
abbrev pub is_valid_reset : ℕ → PasswordReset → Bool
is_valid_reset now r = not r.is_used && ltb now r.expires_at

abbrev pub is_unused : Text → PasswordReset → Bool
is_unused token r = (same_text r.token token) && not r.is_used

-- The checks of `resetPassword`: the claims, the record and the user.
abbrev pub reset_request :
    Packages → Text → ℕ → Accounts → Result AuthError (Claims × PasswordReset × User)
reset_request pk token now s = do
  claims ← or_throw (verify_token pk token now) invalid_token
  r ← or_throw (find (is_unused token) s.password_resets) invalid_token
  throw_if (not (is_valid_reset now r)) invalid_token
  u ← or_throw (user_by_id claims.user_id s) user_not_found
  ok (claims, r, u)

-- Its writes: the password, the used token, and the refresh tokens of the user revoked.
abbrev pub apply_reset : Claims → Text → ℕ → Accounts → Accounts
apply_reset claims token hash s =
    set_refresh_tokens
      (update_where (λ (r : RefreshToken). r.user_id == claims.user_id) revoke s.refresh_tokens)
      (set_password_resets
        (update_where (λ (r : PasswordReset). same_text r.token token) use_reset s.password_resets)
        (update_user claims.user_id (set_password hash) s))

abbrev pub finish_reset :
    Packages
    → Text
    → ℕ
    → ℕ
    → Accounts
    → Result AuthError (Claims × PasswordReset × User)
    → Reply (Unit {0})
finish_reset pk token password salt s (err e) = (err e, s)
finish_reset pk token password salt s (ok (claims, r, u)) =
    let hash : ℕ = pk.hash password salt in
    if pk.compare_hash password hash
    then (ok tt, apply_reset claims r.token hash s)
    else (err hash_mismatch, update_user claims.user_id (set_password hash) s)

-- `resetPassword`
unfoldable pub reset_password : Packages → Text → ℕ → ℕ → ℕ → Accounts → Reply (Unit {0})
reset_password pk token password salt now s =
    finish_reset pk token password salt s (reset_request pk token now s)
