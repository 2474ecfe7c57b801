-- ===== src/Accounts/Login.antt =====
-- Login with its lock, the refresh token and logout of src/services/authService.js.
pub mod Lockout
pub mod Sessions
use obs_system_backend_berka.Base.{
  Text, same_text, same_text_refl, same_text_eq, ℕ, suc, ◌+◌, ◌-◌, ◌*◌, ◌/◌, Bool, true, false, not,
  ◌&&◌, ◌||◌, Option, none, some, List, [], ◌∷◌, ltb, leb, ◌==◌, if◌then◌else◌, find, any,
  update_where, Result, err, ok, ◌>>=◌, ◌>>◌, throw_if, or_throw, length,
}
use obs_system_backend_berka.Accounts.{
  Claims, Packages, Config, User, RefreshToken, PasswordReset, EmailVerification, Member, Accounts,
  AuthError, email_taken, number_taken, department_not_found, number_missing, credentials_missing,
  wrong_credentials, unique_violation, account_locked, attempts_left, now_locked, invalid_token,
  user_not_found, hash_mismatch, Reply, set_users, set_refresh_tokens, set_password_resets,
  set_email_verifications, update_user, user_by_email, user_by_id, set_lock, activate,
  set_last_login, set_password, verify_token, generate_token,
}

-- `isLocked`: the lock has not expired.
abbrev pub is_locked : ℕ → Option ℕ → Bool
is_locked now none = false
is_locked now (some until) = ltb now until

-- `Math.ceil((until - now) / 1000 / 60)`
abbrev pub lock_minutes : ℕ → Option ℕ → ℕ
lock_minutes now none = 0
lock_minutes now (some until) = (until - now + 59999) / 60000

abbrev pub max_attempts : ℕ
max_attempts = 5

abbrev pub lock_duration : ℕ
lock_duration = 30 * 60000

-- "Reset lock if expired"
abbrev pub reset_lock : ℕ → Option ℕ → User → User
reset_lock now none u = u
reset_lock now (some until) u = if leb until now then set_lock 0 none u else u

abbrev pub reset_expired : ℕ → User → User
reset_expired now u = reset_lock now u.locked_until u

-- A wrong password counts, and the fifth in a row locks the account.
abbrev pub count_failure : ℕ → User → User
count_failure now u =
    let failed : ℕ = suc u.failed_login_attempts in
    if leb max_attempts failed
    then set_lock failed (some (now + lock_duration)) u
    else set_lock failed u.locked_until u

abbrev pub failure_error : User → AuthError
failure_error u =
    let failed : ℕ = suc u.failed_login_attempts in
    if leb max_attempts failed then now_locked else attempts_left (max_attempts - failed)

pub record Session : Type 0 where
  pub access_token : Text
  pub refresh_token : Text
  pub user_id : ℕ

-- The verdict on a row, by whether it is locked and whether the password is right; v is the row with
-- an expired lock lifted. A right password clears the count and the lock and activates the account.
abbrev pub judge : Bool → Bool → ℕ → User → User → Result AuthError (Unit {0}) × User
judge true right now u v = (err (account_locked (lock_minutes now u.locked_until)), u)
judge false true now u v = (ok tt, activate (set_lock 0 none v))
judge false false now u v = (err (failure_error v), count_failure now v)

-- What a login does to the user's row up to the tokens.
unfoldable pub sign_in : Packages → ℕ → ℕ → User → Result AuthError (Unit {0}) × User
sign_in pk password now u =
    judge (is_locked now u.locked_until)
      (pk.compare_hash password (reset_expired now u).password_hash) now u (reset_expired now u)

abbrev pub claims_of : User → Claims
claims_of u = record { user_id = u.id; email = u.email; role = some u.role }

-- `RefreshToken.create`: the token is unique.
abbrev pub has_refresh_token : Text → Accounts → Bool
has_refresh_token token s = any (λ (r : RefreshToken). same_text r.token token) s.refresh_tokens

abbrev pub refresh_row : Config → ℕ → Text → ℕ → RefreshToken
refresh_row cfg user_id token now = record {
  user_id = user_id;
  token = token;
  expires_at = now + cfg.refresh_token_expiry * 1000;
  is_revoked = false;
}

-- The tokens of a login that was accepted, and the time of the login.
abbrev pub open_session : Packages → Config → ℕ → User → Accounts → Reply Session
open_session pk cfg now u s =
    let refresh : Text = generate_token pk (claims_of u) cfg.refresh_token_expiry now in
    let access : Text = generate_token pk (claims_of u) cfg.access_token_expiry now in
    if has_refresh_token refresh s then (err unique_violation, s) else (
      ok (record { access_token = access; refresh_token = refresh; user_id = u.id }),
      update_user u.id (set_last_login now)
          (set_refresh_tokens (refresh_row cfg u.id refresh now ∷ s.refresh_tokens) s),
    )

abbrev pub after_sign_in :
    Packages → Config → ℕ → ℕ → Accounts → Result AuthError (Unit {0}) × User → Reply Session
after_sign_in pk cfg now id s (err e, u) = (err e, update_user id (λ _. u) s)
after_sign_in pk cfg now id s (ok _, u) = open_session pk cfg now u (update_user id (λ _. u) s)

abbrev pub login_user : Packages → Config → ℕ → ℕ → Option User → Accounts → Reply Session
login_user pk cfg password now none s = (err wrong_credentials, s)
login_user pk cfg password now (some u) s =
    after_sign_in pk cfg now u.id s (sign_in pk password now u)

-- `login`; an empty email or password is `none`.
unfoldable pub login : Packages → Config → Option ℕ → Option ℕ → ℕ → Accounts → Reply Session
unfolding sign_in
login pk cfg (some email) (some password) now s =
    login_user pk cfg password now (user_by_email email s) s
login pk cfg _ _ now s = (err credentials_missing, s)

-- `isValid` of a refresh token.
abbrev pub is_valid_refresh : ℕ → RefreshToken → Bool
is_valid_refresh now r = not r.is_revoked && ltb now r.expires_at

abbrev pub is_unrevoked : Text → RefreshToken → Bool
is_unrevoked token r = (same_text r.token token) && not r.is_revoked

-- `refreshAccessToken`: it writes nothing.
unfoldable pub refresh_access_token :
    Packages → Config → Text → ℕ → Accounts → Result AuthError Text
refresh_access_token pk cfg token now s = do
  claims ← or_throw (verify_token pk token now) invalid_token
  stored ← or_throw (find (is_unrevoked token) s.refresh_tokens) invalid_token
  throw_if (not (is_valid_refresh now stored)) invalid_token
  ok (generate_token pk claims cfg.access_token_expiry now)

abbrev pub revoke : RefreshToken → RefreshToken
revoke r = record {
  user_id = r.user_id;
  token = r.token;
  expires_at = r.expires_at;
  is_revoked = true;
}

-- `logout`
unfoldable pub logout : Text → Accounts → Accounts
logout token s =
    set_refresh_tokens
      (update_where (λ (r : RefreshToken). same_text r.token token) revoke s.refresh_tokens) s
