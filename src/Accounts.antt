-- ===== src/Accounts.antt =====
-- src/services/authService.js with src/utils/jwt.js, src/utils/password.js and
-- src/middleware/auth.js: accounts, their tokens and the login. Emails, passwords and hashes
-- are numbers that stand for texts; an email is compared without regard to case, as the database
-- does it. Times are in milliseconds. An error does not take the earlier writes of a call back,
-- except in `register`, which runs in a transaction.
pub mod Login
pub mod Reset
pub mod Registration
pub mod Middleware
pub mod Calls
mod Tests
use obs_system_backend_berka.Base.{
  Text, same_text, same_text_refl, same_text_eq, ℕ, suc, ◌+◌, ◌-◌, ◌*◌, ◌/◌, Bool, true, false, not,
  ◌&&◌, ◌||◌, Option, none, some, List, [], ◌∷◌, ltb, leb, ◌==◌, if◌then◌else◌, find, any,
  update_where, Result, err, ok, ◌>>=◌, ◌>>◌, throw_if, or_throw, length, ◌≡◌, ◌<◌, ◌++◌,
}
use obs_system_backend_berka.Classroom.{Role, student, faculty, admin}

-- The payload of a token; the token of a password reset names no role.
pub record Claims : Type 0 where
  pub user_id : ℕ
  pub email : ℕ
  pub role : Option Role

-- The packages `jsonwebtoken` and `bcrypt`: `sign` and `verify` take the time in seconds, `sign` also
-- the lifetime, and `hash` the salt that bcrypt draws.
pub record Packages : Type 0 where
  pub sign : Claims → ℕ → ℕ → Text
  pub verify : Text → ℕ → Option Claims
  pub hash : ℕ → ℕ → ℕ
  pub compare_hash : ℕ → ℕ → Bool

-- What they document: a token is verified until it expires, and a password matches its own hash.
pub record IsLawful (pk : Packages) : Type 0 where
  pub verify-sign :
      (c : Claims) (issued lifetime now : ℕ)
      → now < issued + lifetime
      → pk.verify (pk.sign c issued lifetime) now ≡ some c
  pub compare-hash : (password salt : ℕ) → pk.compare_hash password (pk.hash password salt) ≡ true

-- `config/jwt`: the lifetimes of the tokens in seconds.
pub record Config : Type 0 where
  pub access_token_expiry : ℕ
  pub refresh_token_expiry : ℕ
  pub reset_token_expiry : ℕ

pub record User : Type 0 where
  pub id : ℕ
  pub email : ℕ
  pub password_hash : ℕ
  pub role : Role
  pub is_active : Bool
  pub is_verified : Bool
  pub last_login : Option ℕ
  pub failed_login_attempts : ℕ
  pub locked_until : Option ℕ

pub record RefreshToken : Type 0 where
  pub user_id : ℕ
  pub token : Text
  pub expires_at : ℕ
  pub is_revoked : Bool

pub record PasswordReset : Type 0 where
  pub user_id : ℕ
  pub token : Text
  pub expires_at : ℕ
  pub is_used : Bool

pub record EmailVerification : Type 0 where
  pub user_id : ℕ
  pub token : Text
  pub expires_at : ℕ
  pub is_used : Bool

-- A row of `students` or `faculty`: its number is unique.
pub record Member : Type 0 where
  pub user_id : ℕ
  pub number : ℕ
  pub department_id : Option ℕ

pub record Accounts : Type 0 where
  pub users : List User
  pub students : List Member
  pub faculty : List Member
  pub departments : List ℕ
  pub refresh_tokens : List RefreshToken
  pub password_resets : List PasswordReset
  pub email_verifications : List EmailVerification
  pub next_id : ℕ

pub data AuthError : Type 0 where
  email_taken number_taken department_not_found number_missing : AuthError
  credentials_missing wrong_credentials unique_violation : AuthError
  account_locked : ℕ → AuthError
  attempts_left : ℕ → AuthError
  now_locked : AuthError
  invalid_token user_not_found hash_mismatch : AuthError

-- A call outside a transaction: what it returns or throws, and the tables after it.
abbrev pub Reply : Type 0 → Type 0
Reply A = Result AuthError A × Accounts

abbrev pub set_users : List User → Accounts → Accounts
set_users users s = record {
  users = users;
  students = s.students;
  faculty = s.faculty;
  departments = s.departments;
  refresh_tokens = s.refresh_tokens;
  password_resets = s.password_resets;
  email_verifications = s.email_verifications;
  next_id = s.next_id;
}

abbrev pub set_refresh_tokens : List RefreshToken → Accounts → Accounts
set_refresh_tokens rows s = record {
  users = s.users;
  students = s.students;
  faculty = s.faculty;
  departments = s.departments;
  refresh_tokens = rows;
  password_resets = s.password_resets;
  email_verifications = s.email_verifications;
  next_id = s.next_id;
}

abbrev pub set_password_resets : List PasswordReset → Accounts → Accounts
set_password_resets rows s = record {
  users = s.users;
  students = s.students;
  faculty = s.faculty;
  departments = s.departments;
  refresh_tokens = s.refresh_tokens;
  password_resets = rows;
  email_verifications = s.email_verifications;
  next_id = s.next_id;
}

abbrev pub set_email_verifications : List EmailVerification → Accounts → Accounts
set_email_verifications rows s = record {
  users = s.users;
  students = s.students;
  faculty = s.faculty;
  departments = s.departments;
  refresh_tokens = s.refresh_tokens;
  password_resets = s.password_resets;
  email_verifications = rows;
  next_id = s.next_id;
}

-- `user.update(...)`
abbrev pub update_user : ℕ → (User → User) → Accounts → Accounts
update_user id f s = set_users (update_where (λ (u : User). u.id == id) f s.users) s

abbrev pub user_by_email : ℕ → Accounts → Option User
user_by_email email s = find (λ (u : User). u.email == email) s.users

abbrev pub user_by_id : ℕ → Accounts → Option User
user_by_id id s = find (λ (u : User). u.id == id) s.users

-- The columns of the lock.
abbrev pub set_lock : ℕ → Option ℕ → User → User
set_lock attempts until u = record {
  id = u.id;
  email = u.email;
  password_hash = u.password_hash;
  role = u.role;
  is_active = u.is_active;
  is_verified = u.is_verified;
  last_login = u.last_login;
  failed_login_attempts = attempts;
  locked_until = until;
}

abbrev pub activate : User → User
activate u = record {
  id = u.id;
  email = u.email;
  password_hash = u.password_hash;
  role = u.role;
  is_active = true;
  is_verified = true;
  last_login = u.last_login;
  failed_login_attempts = u.failed_login_attempts;
  locked_until = u.locked_until;
}

abbrev pub set_last_login : ℕ → User → User
set_last_login now u = record {
  id = u.id;
  email = u.email;
  password_hash = u.password_hash;
  role = u.role;
  is_active = u.is_active;
  is_verified = u.is_verified;
  last_login = some now;
  failed_login_attempts = u.failed_login_attempts;
  locked_until = u.locked_until;
}

abbrev pub set_password : ℕ → User → User
set_password hash u = record {
  id = u.id;
  email = u.email;
  password_hash = hash;
  role = u.role;
  is_active = u.is_active;
  is_verified = u.is_verified;
  last_login = u.last_login;
  failed_login_attempts = u.failed_login_attempts;
  locked_until = u.locked_until;
}

-- `verifyToken` at a time in milliseconds.
abbrev pub verify_token : Packages → Text → ℕ → Option Claims
verify_token pk token now = pk.verify token (now / 1000)

-- `generateAccessToken`, `generateRefreshToken` and `generateResetToken`, by their lifetimes.
abbrev pub generate_token : Packages → Claims → ℕ → ℕ → Text
generate_token pk claims lifetime now = pk.sign claims (now / 1000) lifetime
