-- ===== src/Accounts/Registration.antt =====
-- Registration and the verification of emails in src/services/authService.js.
pub mod FirstLogin
use obs_system_backend_berka.Base.{
  Text, same_text, same_text_refl, same_text_eq, ℕ, suc, ◌+◌, ◌-◌, ◌*◌, ◌/◌, Bool, true, false, not,
  ◌&&◌, ◌||◌, Option, none, some, List, [], ◌∷◌, ltb, leb, ◌==◌, if◌then◌else◌, find, any,
  update_where, Result, err, ok, ◌>>=◌, ◌>>◌, throw_if, or_throw, length,
}
use obs_system_backend_berka.Classroom.{Role, student, faculty, admin}
use obs_system_backend_berka.Accounts.{
  Claims, Packages, Config, User, RefreshToken, PasswordReset, EmailVerification, Member, Accounts,
  AuthError, email_taken, number_taken, department_not_found, number_missing, credentials_missing,
  wrong_credentials, unique_violation, account_locked, attempts_left, now_locked, invalid_token,
  user_not_found, hash_mismatch, Reply, set_users, set_refresh_tokens, set_password_resets,
  set_email_verifications, update_user, user_by_email, user_by_id, set_lock, activate,
  set_last_login, set_password, verify_token, generate_token,
}

-- The body of a registration; the number is that of a student or an employee.
pub record Request : Type 0 where
  pub email : ℕ
  pub password : ℕ
  pub role : Role
  pub student_number : Option ℕ
  pub employee_number : Option ℕ
  pub department_id : Option ℕ

abbrev pub has_number : Option ℕ → List Member → Bool
has_number none rows = false
has_number (some n) rows = any (λ (m : Member). m.number == n) rows

abbrev pub is_unknown_department : Option ℕ → List ℕ → Bool
is_unknown_department none rows = false
is_unknown_department (some d) rows = not (any (λ x. x == d) rows)

-- `Student.create` and `Faculty.create`: the number is not null.
abbrev pub create_member : ℕ → Option ℕ → Option ℕ → List Member → Result AuthError (List Member)
create_member user_id none department rows = err number_missing
create_member user_id (some n) department rows =
    if any (λ (m : Member). m.number == n) rows
    then err unique_violation
    else ok (record { user_id = user_id; number = n; department_id = department } ∷ rows)

-- `User.create`: the account is active and verified at once.
abbrev pub new_user : Packages → Request → ℕ → ℕ → User
new_user pk q salt id = record {
  id = id;
  email = q.email;
  password_hash = pk.hash q.password salt;
  role = q.role;
  is_active = true;
  is_verified = true;
  last_login = none;
  failed_login_attempts = 0;
  locked_until = none;
}

abbrev pub with_user : User → List Member → List Member → Accounts → Accounts
with_user u students employees s = record {
  users = u ∷ s.users;
  students = students;
  faculty = employees;
  departments = s.departments;
  refresh_tokens = s.refresh_tokens;
  password_resets = s.password_resets;
  email_verifications = s.email_verifications;
  next_id = suc s.next_id;
}

-- The rows that go with the role.
abbrev pub create_rows : Packages → Request → ℕ → Role → Accounts → Result AuthError Accounts
create_rows pk q salt student s = do
  rows ← create_member s.next_id q.student_number q.department_id s.students
  ok (with_user (new_user pk q salt s.next_id) rows s.faculty s)
create_rows pk q salt faculty s = do
  rows ← create_member s.next_id q.employee_number q.department_id s.faculty
  ok (with_user (new_user pk q salt s.next_id) s.students rows s)
create_rows pk q salt admin s = ok (with_user (new_user pk q salt s.next_id) s.students s.faculty s)

abbrev pub is_number_taken : Request → Role → Accounts → Bool
is_number_taken q student s = has_number q.student_number s.students
is_number_taken q faculty s = has_number q.employee_number s.faculty
is_number_taken q admin s = false

-- `register`: an error leaves the tables as they were.
unfoldable pub register : Packages → Request → ℕ → Accounts → Result AuthError Accounts
register pk q salt s = do
  throw_if (any (λ (u : User). u.email == q.email) s.users) email_taken
  throw_if (is_number_taken q q.role s) number_taken
  throw_if (is_unknown_department q.department_id s.departments) department_not_found
  create_rows pk q salt q.role s

abbrev pub is_unused_verification : Text → EmailVerification → Bool
is_unused_verification token r = (same_text r.token token) && not r.is_used

abbrev pub use_verification : EmailVerification → EmailVerification
use_verification r = record {
  user_id = r.user_id;
  token = r.token;
  expires_at = r.expires_at;
  is_used = true;
}

-- `verifyEmail`
unfoldable pub verify_email : Packages → Text → ℕ → Accounts → Result AuthError Accounts
verify_email pk token now s = do
  claims ← or_throw (verify_token pk token now) invalid_token
  r ← or_throw (find (is_unused_verification token) s.email_verifications) invalid_token
  throw_if (not (not r.is_used && ltb now r.expires_at)) invalid_token
  ok (
      set_email_verifications
        (update_where (λ (v : EmailVerification). same_text v.token token) use_verification
          s.email_verifications)
        (update_user claims.user_id activate s))

abbrev pub resend_user : Option User → Accounts → Accounts
resend_user none s = s
resend_user (some u) s = update_user u.id activate s

-- `resendVerification`: it activates the account.
unfoldable pub resend_verification : ℕ → Accounts → Accounts
resend_verification email s = resend_user (user_by_email email s) s
