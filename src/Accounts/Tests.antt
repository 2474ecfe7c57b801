-- ===== src/Accounts/Tests.antt =====
-- One account, packages that keep to what they document, and the properties of the calls at them.
use obs_system_backend_berka.Base.{
  Text, ℕ, ◌+◌, ◌≤◌, ◌≡◌, ◌↔◌, refl, true, false, Option, none, some, List, [], ◌∷◌, arith, ltb,
  lt→ltb, ◌==◌, ==_iff, if◌then◌else◌, All, ok, err,
}
use obs_system_backend_berka.Classroom.{Role, student, faculty, admin}
use obs_system_backend_berka.Accounts.{
  Claims, Packages, IsLawful, Config, User, Accounts, invalid_token, verify_token, generate_token,
}
use obs_system_backend_berka.Accounts.Login.{
  Session, sign_in, login, logout, refresh_access_token, claims_of, has_refresh_token,
}
use obs_system_backend_berka.Accounts.Login.Lockout.{Guess, wrong_guesses, wrong_guesses-le}
use obs_system_backend_berka.Accounts.Login.Sessions.{
  refresh_access_token-logout, login-authenticate,
}
use obs_system_backend_berka.Accounts.Reset.{forgot_password, reset_password}
use obs_system_backend_berka.Accounts.Reset.Recovery.{
  IsRevokedOf, reset_password_once, forgot_password-login,
}
use obs_system_backend_berka.Accounts.Registration.{Request, new_user, register}
use obs_system_backend_berka.Accounts.Registration.FirstLogin.{register-login}
use obs_system_backend_berka.Accounts.Middleware.{authenticate, optional_auth}
use obs_system_backend_berka.Accounts.Middleware.Access.{optional_auth_iff}
use obs_system_backend_berka.Accounts.Calls.{call_login, call_forgot_password, run, IsSafe}
use obs_system_backend_berka.Accounts.Calls.Safety.{run-IsSafe}

-- Tokens that spell their claims and the end of their life out.
abbrev role_code : Option Role → ℕ
role_code none = 0
role_code (some student) = 1
role_code (some faculty) = 2
role_code (some admin) = 3

abbrev role_of_code : ℕ → Option Role
role_of_code n =
    if n == 1
    then some student
    else if n == 2
    then some faculty
    else if n == 3
    then some admin
    else none

abbrev plain_sign : Claims → ℕ → ℕ → Text
plain_sign c issued lifetime =
    c.user_id ∷ c.email ∷ role_code c.role ∷ issued ∷ (issued + lifetime) ∷ []

abbrev plain_verify : Text → ℕ → Option Claims
plain_verify (id ∷ email ∷ role ∷ issued ∷ end ∷ []) now =
    if ltb now end
    then some (record { user_id = id; email = email; role = role_of_code role })
    else none
plain_verify _ now = none

abbrev plain : Packages
plain = record {
  sign = plain_sign;
  verify = plain_verify;
  hash = λ password salt. password;
  compare_hash = λ password hash. password == hash;
}

role_of_code-role_code : (r : Option Role) → role_of_code (role_code r) ≡ r
role_of_code-role_code none = refl
role_of_code-role_code (some student) = refl
role_of_code-role_code (some faculty) = refl
role_of_code-role_code (some admin) = refl

plain-IsLawful : IsLawful plain
plain-IsLawful = record {
  verify-sign = λ c issued lifetime now h.
      rw (lt→ltb now (issued + lifetime) h, role_of_code-role_code c.role) refl;
  compare-hash = λ password salt. (==_iff password password).1 refl;
}

abbrev config : Config
config = record {
  access_token_expiry = 900;
  refresh_token_expiry = 604800;
  reset_token_expiry = 86400;
}

abbrev account : User
account = record {
  id = 1;
  email = 100;
  password_hash = 55;
  role = student;
  is_active = false;
  is_verified = true;
  last_login = none;
  failed_login_attempts = 3;
  locked_until = none;
}

abbrev accounts : Accounts
accounts = record {
  users = account ∷ [];
  students = [];
  faculty = [];
  departments = [];
  refresh_tokens = [];
  password_resets = [];
  email_verifications = [];
  next_id = 2;
}

abbrev guesses : List Guess
guesses =
    record { password = 1; at = 1000 }
    ∷ record { password = 2; at = 2000 }
    ∷ record { password = 3; at = 3000 }
    ∷ []

two_looked_at : wrong_guesses plain config 100 guesses accounts ≡ 2
unfolding wrong_guesses login sign_in
two_looked_at = refl

wrong_guesses-le_example : wrong_guesses plain config 100 guesses accounts ≤ 5
wrong_guesses-le_example = wrong_guesses-le plain config 100 0 guesses account accounts refl (
  (refl, omega arith, omega arith),
  ((refl, omega arith, omega arith), ((refl, omega arith, omega arith), tt)),
)

abbrev after_login : Accounts
after_login = (login plain config (some 100) (some 55) 5000 accounts).1

abbrev session : Session
session = record {
  access_token = 1 ∷ 100 ∷ 1 ∷ 5 ∷ 905 ∷ [];
  refresh_token = 1 ∷ 100 ∷ 1 ∷ 5 ∷ 604805 ∷ [];
  user_id = 1;
}

logged_in : (login plain config (some 100) (some 55) 5000 accounts).0 ≡ ok session
unfolding login sign_in
logged_in = refl

login-authenticate_example :
    (v : User) × (authenticate plain (some session.access_token) 6000 after_login ≡ ok v)
    × (v.id ≡ 1)
    × (v.email ≡ 100)
    × (v.is_active ≡ true)
    × (v.last_login ≡ some 5000)
login-authenticate_example =
    login-authenticate plain config 100 55 5000 6000 accounts session plain-IsLawful logged_in
      (omega arith)

refresh_access_token-logout_example :
    refresh_access_token plain config session.refresh_token 6000
      (logout session.refresh_token after_login)
    ≡ err invalid_token
refresh_access_token-logout_example =
    refresh_access_token-logout plain config session.refresh_token 6000 after_login

abbrev mail : Text
mail = 1 ∷ 100 ∷ 0 ∷ 5 ∷ 86405 ∷ []

abbrev after_mail : Accounts
after_mail = (forgot_password plain config 100 5000 accounts).1

mailed : (forgot_password plain config 100 5000 accounts).0 ≡ ok (some mail)
unfolding forgot_password
mailed = refl

abbrev after_reset : Accounts
after_reset = (reset_password plain mail 77 0 6000 after_mail).1

reset_done : (reset_password plain mail 77 0 6000 after_mail).0 ≡ ok tt
unfolding reset_password forgot_password
reset_done = refl

no_sessions :
    has_refresh_token
      (generate_token plain (claims_of account) config.refresh_token_expiry 7000)
      after_reset
    ≡ false
unfolding reset_password forgot_password
no_sessions = refl

reset_password_once_example :
    (reset_password plain mail 88 0 7000 after_reset ≡ (err invalid_token, after_reset))
    × ((claims : Claims) × (verify_token plain mail 6000 ≡ some claims)
        × All (IsRevokedOf claims.user_id) after_reset.refresh_tokens)
reset_password_once_example =
    reset_password_once plain mail 77 0 6000 after_mail tt 88 0 7000 reset_done

forgot_password-login_example :
    ((reset_password plain mail 77 0 6000 after_mail).0 ≡ ok tt)
    × ((s : Session) × ((login plain config (some 100) (some 77) 7000 after_reset).0 ≡ ok s)
        × (s.user_id ≡ 1))
forgot_password-login_example =
    forgot_password-login plain config 100 5000 account accounts mail 77 0 6000 7000 plain-IsLawful
      refl mailed (omega arith) refl no_sessions

run-IsSafe_example : IsSafe (
    run plain config
      (call_forgot_password 100 5000 ∷ call_login (some 100) (some 1) 6000 ∷ [])
      accounts)
run-IsSafe_example =
    run-IsSafe plain config
      (call_forgot_password 100 5000 ∷ call_login (some 100) (some 1) 6000 ∷ []) accounts
      ((λ user_id. omega arith), (refl, tt))

optional_auth_iff_example :
    (optional_auth plain (some session.access_token) 6000 accounts ≡ some account)
    ↔ (authenticate plain (some session.access_token) 6000 accounts ≡ ok account)
optional_auth_iff_example =
    optional_auth_iff plain (some session.access_token) 6000 accounts account

abbrev request : Request
request = record {
  email = 200;
  password = 66;
  role = student;
  student_number = some 9;
  employee_number = none;
  department_id = none;
}

abbrev after_register : Accounts
after_register = record {
  users = new_user plain request 0 2 ∷ account ∷ [];
  students = record { user_id = 2; number = 9; department_id = none } ∷ [];
  faculty = [];
  departments = [];
  refresh_tokens = [];
  password_resets = [];
  email_verifications = [];
  next_id = 3;
}

registered : register plain request 0 accounts ≡ ok after_register
unfolding register
registered = refl

register-login_example :
    (s : Session) × ((login plain config (some 200) (some 66) 8000 after_register).0 ≡ ok s)
    × (s.user_id ≡ 2)
register-login_example =
    register-login plain config request 0 8000 accounts after_register plain-IsLawful registered
      refl
