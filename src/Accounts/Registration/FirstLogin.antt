-- ===== src/Accounts/Registration/FirstLogin.antt =====
-- A registration of src/services/authService.js and the login that follows it.
use obs_system_backend_berka.Base.{
  ℕ, ◌≡◌, refl, false, some, List, ◌==◌, ==_iff, any, ok, Ensures, Ensures-bind, Ensures-throw_if,
  Ensures-any, throw_if, ◌>>◌, subst,
}
use obs_system_backend_berka.Classroom.{Role, student, faculty, admin}
use obs_system_backend_berka.Accounts.{
  Packages, IsLawful, Config, User, Member, Accounts, email_taken, number_taken,
  department_not_found, user_by_email, generate_token,
}
use obs_system_backend_berka.Accounts.Login.{Session, claims_of, has_refresh_token, login}
use obs_system_backend_berka.Accounts.Registration.{
  Request, new_user, create_member, create_rows, is_number_taken, is_unknown_department, register,
  with_user,
}
use obs_system_backend_berka.Accounts.Reset.Recovery.{login_accepted, sign_in_right, claims_of_same}

-- The account of a registration is found by its email.
abbrev IsFound : Packages → Request → ℕ → ℕ → Accounts → Type 0
IsFound pk q salt id t = user_by_email q.email t ≡ some (new_user pk q salt id)

with_user-IsFound :
    (pk : Packages) (q : Request) (salt : ℕ) (s : Accounts) (rows rows' : List Member)
    → IsFound pk q salt s.next_id (with_user (new_user pk q salt s.next_id) rows rows' s)
with_user-IsFound pk q salt s rows rows' = rw ((==_iff q.email q.email).1 refl) refl

create_rows-IsFound :
    (pk : Packages) (q : Request) (salt : ℕ) (role : Role) (s : Accounts)
    → Ensures (IsFound pk q salt s.next_id) (create_rows pk q salt role s)
create_rows-IsFound pk q salt student s =
    Ensures-bind (λ rows. Unit {0}) (IsFound pk q salt s.next_id)
      (create_member s.next_id q.student_number q.department_id s.students) _ (Ensures-any _)
      (λ rows h. with_user-IsFound pk q salt s rows s.faculty)
create_rows-IsFound pk q salt faculty s =
    Ensures-bind (λ rows. Unit {0}) (IsFound pk q salt s.next_id)
      (create_member s.next_id q.employee_number q.department_id s.faculty) _ (Ensures-any _)
      (λ rows h. with_user-IsFound pk q salt s s.students rows)
create_rows-IsFound pk q salt admin s = with_user-IsFound pk q salt s s.students s.faculty

register-IsFound :
    (pk : Packages) (q : Request) (salt : ℕ) (s : Accounts)
    → Ensures (IsFound pk q salt s.next_id) (register pk q salt s)
unfolding register
register-IsFound pk q salt s =
    let P = IsFound pk q salt s.next_id in
    let rows = create_rows pk q salt q.role s in
    let known =
      throw_if (is_unknown_department q.department_id s.departments) department_not_found >> rows in
    let fresh = throw_if (is_number_taken q q.role s) number_taken >> known in
    Ensures-throw_if P (any (λ (u : User). u.email == q.email) s.users) email_taken fresh (λ a.
      Ensures-throw_if P (is_number_taken q q.role s) number_taken known (λ b.
        Ensures-throw_if P (is_unknown_department q.department_id s.departments)
          department_not_found rows (λ c. create_rows-IsFound pk q salt q.role s)))

-- Whoever registered can log in at once with the password of the registration, as the new account,
-- when the refresh token that the login makes is not stored yet. The packages keep to what they
-- document.
pub register-login :
    (pk : Packages) (cfg : Config) (q : Request) (salt now : ℕ) (s t : Accounts)
    → IsLawful pk
    → register pk q salt s ≡ ok t
    → has_refresh_token
        (generate_token pk (claims_of (new_user pk q salt s.next_id)) cfg.refresh_token_expiry now)
        t
      ≡ false
    → (session : Session) × ((login pk cfg (some q.email) (some q.password) now t).0 ≡ ok session)
      × (session.user_id ≡ s.next_id)
register-login pk cfg q salt now s t lawful registered new =
    let u = new_user pk q salt s.next_id in
    let found =
      subst (Ensures (IsFound pk q salt s.next_id)) registered (register-IsFound pk q salt s) in
    let (w, accepted, same_id, same_email, same_role) =
      sign_in_right pk q.password now u refl (lawful.compare-hash q.password salt) in
    login_accepted pk cfg q.email q.password now u u w t found accepted
      (same_id, claims_of_same u w same_id same_email same_role) new
