-- ===== src/Accounts/Calls/Safety.antt =====
-- The account tables of src/services/authService.js stay safe under any sequence of calls.
use obs_system_backend_berka.Base.{
  Text, same_text, ℕ, suc, ◌≤◌, ◌≡◌, refl, inl, inr, Bool, true, false, not, ◌&&◌, ◌||◌, Option,
  none, some, List, [], ◌∷◌, arith, ltb, leb, ◌==◌, ==_iff, Bool-cases, Option-cases, find, any,
  count, update_where, Result, err, ok, All-update_where, All-find, subst, Ensures, Ensures-bind,
  Ensures-throw_if, Ensures-any, or_throw, throw_if, ◌>>=◌, ◌>>◌,
}
use obs_system_backend_berka.Classroom.{Role, student, faculty, admin}
use obs_system_backend_berka.Accounts.{
  Claims, Packages, Config, User, PasswordReset, EmailVerification, Accounts, AuthError,
  email_taken, number_taken, department_not_found, verify_token, set_email_verifications,
  invalid_token, user_by_email, update_user, activate, set_last_login, set_password, generate_token,
}
use obs_system_backend_berka.Accounts.Login.{
  judge, reset_expired, count_failure, sign_in, max_attempts, open_session, after_sign_in, login,
  logout, has_refresh_token, claims_of,
}
use obs_system_backend_berka.Accounts.Reset.{
  use_reset, is_unused_of, has_reset_token, reset_row, reset_claims, forgot_password, finish_reset,
  reset_request, reset_password,
}
use obs_system_backend_berka.Accounts.Registration.{
  Request, create_member, create_rows, register, verify_email, is_unused_verification,
  use_verification, is_number_taken, is_unknown_department, resend_verification,
}
use obs_system_backend_berka.Accounts.Calls.{
  Call, call_register, call_verify_email, call_resend_verification, call_login, call_logout,
  call_forgot_password, call_reset_password, or_before, step, run, has_lock, IsGuarded, IsSafe,
}

count-use_reset :
    (p : PasswordReset → Bool) (user_id : ℕ) (rows : List PasswordReset)
    → count (is_unused_of user_id) (update_where p use_reset rows)
      ≤ count (is_unused_of user_id) rows
count-use_reset p user_id [] = omega arith
count-use_reset p user_id (r ∷ rs) =
    let rest = count-use_reset p user_id rs in
    elim (Bool-cases (p r)) [
      | inl e ↦ rw e (ground (arith, rest))
      | inr e ↦ rw e (ground (arith, rest))
    ]

count_all_used :
    (user_id : ℕ) (rows : List PasswordReset)
    → count (is_unused_of user_id) (update_where (is_unused_of user_id) use_reset rows) ≡ 0
count_all_used user_id [] = refl
count_all_used user_id (r ∷ rs) =
    let rest = count_all_used user_id rs in
    elim (Bool-cases (is_unused_of user_id r)) [
      | inl e ↦ rw e (ground (arith, rest))
      | inr e ↦ rw (e, e) rest
    ]

-- A new reset token after the old ones were used up.
count-reset_row :
    (cfg : Config) (id : ℕ) (token : Text) (now user_id : ℕ) (rows : List PasswordReset)
    → count (is_unused_of user_id) rows ≤ 1
    → count
        (is_unused_of user_id)
        (reset_row cfg id token now ∷ update_where (is_unused_of id) use_reset rows)
      ≤ 1
count-reset_row cfg id token now user_id rows h = elim (Bool-cases (id == user_id)) [
  | inl e ↦
      let same : id ≡ user_id = (==_iff id user_id).0 e in
      let none_left =
        subst (λ n. count (is_unused_of n) (update_where (is_unused_of id) use_reset rows) ≡ 0) same
          (count_all_used id rows) in
      rw none_left (ground arith)
  | inr e ↦ rw e (omega (arith, count-use_reset (is_unused_of id) user_id rows))
]

-- The columns of the lock stay guarded.
module _ (now : ℕ) where
  count_failure-IsGuarded : (v : User) → IsGuarded (count_failure now v)
  count_failure-IsGuarded v = elim (Bool-cases (leb max_attempts (suc v.failed_login_attempts))) [
    | inl e ↦ rw e (or_true (ltb (suc v.failed_login_attempts) max_attempts))
    | inr e ↦ rw e (few (suc v.failed_login_attempts) (has_lock v.locked_until) e)
  ]
    where
      or_true : (b : Bool) → (b || true) ≡ true
      or_true true = refl
      or_true false = refl

      few : (n : ℕ) (b : Bool) → leb max_attempts n ≡ false → (ltb n max_attempts || b) ≡ true
      few n b h = ground arith

  judge-IsGuarded :
      (locked right : Bool) (u v : User) → IsGuarded u → IsGuarded (judge locked right now u v).1
  judge-IsGuarded true right u v h = h
  judge-IsGuarded false true u v h = refl
  judge-IsGuarded false false u v h = count_failure-IsGuarded v

sign_in-IsGuarded :
    (pk : Packages) (password now : ℕ) (u : User)
    → IsGuarded u
    → IsGuarded (sign_in pk password now u).1
unfolding sign_in
sign_in-IsGuarded pk password now u h = judge-IsGuarded now _ _ u (reset_expired now u) h

-- An update of users that keeps each row guarded.
update_user-IsSafe :
    (id : ℕ) (f : User → User) (s : Accounts)
    → ((u : User) → IsGuarded u → IsGuarded (f u))
    → IsSafe s
    → IsSafe (update_user id f s)
update_user-IsSafe id f s keeps (single, guarded) = (
  single,
  All-update_where IsGuarded IsGuarded (λ (u : User). u.id == id) f s.users (λ u h e. keeps u h)
      (λ u h e. h) guarded,
)

open_session-IsSafe :
    (pk : Packages) (cfg : Config) (now : ℕ) (w : User) (s : Accounts)
    → IsSafe s
    → IsSafe (open_session pk cfg now w s).1
open_session-IsSafe pk cfg now w s (single, guarded) =
    elim (Bool-cases
      (has_refresh_token (generate_token pk (claims_of w) cfg.refresh_token_expiry now) s)) [
        | inl e ↦ rw e (single, guarded)
        | inr e ↦ rw e (
          single,
          All-update_where IsGuarded IsGuarded (λ (u : User). u.id == w.id) (set_last_login now)
              s.users (λ u h f. h) (λ u h f. h) guarded,
        )
      ]

after_sign_in-IsSafe :
    (pk : Packages) (cfg : Config) (now id : ℕ) (s : Accounts)
    (r : Result AuthError (Unit {0}) × User)
    → IsGuarded r.1
    → IsSafe s
    → IsSafe (after_sign_in pk cfg now id s r).1
after_sign_in-IsSafe pk cfg now id s (err e, w) h safe =
    update_user-IsSafe id (λ _. w) s (λ u g. h) safe
after_sign_in-IsSafe pk cfg now id s (ok x, w) h safe =
    open_session-IsSafe pk cfg now w (update_user id (λ _. w) s)
      (update_user-IsSafe id (λ _. w) s (λ u g. h) safe)

login-IsSafe :
    (pk : Packages) (cfg : Config) (email password : Option ℕ) (now : ℕ) (s : Accounts)
    → IsSafe s
    → IsSafe (login pk cfg email password now s).1
unfolding login
login-IsSafe pk cfg none password now s safe = safe
login-IsSafe pk cfg (some email) none now s safe = safe
login-IsSafe pk cfg (some email) (some password) now s safe =
    elim (Option-cases (user_by_email email s)) [
      | inl e ↦ rw e safe
      | inr (u, e) ↦ rw e (
          after_sign_in-IsSafe pk cfg now u.id s (sign_in pk password now u)
            (sign_in-IsGuarded pk password now u
              (All-find IsGuarded (λ (x : User). x.email == email) s.users safe.1 e))
            safe)
    ]

forgot_password-IsSafe :
    (pk : Packages) (cfg : Config) (email now : ℕ) (s : Accounts)
    → IsSafe s
    → IsSafe (forgot_password pk cfg email now s).1
unfolding forgot_password
forgot_password-IsSafe pk cfg email now s (single, guarded) =
    elim (Option-cases (user_by_email email s)) [
      | inl e ↦ rw e (single, guarded)
      | inr (u, e) ↦
          let token = generate_token pk (reset_claims u) cfg.reset_token_expiry now in
          let old = update_where (is_unused_of u.id) use_reset s.password_resets in
          elim (Bool-cases (has_reset_token token old)) [
            | inl f ↦
                rw (e, f)
                  (
                    (λ user_id. omega (
                      arith,
                      count-use_reset (is_unused_of u.id) user_id s.password_resets,
                      single user_id,
                    )),
                    guarded,
                  )
            | inr f ↦
                rw (e, f)
                  (
                    (λ user_id.
                        count-reset_row cfg u.id token now user_id s.password_resets
                          (single user_id)),
                    guarded,
                  )
          ]
    ]

finish_reset-IsSafe :
    (pk : Packages) (token : Text) (password salt : ℕ) (s : Accounts)
    (q : Result AuthError (Claims × PasswordReset × User))
    → IsSafe s
    → IsSafe (finish_reset pk token password salt s q).1
finish_reset-IsSafe pk token password salt s (err e) safe = safe
finish_reset-IsSafe pk token password salt s (ok (claims, r, u)) safe =
    let hash = pk.hash password salt in
    let changed = update_user-IsSafe claims.user_id (set_password hash) s (λ u g. g) safe in
    elim (Bool-cases (pk.compare_hash password hash)) [
      | inl e ↦ rw e (
        (λ user_id. omega (
          arith,
          safe.0 user_id,
          count-use_reset (λ (x : PasswordReset). same_text x.token r.token) user_id
              s.password_resets,
        )),
        changed.1,
      )
      | inr e ↦ rw e changed
    ]

-- A call in a transaction is safe when what it returns is.
or_before-IsSafe :
    (s : Accounts) (r : Result AuthError Accounts)
    → IsSafe s
    → Ensures IsSafe r
    → IsSafe (or_before s r)
or_before-IsSafe s (err e) safe h = safe
or_before-IsSafe s (ok t) safe h = h

create_rows-IsSafe :
    (pk : Packages) (q : Request) (salt : ℕ) (role : Role) (s : Accounts)
    → IsSafe s
    → Ensures IsSafe (create_rows pk q salt role s)
create_rows-IsSafe pk q salt student s (single, guarded) =
    Ensures-bind (λ rows. Unit {0}) IsSafe
      (create_member s.next_id q.student_number q.department_id s.students) _ (Ensures-any _)
      (λ rows h. (single, (refl, guarded)))
create_rows-IsSafe pk q salt faculty s (single, guarded) =
    Ensures-bind (λ rows. Unit {0}) IsSafe
      (create_member s.next_id q.employee_number q.department_id s.faculty) _ (Ensures-any _)
      (λ rows h. (single, (refl, guarded)))
create_rows-IsSafe pk q salt admin s (single, guarded) = (single, (refl, guarded))

register-IsSafe :
    (pk : Packages) (q : Request) (salt : ℕ) (s : Accounts)
    → IsSafe s
    → Ensures IsSafe (register pk q salt s)
unfolding register
register-IsSafe pk q salt s safe =
    let rows = create_rows pk q salt q.role s in
    let known =
      throw_if (is_unknown_department q.department_id s.departments) department_not_found >> rows in
    let fresh = throw_if (is_number_taken q q.role s) number_taken >> known in
    Ensures-throw_if IsSafe (any (λ (u : User). u.email == q.email) s.users) email_taken fresh (λ a.
      Ensures-throw_if IsSafe (is_number_taken q q.role s) number_taken known (λ b.
        Ensures-throw_if IsSafe (is_unknown_department q.department_id s.departments)
          department_not_found rows (λ c. create_rows-IsSafe pk q salt q.role s safe)))

verify_email-IsSafe :
    (pk : Packages) (token : Text) (now : ℕ) (s : Accounts)
    → IsSafe s
    → Ensures IsSafe (verify_email pk token now s)
unfolding verify_email
verify_email-IsSafe pk token now s safe =
    let used = λ (claims : Claims). ok (
      set_email_verifications
        (update_where (λ (v : EmailVerification). same_text v.token token) use_verification
          s.email_verifications)
        (update_user claims.user_id activate s)) in
    let checked = λ (claims : Claims) (r : EmailVerification).
      throw_if (not (not r.is_used && ltb now r.expires_at)) invalid_token >> used claims in
    Ensures-bind (λ c. Unit {0}) IsSafe (or_throw (verify_token pk token now) invalid_token)
      (λ claims.
        or_throw (find (is_unused_verification token) s.email_verifications) invalid_token
        >>= checked claims)
      (Ensures-any _)
      (λ claims h.
        Ensures-bind (λ r. Unit {0}) IsSafe
          (or_throw (find (is_unused_verification token) s.email_verifications) invalid_token)
          (checked claims) (Ensures-any _)
          (λ r k.
            Ensures-throw_if IsSafe (not (not r.is_used && ltb now r.expires_at)) invalid_token
              (used claims)
              (λ valid. update_user-IsSafe claims.user_id activate s (λ u g. g) safe)))

resend_verification-IsSafe :
    (email : ℕ) (s : Accounts) → IsSafe s → IsSafe (resend_verification email s)
unfolding resend_verification
resend_verification-IsSafe email s safe = elim (Option-cases (user_by_email email s)) [
  | inl e ↦ rw e safe
  | inr (u, e) ↦ rw e (update_user-IsSafe u.id activate s (λ u g. g) safe)
]

step-IsSafe :
    (pk : Packages) (cfg : Config) (c : Call) (s : Accounts) → IsSafe s → IsSafe (step pk cfg c s)
unfolding step logout reset_password
step-IsSafe pk cfg (call_register q salt) s safe =
    or_before-IsSafe s (register pk q salt s) safe (register-IsSafe pk q salt s safe)
step-IsSafe pk cfg (call_verify_email token now) s safe =
    or_before-IsSafe s (verify_email pk token now s) safe (verify_email-IsSafe pk token now s safe)
step-IsSafe pk cfg (call_resend_verification email) s safe = resend_verification-IsSafe email s safe
step-IsSafe pk cfg (call_login email password now) s safe =
    login-IsSafe pk cfg email password now s safe
step-IsSafe pk cfg (call_logout token) s safe = safe
step-IsSafe pk cfg (call_forgot_password email now) s safe =
    forgot_password-IsSafe pk cfg email now s safe
step-IsSafe pk cfg (call_reset_password token password salt now) s safe =
    finish_reset-IsSafe pk token password salt s (reset_request pk token now s) safe

-- Whatever calls follow one another, no user ever has two reset tokens that can still be used, and an
-- account with five wrong passwords in a row has a lock.
pub run-IsSafe :
    (pk : Packages) (cfg : Config) (cs : List Call) (s : Accounts)
    → IsSafe s
    → IsSafe (run pk cfg cs s)
unfolding run
run-IsSafe pk cfg [] s safe = safe
run-IsSafe pk cfg (c ∷ cs) s safe =
    run-IsSafe pk cfg cs (step pk cfg c s) (step-IsSafe pk cfg c s safe)
