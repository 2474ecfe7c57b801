-- ===== src/Accounts/Login/Lockout.antt =====
-- The lock of an account in `login` of src/services/authService.js.
use obs_system_backend_berka.Base.{
  ℕ, suc, ◌+◌, ◌-◌, ◌≤◌, ◌<◌, ◌≡◌, refl, ap, ◌∙◌, inl, inr, Bool, true, false, Option, none, some,
  List, [], ◌∷◌, arith, ltb, leb, ◌==◌, ==_iff, if◌then◌else◌, Bool-cases, find, find_holds,
  update_where, Result, err, ok, All,
}
use obs_system_backend_berka.Accounts.{
  Packages, Config, User, Accounts, AuthError, account_locked, attempts_left, now_locked,
  user_by_email, update_user,
}
use obs_system_backend_berka.Accounts.Login.{
  Session, is_locked, lock_minutes, lock_duration, max_attempts, reset_lock, reset_expired,
  count_failure, failure_error, judge, sign_in, login, after_sign_in,
}

-- An attempt to log in.
pub record Guess : Type 0 where
  pub password : ℕ
  pub at : ℕ

-- The answer to a password that was looked at and is wrong.
abbrev pub is_wrong_guess : Result AuthError Session → Bool
is_wrong_guess (err (attempts_left n)) = true
is_wrong_guess (err now_locked) = true
is_wrong_guess _ = false

-- How many of the attempts, one after the other, were looked at and found wrong.
unfoldable pub wrong_guesses : Packages → Config → ℕ → List Guess → Accounts → ℕ
unfolding login
wrong_guesses pk cfg email [] s = 0
wrong_guesses pk cfg email (g ∷ gs) s =
    let (reply, after) = login pk cfg (some email) (some g.password) g.at s in
    let rest = wrong_guesses pk cfg email gs after in
    if is_wrong_guess reply then suc rest else rest

-- The attempts that the lock still allows before the window of a lock from `from` on has passed.
abbrev budget : ℕ → ℕ → Option ℕ → ℕ
budget from failed none = if ltb failed 4 then 5 - failed else 1
budget from failed (some until) = if leb (from + lock_duration) until then 0 else 5

abbrev row_budget : ℕ → User → ℕ
row_budget from u = budget from u.failed_login_attempts u.locked_until

-- A row that an update by id replaces is the row that is found.
find-replaced :
    {A : Type 0} (p q : A → Bool) (u v : A) (xs : List A)
    → find p xs ≡ some u
    → q u ≡ true
    → p v ≡ true
    → find p (update_where q (λ _. v) xs) ≡ some v
find-replaced p q u v [] h hu hv = cc
find-replaced p q u v (x ∷ xs) h hu hv = elim (Bool-cases (p x)) [
  | inl e ↦ rw (hit x u (rw e at h), hu, hv) refl
  | inr e ↦ elim (Bool-cases (q x)) [
    | inl f ↦ rw (f, hv) refl
    | inr f ↦ rw (f, e) (find-replaced p q u v xs (rw e at h) hu hv)
  ]
]
  where
    hit : {A : Type 0} (x y : A) → ◌≡◌ {A = Option A} (some x) (some y) → x ≡ y
    hit x y e = cc

-- What a reply may cost of the budget.
abbrev cost : AuthError → ℕ
cost e = if is_wrong_guess (err e) then 1 else 0

-- A wrong password at a row with no lock.
count_failure-budget :
    (now from : ℕ) (v : User)
    → v.locked_until ≡ none
    → from ≤ now
    → cost (failure_error v) + row_budget from (count_failure now v)
      ≤ budget from v.failed_login_attempts none
count_failure-budget now from v open_row after =
    elim (Bool-cases (leb max_attempts (suc v.failed_login_attempts))) [
      | inl e ↦ rw e (ground arith)
      | inr e ↦ rw (e, open_row) (ground arith)
    ]

count_failure_email : (now : ℕ) (v : User) → (count_failure now v).email ≡ v.email
count_failure_email now v = ground arith

count_failure_hash : (now : ℕ) (v : User) → (count_failure now v).password_hash ≡ v.password_hash
count_failure_hash now v = ground arith

-- The row after an expired lock, at a time within the window.
abbrev IsLifted : ℕ → User → User → Type 0
IsLifted from u v =
    (v.locked_until ≡ none)
    × (budget from v.failed_login_attempts none ≤ row_budget from u)
    × (v.email ≡ u.email)
    × (v.password_hash ≡ u.password_hash)

reset_lock-IsLifted :
    (now from : ℕ) (u : User) (lock : Option ℕ)
    → u.locked_until ≡ lock
    → is_locked now lock ≡ false
    → now < from + lock_duration
    → IsLifted from u (reset_lock now lock u)
reset_lock-IsLifted now from u none e h before = rw e (refl, omega arith, refl, refl)
reset_lock-IsLifted now from u (some until) e h before =
    let expired : leb until now ≡ true = ground arith in
    let short : leb (from + lock_duration) until ≡ false = ground arith in
    rw (e, expired, short) (refl, omega arith, refl, refl)

-- A refusal, with what is left of the budget.
abbrev IsRefused : ℕ → User → Result AuthError (Unit {0}) × User → Type 0
IsRefused from u r =
    (e : AuthError) × (r.0 ≡ err e)
    × (r.1.email ≡ u.email)
    × (r.1.password_hash ≡ u.password_hash)
    × (cost e + row_budget from r.1 ≤ row_budget from u)

judge-IsRefused :
    (locked right : Bool) (now from : ℕ) (u v : User)
    → right ≡ false
    → from ≤ now
    → (locked ≡ false → IsLifted from u v)
    → IsRefused from u (judge locked right now u v)
judge-IsRefused true right now from u v wrong after lifted =
    (account_locked (lock_minutes now u.locked_until), refl, refl, refl, omega arith)
judge-IsRefused false true now from u v wrong after lifted = cc
judge-IsRefused false false now from u v wrong after lifted =
    let (open_row, left, same_email, same_hash) = lifted refl in
    (
      failure_error v,
      refl,
      count_failure_email now v ∙ same_email,
      count_failure_hash now v ∙ same_hash,
      omega (arith, count_failure-budget now from v open_row after, left),
    )

-- A wrong password at the row: what it answers, and what is left of the budget.
sign_in-IsRefused :
    (pk : Packages) (password now from : ℕ) (u : User)
    → pk.compare_hash password u.password_hash ≡ false
    → from ≤ now
    → now < from + lock_duration
    → IsRefused from u (sign_in pk password now u)
unfolding sign_in
sign_in-IsRefused pk password now from u wrong after before =
    judge-IsRefused (is_locked now u.locked_until) _ now from u (reset_expired now u)
      (ap (pk.compare_hash password) (reset_lock_hash now u u.locked_until) ∙ wrong) after
      (λ open_row. reset_lock-IsLifted now from u u.locked_until refl open_row before)
  where
    reset_lock_hash :
        (now : ℕ) (u : User) (lock : Option ℕ)
        → (reset_lock now lock u).password_hash ≡ u.password_hash
    reset_lock_hash now u none = refl
    reset_lock_hash now u (some until) = ground arith

after_refusal :
    (pk : Packages) (cfg : Config) (now id : ℕ) (s : Accounts)
    (r : Result AuthError (Unit {0}) × User) (e : AuthError)
    → r.0 ≡ err e
    → after_sign_in pk cfg now id s r ≡ (err e, update_user id (λ _. r.1) s)
after_refusal pk cfg now id s (err x, v) e h = let same : x ≡ e = cc in rw same refl
after_refusal pk cfg now id s (ok x, v) e h = cc

-- One refused attempt of a login, and the row after it.
login-IsRefused :
    (pk : Packages) (cfg : Config) (email password now from : ℕ) (u : User) (s : Accounts)
    → user_by_email email s ≡ some u
    → pk.compare_hash password u.password_hash ≡ false
    → from ≤ now
    → now < from + lock_duration
    → (e : AuthError) × (v : User) × ((login pk cfg (some email) (some password) now s).0 ≡ err e)
      × (user_by_email email (login pk cfg (some email) (some password) now s).1 ≡ some v)
      × (v.password_hash ≡ u.password_hash)
      × (cost e + row_budget from v ≤ row_budget from u)
unfolding login
login-IsRefused pk cfg email password now from u s found wrong after before =
    let (e, refused, same_email, same_hash, left) =
      sign_in-IsRefused pk password now from u wrong after before in
    let v = (sign_in pk password now u).1 in
    let at_email : (v.email == email) ≡ true = (==_iff v.email email).1 (
      same_email
      ∙ (==_iff u.email email).0 (find_holds (λ (x : User). x.email == email) s.users found)) in
    (
      e,
      v,
      rw (found, after_refusal pk cfg now u.id s (sign_in pk password now u) e refused) refl,
      rw (found, after_refusal pk cfg now u.id s (sign_in pk password now u) e refused)
          (find-replaced (λ (x : User). x.email == email) (λ (x : User). x.id == u.id) u v s.users
            found ((==_iff u.id u.id).1 refl) at_email),
      same_hash,
      left,
    )

-- A wrong attempt within half an hour of `from`.
abbrev pub IsWrong : Packages → ℕ → ℕ → Guess → Type 0
IsWrong pk hash from g =
    (pk.compare_hash g.password hash ≡ false) × (from ≤ g.at) × (g.at < from + lock_duration)

wrong_guesses_budget :
    (pk : Packages) (cfg : Config) (email from : ℕ) (gs : List Guess) (u : User) (s : Accounts)
    (hash : ℕ)
    → user_by_email email s ≡ some u
    → u.password_hash ≡ hash
    → All (IsWrong pk hash from) gs
    → wrong_guesses pk cfg email gs s ≤ row_budget from u
unfolding wrong_guesses
wrong_guesses_budget pk cfg email from [] u s hash found same wrong = omega arith
wrong_guesses_budget pk cfg email from (g ∷ gs) u s hash found same ((bad, after, before), more) =
    let (e, v, refused, found', kept, left) =
      login-IsRefused pk cfg email g.password g.at from u s found (rw same bad) after before in
    let after_it = (login pk cfg (some email) (some g.password) g.at s).1 in
    let later =
      wrong_guesses_budget pk cfg email from gs v after_it hash found' (kept ∙ same) more in
    rw refused (
      suc_if (is_wrong_guess (err e)) (wrong_guesses pk cfg email gs after_it) (row_budget from v)
        (row_budget from u) later left)
  where
    suc_if :
        (b : Bool) (n m k : ℕ) → n ≤ m → (if b then 1 else 0) + m ≤ k → (if b then suc n else n) ≤ k
    suc_if b n m k h l = ground arith

row_budget-le : (from failed : ℕ) (lock : Option ℕ) → budget from failed lock ≤ 5
row_budget-le from failed none = ground arith
row_budget-le from failed (some until) = ground arith

-- At most five wrong passwords of an account are looked at within half an hour: of any attempts to
-- log in to it, all with wrong passwords and at times within 30 minutes of `from`, in any order,
-- those that the lock does not turn away are five at most.
pub wrong_guesses-le :
    (pk : Packages) (cfg : Config) (email from : ℕ) (gs : List Guess) (u : User) (s : Accounts)
    → user_by_email email s ≡ some u
    → All (IsWrong pk u.password_hash from) gs
    → wrong_guesses pk cfg email gs s ≤ 5
wrong_guesses-le pk cfg email from gs u s found wrong = omega (
  arith,
  wrong_guesses_budget pk cfg email from gs u s u.password_hash found refl wrong,
  row_budget-le from u.failed_login_attempts u.locked_until,
)
