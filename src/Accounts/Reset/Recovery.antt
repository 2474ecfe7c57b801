-- ===== src/Accounts/Reset/Recovery.antt =====
-- What a password reset of src/services/authService.js ends and what it makes possible.
use obs_system_backend_berka.Base.{
  Text, same_text, same_text_refl, same_text_eq, ℕ, ◌+◌, ◌*◌, ◌/◌, ◌<◌, ◌≡◌, refl, sym, ap, ◌∙◌,
  inl, inr, Bool, true, false, not, ◌&&◌, Option, none, some, List, [], ◌∷◌, arith, lt→ltb, ◌==◌,
  ==_iff, Bool-cases, Option-cases, find, find_holds, update_where, Result, err, ok, All, Empty,
  subst, or_throw, ◌>>=◌, Ensures, Ensures-bind, Ensures-or_throw, Ensures-throw_if,
}
use obs_system_backend_berka.Accounts.{
  Claims, Packages, IsLawful, Config, User, RefreshToken, PasswordReset, Accounts, AuthError,
  invalid_token, user_not_found, set_lock, activate, set_password, user_by_email, user_by_id,
  verify_token, generate_token, set_password_resets,
}
use obs_system_backend_berka.Accounts.Login.{
  Session, is_locked, reset_lock, reset_expired, sign_in, login, claims_of, has_refresh_token,
  revoke,
}
use obs_system_backend_berka.Accounts.Login.Sessions.{find_another}
use obs_system_backend_berka.Accounts.Reset.{
  use_reset, is_unused_of, has_reset_token, reset_row, reset_claims, forgot_password,
  is_valid_reset, is_unused, reset_request, apply_reset, finish_reset, reset_password,
}

-- No row of the token is left unused.
none_unused :
    (token : Text) (rows : List PasswordReset)
    → find
        (is_unused token)
        (update_where (λ (r : PasswordReset). same_text r.token token) use_reset rows)
      ≡ none
none_unused token [] = refl
none_unused token (r ∷ rs) = elim (Bool-cases (same_text r.token token)) [
  | inl e ↦ rw (e, e) (none_unused token rs)
  | inr e ↦ rw (e, e) (none_unused token rs)
]

-- The refresh tokens of a user that are revoked.
abbrev pub IsRevokedOf : ℕ → RefreshToken → Type 0
IsRevokedOf user_id r = (r.user_id == user_id) ≡ true → r.is_revoked ≡ true

revoked_of :
    (user_id : ℕ) (rows : List RefreshToken)
    → All
        (IsRevokedOf user_id)
        (update_where (λ (r : RefreshToken). r.user_id == user_id) revoke rows)
revoked_of user_id [] = tt
revoked_of user_id (r ∷ rs) = elim (Bool-cases (r.user_id == user_id)) [
  | inl e ↦ rw e ((λ h. refl), revoked_of user_id rs)
  | inr e ↦ rw e ((λ h. elim (absurd (r.user_id == user_id) h e) [ ]), revoked_of user_id rs)
]
  where
    absurd : (b : Bool) → b ≡ true → b ≡ false → Empty {0}
    absurd b h e = cc

-- The writes of a reset leave its token used and the user's refresh tokens revoked.
abbrev IsFinished : Packages → Text → ℕ → Accounts → Type 0
IsFinished pk token now s =
    (find (is_unused token) s.password_resets ≡ none)
    × ((claims : Claims) × (verify_token pk token now ≡ some claims)
        × All (IsRevokedOf claims.user_id) s.refresh_tokens)

-- A request that passes the checks has the claims of its token and a record of it.
abbrev IsChecked : Packages → Text → ℕ → Claims × PasswordReset × User → Type 0
IsChecked pk token now (claims, r, u) =
    (verify_token pk token now ≡ some claims) × (r.token ≡ token)

reset_request-IsChecked :
    (pk : Packages) (token : Text) (now : ℕ) (s : Accounts)
    → Ensures (IsChecked pk token now) (reset_request pk token now s)
reset_request-IsChecked pk token now s =
    let checked = IsChecked pk token now in
    Ensures-bind (λ c. verify_token pk token now ≡ some c) checked _ _
      (Ensures-or_throw {E = AuthError} (λ c. verify_token pk token now ≡ some c)
        (verify_token pk token now) invalid_token (λ c e. e))
      (λ claims verified.
        Ensures-bind (λ (r : PasswordReset). r.token ≡ token) checked _ _
          (Ensures-or_throw {E = AuthError} (λ (r : PasswordReset). r.token ≡ token)
            (find (is_unused token) s.password_resets) invalid_token
            (λ r e.
              same_text_eq r.token token
                (and_left _ _ (find_holds (is_unused token) s.password_resets e))))
          (λ r same.
            Ensures-throw_if checked (not (is_valid_reset now r)) invalid_token
              (or_throw (user_by_id claims.user_id s) user_not_found >>= λ u. ok (claims, r, u))
              (λ valid.
                Ensures-bind (λ u. Unit {0}) checked
                  (or_throw (user_by_id claims.user_id s) user_not_found) (λ u. ok (claims, r, u))
                  (Ensures-or_throw {E = AuthError} (λ u. Unit {0}) (user_by_id claims.user_id s)
                    user_not_found (λ u e. tt))
                  (λ u h. (verified, same)))))
  where
    and_left : (a b : Bool) → (a && b) ≡ true → a ≡ true
    and_left a b h = ground arith

finish_reset-IsFinished :
    (pk : Packages) (token : Text) (password salt now : ℕ) (s : Accounts) (x : Unit {0})
    (q : Result AuthError (Claims × PasswordReset × User))
    → Ensures (IsChecked pk token now) q
    → (finish_reset pk token password salt s q).0 ≡ ok x
    → IsFinished pk token now (finish_reset pk token password salt s q).1
finish_reset-IsFinished pk token password salt now s x (err e) checked h = cc
finish_reset-IsFinished pk token password salt now s x (ok (claims, r, u)) (verified, same) h =
    elim (Bool-cases (pk.compare_hash password (pk.hash password salt))) [
      | inl e ↦
          rw (e, same)
            (
              none_unused token s.password_resets,
              (claims, verified, revoked_of claims.user_id s.refresh_tokens),
            )
      | inr e ↦ elim (thrown (rw e at h)) [ ]
    ]
  where
    thrown : {e : AuthError} → ◌≡◌ {A = Result AuthError (Unit {0})} (err e) (ok x) → Empty {0}
    thrown e = cc

-- A token that is used up, or that never was one, resets nothing.
reset_password-none :
    (pk : Packages) (token : Text) (password salt later : ℕ) (s : Accounts)
    → find (is_unused token) s.password_resets ≡ none
    → reset_password pk token password salt later s ≡ (err invalid_token, s)
unfolding reset_password
reset_password-none pk token password salt later s h =
    elim (Option-cases (verify_token pk token later)) [
      | inl e ↦ rw e refl
      | inr (claims, e) ↦ rw (e, h) refl
    ]

-- A reset token works once: after a password was reset with it, every later use of it is refused and
-- changes nothing. And the reset ends all sessions of the account that the token names: no refresh
-- token of the account is left unrevoked.
pub reset_password_once :
    (pk : Packages) (token : Text) (password salt now : ℕ) (s : Accounts) (x : Unit {0})
    (password' salt' later : ℕ)
    → (reset_password pk token password salt now s).0 ≡ ok x
    → let after : Accounts = (reset_password pk token password salt now s).1 in
      (reset_password pk token password' salt' later after ≡ (err invalid_token, after))
      × ((claims : Claims) × (verify_token pk token now ≡ some claims)
          × All (IsRevokedOf claims.user_id) after.refresh_tokens)
unfolding reset_password
reset_password_once pk token password salt now s x password' salt' later h =
    let (used, revoked) =
      finish_reset-IsFinished pk token password salt now s x _
        (reset_request-IsChecked pk token now s) h in
    (reset_password-none pk token password' salt' later _ used, revoked)

-- A row stays found by its email when an update by id changes other columns of it.
find_kept :
    {A : Type 0} (p q : A → Bool) (f : A → A) (u : A) (xs : List A)
    → ((x : A) → p (f x) ≡ p x)
    → q u ≡ true
    → find p xs ≡ some u
    → find p (update_where q f xs) ≡ some (f u)
find_kept p q f u [] keeps here h = cc
find_kept {A = A} p q f u (x ∷ xs) keeps here h = elim (Bool-cases (p x)) [
  | inl e ↦
      let same : x ≡ u = hit x u (rw e at h) in
      rw (ap q same ∙ here, keeps x, e) (ap (λ y. some (f y)) same)
  | inr e ↦ elim (Bool-cases (q x)) [
    | inl g ↦ rw (g, keeps x, e) (find_kept p q f u xs keeps here (rw e at h))
    | inr g ↦ rw (g, e) (find_kept p q f u xs keeps here (rw e at h))
  ]
]
  where
    hit : (x y : A) → ◌≡◌ {A = Option A} (some x) (some y) → x ≡ y
    hit x y e = cc

-- The state after a mail with a new token was sent.
forgot_password_state :
    (pk : Packages) (cfg : Config) (email now : ℕ) (u : User) (s : Accounts) (token : Text)
    → user_by_email email s ≡ some u
    → (forgot_password pk cfg email now s).0 ≡ ok (some token)
    → (token ≡ generate_token pk (reset_claims u) cfg.reset_token_expiry now)
      × ((forgot_password pk cfg email now s).1
          ≡ set_password_resets
              (reset_row cfg u.id token now
                ∷ update_where (is_unused_of u.id) use_reset s.password_resets)
              s)
unfolding forgot_password
forgot_password_state pk cfg email now u s token found h =
    let fresh = generate_token pk (reset_claims u) cfg.reset_token_expiry now in
    let old = update_where (is_unused_of u.id) use_reset s.password_resets in
    elim (Bool-cases (has_reset_token fresh old)) [
      | inl e ↦ elim (thrown (rw (found, e) at h)) [ ]
      | inr e ↦
          let same : token ≡ fresh = opened token fresh (rw (found, e) at h) in
          (same, rw (found, e, same) refl)
    ]
  where
    thrown :
        {e : AuthError}
        → ◌≡◌ {A = Result AuthError (Option Text)} (err e) (ok (some token))
        → Empty {0}
    thrown e = cc

    opened :
        (x y : Text) → ◌≡◌ {A = Result AuthError (Option Text)} (ok (some y)) (ok (some x)) → x ≡ y
    opened x y e = cc

in_time : (later now expiry : ℕ) → later / 1000 < now / 1000 + expiry → later < now + expiry * 1000
in_time later now expiry h = omega arith

-- The reset that follows a mail in time succeeds.
reset_password_fresh :
    (pk : Packages) (cfg : Config) (token : Text) (password salt now later : ℕ) (u w : User)
    (s : Accounts) (old : List PasswordReset)
    → IsLawful pk
    → token ≡ generate_token pk (reset_claims u) cfg.reset_token_expiry now
    → later / 1000 < now / 1000 + cfg.reset_token_expiry
    → user_by_id u.id s ≡ some w
    → let mailed : Accounts = set_password_resets (reset_row cfg u.id token now ∷ old) s in
      reset_password pk token password salt later mailed
      ≡ (ok tt, apply_reset (reset_claims u) token (pk.hash password salt) mailed)
unfolding reset_password
reset_password_fresh pk cfg token password salt now later u w s old lawful made fresh found =
    let verified : verify_token pk token later ≡ some (reset_claims u) =
      ap (λ t. verify_token pk t later) made
      ∙ lawful.verify-sign (reset_claims u) (now / 1000) cfg.reset_token_expiry (later / 1000)
          fresh in
    let here : same_text token token ≡ true = same_text_refl token in
    let valid =
      lt→ltb later (now + cfg.reset_token_expiry * 1000)
        (in_time later now cfg.reset_token_expiry fresh) in
    let request : reset_request pk token later
          (set_password_resets (reset_row cfg u.id token now ∷ old) s)
        ≡ ok (reset_claims u, reset_row cfg u.id token now, w) =
      rw (verified, here, valid, found) refl in
    rw (request, lawful.compare-hash password salt) refl

-- A right password at a row that is not locked.
pub sign_in_right :
    (pk : Packages) (password now : ℕ) (u : User)
    → is_locked now u.locked_until ≡ false
    → pk.compare_hash password u.password_hash ≡ true
    → (w : User) × (sign_in pk password now u ≡ (ok tt, w))
      × (w.id ≡ u.id)
      × (w.email ≡ u.email)
      × (w.role ≡ u.role)
unfolding sign_in
sign_in_right pk password now u free right =
    let (same_id, same_email, same_role, same_hash) = lifted u.locked_until in
    let judged = ap (pk.compare_hash password) same_hash ∙ right in
    (
      activate (set_lock 0 none (reset_expired now u)),
      rw (free, judged) refl,
      same_id,
      same_email,
      same_role,
    )
  where
    lifted :
        (lock : Option ℕ)
        → ((reset_lock now lock u).id ≡ u.id)
          × ((reset_lock now lock u).email ≡ u.email)
          × ((reset_lock now lock u).role ≡ u.role)
          × ((reset_lock now lock u).password_hash ≡ u.password_hash)
    lifted none = (refl, refl, refl, refl)
    lifted (some until) = (ground arith, ground arith, ground arith, ground arith)

-- A login that is accepted opens a session, when its refresh token is new.
pub login_accepted :
    (pk : Packages) (cfg : Config) (email password now : ℕ) (u v w : User) (t : Accounts)
    → user_by_email email t ≡ some v
    → sign_in pk password now v ≡ (ok tt, w)
    → (w.id ≡ u.id) × (claims_of w ≡ claims_of u)
    → has_refresh_token (generate_token pk (claims_of u) cfg.refresh_token_expiry now) t ≡ false
    → (session : Session) × ((login pk cfg (some email) (some password) now t).0 ≡ ok session)
      × (session.user_id ≡ u.id)
unfolding login
login_accepted pk cfg email password now u v w t found accepted (same_id, same_claims) new =
    let new' : has_refresh_token (generate_token pk (claims_of w) cfg.refresh_token_expiry now) t
        ≡ false =
      ap (λ c. has_refresh_token (generate_token pk c cfg.refresh_token_expiry now) t) same_claims
      ∙ new in
    (
      record {
        access_token = generate_token pk (claims_of w) cfg.access_token_expiry now;
        refresh_token = generate_token pk (claims_of w) cfg.refresh_token_expiry now;
        user_id = w.id;
      },
      rw (found, accepted, new') refl,
      same_id,
    )

pub claims_of_same :
    (u w : User) → w.id ≡ u.id → w.email ≡ u.email → w.role ≡ u.role → claims_of w ≡ claims_of u
claims_of_same u w e f g = rw (e, f, g) refl

-- A forgotten password can be replaced: when `forgotPassword` mails a token for the account of an
-- email, `resetPassword` accepts it until it expires, and the login with the new password then
-- succeeds, unless the account is locked or the refresh token that it makes is already stored. The
-- packages keep to what they document.
pub forgot_password-login :
    (pk : Packages) (cfg : Config) (email asked : ℕ) (u : User) (s : Accounts) (token : Text)
    (password salt later login_at : ℕ)
    → IsLawful pk
    → user_by_email email s ≡ some u
    → (forgot_password pk cfg email asked s).0 ≡ ok (some token)
    → later / 1000 < asked / 1000 + cfg.reset_token_expiry
    → is_locked login_at u.locked_until ≡ false
    → has_refresh_token
        (generate_token pk (claims_of u) cfg.refresh_token_expiry login_at)
        (reset_password pk token password salt later (forgot_password pk cfg email asked s).1).1
      ≡ false
    → let reset : Result AuthError (Unit {0}) × Accounts =
        reset_password pk token password salt later (forgot_password pk cfg email asked s).1 in
      (reset.0 ≡ ok tt)
      × ((session : Session) × ((login pk cfg (some email) (some password) login_at reset.1).0
            ≡ ok session)
          × (session.user_id ≡ u.id))
forgot_password-login pk cfg email asked u s token password salt later login_at lawful found mailed
      fresh free new =
    let old = update_where (is_unused_of u.id) use_reset s.password_resets in
    let (made, state) = forgot_password_state pk cfg email asked u s token found mailed in
    let there =
      find_another (λ (y : User). y.email == email) (λ (y : User). y.id == u.id) u s.users found
        ((==_iff u.id u.id).1 refl) in
    let done =
      ap (reset_password pk token password salt later) state
      ∙ reset_password_fresh pk cfg token password salt asked later u there.0 s old lawful made
          fresh there.1 in
    let changed : User = set_password (pk.hash password salt) u in
    let kept =
      find_kept (λ (y : User). y.email == email) (λ (y : User). y.id == u.id)
        (set_password (pk.hash password salt)) u s.users (λ x. refl) ((==_iff u.id u.id).1 refl)
        found in
    let (w, accepted, same_id, same_email, same_role) =
      sign_in_right pk password login_at changed free (lawful.compare-hash password salt) in
    (
      ap (λ (r : Result AuthError (Unit {0}) × Accounts). r.0) done,
      login_accepted pk cfg email password login_at u changed w _
          (subst
            (λ (r : Result AuthError (Unit {0}) × Accounts). user_by_email email r.1 ≡ some changed)
            (sym done) kept)
          accepted (same_id, claims_of_same u w same_id same_email same_role) new,
    )
