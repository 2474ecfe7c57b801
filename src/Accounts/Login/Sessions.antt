-- ===== src/Accounts/Login/Sessions.antt =====
-- The tokens that a login of src/services/authService.js hands out.
use obs_system_backend_berka.Base.{
  Text, same_text, ℕ, ◌+◌, ◌/◌, ◌<◌, ◌≡◌, refl, sym, ap, ◌∙◌, inl, inr, Bool, true, false, Option,
  none, some, List, [], ◌∷◌, arith, ◌==◌, ==_iff, Bool-cases, Option-cases, find, find_holds,
  update_where, Result, err, ok, Empty, subst,
}
use obs_system_backend_berka.Accounts.{
  Packages, IsLawful, Config, User, RefreshToken, Accounts, AuthError, invalid_token,
  unique_violation, wrong_credentials, set_last_login, user_by_email, user_by_id, update_user,
  verify_token, generate_token,
}
use obs_system_backend_berka.Accounts.Login.{
  Session, judge, reset_lock, reset_expired, sign_in, claims_of, has_refresh_token, open_session,
  after_sign_in, login, is_unrevoked, refresh_access_token, revoke, logout,
}
use obs_system_backend_berka.Accounts.Middleware.{authenticate}

-- A row that an update by id replaces is the row that the id finds.
pub find-updated :
    {A : Type 0} (q : A → Bool) (f : A → A) (u : A) (xs : List A)
    → ((x : A) → q x ≡ true → q (f x) ≡ true)
    → find q xs ≡ some u
    → find q (update_where q f xs) ≡ some (f u)
find-updated q f u [] keeps h = cc
find-updated q f u (x ∷ xs) keeps h = elim (Bool-cases (q x)) [
  | inl e ↦ rw (e, keeps x e) (ap (λ y. some (f y)) (hit x u (rw e at h)))
  | inr e ↦ rw (e, e) (find-updated q f u xs keeps (rw e at h))
]
  where
    hit : {A : Type 0} (x y : A) → ◌≡◌ {A = Option A} (some x) (some y) → x ≡ y
    hit x y e = cc

-- No row of the token is left unrevoked.
none_unrevoked :
    (token : Text) (rows : List RefreshToken)
    → find
        (is_unrevoked token)
        (update_where (λ (r : RefreshToken). same_text r.token token) revoke rows)
      ≡ none
none_unrevoked token [] = refl
none_unrevoked token (r ∷ rs) = elim (Bool-cases (same_text r.token token)) [
  | inl e ↦ rw (e, e) (none_unrevoked token rs)
  | inr e ↦ rw (e, e) (none_unrevoked token rs)
]

-- After a logout its refresh token gets no access token any more.
pub refresh_access_token-logout :
    (pk : Packages) (cfg : Config) (token : Text) (now : ℕ) (s : Accounts)
    → refresh_access_token pk cfg token now (logout token s) ≡ err invalid_token
unfolding refresh_access_token logout
refresh_access_token-logout pk cfg token now s = elim (Option-cases (verify_token pk token now)) [
  | inl e ↦ rw e refl
  | inr (claims, e) ↦ rw (e, none_unrevoked token s.refresh_tokens) refl
]

-- A row that one query finds makes another query find a row.
pub find_another :
    {A : Type 0} (p q : A → Bool) (u : A) (xs : List A)
    → find p xs ≡ some u
    → q u ≡ true
    → (x : A) × (find q xs ≡ some x)
find_another p q u [] h e = cc
find_another {A = A} p q u (x ∷ xs) h e = elim (Bool-cases (q x)) [
  | inl f ↦ (x, rw f refl)
  | inr f ↦ elim (Bool-cases (p x)) [
    | inl g ↦ elim (wrong x u (rw g at h) f e) [ ]
    | inr g ↦ let (y, found) = find_another p q u xs (rw g at h) e in (y, rw f found)
  ]
]
  where
    wrong : (x y : A) → ◌≡◌ {A = Option A} (some x) (some y) → q x ≡ false → q y ≡ true → Empty {0}
    wrong x y same miss hit = let eq : x ≡ y = cc in cc

-- The row of an accepted login.
abbrev IsAccepted : User → User → Type 0
IsAccepted u w = (w.id ≡ u.id) × (w.email ≡ u.email) × (w.role ≡ u.role) × (w.is_active ≡ true)

judge-IsAccepted :
    (locked right : Bool) (now : ℕ) (u v : User)
    → (v.id ≡ u.id) × (v.email ≡ u.email) × (v.role ≡ u.role)
    → (x : Unit {0}) → (judge locked right now u v).0 ≡ ok x
    → IsAccepted u (judge locked right now u v).1
judge-IsAccepted true right now u v same x h = cc
judge-IsAccepted false false now u v same x h = cc
judge-IsAccepted false true now u v same x h = (same.0, same.1, same.2, refl)

reset_lock_same :
    (now : ℕ) (u : User) (lock : Option ℕ)
    → ((reset_lock now lock u).id ≡ u.id)
      × ((reset_lock now lock u).email ≡ u.email)
      × ((reset_lock now lock u).role ≡ u.role)
reset_lock_same now u none = (refl, refl, refl)
reset_lock_same now u (some until) = (ground arith, ground arith, ground arith)

sign_in-IsAccepted :
    (pk : Packages) (password now : ℕ) (u : User) (x : Unit {0})
    → (sign_in pk password now u).0 ≡ ok x
    → IsAccepted u (sign_in pk password now u).1
unfolding sign_in
sign_in-IsAccepted pk password now u x h =
    judge-IsAccepted _ _ now u (reset_expired now u) (reset_lock_same now u u.locked_until) x h

-- A session that was opened for a stored, active account.
open_session-authenticate :
    (pk : Packages) (cfg : Config) (now later : ℕ) (w : User) (t : Accounts) (session : Session)
    → IsLawful pk
    → user_by_id w.id t ≡ some w
    → w.is_active ≡ true
    → later / 1000 < now / 1000 + cfg.access_token_expiry
    → (open_session pk cfg now w t).0 ≡ ok session
    → (session.user_id ≡ w.id)
      × (authenticate pk (some session.access_token) later (open_session pk cfg now w t).1
          ≡ ok (set_last_login now w))
unfolding authenticate
open_session-authenticate pk cfg now later w t session lawful stored active fresh h =
    let refresh = generate_token pk (claims_of w) cfg.refresh_token_expiry now in
    elim (Bool-cases (has_refresh_token refresh t)) [
      | inl e ↦ elim (refused session (rw e at h)) [ ]
      | inr e ↦
          let same : session ≡ record {
            access_token = generate_token pk (claims_of w) cfg.access_token_expiry now;
            refresh_token = refresh;
            user_id = w.id;
          } =
            opened _ session (rw e at h) in
          let valid =
            lawful.verify-sign (claims_of w) (now / 1000) cfg.access_token_expiry (later / 1000)
              fresh in
          let found =
            find-updated (λ (u : User). u.id == w.id) (set_last_login now) w t.users (λ x i. i)
              stored in
          (ap (λ (y : Session). y.user_id) same, rw (same, e, valid, found, active) refl)
    ]
  where
    refused :
        (x : Session) → ◌≡◌ {A = Result AuthError Session} (err unique_violation) (ok x) → Empty {0}
    refused x h = cc

    opened : (x y : Session) → ◌≡◌ {A = Result AuthError Session} (ok x) (ok y) → y ≡ x
    opened x y h = cc

-- The access token of a login authenticates its requests until it expires: as the active account of
-- the email, whose last login is the time of the login. The packages keep to what they document.
pub login-authenticate :
    (pk : Packages) (cfg : Config) (email password now later : ℕ) (s : Accounts) (session : Session)
    → IsLawful pk
    → (login pk cfg (some email) (some password) now s).0 ≡ ok session
    → later / 1000 < now / 1000 + cfg.access_token_expiry
    → (v : User) × (authenticate pk
          (some session.access_token)
          later
          (login pk cfg (some email) (some password) now s).1
        ≡ ok v)
      × (v.id ≡ session.user_id)
      × (v.email ≡ email)
      × (v.is_active ≡ true)
      × (v.last_login ≡ some now)
unfolding login
login-authenticate pk cfg email password now later s session lawful h fresh =
    elim (Option-cases (user_by_email email s)) [
      | inl e ↦ elim (no_user (rw e at h)) [ ]
      | inr (u, e) ↦ rw e (
          accepted u e (sign_in pk password now u) (sign_in-IsAccepted pk password now u)
            (rw e at h))
    ]
  where
    no_user : ◌≡◌ {A = Result AuthError Session} (err wrong_credentials) (ok session) → Empty {0}
    no_user e = cc

    accepted :
        (u : User)
        → user_by_email email s ≡ some u
        → (r : Result AuthError (Unit {0}) × User)
        → ((x : Unit {0}) → r.0 ≡ ok x → IsAccepted u r.1)
        → (after_sign_in pk cfg now u.id s r).0 ≡ ok session
        → (v : User) × (authenticate pk
              (some session.access_token)
              later
              (after_sign_in pk cfg now u.id s r).1
            ≡ ok v)
          × (v.id ≡ session.user_id)
          × (v.email ≡ email)
          × (v.is_active ≡ true)
          × (v.last_login ≡ some now)
    accepted u found (err e, w) facts h = cc
    accepted u found (ok x, w) facts h =
        let (same_id, same_email, same_role, active) = facts x refl in
        let by_email =
          (==_iff u.email email).0 (find_holds (λ (y : User). y.email == email) s.users found) in
        let there =
          find_another (λ (y : User). y.email == email) (λ (y : User). y.id == u.id) u s.users found
            ((==_iff u.id u.id).1 refl) in
        let stored =
          find-updated (λ (y : User). y.id == u.id) (λ _. w) there.0 s.users
            (λ y i. (==_iff w.id u.id).1 same_id) there.1 in
        let stored' : user_by_id w.id (update_user u.id (λ _. w) s) ≡ some w =
          subst (λ n. user_by_id n (update_user u.id (λ _. w) s) ≡ some w) (sym same_id) stored in
        let (who, authenticated) =
          open_session-authenticate pk cfg now later w (update_user u.id (λ _. w) s) session lawful
            stored' active fresh h in
        (set_last_login now w, authenticated, sym who, same_email ∙ by_email, active, refl)
