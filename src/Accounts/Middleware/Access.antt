-- ===== src/Accounts/Middleware/Access.antt =====
-- The two authentications of src/middleware/auth.js agree, and whom its authorization lets pass.
use obs_system_backend_berka.Base.{
  Text, ℕ, ◌≡◌, ◌↔◌, refl, ap, inl, inr, Bool, true, false, not, Option, none, some, List, [], ◌∷◌,
  if◌then◌else◌, Bool-cases, Option-cases, any, Result, ok, throw_if, ◌>>◌, In,
}
use obs_system_backend_berka.Classroom.{Role, student, faculty, admin}
use obs_system_backend_berka.Accounts.{Packages, User, Accounts, user_by_id, verify_token}
use obs_system_backend_berka.Accounts.Middleware.{
  Refusal, account_disabled, same_role, authenticate, authorize, optional_auth,
}

-- `optionalAuth` attaches a user exactly when `authenticate` lets the request pass as that user.
pub optional_auth_iff :
    (pk : Packages) (header : Option Text) (now : ℕ) (s : Accounts) (u : User)
    → (optional_auth pk header now s ≡ some u) ↔ (authenticate pk header now s ≡ ok u)
unfolding optional_auth authenticate
optional_auth_iff pk none now s u = ((λ h. cc), (λ h. cc))
optional_auth_iff pk (some token) now s u = elim (Option-cases (verify_token pk token now)) [
  | inl e ↦ rw e ((λ h. cc), (λ h. cc))
  | inr (claims, e) ↦ elim (Option-cases (user_by_id claims.user_id s)) [
    | inl f ↦ rw (e, f) ((λ h. cc), (λ h. cc))
    | inr (v, f) ↦ rw (e, f) (agree v.is_active v)
  ]
]
  where
    agree :
        (active : Bool) (v : User)
        → (◌≡◌ {A = Option User} (if active then some v else none) (some u))
          ↔ (◌≡◌ {A = Result Refusal User} (throw_if (not active) account_disabled >> ok v) (ok u))
    agree true v = ((λ h. let e : v ≡ u = cc in ap ok e), (λ h. let e : v ≡ u = cc in ap some e))
    agree false v = ((λ h. cc), (λ h. cc))

same_role_iff : (a b : Role) → (same_role a b ≡ true) ↔ (a ≡ b)
same_role_iff student student = ((λ h. refl), (λ h. refl))
same_role_iff faculty faculty = ((λ h. refl), (λ h. refl))
same_role_iff admin admin = ((λ h. refl), (λ h. refl))
same_role_iff student faculty = ((λ h. cc), (λ h. cc))
same_role_iff student admin = ((λ h. cc), (λ h. cc))
same_role_iff faculty student = ((λ h. cc), (λ h. cc))
same_role_iff faculty admin = ((λ h. cc), (λ h. cc))
same_role_iff admin student = ((λ h. cc), (λ h. cc))
same_role_iff admin faculty = ((λ h. cc), (λ h. cc))

any-In : (r : Role) (roles : List Role) → (any (same_role r) roles ≡ true) ↔ In r roles
any-In r [] = ((λ h. cc), (λ h. elim h [ ]))
any-In r (x ∷ xs) = elim (Bool-cases (same_role r x)) [
  | inl e ↦ rw e ((λ h. inl ((same_role_iff r x).0 e)), (λ h. refl))
  | inr e ↦ rw e (
    (λ h. inr ((any-In r xs).0 h)),
    (λ h. elim h [ inl same ↦ cc_of r x e same xs | inr i ↦ (any-In r xs).1 i ]),
  )
]
  where
    cc_of :
        (r x : Role)
        → same_role r x ≡ false
        → r ≡ x
        → (xs : List Role) → any (same_role r) xs ≡ true
    cc_of r x e same xs = let hit = (same_role_iff r x).1 same in cc

-- `authorize` lets a request pass exactly when it carries a user whose role is one of those allowed.
pub authorize_iff :
    (roles : List Role) (user : Option User)
    → (authorize roles user ≡ ok tt) ↔ ((u : User) × (user ≡ some u) × In u.role roles)
unfolding authorize
authorize_iff roles none = ((λ h. cc), (λ (u, e, i). cc))
authorize_iff roles (some u) = elim (Bool-cases (any (same_role u.role) roles)) [
  | inl e ↦ rw e ((λ h. (u, refl, (any-In u.role roles).0 e)), (λ h. refl))
  | inr e ↦ rw e (
    (λ h. cc),
    (λ (v, same, i).
        let eq : u ≡ v = cc in
        let hit = (any-In v.role roles).1 i in
        let here = ap (λ (x : User). any (same_role x.role) roles) eq in cc),
  )
]
