-- ===== src/Auth/Portal.antt =====
-- Credentials open one portal only.
use face_cam.Prelude.{
  ℕ, ◌≡◌, inl, inr, true, Option, none, some, text_eq, text_eq_iff, opt_eq_iff, arith, Option-cases,
}
use face_cam.Prelude.Errors.{ok}
use face_cam.Session.{LoginInput}
use face_cam.Context.{RequestStore}
use face_cam.Rows.{Tenant, User}
use face_cam.Store.{Table}
use face_cam.Auth.{
  Crypto, Session, AuthState, id_of, slug_of, portal, email_in, has_id, success, IsUsable,
  to_session_user, access_claims, refresh_claims, sign_in, login,
}

module _ (tenants : Table Tenant (λ t. t.id)) (users : Table User (λ u. u.id))
    (crypto : Crypto) where
  -- A tenant that is stored, or none.
  abbrev pub Resolves : tenants.State → Option Tenant → Type 0
  Resolves ts none = Unit
  Resolves ts (some t) = tenants.find_unique ts t.id ≡ some t

  -- The account behind a session, and the state that the login leaves.
  pub record IsSignedIn (now : ℕ) (input : LoginInput) (r : RequestStore) (ts : tenants.State)
      (us : users.State) (session : Session)
      (st : Option RequestStore × AuthState tenants users crypto) : Type 0 where
    pub user : User
    pub tenant : Option Tenant
    pub resolves : Resolves ts tenant
    pub stored : users.find_unique us user.id ≡ some user
    pub email : user.email ≡ input.email
    pub confined : user.tenant_id ≡ id_of tenant
    pub slug : slug_of tenant ≡ portal input
    pub password : crypto.verify_password user.password_hash input.password ≡ true
    pub usable : IsUsable now user
    pub shown : session.user ≡ to_session_user user tenant
    pub access : session.access_token ≡ crypto.sign_access now (access_claims user tenant)
    pub left : st ≡ (some r, (ts, users.update_many (has_id user.id) (success now) us))
    pub renewal : session.refresh_token ≡ crypto.sign_refresh now (refresh_claims user)

  sign_in_sound :
      (now : ℕ) (input : LoginInput) (tenant : Option Tenant) (r : RequestStore)
      (ts : tenants.State) (us : users.State) (session : Session)
      (st : Option RequestStore × AuthState tenants users crypto)
      → slug_of tenant ≡ portal input
      → Resolves ts tenant
      → sign_in tenants users crypto now input tenant (some r, (ts, us)) ≡ (ok session, st)
      → IsSignedIn now input r ts us session st
  unfolding sign_in
  sign_in_sound now input tenant r ts us session st named there e =
      elim (Option-cases (users.find_first us (email_in input.email (id_of tenant)))) [
        | inl unknown ↦ absurd (ground arith)
        | inr (user, found) ↦
            let (stored, passed) =
              users.find_first_sound us (email_in input.email (id_of tenant)) user found in
            record {
              user = user;
              tenant = tenant;
              resolves = there;
              stored = stored;
              email = ground (arith, text_eq_iff user.email input.email);
              confined = ground (arith, opt_eq_iff user.tenant_id (id_of tenant));
              slug = named;
              password = ground arith;
              usable = ground arith;
              shown = ground arith;
              access = ground arith;
              left = ground arith;
              renewal = ground arith;
            }
      ]

  -- A login that returns a session has found an account with the given address in exactly the
  -- portal that the request names: the organization with that slug, or the platform where it names
  -- none. The password fits, the account is neither locked nor disabled, and the session and both
  -- tokens carry that account's id, role, tenant and token version.
  -- Beyond clearing that account's failures and stamping the login, nothing is written.
  pub login-IsSignedIn :
      (now : ℕ) (input : LoginInput) (r : RequestStore) (ts : tenants.State) (us : users.State)
      (session : Session) (st : Option RequestStore × AuthState tenants users crypto)
      → login tenants users crypto now input (some r, (ts, us)) ≡ (ok session, st)
      → IsSignedIn now input r ts us session st
  unfolding login
  login-IsSignedIn now input r ts us session st e = elim (Option-cases (portal input)) [
    | inl platform ↦
        sign_in_sound now input none r ts us session st (ground arith) tt (ground arith)
    | inr (slug, named) ↦ elim (Option-cases (tenants.find_first ts (λ t. text_eq t.slug slug))) [
      | inl unknown ↦ absurd (ground arith)
      | inr (t, found) ↦
          let (there, same) = tenants.find_first_sound ts (λ q. text_eq q.slug slug) t found in
          let fits = (text_eq_iff t.slug slug).0 same in
          sign_in_sound now input (some t) r ts us session st (ground arith) there (ground arith)
    ]
  ]
