-- ===== src/Auth/Revocation.antt =====
-- Refresh tokens: what they renew, and that signing out everywhere revokes them.
use face_cam.Prelude.{
  ℕ, ◌≤◌, ◌≡◌, refl, inl, inr, Option, none, some, Text, ==_refl, arith, Option-cases,
}
use face_cam.Prelude.Errors.{ok, err, invalid_refresh}
use face_cam.Session.{LoginInput, RefreshTokenClaims}
use face_cam.Context.{RequestStore}
use face_cam.Rows.{Tenant, User}
use face_cam.Store.{Table}
use face_cam.Auth.{
  Crypto, Session, AuthState, id_of, success, next_version, has_id, IsUsable, to_session_user,
  access_claims, refresh_claims, login, refresh, logout_everywhere,
}
use face_cam.Auth.Portal.{Resolves, login-IsSignedIn}

module _ (tenants : Table Tenant (λ t. t.id)) (users : Table User (λ u. u.id))
    (crypto : Crypto) where
  -- The account that a refresh token renews.
  pub record IsRenewed (now : ℕ) (token : Text) (us : users.State) (session : Session)
      : Type 0 where
    pub claims : RefreshTokenClaims
    pub user : User
    pub verified : crypto.verify_refresh now token ≡ some claims
    pub stored : users.find_unique us claims.sub ≡ some user
    pub current : user.token_version ≡ claims.ver
    pub usable : IsUsable now user
    pub shown : session.user.id ≡ user.id
    pub confined : session.user.tenant_id ≡ user.tenant_id
    pub renewal : session.refresh_token ≡ crypto.sign_refresh now (refresh_claims user)

  -- A refresh that returns a session has a verified token, whose version is the stored account's
  -- present one; the account is neither locked nor disabled; the new session is that account's, in
  -- its own tenant, and nothing is written.
  pub refresh-IsRenewed :
      (now : ℕ) (token : Text) (r : RequestStore) (ts : tenants.State) (us : users.State)
      (session : Session) (st : Option RequestStore × AuthState tenants users crypto)
      → refresh tenants users crypto now token (some r, (ts, us)) ≡ (ok session, st)
      → IsRenewed now token us session × (st ≡ (some r, (ts, us)))
  unfolding refresh
  refresh-IsRenewed now token r ts us session st e =
      elim (Option-cases (crypto.verify_refresh now token)) [
        | inl bad ↦ absurd (ground arith)
        | inr (claims, verified) ↦ elim (Option-cases (users.find_unique us claims.sub)) [
          | inl gone ↦ absurd (ground arith)
          | inr (user, stored) ↦ elim (Option-cases user.tenant_id) [
            | inl platform ↦ (
              record {
                claims = claims;
                user = user;
                verified = verified;
                stored = stored;
                current = ground arith;
                usable = ground arith;
                shown = ground arith;
                confined = ground arith;
                renewal = ground arith;
              },
              ground arith,
            )
            | inr (t, inside) ↦ (
              record {
                claims = claims;
                user = user;
                verified = verified;
                stored = stored;
                current = ground arith;
                usable = ground arith;
                shown = ground arith;
                confined = ground arith;
                renewal = ground arith;
              },
              ground arith,
            )
          ]
        ]
      ]

  -- After signing out everywhere, no refresh token that was issued to the account up to then is
  -- accepted, at any time.
  pub refresh-logout_everywhere :
      (now : ℕ) (token : Text) (claims : RefreshTokenClaims) (r : RequestStore) (ts : tenants.State)
      (us : users.State) (u : User)
      → crypto.verify_refresh now token ≡ some claims
      → users.find_unique us claims.sub ≡ some u
      → claims.ver ≤ u.token_version
      → (refresh tenants users crypto now token
          (logout_everywhere tenants users crypto claims.sub (some r, (ts, us))).1).0
        ≡ err invalid_refresh
  unfolding refresh logout_everywhere
  refresh-logout_everywhere now token claims r ts us u verified stored issued =
      let moved : users.find_unique (users.update_many (has_id claims.sub) next_version us)
            claims.sub
          ≡ some (next_version u) =
        rw
          (
            users.find_unique-update_many us (has_id claims.sub) next_version claims.sub
                (λ q. refl),
            stored,
          )
          (ground (arith, users.find_unique-key us claims.sub u stored)) in
      ground arith

  abbrev pub renewed_session : ℕ → User → Option Tenant → Session
  renewed_session now u tenant = record {
    user = to_session_user u tenant;
    access_token = crypto.sign_access now (access_claims u tenant);
    refresh_token = crypto.sign_refresh now (refresh_claims u);
  }

  pub refresh-right :
      (now : ℕ) (token : Text) (tenant : Option Tenant) (r : RequestStore) (ts : tenants.State)
      (us : users.State) (u : User)
      → crypto.verify_refresh now token ≡ some (refresh_claims u)
      → users.find_unique us u.id ≡ some u
      → IsUsable now u
      → u.tenant_id ≡ id_of tenant
      → Resolves tenants users crypto ts tenant
      → refresh tenants users crypto now token (some r, (ts, us))
        ≡ (ok (renewed_session now u tenant), (some r, (ts, us)))
  unfolding refresh
  refresh-right now token none r ts us u verified stored usable inside there =
      ground (arith, ==_refl u.token_version)
  refresh-right now token (some t) r ts us u verified stored usable inside there =
      ground (arith, ==_refl u.token_version)

  -- The account that a login leaves: any refresh token that verifies as one of it renews the session.
  pub record IsRenewable (now : ℕ) (session : Session)
      (st : Option RequestStore × AuthState tenants users crypto) : Type 0 where
    pub user : User
    pub tenant : Option Tenant
    pub shown : session.user ≡ to_session_user user tenant
    pub issued : session.refresh_token ≡ crypto.sign_refresh now (refresh_claims user)
    pub renews :
        (later : ℕ) (token : Text)
        → crypto.verify_refresh later token ≡ some (refresh_claims user)
        → refresh tenants users crypto later token st ≡ (ok (renewed_session later user tenant), st)

  pub login-IsRenewable :
      (now : ℕ) (input : LoginInput) (r : RequestStore) (ts : tenants.State) (us : users.State)
      (session : Session) (st : Option RequestStore × AuthState tenants users crypto)
      → login tenants users crypto now input (some r, (ts, us)) ≡ (ok session, st)
      → IsRenewable now session st
  login-IsRenewable now input r ts us session st e =
      let g = login-IsSignedIn tenants users crypto now input r ts us session st e in
      let u' = success now g.user in
      let us' = users.update_many (has_id g.user.id) (success now) us in
      let stored : users.find_unique us' u'.id ≡ some u' =
        rw
          (
            users.find_unique-update_many us (has_id g.user.id) (success now) g.user.id (λ q. refl),
            g.stored,
            ==_refl g.user.id,
          )
          refl in
      record {
        user = u';
        tenant = g.tenant;
        shown = g.shown;
        issued = g.renewal;
        renews = λ later token verified. rw g.left (
            refresh-right later token g.tenant r ts us' u' verified stored (refl, g.usable.1)
              g.confined g.resolves);
      }
