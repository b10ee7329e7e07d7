-- ===== src/Guards/Admission.antt =====
-- What a request that passes the guards has shown, and that suspension is not a lockout.
use face_cam.Prelude.{
  ℕ, ◌≡◌, ◌≢◌, ◌⊎◌, inl, inr, ap, sym, ◌∙◌, true, false, Option, none, some, Text, arith,
  Option-cases, Bool-cases,
}
use mathlib.Core.Path.{fun_ext}
use face_cam.Prelude.Errors.{ok, err, tenant_suspended}
use face_cam.Enums.{super_admin, TenantStatus, is_writable, role_eq, role_eq_iff}
use face_cam.Session.{AccessTokenClaims}
use face_cam.Context.{RequestStore, assign}
use face_cam.Guards.{
  Request, Route, is_read, extract_token, non_empty, claims_patch, auth_guard, role_allowed,
  roles_guard, status_blocks, tenant_status_guard, admit,
}

some_pair_eq :
    {A S : Type 0} {a b : A} {s t : S}
    → ◌≡◌ {A = Option A × S} (some a, s) (some b, t)
    → (a ≡ b) × (s ≡ t)
some_pair_eq e = (cc, ap (λ x. x.1) e)

module _ {S : Type 0} (verify_access : Text → Option AccessTokenClaims)
    (tenant_status : S → ℕ → Option TenantStatus) where
  -- The identity that the guards establish for a request: of a verified token, and of no other part
  -- of the request.
  pub record IsAdmitted (route : Route) (q : Request) (r : RequestStore) (s : S) (r' : RequestStore)
      : Type 0 where
    pub token : Text
    pub claims : AccessTokenClaims
    pub extracted : extract_token q ≡ some token
    pub verified : verify_access token ≡ some claims
    pub identity : r' ≡ assign (claims_patch claims) r
    pub role : role_allowed route.required_roles (some claims.role) ≡ true
    pub writable :
        (is_read q.method ≡ true)
        ⊎ (claims.role ≡ super_admin)
        ⊎ (claims.tenant_id ≡ none)
        ⊎ ((t : ℕ) × (claims.tenant_id ≡ some t) × (status_blocks (tenant_status s t) ≡ false))

  auth_guard_sound :
      (route : Route) (q : Request) (r : RequestStore) (s : S) (st : Option RequestStore × S)
      → route.is_public ≡ false
      → auth_guard verify_access route q (some r, s) ≡ (ok tt, st)
      → (token : Text) × (claims : AccessTokenClaims) × (extract_token q ≡ some token)
        × (verify_access token ≡ some claims)
        × (st ≡ (some (assign (claims_patch claims) r), s))
  unfolding auth_guard
  auth_guard_sound route q r s st private e = elim (Option-cases (extract_token q)) [
    | inl absent ↦ absurd (ground arith)
    | inr (token, found) ↦ elim (Option-cases (verify_access token)) [
      | inl bad ↦ absurd (ground arith)
      | inr (claims, good) ↦ (token, claims, found, good, ground arith)
    ]
  ]

  tenant_status_guard_sound :
      (route : Route) (q : Request) (claims : AccessTokenClaims) (r : RequestStore) (s : S)
      → route.is_public ≡ false
      → (tenant_status_guard tenant_status route q (some (assign (claims_patch claims) r), s)).0
        ≡ ok tt
      → (is_read q.method ≡ true)
        ⊎ (claims.role ≡ super_admin)
        ⊎ (claims.tenant_id ≡ none)
        ⊎ ((t : ℕ) × (claims.tenant_id ≡ some t) × (status_blocks (tenant_status s t) ≡ false))
  unfolding tenant_status_guard assign
  tenant_status_guard_sound route q claims r s private e = elim (Bool-cases (is_read q.method)) [
    | inl reads ↦ inl reads
    | inr writes ↦ elim (Bool-cases (role_eq claims.role super_admin)) [
      | inl admin ↦ inr (inl ((role_eq_iff _ _).0 admin))
      | inr other ↦ elim (Option-cases claims.tenant_id) [
        | inl outside ↦ inr (inr (inl outside))
        | inr (t, inside) ↦ inr (inr (inr (t, inside, ground arith)))
      ]
    ]
  ]

  tenant_status_guard_keeps :
      (route : Route) (q : Request) (st : Option RequestStore × S)
      → (tenant_status_guard tenant_status route q st).1 ≡ st
  unfolding tenant_status_guard
  tenant_status_guard_keeps route q (ctx, s) = ground arith

  after_auth :
      (route : Route) (q : Request) (r r' : RequestStore) (s s' : S) (token : Text)
      (claims : AccessTokenClaims)
      → route.is_public ≡ false
      → extract_token q ≡ some token
      → verify_access token ≡ some claims
      → admit verify_access tenant_status route q (some r, s) ≡ (ok tt, (some r', s'))
      → (role_allowed route.required_roles (some claims.role) ≡ true)
        × (tenant_status_guard tenant_status route q (some (assign (claims_patch claims) r), s)
            ≡ (ok tt, (some r', s')))
  unfolding admit auth_guard roles_guard assign
  after_auth route q r r' s s' token claims private found good e = ground arith

  -- A request to a route that is not public and that the guards let through carries a verified
  -- token; the store then holds exactly that token's user, role and tenant; and the role is one that
  -- the route asks for. It is a read, or the caller is a super admin or has no tenant, or the status
  -- of the caller's tenant is writable or there is no such tenant. The guards write nothing else.
  pub admit-IsAdmitted :
      (route : Route) (q : Request) (r r' : RequestStore) (s s' : S)
      → route.is_public ≡ false
      → admit verify_access tenant_status route q (some r, s) ≡ (ok tt, (some r', s'))
      → IsAdmitted route q r s r' × (s' ≡ s)
  unfolding admit auth_guard
  admit-IsAdmitted route q r r' s s' private e = elim (Option-cases (extract_token q)) [
    | inl absent ↦ absurd (ground arith)
    | inr (token, found) ↦ elim (Option-cases (verify_access token)) [
      | inl bad ↦ absurd (ground arith)
      | inr (claims, good) ↦
          let (role, last) = after_auth route q r r' s s' token claims private found good e in
          let (identity, kept) = some_pair_eq (
            sym (ap (λ x. x.1) last)
            ∙ tenant_status_guard_keeps route q (some (assign (claims_patch claims) r), s)) in
          (
            record {
              token = token;
              claims = claims;
              extracted = found;
              verified = good;
              identity = identity;
              role = role;
              writable = tenant_status_guard_sound route q claims r s private (ap (λ x. x.0) last);
            },
            kept,
          )
    ]
  ]

  tenant_status_guard-read :
      (other_status : S → ℕ → Option TenantStatus) (route : Route) (q : Request)
      (st : Option RequestStore × S)
      → is_read q.method ≡ true
      → tenant_status_guard tenant_status route q st ≡ tenant_status_guard other_status route q st
  unfolding tenant_status_guard
  tenant_status_guard-read other_status route q (ctx, s) reads = ground arith

  -- Suspension is not a lockout: whether a read is let through does not depend on any tenant's
  -- status.
  pub admit-read :
      (other_status : S → ℕ → Option TenantStatus) (route : Route) (q : Request)
      (st : Option RequestStore × S)
      → is_read q.method ≡ true
      → admit verify_access tenant_status route q st ≡ admit verify_access other_status route q st
  unfolding admit
  admit-read other_status route q st reads =
      rw (fun_ext (λ mid. tenant_status_guard-read other_status route q mid reads))

  -- A signed-in user who is no super admin cannot write for a tenant whose status is not writable:
  -- the answer is TENANT_SUSPENDED, on every route that is not public and that the role may reach.
  pub admit-suspended :
      (route : Route) (q : Request) (r : RequestStore) (s : S) (token : Text)
      (claims : AccessTokenClaims) (t : ℕ) (status : TenantStatus)
      → route.is_public ≡ false
      → is_read q.method ≡ false
      → non_empty (extract_token q) ≡ some token
      → verify_access token ≡ some claims
      → role_allowed route.required_roles (some claims.role) ≡ true
      → claims.role ≢ super_admin
      → claims.tenant_id ≡ some t
      → tenant_status s t ≡ some status
      → is_writable status ≡ false
      → (admit verify_access tenant_status route q (some r, s)).0 ≡ err tenant_suspended
  unfolding admit auth_guard roles_guard tenant_status_guard assign
  admit-suspended route q r s token claims t status private writes found good allowed role inside
        known blocked =
      ground (arith, role_eq_iff claims.role super_admin)
