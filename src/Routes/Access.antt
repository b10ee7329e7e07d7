-- ===== src/Routes/Access.antt =====
-- Who may use which route of the API: the decorators of the controllers, read by the guards.
use face_cam.Prelude.{
  ℕ, ◌≡◌, refl, sym, ap, ◌∙◌, Bool, true, false, ◌&&◌, ◌||◌, not, Option, some, List, [], ◌∷◌,
  every, Text, codes, text_eq, starts_with, arith,
}
use mathlib.Core.List.{Memᴰ}
use face_cam.Prelude.Errors.{ok}
use face_cam.Enums.{UserRole, super_admin, org_admin, operator, TenantStatus}
use face_cam.Session.{AccessTokenClaims}
use face_cam.Context.{RequestStore, assign}
use face_cam.Guards.{Request, is_read, extract_token, claims_patch, role_allowed, admit}
use face_cam.Guards.Admission.{admit-IsAdmitted}
use face_cam.Routes.{Endpoint, route_of}
use face_cam.Routes.Table.{endpoints}

-- The permissions that the platform promises: the console to super admins, an organization's members,
-- fields and faces to its admins, of these the members and fields to operators for reading, and to
-- everyone who is signed in their own session.
abbrev pub may : UserRole → Endpoint → Bool
may super_admin e = starts_with (codes "auth/") e.path || starts_with (codes "admin/") e.path
may org_admin e = starts_with (codes "auth/") e.path || starts_with (codes "member") e.path
may operator e =
    starts_with (codes "auth/") e.path
    || (is_read e.method
        && (text_eq e.path (codes "members")
            || text_eq e.path (codes "members/:id")
            || text_eq e.path (codes "member-fields")))

same : Bool → Bool → Bool
same true b = b
same false b = not b

same_sound : (a b : Bool) → same a b ≡ true → a ≡ b
unfolding same
same_sound true b e = sym e
same_sound false true e = absurd (ground arith)
same_sound false false e = refl

fits_policy : UserRole → Endpoint → Bool
unfolding same route_of
fits_policy role e =
    let route = route_of e in
    route.is_public || same (role_allowed route.required_roles (some role)) (may role e)

first_true : (a b : Bool) → (a && b) ≡ true → a ≡ true
first_true true b e = refl
first_true false b e = e

rest_true : (a b : Bool) → (a && b) ≡ true → b ≡ true
rest_true true b e = e
rest_true false b e = absurd (ground arith)

pub every_sound :
    (p : Endpoint → Bool) (es : List Endpoint) (e : Endpoint)
    → every p es ≡ true
    → Memᴰ e es
    → p e ≡ true
every_sound p [] e all x = elim x [ ]
every_sound p (f ∷ es) e all (Memᴰ.head here) = ap p here ∙ first_true (p f) (every p es) all
every_sound p (f ∷ es) e all (Memᴰ.tail later) =
    every_sound p es e (rest_true (p f) (every p es) all) later

policy : (role : UserRole) → every (fits_policy role) endpoints ≡ true
unfolding fits_policy
policy super_admin = refl
policy org_admin = refl
policy operator = refl

or_false_left : (a b : Bool) → a ≡ false → (a || b) ≡ true → b ≡ true
or_false_left true b e h = absurd (ground arith)
or_false_left false b e h = h

-- What the decorators ask for is what the role may do.
pub role_allowed-may :
    (role : UserRole) (e : Endpoint)
    → Memᴰ e endpoints
    → (route_of e).is_public ≡ false
    → role_allowed (route_of e).required_roles (some role) ≡ may role e
unfolding fits_policy
role_allowed-may role e listed private =
    let fits = every_sound (fits_policy role) endpoints e (policy role) listed in
    same_sound (role_allowed (route_of e).required_roles (some role)) (may role e) (
      or_false_left (route_of e).is_public
        (same (role_allowed (route_of e).required_roles (some role)) (may role e)) private fits)

module _ {S : Type 0} (verify_access : Text → Option AccessTokenClaims)
    (tenant_status : S → ℕ → Option TenantStatus) where
  -- A request that the guards let through to a route that is not public carries a verified token,
  -- and the route is one that the role in it may use: the console is for super admins only, an
  -- operator only reads members and fields, and a super admin reaches no organization's data.
  pub admit-may :
      (e : Endpoint) (q : Request) (r r' : RequestStore) (s s' : S)
      → Memᴰ e endpoints
      → (route_of e).is_public ≡ false
      → admit verify_access tenant_status (route_of e) q (some r, s) ≡ (ok tt, (some r', s'))
      → (token : Text) × (claims : AccessTokenClaims) × (extract_token q ≡ some token)
        × (verify_access token ≡ some claims)
        × (may claims.role e ≡ true)
        × (r' ≡ assign (claims_patch claims) r)
  admit-may e q r r' s s' listed private passed =
      let (admitted, kept) =
        admit-IsAdmitted verify_access tenant_status (route_of e) q r r' s s' private passed in
      (
        admitted.token,
        admitted.claims,
        admitted.extracted,
        admitted.verified,
        sym (role_allowed-may admitted.claims.role e listed private) ∙ admitted.role,
        admitted.identity,
      )
