-- ===== src/Routes/Tests.antt =====
-- Runs of the guards on routes of the API, and of the route that records a consent.
use face_cam.Prelude.{
  ℕ, ◌+◌, ◌≡◌, refl, true, false, Option, none, some, [], ◌∷◌, Text, codes, text_eq, if◌then◌else◌,
}
use mathlib.Core.List.{Memᴰ}
use face_cam.Prelude.Errors.{ok}
use face_cam.Enums.{operator, org_admin, MemberStatus, TenantStatus, trial}
use face_cam.Session.{AccessTokenClaims}
use face_cam.Context.{RequestStore, opened, assign}
use face_cam.Rows.{Member, FaceTemplate}
use face_cam.Store.{Table}
use face_cam.Store.Keyed.{Rows, keyed, holding, at, guarded}
use face_cam.Guards.{
  get, Request, claims_patch, auth_guard, roles_guard, tenant_status_guard, extract_token, admit,
}
use face_cam.Face.{Devices, consenting}
use face_cam.Face.Views.{has_consent}
use face_cam.Routes.{route_of}
use face_cam.Routes.Table.{members_list}
use face_cam.Routes.Access.{may, admit-may}
use face_cam.Routes.Consent.{ConsentBody, record_consent_route, record_consent_route-consents}

abbrev claims : AccessTokenClaims
claims = record {
  sub = 3;
  role = operator;
  tenant_id = some 7;
  tenant_slug = some (codes "acme");
  ver = 0;
}

abbrev verify : Text → Option AccessTokenClaims
verify token = if text_eq token (codes "good") then some claims else none

abbrev in_trial : ℕ → ℕ → Option TenantStatus
in_trial s id = some trial

abbrev look : Request
look = record { method = get; access_cookie = some (codes "good"); authorization = none }

abbrev r : RequestStore
r = opened (codes "c1")

admit-may_example :
    (token : Text) × (found : AccessTokenClaims) × (extract_token look ≡ some token)
    × (verify token ≡ some found)
    × (may found.role members_list ≡ true)
    × (assign (claims_patch claims) r ≡ assign (claims_patch found) r)
unfolding admit auth_guard roles_guard tenant_status_guard extract_token assign route_of
admit-may_example =
    admit-may verify in_trial members_list look r (assign (claims_patch claims) r) 0 0
      (Memᴰ.head refl) refl refl

abbrev members : Table (Member ℕ) (λ m. m.id)
members = keyed (λ m. m.id)

abbrev faces : Table FaceTemplate (λ f. f.id)
faces = keyed (λ f. f.id)

abbrev devices : Devices ℕ
devices = record {
  add_face = λ key subject image n. (ok (codes "i"), n + 1);
  delete_subject = λ key subject n. (ok tt, n + 1);
  put = λ key image n. (ok tt, n + 1);
  delete = λ key n. (ok tt, n + 1);
  score = λ image. record { score = none; ready = false };
  enforcing = false;
  storage_key = λ member_id n. codes "k";
  subject_for = λ member_id code. code;
  tenant_api_key = λ t n. ok (some (codes "key"));
}

abbrev bob : Member ℕ
bob = record {
  id = 5;
  tenant_id = 7;
  code = codes "B1";
  full_name = codes "Bob";
  email = none;
  phone = none;
  status = MemberStatus.active;
  attributes = 0;
  consent_at = none;
  consent_version = none;
  consent_recorded_by = none;
  consent_withdrawn_at = none;
  consent_withdrawn_reason = none;
  face_enrolled_at = none;
  archived_at = none;
}

abbrev inside : Option RequestStore
inside = some (record r { tenant_id = some 7; user_id = some 1; user_role = some org_admin })

abbrev ms : Rows (λ (m : Member ℕ). m.id)
ms = holding (λ m. m.id) (bob ∷ [])

abbrev fs : Rows (λ (f : FaceTemplate). f.id)
fs = holding (λ f. f.id) []

-- The member refuses.
abbrev refusal : ConsentBody
refusal = record { granted = false; version = codes "v1" }

record_consent_route-consents_example :
    (ms' : members.State) × (record_consent_route members faces devices 90 5 refusal
        (inside, (ms, fs, 0))
      ≡ (ok tt, (inside, (ms', fs, 0))))
    × (members.find_unique ms' 5 ≡ some (consenting 90 (codes "v1") (some 1) bob))
    × (has_consent members faces devices 5 (inside, (ms', fs, 0))
        ≡ (ok true, (inside, (ms', fs, 0))))
unfolding at guarded face_cam.Store.Keyed.added
record_consent_route-consents_example =
    record_consent_route-consents members faces devices 90 7 5 refusal inside ms fs 0 bob refl refl
      refl refl
