-- ===== src/Routes/Consent.antt =====
-- The route that records a consent, `recordConsent` of apps/api/src/face/face.controller.ts.
use face_cam.Prelude.{
  ℕ, ◌≡◌, refl, sym, ap, ◌∙◌, inl, inr, Bool, true, false, Option, some, is_empty, Text, ==_refl,
  ==_iff, if◌then◌else◌, Option-cases, arith,
}
use face_cam.Prelude.Errors.{ok}
use face_cam.Context.{RequestStore, Call, is_platform_scope, tenant_id_of, user_id_of}
use face_cam.Rows.{Member, FaceTemplate}
use face_cam.Store.{Table}
use face_cam.Members.{consent_version}
use face_cam.Face.{Devices, FaceState, own_member, consenting, record_consent}
use face_cam.Face.Views.{has_consent}

-- `consentSchema`
pub record ConsentBody : Type 0 where
  pub granted : Bool
  pub version : Text

-- `body.version || CONSENT_VERSION`
abbrev pub version_or_current : Text → Text
version_or_current version = if is_empty version then consent_version else version

module _ {A X : Type 0} (members : Table (Member A) (λ m. m.id))
    (faces : Table FaceTemplate (λ f. f.id)) (devices : Devices X) where
  pub record_consent_route : ℕ → ℕ → ConsentBody → Call (FaceState members faces devices) (Unit {0})
  record_consent_route now member_id body =
      record_consent members faces devices now member_id (version_or_current body.version)

  own_row :
      (t member_id : ℕ) (ms : members.State) (m : Member A)
      → members.find_unique ms member_id ≡ some m
      → m.tenant_id ≡ t
      → own_member t member_id m ≡ true
  own_row t member_id ms m there theirs =
      ground (arith, ==_refl t, ==_refl member_id, members.find_unique-key ms member_id m there)

  own_found :
      (t member_id : ℕ) (ms : members.State) (m : Member A)
      → members.find_unique ms member_id ≡ some m
      → m.tenant_id ≡ t
      → members.find_first ms (own_member t member_id) ≡ some m
  own_found t member_id ms m there theirs =
      let own = own_row t member_id ms m there theirs in
      elim (Option-cases (members.find_first ms (own_member t member_id))) [
        | inl nobody ↦ absurd (
            ground
              (arith, members.find_first_none ms (own_member t member_id) member_id m nobody there))
        | inr (m', found) ↦
            let (stored, own') = members.find_first_sound ms (own_member t member_id) m' found in
            let key : m'.id ≡ member_id = ground (arith, ==_iff m'.id member_id) in
            found ∙ sym stored ∙ ap (members.find_unique ms) key ∙ there
      ]

  -- Every body that the route accepts records a consent, one whose `granted` is false as well: for a
  -- member of the organization of the request the call returns, the member's row then holds a
  -- consent given now, by the user of the request, and hasConsent answers true.
  pub record_consent_route-consents :
      (now t member_id : ℕ) (body : ConsentBody) (ctx : Option RequestStore) (ms : members.State)
      (fs : faces.State) (x : X) (m : Member A)
      → is_platform_scope ctx ≡ false
      → tenant_id_of ctx ≡ some t
      → members.find_unique ms member_id ≡ some m
      → m.tenant_id ≡ t
      → (ms' : members.State) × (record_consent_route now member_id body (ctx, (ms, fs, x))
          ≡ (ok tt, (ctx, (ms', fs, x))))
        × (members.find_unique ms' member_id
            ≡ some (consenting now (version_or_current body.version) (user_id_of ctx) m))
        × (has_consent members faces devices member_id (ctx, (ms', fs, x))
            ≡ (ok true, (ctx, (ms', fs, x))))
  unfolding record_consent_route record_consent face_cam.Face.find_member face_cam.Face.set_member
      has_consent
  record_consent_route-consents now t member_id body ctx ms fs x m ordinary inside there theirs =
      let version = version_or_current body.version in
      let write = consenting now version (user_id_of ctx) in
      let ms' = members.update_many (own_member t member_id) write ms in
      let there' : members.find_unique ms' member_id ≡ some (write m) =
        rw
          (
            members.find_unique-update_many ms (own_member t member_id) write member_id (λ q. refl),
            there,
            own_row t member_id ms m there theirs,
          )
          refl in
      (
        ms',
        rw (ordinary, inside, own_found t member_id ms m there theirs) refl,
        there',
        rw (ordinary, inside, own_found t member_id ms' (write m) there' theirs) refl,
      )
