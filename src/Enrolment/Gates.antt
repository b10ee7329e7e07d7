-- ===== src/Enrolment/Gates.antt =====
-- What an enrolment asks for, and what it reports.
use face_cam.Prelude.{
  ℕ, ◌+◌, ◌≤◌, ◌≡◌, ◌<◌, ◌≢◌, ◌⊎◌, any_of, inl, inr, refl, true, false, Option, some, List, [], ◌∷◌,
  length, Text, ◌==◌, arith, Option-cases, Bool-cases,
}
use face_cam.Prelude.Errors.{ok}
use face_cam.Context.{RequestStore, user_id_of, tenant_id_of, is_platform_scope}
use face_cam.Rows.{Member, FaceTemplate, TenantSettings}
use face_cam.Store.{Table}
use face_cam.Face.{Image, Devices, EnrolmentResult, min_images, max_images, own_member}
use face_cam.Enrolment.{enrol_image, enrol_all, mark, enrol_in, enrol_gated, enrol}
use face_cam.Enrolment.Photos.{Result-split, IsStored, enrol_all_accounts}

module _ {A X : Type 0} (members : Table (Member A) (λ m. m.id))
    (faces : Table FaceTemplate (λ f. f.id)) (devices : Devices X) where
  counts :
      (new_id : ℕ → ℕ) (t member_id : ℕ) (user : Option ℕ) (api_key subject : Text)
      (settings : Option TenantSettings) (index : ℕ) (images : List Image) (fs : faces.State)
      (x : X)
      → (enrol_all members faces devices new_id t member_id user api_key subject settings index
            images fs x).0.0
          + length
              (enrol_all members faces devices new_id t member_id user api_key subject settings
                index images fs x).0.1
        ≡ length images
  unfolding enrol_all
  counts new_id t member_id user api_key subject settings index [] fs x = refl
  counts new_id t member_id user api_key subject settings index (image ∷ images) fs x =
      let one =
        enrol_image members faces devices (new_id index) t member_id user api_key subject settings
          index image fs x in
      let rest =
        counts new_id t member_id user api_key subject settings (index + 1) images one.1.0
          one.1.1 in
      elim (Option-cases one.0) [
        | inl created ↦ rw (enrol_all, created) (omega (arith, rest))
        | inr (reason, failed) ↦ rw (enrol_all, failed) (omega (arith, rest))
      ]

  -- What an enrolment leaves of its photos and of the member.
  abbrev pub IsKept :
      (ℕ → ℕ)
      → ℕ
      → ℕ
      → ℕ
      → List Image
      → Member A
      → members.State
      → EnrolmentResult
      → members.State
      → faces.State
      → Type 0
  IsKept new_id now t member_id images m ms result ms' fs' =
      ((i : ℕ)
        → i < length images
        → (any_of (λ entry. entry.0 == i) result.failed ≡ true)
          ⊎ IsStored faces t member_id (devices.subject_for m.id m.code) fs' (new_id i))
      × (ms' ≡ members.update_many (own_member t member_id) (mark members faces devices now) ms)

  enrol_in_sound :
      (new_id : ℕ → ℕ) (now t member_id : ℕ) (settings : Option TenantSettings)
      (images : List Image) (m : Member A) (api_key : Text) (ctx ctx' : Option RequestStore)
      (ms ms' : members.State) (fs fs' : faces.State) (x x' : X) (result : EnrolmentResult)
      → ((a b : ℕ) → new_id a ≡ new_id b → a ≡ b)
      → enrol_in members faces devices new_id now t member_id settings images m api_key
          (ctx, (ms, fs, x))
        ≡ (ok result, (ctx', (ms', fs', x')))
      → (result.enrolled ≢ 0)
        × (result.enrolled + length result.failed ≡ length images)
        × IsKept new_id now t member_id images m ms result ms' fs'
  unfolding enrol_in
  enrol_in_sound new_id now t member_id settings images m api_key ctx ctx' ms ms' fs fs' x x' result
        apart e =
      let subject = devices.subject_for m.id m.code in
      let all =
        enrol_all members faces devices new_id t member_id (user_id_of ctx) api_key subject settings
          0 images fs x in
      let law = counts new_id t member_id (user_id_of ctx) api_key subject settings 0 images fs x in
      elim (Bool-cases (all.0.0 == 0)) [
        | inl nobody ↦ absurd (ground arith)
        | inr someone ↦
            let enrolled_same : result.enrolled ≡ all.0.0 = ground arith in
            let failed_same : result.failed ≡ all.0.1 = ground arith in
            let faces_same : fs' ≡ all.1.0 = ground arith in
            (
              λ zero_enrolled. ground arith,
              rw (enrolled_same, failed_same) law,
              (
                λ i below.
                    rw (failed_same, faces_same)
                      (enrol_all_accounts members faces devices new_id t member_id (user_id_of ctx)
                        api_key subject settings 0 images fs x i apart (omega arith) (omega arith)),
                ground arith,
              ),
            )
      ]

  -- What stands behind an enrolment that returns.
  pub record IsEnrolled (new_id : ℕ → ℕ) (now t member_id : ℕ) (images : List Image)
      (ms : members.State) (result : EnrolmentResult) (ms' : members.State) (fs' : faces.State)
      : Type 0 where
    pub member : Member A
    pub since : ℕ
    pub stored : members.find_unique ms member.id ≡ some member
    pub identified : own_member t member_id member ≡ true
    pub consented : member.consent_at ≡ some since
    pub some_enrolled : result.enrolled ≢ 0
    pub counted : result.enrolled + length result.failed ≡ length images
    pub kept : IsKept new_id now t member_id images member ms result ms' fs'
    pub enough : min_images ≤ length images
    pub few : length images ≤ max_images

  -- An enrolment that returns is of a stored member of the request's tenant with a recorded
  -- consent, of two to eight photos. Each photo is reported as failed, or there is a face row for it,
  -- of the tenant and the member, with the id that the engine gave for the member's subject. At least
  -- one is enrolled, the numbers of enrolled and failed ones make up the photos, and of the members
  -- only this one is changed: the time of the enrolment is set. The ids of new rows differ.
  pub enrol-IsEnrolled :
      (new_id : ℕ → ℕ) (now t member_id : ℕ) (settings : Option TenantSettings)
      (images : List Image) (ctx ctx' : Option RequestStore) (ms ms' : members.State)
      (fs fs' : faces.State) (x x' : X) (result : EnrolmentResult)
      → ((a b : ℕ) → new_id a ≡ new_id b → a ≡ b)
      → is_platform_scope ctx ≡ false
      → tenant_id_of ctx ≡ some t
      → enrol members faces devices new_id now member_id settings images (ctx, (ms, fs, x))
        ≡ (ok result, (ctx', (ms', fs', x')))
      → IsEnrolled new_id now t member_id images ms result ms' fs'
  unfolding enrol enrol_gated
  enrol-IsEnrolled new_id now t member_id settings images ctx ctx' ms ms' fs fs' x x' result apart
        ordinary inside e =
      elim (Option-cases (members.find_first ms (own_member t member_id))) [
        | inl gone ↦ absurd (ground arith)
        | inr (m, found) ↦ elim (Option-cases m.consent_at) [
          | inl unasked ↦ absurd (ground arith)
          | inr (since, given) ↦
              elim (Result-split members faces devices (devices.tenant_api_key t x)) [
                | inl (problem, unreadable) ↦ absurd (ground arith)
                | inr (key, known) ↦ elim (Option-cases key) [
                  | inl unprovisioned ↦ absurd (ground arith)
                  | inr (api_key, there) ↦
                      let (stored, own) =
                        members.find_first_sound ms (own_member t member_id) m found in
                      let (positive, counted, kept) =
                        enrol_in_sound new_id now t member_id settings images m api_key ctx ctx' ms
                          ms' fs fs' x x' result apart (ground arith) in
                      record {
                        member = m;
                        since = since;
                        stored = stored;
                        identified = own;
                        consented = given;
                        some_enrolled = positive;
                        counted = counted;
                        kept = kept;
                        enough = ground arith;
                        few = ground arith;
                      }
                ]
              ]
        ]
      ]
