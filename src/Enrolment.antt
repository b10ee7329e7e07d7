-- ===== src/Enrolment.antt =====
-- Enrolling a face: `enrol` of apps/api/src/face/enrolment.service.ts, on the devices and tables of
-- Face.antt. The ids of the rows and the time of the call are arguments.
pub mod Gates
pub mod Photos
mod Tests
use face_cam.Prelude.{
  ℕ, ◌+◌, ◌≡◌, Bool, true, false, ◌&&◌, Option, none, some, List, [], ◌∷◌, length, is_some, Text,
  ltb, ◌==◌, if◌then◌else◌,
}
use face_cam.Prelude.Errors.{
  Error, Result, ok, err, not_found, too_few_images, too_many_images, consent_required,
  face_engine_not_provisioned, enrolment_failed,
}
use face_cam.Context.{scoped, RequestStore, Call, user_id_of}
use face_cam.Rows.{Member, FaceTemplate, TenantSettings}
use face_cam.Store.{Table}
use face_cam.Face.{
  Image, SpoofResult, Devices, FaceState, EnrolmentResult, Reason, too_large, looks_spoofed, thrown,
  min_images, max_images, max_image_bytes, own_member, exceeds, threshold_of, store_images,
}

-- `antiSpoof.enforcing && spoof.ready && spoof.score > threshold`
abbrev pub spoofed : Bool → SpoofResult → Option ℕ → Bool
spoofed enforcing spoof threshold = enforcing && spoof.ready && exceeds spoof.score threshold

module _ {A X : Type 0} (members : Table (Member A) (λ m. m.id))
    (faces : Table FaceTemplate (λ f. f.id)) (devices : Devices X) where
  abbrev pub template_row :
      ℕ → ℕ → ℕ → Option ℕ → Text → Text → Option Text → SpoofResult → FaceTemplate
  template_row id t member_id user image_id subject image_ref spoof = record {
    id = id;
    tenant_id = t;
    member_id = member_id;
    compreface_image_id = some image_id;
    compreface_subject = some subject;
    image_ref = image_ref;
    spoof_score = spoof.score;
    enrolled_by = user;
  }

  -- The raw image, where it is kept: its key, or what the store throws.
  pub keep_image : Bool → Text → Image → X → Result (Option Text) × X
  keep_image false key image x = (ok none, x)
  keep_image true key image x =
      let (r, x') = devices.put key image x in (elim r [ ok _ ↦ ok (some key) | err e ↦ err e ], x')

  -- One round of the loop: a row is created, or the photo has failed for this reason.
  pub enrol_image :
      ℕ
      → ℕ
      → ℕ
      → Option ℕ
      → Text
      → Text
      → Option TenantSettings
      → ℕ
      → Image
      → faces.State
      → X
      → Option Reason × (faces.State × X)
  unfolding keep_image
  enrol_image id t member_id user api_key subject settings index image fs x =
      if ltb max_image_bytes image.byte_length
      then (some too_large, (fs, x))
      else if spoofed devices.enforcing (devices.score image) (threshold_of settings)
      then (some looks_spoofed, (fs, x))
      else (let (added, x₁) = devices.add_face api_key subject image x in
          elim added [
            | err e ↦ (some (thrown e), (fs, x₁))
            | ok image_id ↦
                let (kept, x₂) =
                  keep_image (store_images settings) (devices.storage_key t index) image x₁ in
                elim kept [
                  | err e ↦ (some (thrown e), (fs, x₂))
                  | ok image_ref ↦ (
                    none,
                    (
                      faces.create
                          (template_row id t member_id user image_id subject image_ref
                            (devices.score image))
                          fs,
                      x₂,
                    ),
                  )
                ]
          ])

  -- The loop, from the photo with this number: how many are enrolled, and which have failed.
  pub enrol_all :
      (ℕ → ℕ)
      → ℕ
      → ℕ
      → Option ℕ
      → Text
      → Text
      → Option TenantSettings
      → ℕ
      → List Image
      → faces.State
      → X
      → (ℕ × List (ℕ × Reason)) × (faces.State × X)
  unfolding enrol_image
  enrol_all new_id t member_id user api_key subject settings index [] fs x = ((0, []), (fs, x))
  enrol_all new_id t member_id user api_key subject settings index (image ∷ images) fs x =
      let (outcome, (fs₁, x₁)) =
        enrol_image (new_id index) t member_id user api_key subject settings index image fs x in
      let ((enrolled, failed), end) =
        enrol_all new_id t member_id user api_key subject settings (index + 1) images fs₁ x₁ in
      elim outcome [
        | none ↦ ((enrolled + 1, failed), end)
        | some reason ↦ ((enrolled, (index, reason) ∷ failed), end)
      ]

  abbrev pub mark : ℕ → Member A → Member A
  mark now m = record m { face_enrolled_at = some now }

  -- `enrol`, once the member and the key of the engine are there.
  pub enrol_in :
      (ℕ → ℕ)
      → ℕ
      → ℕ
      → ℕ
      → Option TenantSettings
      → List Image
      → Member A
      → Text
      → Call (FaceState members faces devices) EnrolmentResult
  unfolding enrol_all
  enrol_in new_id now t member_id settings images member api_key (ctx, (ms, fs, x)) =
      let ((enrolled, failed), (fs', x')) =
        enrol_all new_id t member_id (user_id_of ctx) api_key
          (devices.subject_for member.id member.code) settings 0 images fs x in
      if enrolled == 0 then (err enrolment_failed, (ctx, (ms, fs', x'))) else (
        ok (record {
          member_id = member_id;
          enrolled = enrolled;
          failed = failed;
          face_enrolled_at = now;
        }),
        (ctx, (members.update_many (own_member t member_id) (mark now) ms, fs', x')),
      )

  -- The gates of `enrol`, in their order.
  pub enrol_gated :
      (ℕ → ℕ)
      → ℕ
      → ℕ
      → ℕ
      → Option TenantSettings
      → List Image
      → Call (FaceState members faces devices) EnrolmentResult
  unfolding enrol_in
  enrol_gated new_id now t member_id settings images (ctx, (ms, fs, x)) =
      elim (members.find_first ms (own_member t member_id)) [
        | none ↦ (err not_found, (ctx, (ms, fs, x)))
        | some member ↦ elim member.consent_at [
          | none ↦ (err consent_required, (ctx, (ms, fs, x)))
          | some since ↦ elim (devices.tenant_api_key t x) [
            | err e ↦ (err e, (ctx, (ms, fs, x)))
            | ok none ↦ (err face_engine_not_provisioned, (ctx, (ms, fs, x)))
            | ok (some api_key) ↦
                enrol_in new_id now t member_id settings images member api_key (ctx, (ms, fs, x))
          ]
        ]
      ]

  pub enrol :
      (ℕ → ℕ)
      → ℕ
      → ℕ
      → Option TenantSettings
      → List Image
      → Call (FaceState members faces devices) EnrolmentResult
  unfolding enrol_gated
  enrol new_id now member_id settings images st =
      if ltb (length images) min_images
      then (err too_few_images, st)
      else if ltb max_images (length images)
      then (err too_many_images, st)
      else scoped (λ t. enrol_gated new_id now t member_id settings images) st
