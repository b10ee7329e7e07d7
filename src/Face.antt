-- ===== src/Face.antt =====
-- Face data: apps/api/src/face/enrolment.service.ts and apps/api/src/face/face-data.service.ts.
-- The face engine and the image store are outside of the repository: `Devices` has their calls on
-- a state of their own. Scores are probabilities that the code only compares: numbers, in parts of
-- a fixed whole.
pub mod Erasure
pub mod Views
mod Tests
use face_cam.Prelude.{
  ℕ, zero, suc, ◌+◌, ◌*◌, ◌≡◌, Bool, true, false, ◌&&◌, not, Option, none, some, List, [], ◌∷◌,
  ◌++◌, length, every, is_some, is_empty, Text, ltb, ◌==◌, if◌then◌else◌,
}
use face_cam.Prelude.Errors.{
  Error, Result, ok, err, Action, ◌>>=◌, ◌>>◌, pure, throw, throw_if, or_throw, gets, modify,
  not_found, no_tenant, missing_tenant, platform_scope, too_few_images, too_many_images,
  consent_required, face_engine_not_provisioned, enrolment_failed,
}
use face_cam.Context.{scoped, RequestStore, Call, tenant_id_of, user_id_of, is_platform_scope}
use face_cam.Rows.{Member, FaceTemplate, TenantSettings}
use face_cam.Store.{Table}

pub record Image : Type 0 where
  pub bytes : List ℕ
  pub byte_length : ℕ

pub record SpoofResult : Type 0 where
  pub score : Option ℕ
  pub ready : Bool

pub record Devices (X : Type 0) : Type 0 where
  -- `compreface.addFace(apiKey, subject, image)`, with the id of the stored face
  pub add_face : Text → Text → Image → X → Result Text × X
  -- `compreface.deleteSubject(apiKey, subject)`
  pub delete_subject : Text → Text → X → Result (Unit {0}) × X
  -- `storage.put(key, image)` and `storage.delete(key)`
  pub put : Text → Image → X → Result (Unit {0}) × X
  pub delete : Text → X → Result (Unit {0}) × X
  -- `antiSpoof.score(image)`, which does not throw, and `antiSpoof.enforcing`
  pub score : Image → SpoofResult
  pub enforcing : Bool
  -- `buildStorageKey` with a fresh UUID, for the image with this number
  pub storage_key : ℕ → ℕ → Text
  -- `${memberId}|${code}`.slice(0, 200)
  pub subject_for : ℕ → Text → Text
  -- `tenantApiKey()` of a tenant; it throws if the stored key cannot be decrypted
  pub tenant_api_key : ℕ → X → Result (Option Text)

abbrev pub min_images : ℕ
min_images = 2

abbrev pub max_images : ℕ
max_images = 8

abbrev pub max_image_bytes : ℕ
max_image_bytes = 5 * 1024 * 1024

pub data Reason : Type 0 where
  too_large looks_spoofed : Reason
  -- `readableFailure` of what was thrown
  thrown : Error → Reason

pub record EnrolmentResult : Type 0 where
  pub member_id : ℕ
  pub enrolled : ℕ
  pub failed : List (ℕ × Reason)
  pub face_enrolled_at : ℕ

pub record FaceErasureReport : Type 0 where
  pub member_id : ℕ
  pub templates_removed : ℕ
  pub images_removed : ℕ
  pub compreface_cleared : Bool

-- The member, or the templates of the member, that the tenant-scoped client sees.
abbrev pub own_member : {A : Type 0} → ℕ → ℕ → Member A → Bool
own_member t id m = m.id == id && m.tenant_id == t

abbrev pub own_face : ℕ → ℕ → FaceTemplate → Bool
own_face t member_id f = f.member_id == member_id && f.tenant_id == t

-- `spoof.score > threshold`, where both are there.
abbrev pub exceeds : Option ℕ → Option ℕ → Bool
exceeds none threshold = false
exceeds (some score) none = false
exceeds (some score) (some threshold) = ltb threshold score

abbrev pub threshold_of : Option TenantSettings → Option ℕ
threshold_of none = none
threshold_of (some settings) = settings.reject_spoof_above

-- `!settings?.storeEmbeddingOnly`
abbrev pub store_images : Option TenantSettings → Bool
store_images none = true
store_images (some settings) = not settings.store_embedding_only

-- `templates.find((t) => t.comprefaceSubject)?.comprefaceSubject`; a stored subject is not empty.
pub first_subject : List FaceTemplate → Option Text
first_subject [] = none
first_subject (f ∷ fs) = elim f.compreface_subject [ none ↦ first_subject fs | some s ↦ some s ]

-- What the three operations write into the member's row.
abbrev pub forget_faces : {A : Type 0} → Member A → Member A
forget_faces m = record m { face_enrolled_at = none }

abbrev pub withdrawn : {A : Type 0} → ℕ → Option Text → Member A → Member A
withdrawn now reason m = record m {
  consent_at = none;
  consent_version = none;
  consent_recorded_by = none;
  consent_withdrawn_at = some now;
  consent_withdrawn_reason = reason;
}

abbrev pub consenting : {A : Type 0} → ℕ → Text → Option ℕ → Member A → Member A
consenting now version user m = record m {
  consent_at = some now;
  consent_version = some version;
  consent_recorded_by = user;
  consent_withdrawn_at = none;
  consent_withdrawn_reason = none;
}

module _ {A X : Type 0} (members : Table (Member A) (λ m. m.id))
    (faces : Table FaceTemplate (λ f. f.id)) (devices : Devices X) where
  abbrev pub FaceState : Type 0
  FaceState = members.State × faces.State × X

  unfoldable pub find_member : ℕ → ℕ → Call FaceState (Option (Member A))
  find_member t id = gets (λ st. members.find_first st.1.0 (own_member t id))

  unfoldable pub set_member : ℕ → ℕ → (Member A → Member A) → Call FaceState (Unit {0})
  set_member t id f =
      modify (λ st. (st.0, (members.update_many (own_member t id) f st.1.0, st.1.1, st.1.2)))

  -- A call of a device.
  device : {B : Type 0} → (X → Result B × X) → Call FaceState B
  device call (ctx, (ms, fs, x)) = let (r, x') = call x in (r, (ctx, (ms, fs, x')))

  -- The deletion of the stored images, whose failures are logged and passed over.
  pub delete_images : List FaceTemplate → ℕ → X → ℕ × X
  delete_images [] n x = (n, x)
  delete_images (f ∷ fs) n x = elim f.image_ref [
    | none ↦ delete_images fs n x
    | some key ↦
        let (r, x') = devices.delete key x in
        delete_images fs (elim r [ ok _ ↦ n + 1 | err _ ↦ n ]) x'
  ]

  -- The first step of `eraseMemberFaces`: the engine, which may throw.
  pub clear_engine : Option Text → List FaceTemplate → X → Result Bool × X
  unfolding first_subject
  clear_engine none templates x =
      (ok (every (λ f. not (is_some f.compreface_image_id)) templates), x)
  clear_engine (some key) templates x = elim (first_subject templates) [
    | none ↦ (ok true, x)
    | some subject ↦
        let (r, x') = devices.delete_subject key subject x in
        (elim r [ ok _ ↦ ok true | err e ↦ err e ], x')
  ]

  -- The images and the rows, once the engine has answered.
  pub erase_rows : ℕ → ℕ → List FaceTemplate → Bool → Call FaceState FaceErasureReport
  unfolding delete_images set_member
  erase_rows t member_id templates cleared (ctx, (ms, fs, x)) =
      let (images, x') = delete_images templates 0 x in
      (set_member t member_id forget_faces
          >> pure (record {
            member_id = member_id;
            templates_removed = length templates;
            images_removed = images;
            compreface_cleared = cleared;
          }))
        (ctx, (ms, faces.delete_many (own_face t member_id) fs, x'))

  pub erase_member_faces : ℕ → Call FaceState FaceErasureReport
  unfolding find_member device
  erase_member_faces member_id = scoped (λ t. do
    member ← find_member t member_id
    or_throw member not_found
    templates ← gets (λ st. faces.find_many st.1.1 (own_face t member_id))
    if is_empty templates
        then pure (record {
          member_id = member_id;
          templates_removed = 0;
          images_removed = 0;
          compreface_cleared = true;
        })
        else (do
          key ← device (λ x. (devices.tenant_api_key t x, x))
          cleared ← device (clear_engine key templates)
          erase_rows t member_id templates cleared))

  pub withdraw_consent : ℕ → ℕ → Option Text → Call FaceState FaceErasureReport
  unfolding set_member
  withdraw_consent now member_id reason = do
    report ← erase_member_faces member_id
    scoped (λ t. set_member t member_id (withdrawn now reason))
    pure report

  unfoldable pub record_consent : ℕ → ℕ → Text → Call FaceState (Unit {0})
  unfolding find_member set_member
  record_consent now member_id version = scoped (λ t. do
    member ← find_member t member_id
    or_throw member not_found
    user ← gets (λ st. user_id_of st.0)
    set_member t member_id (consenting now version user))
