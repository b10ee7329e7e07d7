-- ===== src/Enrolment/Tests.antt =====
-- Runs of an enrolment: one member with a consent and two photos, of which one is too large.
use face_cam.Prelude.{Option, arith, ℕ, ◌+◌, refl, false, none, some, List, [], ◌∷◌, codes}
use face_cam.Prelude.Errors.{Result, ok}
use face_cam.Enums.{MemberStatus, org_admin}
use face_cam.Context.{RequestStore}
use face_cam.Rows.{Member, FaceTemplate}
use face_cam.Store.{Table}
use face_cam.Store.Keyed.{Rows, keyed, holding, running}
use face_cam.Face.{Image, Devices, EnrolmentResult, too_large}
use face_cam.Enrolment.{enrol}
use face_cam.Enrolment.Gates.{IsEnrolled, enrol-IsEnrolled}

abbrev members : Table (Member ℕ) (λ m. m.id)
members = keyed (λ m. m.id)

abbrev faces : Table FaceTemplate (λ f. f.id)
faces = keyed (λ f. f.id)

-- The devices count their calls; `reached` says whether the engine is there.
abbrev devices : Result (Unit {0}) → Devices ℕ
devices reached = record {
  add_face = λ key subject image n. (ok (codes "i"), n + 1);
  delete_subject = λ key subject n. (reached, n + 1);
  put = λ key image n. (ok tt, n + 1);
  delete = λ key n. (ok tt, n + 1);
  score = λ image. record { score = none; ready = false };
  enforcing = false;
  storage_key = λ member_id n. codes "k";
  subject_for = λ member_id code. code;
  tenant_api_key = λ t n. ok (some (codes "key"));
}

abbrev bob : Member ℕ
bob = record {
  id = 5;
  tenant_id = 7;
  code = codes "B1";
  full_name = codes "Bob";
  email = none;
  phone = none;
  status = MemberStatus.active;
  attributes = 0;
  consent_at = some 10;
  consent_version = some (codes "v1");
  consent_recorded_by = some 1;
  consent_withdrawn_at = none;
  consent_withdrawn_reason = none;
  face_enrolled_at = some 20;
  archived_at = none;
}

abbrev face : FaceTemplate
face = record {
  id = 9;
  tenant_id = 7;
  member_id = 5;
  compreface_image_id = some (codes "i");
  compreface_subject = some (codes "5|B1");
  image_ref = some (codes "k");
  spoof_score = none;
  enrolled_by = some 1;
}

abbrev other_face : FaceTemplate
other_face = record face { id = 11; member_id = 6 }

abbrev inside : RequestStore
inside = record {
  correlation_id = codes "c1";
  tenant_id = some 7;
  tenant_slug = none;
  user_id = some 1;
  user_role = some org_admin;
  platform_scope = false;
}

abbrev ms : Rows (λ (m : Member ℕ). m.id)
ms = holding (λ m. m.id) (bob ∷ [])

abbrev fs : Rows (λ (f : FaceTemplate). f.id)
fs = holding (λ f. f.id) (face ∷ other_face ∷ [])

abbrev photos : List Image
photos =
    record { bytes = []; byte_length = 100 } ∷ record { bytes = []; byte_length = 6000000 } ∷ []

abbrev enrolled : EnrolmentResult
enrolled = record {
  member_id = 5;
  enrolled = 1;
  failed = (1, too_large) ∷ [];
  face_enrolled_at = 70;
}

abbrev after_photos :
    Result EnrolmentResult
    × (Option RequestStore
        × (Rows (λ (m : Member ℕ). m.id) × Rows (λ (f : FaceTemplate). f.id) × ℕ))
after_photos =
    enrol members faces (devices (ok tt)) (λ n. 20 + n) 70 5 none photos (some inside, (ms, fs, 0))

enrol-IsEnrolled_example :
    IsEnrolled members faces
      (devices (ok tt))
      (λ n. 20 + n)
      70
      7
      5
      photos
      ms
      enrolled
      after_photos.1.1.0
      after_photos.1.1.1
unfolding enrol face_cam.Store.Keyed.first face_cam.Store.Keyed.added face_cam.Store.Keyed.at
enrol-IsEnrolled_example =
    enrol-IsEnrolled members faces (devices (ok tt)) (λ n. 20 + n) 70 7 5 none photos (some inside)
      after_photos.1.0 ms after_photos.1.1.0 fs after_photos.1.1.1 0 after_photos.1.1.2 enrolled
      (λ a b same. omega arith) refl refl refl
