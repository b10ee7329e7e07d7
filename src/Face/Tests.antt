-- ===== src/Face/Tests.antt =====
-- Runs of a withdrawal of consent: one member with one face, whose images the store forgets; the
-- engine answers, or is out of reach.
use face_cam.Prelude.{ℕ, ◌+◌, ◌≡◌, refl, true, false, Option, none, some, [], ◌∷◌, Text, codes}
use face_cam.Prelude.Errors.{Result, ok, err, enrolment_failed}
use face_cam.Enums.{MemberStatus, org_admin}
use face_cam.Context.{RequestStore}
use face_cam.Rows.{Member, FaceTemplate}
use face_cam.Store.{Table}
use face_cam.Store.Keyed.{Rows, keyed, holding, running}
use face_cam.Face.{
  Image, SpoofResult, Devices, FaceErasureReport, FaceState, own_face, withdraw_consent,
  clear_engine, erase_member_faces, withdrawn, forget_faces,
}
use face_cam.Face.Erasure.{withdraw_consent-erases, withdraw_consent_fails}

abbrev members : Table (Member ℕ) (λ m. m.id)
members = keyed (λ m. m.id)

abbrev faces : Table FaceTemplate (λ f. f.id)
faces = keyed (λ f. f.id)

-- The devices count their calls; `reached` says whether the engine is there.
abbrev devices : Result (Unit {0}) → Devices ℕ
devices reached = record {
  add_face = λ key subject image n. (ok (codes "i"), n + 1);
  delete_subject = λ key subject n. (reached, n + 1);
  put = λ key image n. (ok tt, n + 1);
  delete = λ key n. (ok tt, n + 1);
  score = λ image. record { score = none; ready = false };
  enforcing = false;
  storage_key = λ member_id n. codes "k";
  subject_for = λ member_id code. code;
  tenant_api_key = λ t n. ok (some (codes "key"));
}

abbrev bob : Member ℕ
bob = record {
  id = 5;
  tenant_id = 7;
  code = codes "B1";
  full_name = codes "Bob";
  email = none;
  phone = none;
  status = MemberStatus.active;
  attributes = 0;
  consent_at = some 10;
  consent_version = some (codes "v1");
  consent_recorded_by = some 1;
  consent_withdrawn_at = none;
  consent_withdrawn_reason = none;
  face_enrolled_at = some 20;
  archived_at = none;
}

abbrev face : FaceTemplate
face = record {
  id = 9;
  tenant_id = 7;
  member_id = 5;
  compreface_image_id = some (codes "i");
  compreface_subject = some (codes "5|B1");
  image_ref = some (codes "k");
  spoof_score = none;
  enrolled_by = some 1;
}

abbrev other_face : FaceTemplate
other_face = record face { id = 11; member_id = 6 }

abbrev inside : RequestStore
inside = record {
  correlation_id = codes "c1";
  tenant_id = some 7;
  tenant_slug = none;
  user_id = some 1;
  user_role = some org_admin;
  platform_scope = false;
}

abbrev ms : Rows (λ (m : Member ℕ). m.id)
ms = holding (λ m. m.id) (bob ∷ [])

abbrev fs : Rows (λ (f : FaceTemplate). f.id)
fs = holding (λ f. f.id) (face ∷ other_face ∷ [])

abbrev reason : Option Text
reason = some (codes "left")

abbrev there : Devices ℕ
there = devices (ok tt)

abbrev away : Devices ℕ
away = devices (err enrolment_failed)

abbrev end : Result FaceErasureReport × (Option RequestStore × FaceState members faces there)
end = withdraw_consent members faces there 90 5 reason (some inside, (ms, fs, 0))

abbrev report : FaceErasureReport
report = record {
  member_id = 5;
  templates_removed = 1;
  images_removed = 1;
  compreface_cleared = true;
}

withdraw_consent-erases_example : own_face 7 5 other_face ≡ false
unfolding withdraw_consent erase_member_faces face_cam.Store.Keyed.first face_cam.Store.Keyed.added
    face_cam.Store.Keyed.at face_cam.Store.Keyed.many clear_engine face_cam.Face.erase_rows
    face_cam.Store.Keyed.deleted
withdraw_consent-erases_example =
    withdraw_consent-erases members faces there 90 7 5 reason (some inside) ms fs 0 report
      (some inside) end.1.1.0 end.1.1.1 2 11 other_face refl refl refl refl

withdraw_consent_fails_example :
    ((withdraw_consent members faces away 90 5 reason (some inside, (ms, fs, 0))).0
      ≡ err enrolment_failed)
    × ((withdraw_consent members faces away 90 5 reason (some inside, (ms, fs, 0))).1
        ≡ (some inside, (ms, fs, 1)))
unfolding face_cam.Store.Keyed.first face_cam.Store.Keyed.added face_cam.Store.Keyed.at
    face_cam.Store.Keyed.many clear_engine
withdraw_consent_fails_example =
    withdraw_consent_fails members faces away 90 7 5 reason (some inside) ms fs 0 1 bob
      (some (codes "key")) enrolment_failed refl refl refl refl refl refl
