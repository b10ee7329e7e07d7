-- ===== src/Face/Views.antt =====
-- The reads of apps/api/src/face/face-data.service.ts: hasConsent and listMemberFaces.
use face_cam.Prelude.{
  ℕ, Bool, false, Option, none, some, List, map, Text, is_some, is_empty, if◌then◌else◌,
}
use face_cam.Prelude.Errors.{gets}
use face_cam.Context.{scoped, Call}
use face_cam.Rows.{Member, FaceTemplate}
use face_cam.Store.{Table}
use face_cam.Face.{Devices, FaceState, own_member, own_face}

-- One enrolled face, with a link to its image.
pub record FaceView : Type 0 where
  pub id : ℕ
  pub spoof_score : Option ℕ
  pub image_url : Option Text

abbrev pub consented : {A : Type 0} → Option (Member A) → Bool
consented none = false
consented (some m) = is_some m.consent_at

-- `signedUrl` of the image, for a row that has one; an empty reference is none.
abbrev pub image_link : (Text → Text) → Option Text → Option Text
image_link signed_url none = none
image_link signed_url (some key) = if is_empty key then none else some (signed_url key)

abbrev pub face_view : (Text → Text) → FaceTemplate → FaceView
face_view signed_url f = record {
  id = f.id;
  spoof_score = f.spoof_score;
  image_url = image_link signed_url f.image_ref;
}

module _ {A X : Type 0} (members : Table (Member A) (λ m. m.id))
    (faces : Table FaceTemplate (λ f. f.id)) (devices : Devices X) where
  unfoldable pub has_consent : ℕ → Call (FaceState members faces devices) Bool
  has_consent member_id =
      scoped (λ t. gets (λ st. consented (members.find_first st.1.0 (own_member t member_id))))

  -- The order by creation is the database's.
  unfoldable pub list_member_faces :
      (List FaceTemplate → List FaceTemplate)
      → (Text → Text)
      → ℕ
      → Call (FaceState members faces devices) (List FaceView)
  list_member_faces by_creation signed_url member_id = scoped (λ t. gets (λ st.
      map (face_view signed_url) (by_creation (faces.find_many st.1.1 (own_face t member_id)))))
