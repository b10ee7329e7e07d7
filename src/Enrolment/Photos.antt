-- ===== src/Enrolment/Photos.antt =====
-- The rows that the loop of an enrolment leaves: one for each photo that it does not report as failed.
use face_cam.Prelude.{
  ℕ, ◌+◌, ◌≤◌, ◌<◌, ◌≡◌, ◌≢◌, ◌⊎◌, inl, inr, refl, sym, ap, ◌∙◌, true, Bool, Option, none, some,
  List, [], ◌∷◌, length, any_of, Text, ltb, ◌==◌, arith, Bool-cases,
}
use face_cam.Prelude.Errors.{Error, Result, ok, err}
use face_cam.Rows.{Member, FaceTemplate, TenantSettings}
use face_cam.Store.{Table}
use face_cam.Face.{
  Image, Devices, Reason, too_large, looks_spoofed, thrown, max_image_bytes, threshold_of,
  store_images,
}
use face_cam.Enrolment.{spoofed, template_row, keep_image, enrol_image, enrol_all}

-- A row of the member under this id, with the face that the engine has added for the subject.
abbrev pub IsStored :
    (faces : Table FaceTemplate (λ f. f.id)) → ℕ → ℕ → Text → faces.State → ℕ → Type 0
IsStored faces t member_id subject fs k =
    (f : FaceTemplate) × (image_id : Text) × (faces.find_unique fs k ≡ some f)
    × (f.tenant_id ≡ t)
    × (f.member_id ≡ member_id)
    × (f.compreface_image_id ≡ some image_id)
    × (f.compreface_subject ≡ some subject)

module _ {A X : Type 0} (members : Table (Member A) (λ m. m.id))
    (faces : Table FaceTemplate (λ f. f.id)) (devices : Devices X) where
  pub Result-split :
      {B : Type 0} (r : Result B) → ((e : Error) × (r ≡ err e)) ⊎ ((v : B) × (r ≡ ok v))
  Result-split (ok v) = inr (v, refl)
  Result-split (err e) = inl (e, refl)

  -- What one round of the loop leaves: nothing new and a reason, or the row of the photo.
  enrol_image-cases :
      (id t member_id : ℕ) (user : Option ℕ) (api_key subject : Text)
      (settings : Option TenantSettings) (index : ℕ) (image : Image) (fs : faces.State) (x : X)
      → let (outcome, (fs', x')) =
          enrol_image members faces devices id t member_id user api_key subject settings index image
            fs x in
        ((reason : Reason) × (outcome ≡ some reason) × (fs' ≡ fs))
        ⊎ ((image_id : Text) × (ref : Option Text) × (outcome ≡ none)
            × (fs'
                ≡ faces.create
                    (template_row members faces devices id t member_id user image_id subject ref
                      (devices.score image))
                    fs))
  unfolding enrol_image
  enrol_image-cases id t member_id user api_key subject settings index image fs x =
      elim (Bool-cases (ltb max_image_bytes image.byte_length)) [
        | inl big ↦ inl (too_large, rw big refl, rw big refl)
        | inr small ↦
            elim (Bool-cases
              (spoofed devices.enforcing (devices.score image) (threshold_of settings))) [
                | inl fake ↦ inl (looks_spoofed, rw (small, fake) refl, rw (small, fake) refl)
                | inr real ↦
                    let added = devices.add_face api_key subject image x in
                    elim (Result-split added.0) [
                      | inl (e, failed) ↦
                          inl
                            (thrown e, rw (small, real, failed) refl, rw (small, real, failed) refl)
                      | inr (image_id, done) ↦
                          elim (Result-split
                            (keep_image members faces devices (store_images settings)
                              (devices.storage_key t index) image added.1).0) [
                                | inl (e, failed) ↦ inl (
                                  thrown e,
                                  rw (small, real, done, failed) refl,
                                  rw (small, real, done, failed) refl,
                                )
                                | inr (ref, kept) ↦ inr (
                                  image_id,
                                  ref,
                                  rw (small, real, done, kept) refl,
                                  rw (small, real, done, kept) refl,
                                )
                              ]
                    ]
              ]
      ]

  module _ (new_id : ℕ → ℕ) (t member_id : ℕ) (user : Option ℕ) (api_key subject : Text)
      (settings : Option TenantSettings) where
    abbrev reported : List (ℕ × Reason) → ℕ → Bool
    reported failed i = any_of (λ entry. entry.0 == i) failed

    abbrev all_from : ℕ → List Image → faces.State → X → (ℕ × List (ℕ × Reason)) × (faces.State × X)
    all_from index images fs x =
        enrol_all members faces devices new_id t member_id user api_key subject settings index
          images fs x

    -- Later photos leave the rows under other ids as they are.
    enrol_all_keeps :
        (index : ℕ) (images : List Image) (fs : faces.State) (x : X) (k : ℕ)
        → ((j : ℕ) → index ≤ j → new_id j ≢ k)
        → faces.find_unique (all_from index images fs x).1.0 k ≡ faces.find_unique fs k
    unfolding enrol_all
    enrol_all_keeps index [] fs x k other = refl
    enrol_all_keeps index (image ∷ images) fs x k other =
        let one =
          enrol_image members faces devices (new_id index) t member_id user api_key subject settings
            index image fs x in
        let rest =
          enrol_all_keeps (index + 1) images one.1.0 one.1.1 k (λ j above. other j (omega arith)) in
        elim (enrol_image-cases (new_id index) t member_id user api_key subject settings index image
          fs x) [
            | inl (reason, failed, same) ↦
                rw (enrol_all, failed) rest ∙ ap (λ s. faces.find_unique s k) same
            | inr (image_id, ref, created, added) ↦
                rw (enrol_all, created) rest
                ∙ ap (λ s. faces.find_unique s k) added
                ∙ faces.find_unique-create fs
                    (template_row members faces devices (new_id index) t member_id user image_id
                      subject ref (devices.score image))
                    k
                ∙ (elim (Bool-cases (new_id index == k)) [
                  | inl same ↦ absurd (other index (omega arith) (ground arith))
                  | inr apart ↦ rw apart refl
                ])
          ]

    -- Every photo of the loop is reported as failed or has a row under its own id.
    pub enrol_all_accounts :
        (index : ℕ) (images : List Image) (fs : faces.State) (x : X) (i : ℕ)
        → ((a b : ℕ) → new_id a ≡ new_id b → a ≡ b)
        → index ≤ i
        → i < index + length images
        → (reported (all_from index images fs x).0.1 i ≡ true)
          ⊎ IsStored faces t member_id subject (all_from index images fs x).1.0 (new_id i)
    unfolding enrol_all
    enrol_all_accounts index [] fs x i apart low high = absurd (omega arith)
    enrol_all_accounts index (image ∷ images) fs x i apart low high =
        let one =
          enrol_image members faces devices (new_id index) t member_id user api_key subject settings
            index image fs x in
        let rest = all_from (index + 1) images one.1.0 one.1.1 in
        elim (enrol_image-cases (new_id index) t member_id user api_key subject settings index image
          fs x) [
            | inl (reason, failed, same) ↦ elim (Bool-cases (index == i)) [
              | inl here ↦ inl (rw (enrol_all, failed, here) refl)
              | inr later ↦
                  elim (enrol_all_accounts (index + 1) images one.1.0 one.1.1 i apart (ground arith)
                    (omega arith)) [
                      | inl found ↦ inl (rw (enrol_all, failed, later) found)
                      | inr stored ↦ inr (rw (enrol_all, failed) stored)
                    ]
            ]
            | inr (image_id, ref, created, added) ↦ elim (Bool-cases (index == i)) [
              | inl here ↦
                  let at : index ≡ i = ground arith in
                  let row =
                    template_row members faces devices (new_id index) t member_id user image_id
                      subject ref (devices.score image) in
                  let kept =
                    enrol_all_keeps (index + 1) images one.1.0 one.1.1 (new_id index)
                      (λ j above same. absurd (omega (arith, apart j index same))) in
                  let there : faces.find_unique rest.1.0 (new_id i) ≡ some row =
                    ap (λ n. faces.find_unique rest.1.0 (new_id n)) (sym at)
                    ∙ kept
                    ∙ ap (λ s. faces.find_unique s (new_id index)) added
                    ∙ faces.find_unique-create fs row (new_id index)
                    ∙ (ground arith) in
                  inr (row, image_id, rw (enrol_all, created) there, refl, refl, refl, refl)
              | inr later ↦
                  elim (enrol_all_accounts (index + 1) images one.1.0 one.1.1 i apart (ground arith)
                    (omega arith)) [
                      | inl found ↦ inl (rw (enrol_all, created) found)
                      | inr stored ↦ inr (rw (enrol_all, created) stored)
                    ]
            ]
          ]
