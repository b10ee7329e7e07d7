-- ===== src/Compreface/Requests.antt =====
-- Which calls leave the cached session as it is.
use face_cam.Prelude.{ℕ, ◌≡◌, inl, inr, Option, Text, codes, arith, Option-cases}
use face_cam.Prelude.Calls.{result-cases}
use face_cam.Face.{Image}
use face_cam.Compreface.Uri.{encode_uri_component}
use face_cam.Compreface.{
  admin_call, recognition_call, ping_call, recognize_path, faces_path, face_path, subject_path,
  subjects_path, app_path, model_path, new_app, new_model, form, no_body, get, post, delete, Method,
  Body, Response, Client, Engine, fetch_with_timeout, read_body, admin_request, recognition_request,
  admin_session, create_tenant_collection, delete_tenant_collection, add_face, delete_face,
  delete_subject, list_subjects, recognize, ping,
}

module _ {X : Type 0} (engine : Engine X) where
  pub read_body-same :
      (response : Response) (s : Client X) → (read_body engine response s).1.0 ≡ s.0
  unfolding read_body
  read_body-same response s = elim (Option-cases response.body) [
    | inl lost ↦ ground arith
    | inr (text, readable) ↦ ground arith
  ]

  pub admin_request-same :
      (path session : Text) (method : Method) (body : Body) (s : Client X)
      → (admin_request engine path session method body s).1.0 ≡ s.0
  unfolding admin_request fetch_with_timeout
  admin_request-same path session method body s =
      elim (Option-cases (engine.fetch (admin_call engine path session method body) s.1).0) [
        | inl down ↦ ground arith
        | inr (response, up) ↦ ground (arith, read_body-same response)
      ]

  pub recognition_request-same :
      (path key : Text) (method : Method) (body : Body) (s : Client X)
      → (recognition_request engine path key method body s).1.0 ≡ s.0
  unfolding recognition_request fetch_with_timeout
  recognition_request-same path key method body s =
      elim (Option-cases (engine.fetch (recognition_call engine path key method body) s.1).0) [
        | inl down ↦ ground arith
        | inr (response, up) ↦ ground (arith, read_body-same response)
      ]

  pub add_face-same :
      (key subject : Text) (image : Image) (name : Text) (s : Client X)
      → (add_face engine key subject image name s).1.0 ≡ s.0
  unfolding add_face
  add_face-same key subject image name s = elim (Option-cases (encode_uri_component subject)) [
    | inl half ↦ ground arith
    | inr (encoded, e) ↦
        ground (arith, recognition_request-same (faces_path encoded) key post (form image name) s)
  ]

  pub delete_face-same : (key id : Text) (s : Client X) → (delete_face engine key id s).1.0 ≡ s.0
  unfolding delete_face
  delete_face-same key id s =
      ground (arith, recognition_request-same (face_path id) key delete no_body s)

  pub delete_subject-same :
      (key subject : Text) (s : Client X) → (delete_subject engine key subject s).1.0 ≡ s.0
  unfolding delete_subject
  delete_subject-same key subject s = elim (Option-cases (encode_uri_component subject)) [
    | inl half ↦ ground arith
    | inr (encoded, e) ↦
        ground (arith, recognition_request-same (subject_path encoded) key delete no_body s)
  ]

  pub list_subjects-same : (key : Text) (s : Client X) → (list_subjects engine key s).1.0 ≡ s.0
  unfolding list_subjects
  list_subjects-same key s =
      ground (arith, recognition_request-same subjects_path key get no_body s)

  pub recognize-same :
      (key : Text) (image : Image) (limit : ℕ) (s : Client X)
      → (recognize engine key image limit s).1.0 ≡ s.0
  unfolding recognize
  recognize-same key image limit s = ground (
    arith,
    recognition_request-same (recognize_path limit) key post (form image (codes "frame.jpg")) s,
  )

  pub ping-same : (key : Option Text) (s : Client X) → (ping engine key s).1.0 ≡ s.0
  unfolding ping fetch_with_timeout
  ping-same key s = elim (Option-cases (engine.fetch (ping_call engine key) s.1).0) [
    | inl down ↦ ground arith
    | inr (response, up) ↦ ground arith
  ]

  pub create_tenant_collection-same :
      (now answered : ℕ) (name : Text) (s : Client X)
      → (create_tenant_collection engine now answered name s).1.0
        ≡ (admin_session engine now answered s).1.0
  unfolding create_tenant_collection
  create_tenant_collection-same now answered name s =
      elim (result-cases (admin_session engine now answered s).0) [
        | inr (e, failed) ↦ ground arith
        | inl (session, got) ↦
            let s₁ = (admin_session engine now answered s).1 in
            let app = admin_request engine (codes "/admin/app") session post (new_app name) s₁ in
            let kept = admin_request-same (codes "/admin/app") session post (new_app name) s₁ in
            elim (result-cases app.0) [
              | inr (e, failed) ↦ ground arith
              | inl (text, made) ↦ ground (
                arith,
                admin_request-same (model_path (engine.field text (codes "id"))) session post
                    (new_model name) app.1,
              )
            ]
      ]

  pub delete_tenant_collection-same :
      (now answered : ℕ) (id : Text) (s : Client X)
      → (delete_tenant_collection engine now answered id s).1.0
        ≡ (admin_session engine now answered s).1.0
  unfolding delete_tenant_collection
  delete_tenant_collection-same now answered id s =
      elim (result-cases (admin_session engine now answered s).0) [
        | inr (e, failed) ↦ ground arith
        | inl (session, got) ↦ ground (
          arith,
          admin_request-same (app_path id) session delete no_body
              (admin_session engine now answered s).1,
        )
      ]
