-- ===== src/Compreface/Recognition.antt =====
-- What the client answers when the face engine is down: apps/api/src/face/compreface.client.ts.
use face_cam.Prelude.{
  ◌≤◌, ◌≡◌, ◌⊎◌, inl, inr, Bool, true, false, not, none, some, Text, codes, arith, Option-cases,
}
use face_cam.Prelude.Errors.{Result, ok, err}
use face_cam.Prelude.Calls.{result-cases}
use face_cam.Compreface.Uri.{encode_uri_component}
use face_cam.Compreface.{
  admin_call, recognition_call, ping_call, recognize_path, faces_path, face_path, subject_path,
  subjects_path, app_path, new_app, form, no_body, get, post, delete, Method, Body, Request,
  Response, Client, Engine, fetch_with_timeout, admin_request, recognition_request, admin_session,
  create_tenant_collection, delete_tenant_collection, add_face, delete_face, delete_subject,
  list_subjects, recognize, ping,
}
use face_cam.Compreface.Sessions.{
  Called, created, deleted, added, face_deleted, subject_deleted, listed, recognized, pinged,
}

abbrev pub is_err : {A : Type 0} → Result A → Bool
is_err (ok a) = false
is_err (err e) = true

abbrev pub says_no : Result Bool → Bool
says_no (ok answer) = not answer
says_no (err e) = false

module _ {X : Type 0} (engine : Engine X) where
  -- Whether a call throws; for `ping`, whether it answers `false`.
  abbrev pub throws : Called → Client X → Bool
  throws (created now answered name) s =
      is_err (create_tenant_collection engine now answered name s).0
  throws (deleted now answered id) s = is_err (delete_tenant_collection engine now answered id s).0
  throws (added key subject image name) s = is_err (add_face engine key subject image name s).0
  throws (face_deleted key id) s = is_err (delete_face engine key id s).0
  throws (subject_deleted key subject) s = is_err (delete_subject engine key subject s).0
  throws (listed key) s = is_err (list_subjects engine key s).0
  throws (recognized key image limit) s = is_err (recognize engine key image limit s).0
  throws (pinged key) s = says_no (ping engine key s).0

  -- The network does not answer, or the server fails.
  abbrev pub IsDown : Type 0
  IsDown =
      (request : Request) (x : X)
      → ((engine.fetch request x).0 ≡ none)
        ⊎ ((response : Response) × ((engine.fetch request x).0 ≡ some response)
            × (500 ≤ response.status))

  recognition_request-err :
      (path key : Text) (method : Method) (body : Body) (s : Client X)
      → IsDown
      → is_err (recognition_request engine path key method body s).0 ≡ true
  unfolding recognition_request fetch_with_timeout
  recognition_request-err path key method body s down =
      elim (down (recognition_call engine path key method body) s.1) [
        | inl silent ↦ ground arith
        | inr (response, failing, status) ↦ ground arith
      ]

  admin_request-err :
      (path session : Text) (method : Method) (body : Body) (s : Client X)
      → IsDown
      → is_err (admin_request engine path session method body s).0 ≡ true
  unfolding admin_request fetch_with_timeout
  admin_request-err path session method body s down =
      elim (down (admin_call engine path session method body) s.1) [
        | inl silent ↦ ground arith
        | inr (response, failing, status) ↦ ground arith
      ]

  -- When the engine is down every call throws, whatever session is cached and whatever a later
  -- answer would say, so that an outage is never taken for an answer such as "no match"; only `ping`
  -- returns, with `false`.
  pub throws_down : (c : Called) (s : Client X) → IsDown → throws c s ≡ true
  unfolding create_tenant_collection delete_tenant_collection add_face delete_face delete_subject
      list_subjects recognize ping fetch_with_timeout
  throws_down (created now answered name) s down =
      elim (result-cases (admin_session engine now answered s).0) [
        | inr (e, failed) ↦ ground arith
        | inl (session, got) ↦ ground (
          arith,
          admin_request-err (codes "/admin/app") session post (new_app name)
              (admin_session engine now answered s).1 down,
        )
      ]
  throws_down (deleted now answered id) s down =
      elim (result-cases (admin_session engine now answered s).0) [
        | inr (e, failed) ↦ ground arith
        | inl (session, got) ↦ ground (
          arith,
          admin_request-err (app_path id) session delete no_body
              (admin_session engine now answered s).1 down,
        )
      ]
  throws_down (added key subject image name) s down =
      elim (Option-cases (encode_uri_component subject)) [
        | inl half ↦ ground arith
        | inr (encoded, e) ↦
            ground (
              arith,
              recognition_request-err (faces_path encoded) key post (form image name) s down,
            )
      ]
  throws_down (face_deleted key id) s down =
      ground (arith, recognition_request-err (face_path id) key delete no_body s down)
  throws_down (subject_deleted key subject) s down =
      elim (Option-cases (encode_uri_component subject)) [
        | inl half ↦ ground arith
        | inr (encoded, e) ↦
            ground (arith, recognition_request-err (subject_path encoded) key delete no_body s down)
      ]
  throws_down (listed key) s down =
      ground (arith, recognition_request-err subjects_path key get no_body s down)
  throws_down (recognized key image limit) s down = ground (
    arith,
    recognition_request-err (recognize_path limit) key post (form image (codes "frame.jpg")) s down,
  )
  throws_down (pinged key) s down = elim (down (ping_call engine key) s.1) [
    | inl silent ↦ ground arith
    | inr (response, failing, status) ↦ ground arith
  ]
