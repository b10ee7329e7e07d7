-- ===== src/Compreface.antt =====
-- The client of the face engine: apps/api/src/face/compreface.client.ts. The network is a parameter:
-- a fetch gives an answer, or none when it throws or times out. Times are in milliseconds.
pub mod Uri
pub mod Cookies
pub mod Requests
pub mod Sessions
pub mod Recognition
mod Tests
use face_cam.Prelude.{
  ℕ, ◌+◌, ◌-◌, ◌*◌, ◌≡◌, Bool, true, false, ◌&&◌, ◌||◌, not, Option, none, some, List, [], ◌∷◌,
  ◌++◌, map, length, Text, codes, is_empty, any_of, leb, ltb, ◌==◌, if◌then◌else◌, decimal,
  or_default,
}
use face_cam.Prelude.Errors.{
  Result, ok, err, Action, ◌>>=◌, ◌>>◌, pure, throw, throw_if, or_throw, gets, engine_unreachable,
  engine_error, engine_not_configured, engine_auth_failed, engine_admin_error, unreadable_answer,
  lone_surrogate,
}
use face_cam.Compreface.Uri.{encode_uri_component}
use face_cam.Compreface.Cookies.{extract_cookie}
use face_cam.Face.{Image}

pub data Method : Type 0 where
  get post delete : Method

pub data Body : Type 0 where
  no_body : Body
  -- `JSON.stringify` of an object with these fields
  json : List (Text × Text) → Body
  -- a form with one file, and its name
  form : Image → Text → Body
  -- the password grant for a user name and a password
  password_grant : Text → Text → Body

pub record Request : Type 0 where
  pub url : Text
  pub method : Method
  pub headers : List (Text × Text)
  pub body : Body

-- A body that cannot be read any more is none.
pub record Response : Type 0 where
  pub status : ℕ
  pub body : Option Text
  pub set_cookies : List Text
  pub set_cookie : Option Text

pub record Collection : Type 0 where
  pub application_id : Option Text
  pub api_key : Option Text

pub record AddFaceResult : Type 0 where
  pub image_id : Option Text
  pub subject : Option Text

pub record RecognitionMatch : Type 0 where
  pub subject : Text
  pub similarity : ℕ

-- One face of an answer, as the engine sends it.
pub record FoundFace : Type 0 where
  pub probability : Option ℕ
  pub subjects : Option (List RecognitionMatch)
  pub embedding : Option (List ℕ)

pub record RecognitionResult : Type 0 where
  pub matches : List RecognitionMatch
  pub faces_detected : ℕ
  pub detection_score : Option ℕ
  pub embedding : Option (List ℕ)

pub record Session : Type 0 where
  pub cookie : Text
  pub expires_at : ℕ

-- The client's cached session, and the network.
abbrev pub Client : Type 0 → Type 0
Client X = Option Session × X

-- The settings, the network, and what `JSON.parse` makes of a body where the code reads a field of
-- it. `is_json` says that a text is a JSON object.
pub record Engine (X : Type 0) : Type 0 where
  pub url : Text
  pub admin_email : Text
  pub admin_password : Text
  pub client_id : Text
  pub client_secret : Text
  pub base64 : Text → Text
  pub fetch : Request → X → Option Response × X
  pub is_json : Text → Bool
  pub expires_in : Text → Option ℕ
  pub field : Text → Text → Option Text
  pub subjects : Text → Option (List Text)
  pub faces : Text → Option (List FoundFace)

-- `response.ok`
abbrev pub is_ok : ℕ → Bool
is_ok status = leb 200 status && leb status 299

-- `text ? JSON.parse(text) : {}`, kept as the text of the object.
abbrev pub object_text : Text → Text
object_text text = if is_empty text then codes "{}" else text

-- What an `undefined` is in a template literal.
abbrev pub shown : Option Text → Text
shown text = or_default text (codes "undefined")

abbrev pub app_path : Text → Text
app_path id = codes "/admin/app/" ++ id

abbrev pub model_path : Option Text → Text
model_path id = codes "/admin/app/" ++ shown id ++ codes "/model"

abbrev pub new_app : Text → Body
new_app name = json ((codes "name", name) ∷ [])

abbrev pub new_model : Text → Body
new_model name = json ((codes "name", name) ∷ (codes "type", codes "RECOGNITION") ∷ [])

abbrev pub faces_path : Text → Text
faces_path subject =
    codes "/api/v1/recognition/faces?subject=" ++ subject ++ codes "&det_prob_threshold=0.8"

abbrev pub face_path : Text → Text
face_path image_id = codes "/api/v1/recognition/faces/" ++ image_id

abbrev pub subject_path : Text → Text
subject_path subject = codes "/api/v1/recognition/subjects/" ++ subject

abbrev pub subjects_path : Text
subjects_path = codes "/api/v1/recognition/subjects"

-- The answer of `recognize` for the faces of the frame: the matches are those of the first.
abbrev pub result_of : List FoundFace → RecognitionResult
result_of [] = record { matches = []; faces_detected = 0; detection_score = none; embedding = none }
result_of (first ∷ faces) = record {
  matches = or_default first.subjects [];
  faces_detected = length (first ∷ faces);
  detection_score = first.probability;
  embedding = first.embedding;
}

unfoldable pub recognize_path : ℕ → Text
unfolding decimal
recognize_path limit =
    codes "/api/v1/recognition/recognize?limit="
    ++ decimal limit
    ++ codes "&det_prob_threshold=0.8&face_plugins=calculator"

module _ {X : Type 0} (engine : Engine X) where
  unfoldable pub fetch_with_timeout : Request → Action (Client X) Response
  fetch_with_timeout request (session, x) =
      let (answer, x') = engine.fetch request x in
      elim answer [
        | none ↦ (err engine_unreachable, (session, x'))
        | some response ↦ (ok response, (session, x'))
      ]

  -- `await response.text()` and `JSON.parse`.
  unfoldable pub read_body : Response → Action (Client X) Text
  read_body response = do
    text ← or_throw response.body unreadable_answer
    throw_if (not (is_empty text) && not (engine.is_json text)) unreadable_answer
    pure (object_text text)

  abbrev pub admin_call : Text → Text → Method → Body → Request
  admin_call path session method body = record {
    url = engine.url ++ path;
    method = method;
    headers =
        (codes "Cookie", codes "CFSESSION=" ++ session)
        ∷ (codes "Content-Type", codes "application/json")
        ∷ [];
    body = body;
  }

  unfoldable pub admin_request : Text → Text → Method → Body → Action (Client X) Text
  unfolding fetch_with_timeout read_body
  admin_request path session method body = do
    response ← fetch_with_timeout (admin_call path session method body)
    throw_if (not (is_ok response.status)) engine_admin_error
    read_body response

  abbrev pub recognition_call : Text → Text → Method → Body → Request
  recognition_call path api_key method body = record {
    url = engine.url ++ path;
    method = method;
    headers = (codes "x-api-key", api_key) ∷ [];
    body = body;
  }

  unfoldable pub recognition_request : Text → Text → Method → Body → Action (Client X) Text
  unfolding fetch_with_timeout read_body
  recognition_request path api_key method body = do
    response ← fetch_with_timeout (recognition_call path api_key method body)
    throw_if (not (is_ok response.status)) engine_error
    read_body response

  abbrev pub login_call : Request
  login_call = record {
    url = engine.url ++ codes "/admin/oauth/token";
    method = post;
    headers =
        (
          codes "Authorization",
          codes "Basic " ++ engine.base64 (engine.client_id ++ codes ":" ++ engine.client_secret),
        )
        ∷ (codes "Content-Type", codes "application/x-www-form-urlencoded")
        ∷ [];
    body = password_grant engine.admin_email engine.admin_password;
  }

  -- `Date.now() + Math.max(0, (payload.expires_in ?? 2400) - 60) * 1000`
  abbrev pub expiry : ℕ → Text → ℕ
  expiry now text = now + (or_default (engine.expires_in text) 2400 - 60) * 1000

  -- The sign-in of `adminSession`, which caches the session; `now` is when the answer is read.
  unfoldable pub sign_in_admin : ℕ → Action (Client X) Text
  unfolding fetch_with_timeout extract_cookie
  sign_in_admin now = do
    throw_if (is_empty engine.admin_email || is_empty engine.admin_password) engine_not_configured
    response ← fetch_with_timeout login_call
    throw_if (not (is_ok response.status)) engine_auth_failed
    text ← or_throw response.body unreadable_answer
    throw_if (not (engine.is_json text)) unreadable_answer
    cookie ←
        or_throw (extract_cookie (codes "CFSESSION") response.set_cookies response.set_cookie)
          engine_auth_failed
    λ s. (ok cookie, (some (record { cookie = cookie; expires_at = expiry now text }), s.1))

  -- At a time, with the time at which the answer to a sign-in would be read.
  unfoldable pub admin_session : ℕ → ℕ → Action (Client X) Text
  unfolding sign_in_admin
  admin_session now answered s = elim s.0 [
    | none ↦ sign_in_admin answered s
    | some session ↦
        if ltb now session.expires_at then (ok session.cookie, s) else sign_in_admin answered s
  ]

  unfoldable pub create_tenant_collection : ℕ → ℕ → Text → Action (Client X) Collection
  unfolding admin_session admin_request
  create_tenant_collection now answered name = do
    session ← admin_session now answered
    app ← admin_request (codes "/admin/app") session post (new_app name)
    model ← admin_request (model_path (engine.field app (codes "id"))) session post (new_model name)
    pure (record {
      application_id = engine.field app (codes "id");
      api_key = engine.field model (codes "apiKey");
    })

  unfoldable pub delete_tenant_collection : ℕ → ℕ → Text → Action (Client X) (Unit {0})
  unfolding admin_session admin_request
  delete_tenant_collection now answered application_id = do
    session ← admin_session now answered
    admin_request (app_path application_id) session delete no_body
    pure tt

  unfoldable pub add_face : Text → Text → Image → Text → Action (Client X) AddFaceResult
  unfolding recognition_request encode_uri_component
  add_face api_key subject image filename = do
    encoded ← or_throw (encode_uri_component subject) lone_surrogate
    payload ← recognition_request (faces_path encoded) api_key post (form image filename)
    pure (record {
      image_id = engine.field payload (codes "image_id");
      subject = engine.field payload (codes "subject");
    })

  unfoldable pub delete_face : Text → Text → Action (Client X) (Unit {0})
  unfolding recognition_request
  delete_face api_key image_id =
      recognition_request (face_path image_id) api_key delete no_body >> pure tt

  unfoldable pub delete_subject : Text → Text → Action (Client X) (Unit {0})
  unfolding recognition_request encode_uri_component
  delete_subject api_key subject = do
    encoded ← or_throw (encode_uri_component subject) lone_surrogate
    recognition_request (subject_path encoded) api_key delete no_body
    pure tt

  unfoldable pub list_subjects : Text → Action (Client X) (List Text)
  unfolding recognition_request
  list_subjects api_key = do
    payload ← recognition_request subjects_path api_key get no_body
    pure (or_default (engine.subjects payload) [])

  unfoldable pub recognize : Text → Image → ℕ → Action (Client X) RecognitionResult
  unfolding recognition_request recognize_path
  recognize api_key image limit = do
    payload ←
        recognition_request (recognize_path limit) api_key post (form image (codes "frame.jpg"))
    pure (result_of (or_default (engine.faces payload) []))

  abbrev pub ping_call : Option Text → Request
  ping_call api_key = record {
    url = engine.url ++ subjects_path;
    method = get;
    headers = elim api_key [
      | none ↦ []
      | some key ↦ if is_empty key then [] else (codes "x-api-key", key) ∷ []
    ];
    body = no_body;
  }

  abbrev pub is_up : ℕ → Bool
  is_up status = any_of (λ s. s == status) (200 ∷ 400 ∷ 401 ∷ 403 ∷ [])

  unfoldable pub ping : Option Text → Action (Client X) Bool
  unfolding fetch_with_timeout
  ping api_key s =
      let (answer, s') = fetch_with_timeout (ping_call api_key) s in
      elim answer [ err e ↦ (ok false, s') | ok response ↦ (ok (is_up response.status), s') ]
