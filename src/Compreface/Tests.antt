-- ===== src/Compreface/Tests.antt =====
-- Runs of the client of the face engine against two small networks.
use face_cam.Prelude.{
  ℕ, ◌+◌, ◌*◌, ◌<◌, ◌≡◌, ◌⊎◌, inl, refl, true, Option, none, some, List, [], ◌∷◌, codes, or_default,
}
use face_cam.Prelude.Errors.{ok}
use face_cam.Compreface.{
  Request, Response, Session, Client, Engine, FoundFace, password_grant, admin_session, ping,
}
use face_cam.Compreface.Uri.{encode_uri_component}
use face_cam.Compreface.Cookies.{extract_cookie}
use face_cam.Compreface.Sessions.{
  Called, created, recognized, after_calls, Issued, admin_session_bounds,
}
use face_cam.Compreface.Recognition.{throws, throws_down}

-- The state counts the requests.
abbrev answer : Request → ℕ → Option Response × ℕ
answer request n = (
  some (record {
    status = 200;
    body = some (codes "{}");
    set_cookies = codes "lang=en; Path=/" ∷ codes "CFSESSION=s3cret; Path=/; HttpOnly" ∷ [];
    set_cookie = none;
  }),
  n + 1,
)

abbrev silence : Request → ℕ → Option Response × ℕ
silence request n = (none, n + 1)

abbrev engine : (Request → ℕ → Option Response × ℕ) → Engine ℕ
engine fetch = record {
  url = codes "http://engine";
  admin_email = codes "a@b.c";
  admin_password = codes "pw";
  client_id = codes "id";
  client_secret = codes "secret";
  base64 = λ t. t;
  fetch = fetch;
  is_json = λ t. true;
  expires_in = λ t. some 600;
  field = λ t name. some name;
  subjects = λ t. none;
  faces = λ t. none;
}

abbrev enrolled : List Called
enrolled = created 1000 2000 (codes "Acme") ∷ []

cookie_found :
    extract_cookie (codes "CFSESSION") [] (some (codes "lang=en, CFSESSION=abc; Path=/"))
    ≡ some (codes "abc")
unfolding extract_cookie
cookie_found = refl

subject_encoded : encode_uri_component (codes "7|A 1") ≡ some (codes "7%7CA%201")
unfolding encode_uri_component
subject_encoded = refl

accent_encoded : encode_uri_component (233 ∷ 55357 ∷ 56832 ∷ []) ≡ some (codes "%C3%A9%F0%9F%98%80")
unfolding encode_uri_component
accent_encoded = refl

-- Three requests made the collection; the cached session serves until a minute before its end.
session_cached :
    admin_session (engine answer) 540000 541000 (after_calls (engine answer) enrolled (none, 0))
    ≡ (ok (codes "s3cret"), (some (record { cookie = codes "s3cret"; expires_at = 542000 }), 3))
unfolding admin_session face_cam.Compreface.create_tenant_collection
session_cached = refl

admin_session_bounds_example :
    (session : Session) × ((after_calls (engine answer) enrolled (none, 0)).0 ≡ some session)
    × (session.cookie ≡ codes "s3cret")
    × ((issue : Issued (engine answer) session) × ((issue.issued ≡ 541000)
          ⊎ ((after_calls (engine answer) enrolled (none, 0)
                ≡ after_calls (engine answer) enrolled (none, 0))
              × ((540000 < issue.issued)
                  ⊎ (540000 + 60000 < issue.issued + or_default (some 600) 2400 * 1000)))))
unfolding face_cam.Compreface.create_tenant_collection
admin_session_bounds_example =
    admin_session_bounds (engine answer) enrolled 0 540000 541000 (codes "s3cret")
      (after_calls (engine answer) enrolled (none, 0)) session_cached

throws_down_example :
    throws
      (engine silence)
      (recognized (codes "key") (record { bytes = []; byte_length = 0 }) 1)
      (none, 0)
    ≡ true
throws_down_example =
    throws_down (engine silence)
      (recognized (codes "key") (record { bytes = []; byte_length = 0 }) 1) (none, 0)
      (λ request x. inl refl)
