-- ===== src/Auth/Browser.antt =====
-- A browser that signs in, renews its session and signs out by the cookies of
-- apps/api/src/auth/auth.controller.ts.
use face_cam.Prelude.{
  ℕ, ◌+◌, ◌/◌, ◌<◌, ltb, ◌≡◌, Bool, ◌&&◌, Option, none, some, List, [], ◌∷◌, Text, text_eq,
  if◌then◌else◌,
}
use face_cam.Session.{RefreshTokenClaims}
use face_cam.Rows.{Tenant, User}
use face_cam.Store.{Table}
use face_cam.Auth.{Crypto, Session}
use face_cam.Auth.Cookies.{SetCookie, set_auth_cookies}

-- What a cookie that was received at one time is at another: nothing if it was cleared, or if its age
-- is over.
abbrev pub kept_until : SetCookie → ℕ → ℕ → Option Text
kept_until c received now = elim c.max_age [
  | none ↦ c.value
  | some age ↦ if ltb now (received + age) then c.value else none
]

-- The cookies of one site in a browser: one for each name and path, as RFC 6265 has it, from the time
-- at which it was received until its age is over; one that is cleared is removed. Times are in
-- milliseconds.
pub record Jar : Type 1 where
  pub State : Type 0
  pub cookie : State → ℕ → Text → Text → Option Text
  pub receive : ℕ → SetCookie → State → State
  pub cookie-receive :
      (received : ℕ) (c : SetCookie) (jar : State) (now : ℕ) (name path : Text)
      → cookie (receive received c jar) now name path ≡ (
          if text_eq c.name name && text_eq c.path path
          then kept_until c received now
          else cookie jar now name path)

module _ (b : Jar) where
  unfoldable pub receive_all : ℕ → List SetCookie → b.State → b.State
  receive_all received [] jar = jar
  receive_all received (c ∷ cs) jar = receive_all received cs (b.receive received c jar)

  module _ (tenants : Table Tenant (λ t. t.id)) (users : Table User (λ u. u.id)) (crypto : Crypto)
      (is_production : Bool) (access_ttl refresh_ttl : Text) where
    abbrev cookies_of : Session → Option (List SetCookie)
    cookies_of session = set_auth_cookies is_production access_ttl refresh_ttl session

    -- A signed refresh token is read back until its lifetime is over, in whole seconds.
    abbrev pub ReadsBack : ℕ → Type 0
    ReadsBack age =
        (made now : ℕ) (claims : RefreshTokenClaims)
        → now / 1000 < made / 1000 + age / 1000
        → crypto.verify_refresh now (crypto.sign_refresh made claims) ≡ some claims
