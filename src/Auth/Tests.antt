-- ===== src/Auth/Tests.antt =====
-- Runs of signing in and out, on one organization with one operator.
use face_cam.Prelude.{
  ℕ, ◌+◌, ◌/◌, ltb, ◌≡◌, ◌&&◌, true, if◌then◌else◌, refl, Option, none, some, [], ◌∷◌, Text, codes,
  text_eq, arith,
}
use face_cam.Prelude.Errors.{err, invalid_refresh, account_locked}
use face_cam.Enums.{trial, corporate, operator, UserStatus}
use face_cam.Session.{LoginInput, RefreshTokenClaims}
use face_cam.Context.{RequestStore, opened}
use face_cam.Rows.{Tenant, User}
use face_cam.Store.{Table}
use face_cam.Store.Keyed.{Rows, keyed, holding, running}
use face_cam.Auth.{
  Crypto, Session, AuthState, access_claims, refresh_claims, to_session_user, success, has_id,
  sign_in, login, refresh, logout_everywhere,
}
use face_cam.Auth.Cookies.{LoginReply, session_cookies, clear_auth_cookies}
use face_cam.Auth.Browser.{Jar, kept_until, receive_all}
use face_cam.Auth.Portal.{IsSignedIn, login-IsSignedIn}
use face_cam.Auth.Lockout.{replay, IsOnly, five_failures_lock}
use face_cam.Auth.Revocation.{IsRenewed, refresh-IsRenewed, refresh-logout_everywhere}

abbrev tenants : Table Tenant (λ t. t.id)
tenants = keyed (λ t. t.id)

abbrev users : Table User (λ u. u.id)
users = keyed (λ u. u.id)

-- A token lives for seven days.
abbrev read_token : ℕ → Text → Option RefreshTokenClaims
read_token now (made ∷ sub ∷ ver ∷ []) =
    if ltb (now / 1000) (made / 1000 + 604800) then some (record { sub = sub; ver = ver }) else none
read_token now _ = none

abbrev crypto : Crypto
crypto = record {
  verify_password = text_eq;
  sign_access = λ now claims. now ∷ claims.sub ∷ claims.ver ∷ [];
  sign_refresh = λ now claims. now ∷ claims.sub ∷ claims.ver ∷ [];
  verify_refresh = read_token;
}

abbrev acme : Tenant
acme = record {
  id = 7;
  name = codes "Acme";
  slug = codes "acme";
  template = corporate;
  status = trial;
  timezone = codes "UTC";
  billing_email = none;
  plan = none;
  valid_until = none;
  suspended_at = none;
  suspended_reason = none;
  compreface_api_key_enc = none;
}

abbrev ann : User
ann = record {
  id = 3;
  tenant_id = some 7;
  email = codes "ann@acme";
  password_hash = codes "secret";
  full_name = codes "Ann";
  role = operator;
  status = UserStatus.active;
  failed_login_count = 2;
  locked_until = none;
  last_login_at = none;
  token_version = 0;
}

abbrev ts : Rows (λ (t : Tenant). t.id)
ts = holding (λ t. t.id) (acme ∷ [])

abbrev us : Rows (λ (u : User). u.id)
us = holding (λ u. u.id) (ann ∷ [])

abbrev right : LoginInput
right = record {
  email = codes "ann@acme";
  password = codes "secret";
  tenant_slug = some (codes "acme");
}

abbrev wrong : LoginInput
wrong = record right { password = codes "guess" }

abbrev r : RequestStore
r = opened (codes "c1")

abbrev signed_in : Session
signed_in = record {
  user = to_session_user ann (some acme);
  access_token = crypto.sign_access 100 (access_claims ann (some acme));
  refresh_token = crypto.sign_refresh 100 (refresh_claims ann);
}

abbrev renewed_in : Session
renewed_in = record signed_in {
  access_token = crypto.sign_access 200 (access_claims ann (some acme));
  refresh_token = crypto.sign_refresh 200 (refresh_claims ann);
}

abbrev after : Option RequestStore × AuthState tenants users crypto
after = (some r, (ts, users.update_many (has_id 3) (success 100) us))

login-IsSignedIn_example : IsSignedIn tenants users crypto 100 right r ts us signed_in after
unfolding login face_cam.Store.Keyed.first face_cam.Store.Keyed.added face_cam.Store.Keyed.at
login-IsSignedIn_example =
    login-IsSignedIn tenants users crypto 100 right r ts us signed_in after refl

refresh-IsRenewed_example :
    IsRenewed tenants users crypto 200 (100 ∷ 3 ∷ 0 ∷ []) us renewed_in
    × (◌≡◌ {A = Option RequestStore × AuthState tenants users crypto}
        (some r, (ts, us))
        (some r, (ts, us)))
unfolding refresh face_cam.Store.Keyed.at face_cam.Store.Keyed.added
refresh-IsRenewed_example =
    refresh-IsRenewed tenants users crypto 200 (100 ∷ 3 ∷ 0 ∷ []) r ts us renewed_in
      (some r, (ts, us)) refl

refresh-logout_everywhere_example :
    (refresh tenants users crypto 300
      (100 ∷ 3 ∷ 0 ∷ [])
      (logout_everywhere tenants users crypto 3 (some r, (ts, us))).1).0
    ≡ err invalid_refresh
unfolding face_cam.Store.Keyed.at face_cam.Store.Keyed.added
refresh-logout_everywhere_example =
    refresh-logout_everywhere tenants users crypto 300 (100 ∷ 3 ∷ 0 ∷ [])
      (record { sub = 3; ver = 0 }) r ts us ann refl refl (omega arith)

ann_IsOnly : IsOnly tenants users crypto (codes "ann@acme") (some 7) 3 us
unfolding running IsOnly
ann_IsOnly q stored fits = ground arith

five_failures_lock_example :
    let st =
      replay tenants users crypto
        (some acme)
        ((100, wrong) ∷ (200, wrong) ∷ (300, wrong) ∷ [])
        (some r, (ts, us)) in
    sign_in tenants users crypto 400 right (some acme) st ≡ (err account_locked, st)
unfolding running
five_failures_lock_example =
    five_failures_lock tenants users crypto ((100, wrong) ∷ (200, wrong) ∷ []) 300 wrong (some acme)
      r ts us ann 400 right refl refl ann_IsOnly refl refl refl ((refl, refl), ((refl, refl), tt))
      (refl, refl) (omega arith) refl

-- A jar of cookies as a function of their name and path.
abbrev jar : Jar
jar = record {
  State = ℕ → Text → Text → Option Text;
  cookie = λ s now name path. s now name path;
  receive = λ received c s now name path.
      if text_eq c.name name && text_eq c.path path
      then kept_until c received now
      else s now name path;
  cookie-receive = λ received c s now name path. refl;
}

abbrev empty_jar : ℕ → Text → Text → Option Text
empty_jar now name path = none

abbrev reply : LoginReply
reply = record {
  user = signed_in.user;
  redirect_to = codes "/kiosk";
  cookies = session_cookies true signed_in 900000 604800000;
}

abbrev filled : ℕ → Text → Text → Option Text
filled = receive_all jar 100 reply.cookies empty_jar

abbrev emptied : ℕ → Text → Text → Option Text
emptied = receive_all jar 600000000 (clear_auth_cookies true) filled
