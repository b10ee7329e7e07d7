-- ===== src/Web/Portal.antt =====
-- Which page a request of the web application reaches, and for whom it is rendered:
-- apps/web/src/middleware.ts and session.ts, tenant.ts, portal.ts of apps/web/src/lib.
use face_cam.Prelude.{
  ℕ, Bool, true, false, not, ◌||◌, ◌&&◌, Option, none, some, List, [], ◌∷◌, ◌++◌, any_of, ◌==◌,
  if◌then◌else◌, Text, codes, starts_with, ends_with, drop,
}
use face_cam.Slug.{Unicode, tenant_slug_from_host}
use face_cam.Compreface.Uri.{encode_uri_component}
use face_cam.FieldSchema.Values.{Value, null}
use face_cam.FieldSchema.Schemas.{truthy}
use face_cam.Web.{
  WireRequest, Response, Answer, value, api_error, not_json, network_error, RequestOptions, no_body,
  api_fetch, property, value_is, is_nonzero,
}

-- What the middleware answers: 404, the path as it is, or the path of a portal, with the slug as a
-- header. The query goes along.
pub data Routed : Type 0 where
  missing : Routed
  passed : Text → Routed
  rewritten : Text → Text → Routed

abbrev pub route_for : Option Text → Text → Routed
route_for none pathname = if starts_with (codes "/t/") pathname then missing else passed pathname
route_for (some slug) pathname = rewritten (codes "/t/" ++ slug ++ pathname) slug

unfoldable pub middleware : Unicode → Text → Text → Text → Routed
middleware u root_domain host pathname =
    route_for (tenant_slug_from_host u host root_domain) pathname

-- `config.matcher`: `'/((?!api|_next/static|_next/image|favicon.ico|.*\\.(?:svg|…|ico)$).*)'`. The dot
-- of `favicon.ico` stands for any character.
unfoldable pub is_matched : Text → Bool
is_matched [] = false
is_matched (c ∷ rest) =
    c == b'/'
    && not (
        any_of (λ start. starts_with start rest)
          (codes "api" ∷ codes "_next/static" ∷ codes "_next/image" ∷ [])
        || (starts_with (codes "favicon") rest && starts_with (codes "ico") (drop 8 rest))
        || any_of (λ ending. ends_with ending rest)
            (codes ".svg"
              ∷ codes ".png"
              ∷ codes ".jpg"
              ∷ codes ".jpeg"
              ∷ codes ".gif"
              ∷ codes ".webp"
              ∷ codes ".ico"
              ∷ []))

-- A request as Next.js routes it: through the middleware, or past it where the matcher does not fit.
unfoldable pub routed : Unicode → Text → Text → Text → Routed
unfolding middleware is_matched
routed u root_domain host pathname =
    if is_matched pathname then middleware u root_domain host pathname else passed pathname

-- The path in the tree of routes, none where there is no page.
abbrev pub page_path : Routed → Option Text
page_path missing = none
page_path (passed pathname) = some pathname
page_path (rewritten pathname slug) = some pathname

-- What a loader of a page returns, null where it returns null, or that it throws.
pub data Loaded : Type 0 where
  loaded : Value ℕ → Loaded
  failed : Loaded

pub data Page : Type 0 where
  not_found redirect_login page_failed : Page
  portal : Value ℕ → Value ℕ → Text → Page

abbrev pub is_truthy : Value ℕ → Bool
is_truthy v = truthy is_nonzero v

-- `if (error instanceof ApiError && statuses.includes(error.status)) return null`, else it throws.
abbrev null_on : List ℕ → Answer → Loaded
null_on statuses (value v) = loaded v
null_on statuses (api_error e) =
    if any_of (λ status. e.status == status) statuses then loaded null else failed
null_on statuses not_json = failed
null_on statuses network_error = failed

-- On the server: `API_URL`, JSON.parse and the network.
module _ (server_base : Text) (parse_json : Text → Option (Value ℕ)) {S : Type 0}
    (fetch : WireRequest → S → Option Response × S) where
  abbrev get_options : Option Text → RequestOptions
  get_options cookie = record {
    method = codes "GET";
    body = no_body;
    cookie = cookie;
    headers = [];
  }

  -- `cookies().toString()` is an argument.
  unfoldable pub get_session : Text → S → Loaded × S
  get_session [] s = (loaded null, s)
  get_session (c ∷ cookie) s =
      let (answer, s') =
        api_fetch parse_json fetch true server_base (codes "/auth/me")
          (get_options (some (c ∷ cookie))) s in
      (null_on (401 ∷ 403 ∷ []) answer, s')

  unfoldable pub get_tenant_by_slug : Text → S → Loaded × S
  get_tenant_by_slug slug s = elim (encode_uri_component slug) [
    | none ↦ (failed, s)
    | some encoded ↦
        let (answer, s') =
          api_fetch parse_json fetch true server_base (codes "/public/tenants/" ++ encoded)
            (get_options none) s in
        (null_on (404 ∷ []) answer, s')
  ]

  -- `!session || session.tenantSlug !== slug`
  abbrev pub is_other_session : Text → Value ℕ → Bool
  is_other_session slug session =
      not (is_truthy session) || not (value_is (property (codes "tenantSlug") session) slug)

  abbrev pub gate : Text → Text → Value ℕ → Loaded → Page
  gate slug cookie tenant failed = page_failed
  gate slug cookie tenant (loaded session) =
      if is_other_session slug session then redirect_login else portal tenant session cookie

  -- `if (!tenant) notFound()`, then the session.
  abbrev pub after_tenant : Text → Text → Loaded → S → Page × S
  after_tenant slug cookie failed s = (page_failed, s)
  after_tenant slug cookie (loaded tenant) s =
      let (session, s') = get_session cookie s in
      if is_truthy tenant then (gate slug cookie tenant session, s') else (not_found, s)

  unfoldable pub require_portal : Text → Text → S → Page × S
  unfolding get_tenant_by_slug
  require_portal slug cookie s =
      let (tenant, s') = get_tenant_by_slug slug s in after_tenant slug cookie tenant s'

  -- `requireSession`: the session, or the redirection to the sign-in page.
  unfoldable pub require_session : Text → S → Loaded × Bool × S
  unfolding get_session
  require_session cookie s =
      let (session, s') = get_session cookie s in
      elim session [
        | failed ↦ (failed, false, s')
        | loaded found ↦ (loaded found, not (is_truthy found), s')
      ]
