-- ===== src/Web.antt =====
-- The web application's client of the API: apps/web/src/lib/api.ts.
pub mod Errors
pub mod Refresh
pub mod Burst
pub mod Phases
pub mod Orderly
pub mod Portal
pub mod Pages
pub mod Form
pub mod Groups
mod Tests
use face_cam.Prelude.{
  ℕ, ◌+◌, Bool, true, false, not, ◌&&◌, Option, none, some, List, [], ◌∷◌, ◌++◌, map, leb,
  or_default, is_empty, is_some, ◌==◌, if◌then◌else◌, Text, codes, starts_with, decimal, text_eq,
}
use face_cam.FieldSchema.Values.{
  Value, undefined, null, boolean, number, string, array, object, Items, nil, item, Entries, end,
  entry, get,
}
use face_cam.FieldSchema.Schemas.{truthy, chained, mapped}

-- `a ?? b`
abbrev pub nullish : Value ℕ → Value ℕ → Value ℕ
nullish undefined b = b
nullish null b = b
nullish v b = v

-- `v?.key` on a parsed body; a text, a number and a list have none of the keys that are read.
abbrev pub property : Text → Value ℕ → Value ℕ
property key (object es) = get key es
property key v = undefined

pub record ApiError : Type 0 where
  pub status : ℕ
  pub code : Value ℕ
  pub message : Value ℕ
  pub details : Value ℕ
  pub correlation_id : Value ℕ

abbrev pub value_is : Value ℕ → Text → Bool
value_is (string t) s = text_eq t s
value_is v s = false

-- `this.code === 'VALIDATION_FAILED'`
unfoldable pub is_validation : ApiError → Bool
is_validation e = value_is e.code (codes "VALIDATION_FAILED")

-- `Object.entries(v)`: of a text or a list the keys are the indices.
unfoldable pub index_entries : ℕ → Items ℕ → Entries ℕ
index_entries i nil = end
index_entries i (item v vs) = entry (decimal i) v (index_entries (i + 1) vs)

unfoldable pub units : Text → Items ℕ
units [] = nil
units (c ∷ s) = item (string (c ∷ [])) (units s)

abbrev pub entries : Value ℕ → Entries ℕ
entries (object es) = es
entries (array vs) = index_entries 0 vs
entries (string s) = index_entries 0 (units s)
entries v = end

-- `messages[0]`, which throws on null and undefined.
abbrev pub first_item : Value ℕ → Option (Value ℕ)
first_item undefined = none
first_item null = none
first_item (array nil) = some undefined
first_item (array (item v vs)) = some v
first_item (string []) = some undefined
first_item (string (c ∷ s)) = some (string (c ∷ []))
first_item (object es) = some (get (codes "0") es)
first_item v = some undefined

abbrev pub is_nonzero : ℕ → Bool
is_nonzero n = not (n == 0)

unfoldable pub first_messages : Entries ℕ → Option (Entries ℕ)
first_messages end = some end
first_messages (entry field messages es) =
    let rest = first_messages es in
    chained (first_item messages) (λ first.
      mapped (λ result. if truthy is_nonzero first then entry field first result else result) rest)

unfoldable pub field_errors : ApiError → Option (Entries ℕ)
unfolding first_messages
field_errors e = first_messages (entries (nullish e.details (object end)))

pub data Body : Type 0 where
  no_body form_data : Body
  json_body : Value ℕ → Body

pub record RequestOptions : Type 0 where
  pub method : Text
  pub body : Body
  pub cookie : Option Text
  pub headers : List (Text × Text)

-- What `fetch` is given; the later of two headers of one name wins.
pub record WireRequest : Type 0 where
  pub url : Text
  pub method : Text
  pub headers : List (Text × Text)
  pub body : Body

pub record Response : Type 0 where
  pub status : ℕ
  pub text : Text

-- `response.ok`
abbrev pub is_ok : Response → Bool
is_ok r = leb 200 r.status && leb r.status 299

-- How a call ends: a value, an `ApiError`, a body that is no JSON, or no response.
pub data Answer : Type 0 where
  value : Value ℕ → Answer
  api_error : ApiError → Answer
  not_json network_error : Answer

abbrev is_form_data : Body → Bool
is_form_data form_data = true
is_form_data _ = false

abbrev cookie_header : Option Text → List (Text × Text)
cookie_header none = []
cookie_header (some []) = []
cookie_header (some (c ∷ s)) = (codes "cookie", c ∷ s) ∷ []

-- `isServer` and `SERVER_BASE` are arguments.
unfoldable pub request_of : Bool → Text → Text → RequestOptions → WireRequest
request_of is_server server_base path options = record {
  url = if is_server then server_base ++ codes "/api" ++ path else codes "/api" ++ path;
  method = options.method;
  headers =
      (if is_form_data options.body
        then []
        else (codes "Content-Type", codes "application/json") ∷ [])
      ++ cookie_header options.cookie
      ++ options.headers;
  body = options.body;
}

abbrev refresh_request : WireRequest
refresh_request = record {
  url = codes "/api/auth/refresh";
  method = codes "POST";
  headers = [];
  body = no_body;
}

abbrev pub api_error_of : ℕ → Value ℕ → ApiError
api_error_of status payload = record {
  status = status;
  code = nullish (property (codes "code") payload) (string (codes "ERROR"));
  message =
      nullish (property (codes "message") payload)
        (string (codes "Request failed with status " ++ decimal status));
  details = property (codes "details") payload;
  correlation_id = property (codes "correlationId") payload;
}

-- `JSON.parse`, none where it throws.
module _ (parse_json : Text → Option (Value ℕ)) where
  abbrev pub payload_of : Text → Option (Value ℕ)
  payload_of [] = some undefined
  payload_of (c ∷ s) = parse_json (c ∷ s)

  -- What is made of the last response.
  unfoldable pub read_response : Response → Answer
  read_response r = if r.status == 204 then value undefined else elim (payload_of r.text) [
    | none ↦ not_json
    | some payload ↦ if is_ok r then value payload else api_error (api_error_of r.status payload)
  ]

  abbrev read_outcome : Option Response → Answer
  read_outcome none = network_error
  read_outcome (some r) = read_response r

  -- The network: what `fetch` gives, none where it rejects, and what becomes of its state.
  module _ {S : Type 0} (fetch : WireRequest → S → Option Response × S) where
    -- With no other call in flight; the sharing of a refresh is modelled in Web/Refresh.antt.
    unfoldable pub refresh_session : S → Bool × S
    refresh_session s =
        let (r, s') = fetch refresh_request s in (elim r [ none ↦ false | some r ↦ is_ok r ], s')

    abbrev pub is_expired : Bool → Text → Option Response → Bool
    is_expired is_server path none = false
    is_expired is_server path (some r) =
        r.status == 401 && not is_server && not (starts_with (codes "/auth/") path)

    -- `requestWithRefresh` with `allowRefresh` false, and with it true.
    unfoldable pub request_once : Bool → Text → Text → RequestOptions → S → Answer × S
    unfolding read_response
    request_once is_server server_base path options s =
        let (r, s') = fetch (request_of is_server server_base path options) s in
        (read_outcome r, s')

    unfoldable pub api_fetch : Bool → Text → Text → RequestOptions → S → Answer × S
    unfolding request_once refresh_session
    api_fetch is_server server_base path options s =
        let (r, s') = fetch (request_of is_server server_base path options) s in
        if is_expired is_server path r
        then (let (refreshed, s'') = refresh_session s' in
            if refreshed
            then request_once is_server server_base path options s''
            else (read_outcome r, s''))
        else (read_outcome r, s')
