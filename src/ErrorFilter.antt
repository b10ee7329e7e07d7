-- ===== src/ErrorFilter.antt =====
-- The single form of every error response: apps/api/src/common/filters/all-exceptions.filter.ts and
-- `ApiErrorBody` of packages/shared/src/types.ts. The correlation id and the time are arguments.
pub mod Details
use face_cam.Prelude.{
  ℕ, Bool, true, false, not, Option, none, some, List, [], ◌∷◌, ◌++◌, leb, or_default, is_empty,
  ◌==◌, if◌then◌else◌, Text, codes, text_eq,
}
use face_cam.Csv.{join}
use face_cam.FieldSchema.Values.{
  Value, undefined, null, boolean, number, string, array, object, Items, nil, item, Entries, end,
  entry, get,
}
use face_cam.FieldSchema.Schemas.{truthy}

-- An issue of a `ZodError`: its path, each step as a text, and its message.
pub record Issue : Type 0 where
  pub path : List Text
  pub message : Text

-- What `getResponse()` of an `HttpException` gives.
pub data Payload : Type 0 where
  plain : Text → Payload
  fields : Entries ℕ → Payload

pub data Exception : Type 0 where
  zod_error : List Issue → Exception
  -- `getStatus()`, `getResponse()` and `message`
  http_exception : ℕ → Payload → Text → Exception
  -- Anything else that was thrown, as the text that the log shows.
  other : Text → Exception

pub record Normalized : Type 0 where
  pub status : ℕ
  pub code : Text
  pub message : Text
  pub details : Value ℕ

-- `details[path] = [...(details[path] ?? []), message]`
unfoldable pub add_message : Text → Text → List (Text × List Text) → List (Text × List Text)
add_message path message [] = (path, message ∷ []) ∷ []
add_message path message ((p, ms) ∷ details) =
    let rest = add_message path message details in
    if text_eq p path then (p, ms ++ message ∷ []) ∷ details else (p, ms) ∷ rest

-- `issue.path.join('.') || '_'`
unfoldable pub path_of : Issue → Text
path_of issue = let path = join (codes ".") issue.path in if is_empty path then codes "_" else path

unfoldable pub details_from : List (Text × List Text) → List Issue → List (Text × List Text)
details_from details [] = details
details_from details (issue ∷ issues) =
    details_from (add_message (path_of issue) issue.message details) issues

unfoldable pub items_of : List Text → Items ℕ
items_of [] = nil
items_of (m ∷ ms) = item (string m) (items_of ms)

unfoldable pub entries_of : List (Text × List Text) → Entries ℕ
entries_of [] = end
entries_of ((p, ms) ∷ details) = entry p (array (items_of ms)) (entries_of details)

abbrev pub look_up : ℕ → List (ℕ × Text) → Text → Text
look_up status [] fallback = fallback
look_up status ((n, code) ∷ rest) fallback =
    let later = look_up status rest fallback in if n == status then code else later

abbrev status_codes : List (ℕ × Text)
status_codes =
    (400, codes "BAD_REQUEST")
    ∷ (401, codes "UNAUTHENTICATED")
    ∷ (403, codes "FORBIDDEN")
    ∷ (404, codes "NOT_FOUND")
    ∷ (409, codes "CONFLICT")
    ∷ (422, codes "VALIDATION_FAILED")
    ∷ (429, codes "RATE_LIMITED")
    ∷ (503, codes "SERVICE_UNAVAILABLE")
    ∷ []

pub code_for_status : ℕ → Text
code_for_status status = look_up status status_codes (codes "ERROR")

-- What the request and the store give to a body.
pub record Reply : Type 0 where
  pub correlation_id : Text
  pub timestamp : Text
  pub url : Text

-- The line that is logged: an error with the stack, or a warning with the code.
pub data LogLine : Type 0 where
  error_line : ℕ → Text → LogLine
  warn_line : ℕ → Text → LogLine

-- A response of the API: its status and its JSON body.
pub record ErrorResponse : Type 0 where
  pub status : ℕ
  pub body : Value ℕ

-- `String(v)` for an item of a list of messages that is no text, and the stack of an exception.
module _ (to_text : Value ℕ → Text) (stack : Exception → Text) where
  abbrev item_text : Value ℕ → Text
  item_text undefined = []
  item_text null = []
  item_text (string t) = t
  item_text v = to_text v

  unfoldable item_texts : Items ℕ → List Text
  item_texts nil = []
  item_texts (item v vs) = item_text v ∷ item_texts vs

  -- The text of a message, or of a list of messages.
  message_of : Value ℕ → Text → Text
  unfolding item_texts
  message_of (string t) fallback = t
  message_of (array vs) fallback = join (codes ", ") (item_texts vs)
  message_of v fallback = fallback

  abbrev code_of : Value ℕ → ℕ → Text
  code_of (string t) status = t
  code_of v status = code_for_status status

  unfoldable pub normalize : Exception → Normalized
  unfolding message_of
  normalize (zod_error issues) = record {
    status = 422;
    code = codes "VALIDATION_FAILED";
    message = codes "The submitted data is not valid";
    details = object (entries_of (details_from [] issues));
  }
  normalize (http_exception status (plain text) message) = record {
    status = status;
    code = code_for_status status;
    message = text;
    details = undefined;
  }
  normalize (http_exception status (fields es) message) = record {
    status = status;
    code = code_of (get (codes "code") es) status;
    message = message_of (get (codes "message") es) message;
    details = get (codes "details") es;
  }
  normalize (other text) = record {
    status = 500;
    code = codes "INTERNAL_ERROR";
    message = codes "An unexpected error occurred";
    details = undefined;
  }

  -- `...(details ? { details } : {})`
  abbrev details_entry : Value ℕ → Entries ℕ
  details_entry details =
      if truthy (λ n. not (n == 0)) details then entry (codes "details") details end else end

  unfoldable pub error_body : Normalized → Reply → Value ℕ
  error_body n reply = object (
      entry (codes "statusCode") (number n.status) (
        entry (codes "code") (string n.code) (
          entry (codes "message") (string n.message) (
            entry (codes "correlationId") (string reply.correlation_id) (
              entry (codes "timestamp") (string reply.timestamp)
                (entry (codes "path") (string reply.url) (details_entry n.details)))))))

  unfoldable pub catch : Exception → Reply → ErrorResponse × LogLine
  unfolding normalize error_body
  catch exception reply =
      let n = normalize exception in
      (
        record { status = n.status; body = error_body n reply },
        if leb 500 n.status
            then error_line n.status (stack exception)
            else warn_line n.status n.code,
      )
