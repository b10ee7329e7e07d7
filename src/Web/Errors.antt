-- ===== src/Web/Errors.antt =====
-- What a page of the web application is told when the API throws: the filter of
-- apps/api/src/common/filters/all-exceptions.filter.ts read by `apiFetch` of apps/web/src/lib/api.ts.
use face_cam.Prelude.{
  ℕ, ◌≡◌, refl, ap, ◌∙◌, inl, inr, true, false, Option, some, List, [], ◌∷◌, All, is_empty, ◌==◌,
  if◌then◌else◌, Text, text_eq, Bool-cases, arith,
}
use face_cam.FieldSchema.Values.{Value, undefined, string, Entries, end, entry, get}
use face_cam.FieldSchema.Schemas.{truthy}
use face_cam.ErrorFilter.{
  Exception, Issue, Normalized, Reply, zod_error, normalize, error_body, catch, details_from,
  entries_of, items_of,
}
use face_cam.ErrorFilter.Details.{shown, first_issue, AllFilled, shown-details_from}
use face_cam.Web.{
  ApiError, Response, api_error, is_nonzero, is_validation, is_ok, first_messages, field_errors,
  payload_of, api_error_of, read_response,
}

module _ (to_text : Value ℕ → Text) (stack : Exception → Text) (json : Value ℕ → Text)
    (parse_json : Text → Option (Value ℕ)) where
  abbrev sent_body : Exception → Reply → Value ℕ
  sent_body exception reply = (catch to_text stack exception reply).0.body

  -- The response as it goes over the wire.
  abbrev pub sent_response : Exception → Reply → Response
  sent_response exception reply = record {
    status = (catch to_text stack exception reply).0.status;
    text = json (sent_body exception reply);
  }

  abbrev if_truthy : Value ℕ → Value ℕ
  if_truthy v = if truthy is_nonzero v then v else undefined

  payload_of_text :
      (text : Text) (body : Value ℕ)
      → is_empty text ≡ false
      → parse_json text ≡ some body
      → payload_of parse_json text ≡ some body
  payload_of_text [] body written read = absurd (ground arith)
  payload_of_text (c ∷ text) body written read = read

  error_answer :
      (r : Response) (body : Value ℕ)
      → is_empty r.text ≡ false
      → parse_json r.text ≡ some body
      → is_ok r ≡ false
      → read_response parse_json r ≡ api_error (api_error_of r.status body)
  unfolding read_response
  error_answer r body written read failed = elim (Bool-cases (r.status == 204)) [
    | inl empty ↦ absurd (ground arith)
    | inr other ↦ rw (other, payload_of_text r.text body written read, failed) refl
  ]

  abbrev pub error_seen : Normalized → Reply → ApiError
  error_seen n reply = record {
    status = n.status;
    code = string n.code;
    message = string n.message;
    details = if_truthy n.details;
    correlation_id = string reply.correlation_id;
  }

  error_of_body :
      (n : Normalized) (reply : Reply)
      → api_error_of n.status (error_body to_text stack n reply) ≡ error_seen n reply
  unfolding error_body get
  error_of_body n reply = elim (Bool-cases (truthy is_nonzero n.details)) [
    | inl present ↦ rw present refl
    | inr hidden ↦ rw hidden refl
  ]

  -- Whatever the API throws, the client of the web application throws an `ApiError` with the status,
  -- code, message and correlation id that the filter gave the exception, and with its details where
  -- there are any. The body is text that JSON.parse reads back, and the status is none of success.
  pub read_response-catch :
      (exception : Exception) (reply : Reply)
      → is_empty (json (sent_body exception reply)) ≡ false
      → parse_json (json (sent_body exception reply)) ≡ some (sent_body exception reply)
      → is_ok (sent_response exception reply) ≡ false
      → read_response parse_json (sent_response exception reply)
        ≡ api_error (error_seen (normalize to_text stack exception) reply)
  unfolding catch
  read_response-catch exception reply written read failed =
      error_answer (sent_response exception reply) (sent_body exception reply) written read failed
      ∙ ap api_error (error_of_body (normalize to_text stack exception) reply)

  first_messages-entries_of :
      (details : List (Text × List Text))
      → AllFilled details
      → (es : Entries ℕ) × (first_messages (entries_of details) ≡ some es)
        × ((key : Text) → get key es ≡ shown key details)
  unfolding first_messages entries_of items_of get
  first_messages-entries_of [] filled = (end, refl, λ key. refl)
  first_messages-entries_of ((p, []) ∷ details) (filled, rest) = absurd filled
  first_messages-entries_of ((p, m ∷ ms) ∷ details) (filled, rest) =
      let (es, done, same) = first_messages-entries_of details rest in
      (
        entry p (string m) es,
        rw (done, filled) refl,
        λ key. ap (λ v. if text_eq p key then string m else v) (same key),
      )

  -- A request that the schema refuses: the form is told VALIDATION_FAILED with status 422, and under
  -- each path the first message of the issues there, under any other key nothing. The body is text
  -- that JSON.parse reads back, and no message is empty.
  pub field_errors-catch :
      (issues : List Issue) (reply : Reply) (key : Text)
      → is_empty (json (sent_body (zod_error issues) reply)) ≡ false
      → parse_json (json (sent_body (zod_error issues) reply))
        ≡ some (sent_body (zod_error issues) reply)
      → All (λ issue. is_empty issue.message ≡ false) issues
      → (e : ApiError) × (es : Entries ℕ) × (read_response parse_json
            (sent_response (zod_error issues) reply)
          ≡ api_error e)
        × (e.status ≡ 422)
        × (is_validation e ≡ true)
        × (field_errors e ≡ some es)
        × (get key es ≡ first_issue key issues)
  unfolding normalize catch is_validation field_errors
  field_errors-catch issues reply key written read named =
      let (grouped, filled) = shown-details_from key [] issues tt named in
      let (es, done, same) = first_messages-entries_of (details_from [] issues) filled in
      (
        error_seen (normalize to_text stack (zod_error issues)) reply,
        es,
        read_response-catch (zod_error issues) reply written read refl,
        refl,
        refl,
        done,
        same key ∙ grouped,
      )
