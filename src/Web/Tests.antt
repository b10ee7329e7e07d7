-- ===== src/Web/Tests.antt =====
-- Runs of the web application's client and of its gate to the portals.
use face_cam.Prelude.{
  ℕ, suc, ◌≤◌, ◌≡◌, refl, true, false, Option, none, some, List, [], ◌∷◌, ◌++◌, All, length, Text,
  codes,
}
use face_cam.Slug.Ascii.{ascii}
use face_cam.FieldSchema.Values.{Value, string, object, Entries, end, entry, get}
use face_cam.ErrorFilter.{
  Exception, Issue, Reply, zod_error, http_exception, fields, normalize, catch,
}
use face_cam.ErrorFilter.Details.{first_issue}
use face_cam.Web.{
  ApiError, Answer, Response, WireRequest, api_error, read_response, is_validation, field_errors,
}
use face_cam.Web.Errors.{sent_response, error_seen, read_response-catch, field_errors-catch}
use face_cam.Web.Refresh.{Page, Event, answered, refreshed, run, opened}
use face_cam.Web.Burst.{all_expired, retried, run-all_expired}
use face_cam.Web.Orderly.{IsFair, run-opened}
use face_cam.Web.Portal.{passed, routed}
use face_cam.Web.Groups.{AreGroups, bucket_of, group_definitions, group_definitions-AreGroups}

abbrev reply : Reply
reply = record {
  correlation_id = codes "c-1";
  timestamp = codes "2024-05-01T08:00:00.000Z";
  url = codes "/api/members";
}

abbrev plain_text : Value ℕ → Text
plain_text v = []

abbrev no_stack : Exception → Text
no_stack e = []

-- JSON, for the one body of a run.
abbrev written : Value ℕ → Text
written body = codes "{...}"

abbrev read_back : Exception → Text → Option (Value ℕ)
read_back e text = some (catch plain_text no_stack e reply).0.body

abbrev taken_code : Exception
taken_code =
    http_exception 409
      (fields (
        entry (codes "code") (string (codes "MEMBER_CODE_TAKEN"))
          (entry (codes "message") (string (codes "Taken")) end)))
      (codes "Conflict Exception")

read_response-catch_example :
    read_response
      (read_back taken_code)
      (sent_response plain_text no_stack written (read_back taken_code) taken_code reply)
    ≡ api_error (
        error_seen plain_text no_stack written
          (read_back taken_code)
          (normalize plain_text no_stack taken_code)
          reply)
unfolding catch normalize
read_response-catch_example =
    read_response-catch plain_text no_stack written (read_back taken_code) taken_code reply refl
      refl refl

abbrev issues : List Issue
issues =
    record { path = codes "code" ∷ []; message = codes "Member code is required" }
    ∷ record { path = codes "attributes" ∷ codes "room" ∷ []; message = codes "Too long" }
    ∷ record { path = codes "code" ∷ []; message = codes "Too short" }
    ∷ []

abbrev refused : Exception
refused = zod_error issues

field_errors-catch_example :
    (e : ApiError) × (es : Entries ℕ) × (read_response
        (read_back refused)
        (sent_response plain_text no_stack written (read_back refused) refused reply)
      ≡ api_error e)
    × (e.status ≡ 422)
    × (is_validation e ≡ true)
    × (field_errors e ≡ some es)
    × (get (codes "code") es ≡ first_issue (codes "code") issues)
field_errors-catch_example =
    field_errors-catch plain_text no_stack written (read_back refused) issues reply (codes "code")
      refl refl (refl, (refl, (refl, tt)))

first_issue_test : first_issue (codes "attributes.room") issues ≡ string (codes "Too long")
unfolding face_cam.ErrorFilter.path_of face_cam.Csv.join
first_issue_test = refl

abbrev paths : List Text
paths = codes "/members" ∷ codes "/member-fields" ∷ codes "/auth/me" ∷ []

run-all_expired_example :
    run
      (all_expired 0 (codes "/members" ∷ codes "/member-fields" ∷ []) ++ refreshed true ∷ [])
      (opened (codes "/members" ∷ codes "/member-fields" ∷ []))
    ≡ record {
      callers = retried (codes "/members" ∷ codes "/member-fields" ∷ []);
      refresh_in_flight = false;
      refreshes_sent = 1;
      refreshes_ended = 1;
    }
run-all_expired_example =
    run-all_expired (codes "/members") (codes "/member-fields" ∷ []) (refl, (refl, tt))

abbrev events : List Event
events =
    answered 1 401
    ∷ answered 2 401
    ∷ refreshed false
    ∷ answered 0 401
    ∷ refreshed true
    ∷ answered 0 200
    ∷ []

run-opened_example :
    let page = run events (opened paths) in
    (page.refreshes_sent ≤ suc page.refreshes_ended)
    × (page.refreshes_sent ≤ length paths)
    × All (IsFair page.refresh_in_flight) page.callers
run-opened_example = run-opened paths events

refreshes_test : (run events (opened paths)).refreshes_sent ≡ 2
unfolding run face_cam.Web.Refresh.step
refreshes_test = refl

-- A network that answers every request with an empty list of one organization's data.
abbrev fetch : WireRequest → ℕ → Option Response × ℕ
fetch request n = (some (record { status = 200; text = codes "{...}" }), suc n)

abbrev profile : Value ℕ
profile = object (entry (codes "tenantSlug") (string (codes "acme")) end)

abbrev read_profile : Text → Option (Value ℕ)
read_profile text = some profile

-- A path that looks like an image reaches a portal's tree from the root domain.
image_path_test :
    routed ascii (codes "localhost:3100") (codes "localhost:3100") (codes "/t/acme/members/x.png")
    ≡ passed (codes "/t/acme/members/x.png")
unfolding routed
image_path_test = refl

-- Fields by their label and group.
abbrev labelled : List (Text × Option Text)
labelled =
    (codes "Room", some (codes "Work"))
    ∷ (codes "Notes", none)
    ∷ (codes "Floor", some (codes "Work"))
    ∷ []

abbrev group_of : Text × Option Text → Option Text
group_of d = d.1

group_definitions-AreGroups_example :
    AreGroups group_of (group_definitions group_of labelled)
    × (bucket_of group_of (codes "Work") (group_definitions group_of labelled)
        ≡ (codes "Room", some (codes "Work")) ∷ (codes "Floor", some (codes "Work")) ∷ [])
group_definitions-AreGroups_example = group_definitions-AreGroups group_of labelled (codes "Work")
