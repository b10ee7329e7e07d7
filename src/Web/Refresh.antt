-- ===== src/Web/Refresh.antt =====
-- Calls that are in flight at once, and the refresh that they share: `refreshInFlight`,
-- `refreshSession` and `requestWithRefresh` of apps/web/src/lib/api.ts, in the browser. A step is the
-- arrival of a response, after which the code runs up to its next `await`.
use face_cam.Prelude.{
  ℕ, zero, suc, Bool, true, false, not, ◌&&◌, List, [], ◌∷◌, map, ◌==◌, if◌then◌else◌, Text, codes,
  starts_with,
}

-- Where a call stands: its request is out, with `allowRefresh`; it awaits the refresh, and then
-- has the status 401 to fall back on; or its last response has the status.
pub data Phase : Type 0 where
  sent : Bool → Phase
  awaiting : Phase
  done : ℕ → Phase

pub record Caller : Type 0 where
  pub path : Text
  pub phase : Phase
  -- How many times its request has gone out.
  pub requests : ℕ

pub record Page : Type 0 where
  pub callers : List Caller
  -- `refreshInFlight !== null`
  pub refresh_in_flight : Bool
  -- How many refresh requests have gone out, and how many of them have ended.
  pub refreshes_sent : ℕ
  pub refreshes_ended : ℕ

-- The response to the request of one call has a status; the refresh ends, with `response.ok` or not.
pub data Event : Type 0 where
  answered : ℕ → ℕ → Event
  refreshed : Bool → Event

-- `path.startsWith('/auth/')`
abbrev pub is_auth : Text → Bool
is_auth path = starts_with (codes "/auth/") path

-- `response.status === 401 && allowRefresh && !path.startsWith('/auth/')`
abbrev pub wants_refresh : Caller → Bool → ℕ → Bool
wants_refresh caller allow_refresh status =
    status == 401 && allow_refresh && not (is_auth caller.path)

-- What a call does with a response, and whether it asks for the refresh. A call whose request is not
-- out gets none.
unfoldable pub take_response : Caller → ℕ → Caller × Bool
take_response caller status = elim caller.phase [
  | sent allow_refresh ↦
      if wants_refresh caller allow_refresh status
      then (record caller { phase = awaiting }, true)
      else (record caller { phase = done status }, false)
  | awaiting ↦ (caller, false)
  | done last ↦ (caller, false)
]

unfoldable pub respond : ℕ → ℕ → List Caller → List Caller × Bool
unfolding take_response
respond i status [] = ([], false)
respond zero status (caller ∷ callers) =
    let (caller', asks) = take_response caller status in (caller' ∷ callers, asks)
respond (suc i) status (caller ∷ callers) =
    let (callers', asks) = respond i status callers in (caller ∷ callers', asks)

-- `if (refreshed) return requestWithRefresh(path, options, false)`
abbrev pub resume : Bool → Caller → Caller
resume is_refreshed caller = elim caller.phase [
  | sent allow_refresh ↦ caller
  | awaiting ↦
      if is_refreshed
      then record caller { phase = sent false; requests = suc caller.requests }
      else record caller { phase = done 401 }
  | done last ↦ caller
]

-- `refreshInFlight ??= fetch(...)`
abbrev pub ask_refresh : Bool → Page → Page
ask_refresh false page = page
ask_refresh true page =
    if page.refresh_in_flight
    then page
    else record page { refresh_in_flight = true; refreshes_sent = suc page.refreshes_sent }

-- When the refresh ends, `.finally` clears the variable before those that await it go on.
unfoldable pub step : Event → Page → Page
unfolding respond
step (answered i status) page =
    let (callers, asks) = respond i status page.callers in
    ask_refresh asks (record page { callers = callers })
step (refreshed is_refreshed) page =
    if page.refresh_in_flight
    then (record page {
      callers = map (resume is_refreshed) page.callers;
      refresh_in_flight = false;
      refreshes_ended = suc page.refreshes_ended;
    })
    else page

unfoldable pub run : List Event → Page → Page
run [] page = page
run (event ∷ events) page = run events (step event page)

-- Calls of the given paths, each of which has sent its request.
abbrev pub begin : List Text → List Caller
begin [] = []
begin (path ∷ paths) = record { path = path; phase = sent true; requests = 1 } ∷ begin paths

abbrev pub opened : List Text → Page
opened paths = record {
  callers = begin paths;
  refresh_in_flight = false;
  refreshes_sent = 0;
  refreshes_ended = 0;
}
