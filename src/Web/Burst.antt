-- ===== src/Web/Burst.antt =====
-- One refresh for a page that fires many requests at once: apps/web/src/lib/api.ts.
use face_cam.Prelude.{
  ℕ, suc, ◌≡◌, refl, sym, ap, ◌∙◌, Bool, true, false, List, [], ◌∷◌, ◌++◌, map, All, length,
  if◌then◌else◌, Text,
}
use face_cam.Web.Refresh.{
  is_auth, sent, awaiting, Caller, Page, Event, answered, refreshed, take_response, respond, resume,
  step, run, begin, opened,
}

-- Every request is answered with 401, in turn, from the one with the given index on.
abbrev pub all_expired : ℕ → List Text → List Event
all_expired i [] = []
all_expired i (path ∷ paths) = answered i 401 ∷ all_expired (suc i) paths

abbrev waiter : Text → Caller
waiter path = record { path = path; phase = awaiting; requests = 1 }

abbrev waiting : List Text → List Caller
waiting [] = []
waiting (path ∷ paths) = waiter path ∷ waiting paths

-- Every call has sent its request for the second and last time.
abbrev pub retried : List Text → List Caller
retried [] = []
retried (path ∷ paths) = record { path = path; phase = sent false; requests = 2 } ∷ retried paths

respond_at :
    (before : List Caller) (path : Text) (after : List Caller)
    → is_auth path ≡ false
    → respond
        (length before)
        401
        (before ++ record { path = path; phase = sent true; requests = 1 } ∷ after)
      ≡ (before ++ record { path = path; phase = awaiting; requests = 1 } ∷ after, true)
unfolding respond take_response
respond_at [] path after ordinary = rw ordinary refl
respond_at (caller ∷ before) path after ordinary = rw (respond_at before path after ordinary) refl

length_snoc :
    (before : List Caller) (caller : Caller) → length (before ++ caller ∷ []) ≡ suc (length before)
length_snoc [] caller = refl
length_snoc (c ∷ before) caller = ap suc (length_snoc before caller)

append_snoc :
    (before : List Caller) (caller : Caller) (after : List Caller)
    → (before ++ caller ∷ []) ++ after ≡ before ++ caller ∷ after
append_snoc [] caller after = refl
append_snoc (c ∷ before) caller after = ap (λ cs. c ∷ cs) (append_snoc before caller after)

abbrev refreshing : List Caller → Page
refreshing callers = record {
  callers = callers;
  refresh_in_flight = true;
  refreshes_sent = 1;
  refreshes_ended = 0;
}

abbrev waiting_page : List Caller → Bool → Page
waiting_page callers is_refreshing = record {
  callers = callers;
  refresh_in_flight = is_refreshing;
  refreshes_sent = if is_refreshing then 1 else 0;
  refreshes_ended = 0;
}

step_expired :
    (before : List Caller) (path : Text) (after : List Caller) (is_refreshing : Bool)
    → is_auth path ≡ false
    → step (answered (length before) 401) (
        waiting_page
          (before ++ record { path = path; phase = sent true; requests = 1 } ∷ after)
          is_refreshing)
      ≡ refreshing (before ++ waiter path ∷ after)
unfolding step
step_expired before path after true ordinary = rw (respond_at before path after ordinary) refl
step_expired before path after false ordinary = rw (respond_at before path after ordinary) refl

pile_up :
    (before : List Caller) (paths : List Text) (events : List Event)
    → All (λ path. is_auth path ≡ false) paths
    → run (all_expired (length before) paths ++ events) (refreshing (before ++ begin paths))
      ≡ run events (refreshing (before ++ waiting paths))
unfolding run step
pile_up before [] events ordinary = refl
pile_up before (path ∷ paths) events (first, ordinary) =
    let w = waiter path in
    let later = all_expired (suc (length before)) paths ++ events in
    ap (λ page. run later page) (step_expired before path (begin paths) true first)
    ∙ (ap (λ c. run (all_expired (suc (length before)) paths ++ events) (refreshing c))
          (sym (append_snoc before w (begin paths)))
        ∙ ap
            (λ n.
              run (all_expired n paths ++ events) (refreshing ((before ++ w ∷ []) ++ begin paths)))
            (sym (length_snoc before w))
        ∙ pile_up (before ++ w ∷ []) paths events ordinary
        ∙ ap (λ c. run events (refreshing c)) (append_snoc before w (waiting paths)))

resume-waiting : (paths : List Text) → map (resume true) (waiting paths) ≡ retried paths
resume-waiting [] = refl
resume-waiting (path ∷ paths) =
    ap (λ cs. record { path = path; phase = sent false; requests = 2 } ∷ cs) (resume-waiting paths)

-- A page whose calls, of which there is at least one and none to an auth route, are answered with
-- 401 one after another in the order in which they were sent, all before the refresh that the first
-- answer starts has ended, sends that one refresh for all of them; when it succeeds every call sends
-- its request again, for the last time.
pub run-all_expired :
    (path : Text) (paths : List Text)
    → All (λ path. is_auth path ≡ false) (path ∷ paths)
    → run (all_expired 0 (path ∷ paths) ++ refreshed true ∷ []) (opened (path ∷ paths)) ≡ record {
      callers = retried (path ∷ paths);
      refresh_in_flight = false;
      refreshes_sent = 1;
      refreshes_ended = 1;
    }
unfolding run step
run-all_expired path paths (first, ordinary) =
    ap (λ page. run (all_expired 1 paths ++ refreshed true ∷ []) page)
      (step_expired [] path (begin paths) false first)
    ∙ (pile_up (waiter path ∷ []) paths (refreshed true ∷ []) ordinary
        ∙ rw (resume-waiting paths) refl)
