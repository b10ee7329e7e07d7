-- ===== src/Web/Orderly.antt =====
-- What holds of every page, however its responses interleave: apps/web/src/lib/api.ts.
use face_cam.Prelude.{
  ℕ, suc, ◌+◌, ◌≤◌, ◌≡◌, ◌≢◌, refl, ◌⊎◌, inl, inr, Bool, true, false, ◌||◌, List, [], ◌∷◌, All,
  length, Text, arith,
}
use face_cam.Web.Refresh.{
  is_auth, Phase, sent, awaiting, done, Caller, Page, Event, answered, refreshed, respond,
  ask_refresh, step, run, begin, opened,
}
use face_cam.Web.Phases.{
  Fits, CallerFits, one_if, fresh, caller_at, or_false, respond-Fits, resume-Fits_each,
}

pub record IsOrderly (n : ℕ) (page : Page) : Type 0 where
  pub fit : All (CallerFits page.refresh_in_flight) page.callers
  pub one_refresh : page.refreshes_sent ≡ page.refreshes_ended + one_if page.refresh_in_flight
  pub few_refreshes : page.refreshes_sent + fresh page.callers ≤ n

at_most_one : (m k : ℕ) (b : Bool) → m ≡ k + one_if b → m ≤ suc k
at_most_one m k true e = omega arith
at_most_one m k false e = omega arith

abbrev page_at : List Caller → Bool → ℕ → ℕ → Page
page_at callers in_flight refreshes refreshes_ended = record {
  callers = callers;
  refresh_in_flight = in_flight;
  refreshes_sent = refreshes;
  refreshes_ended = refreshes_ended;
}

module _ {n : ℕ} where
  ask_refresh-IsOrderly :
      (asks in_flight : Bool) (callers : List Caller) (refreshes ended : ℕ)
      → All (CallerFits (in_flight || asks)) callers
      → refreshes ≡ ended + one_if in_flight
      → refreshes + (fresh callers + one_if asks) ≤ n
      → IsOrderly n (ask_refresh asks (page_at callers in_flight refreshes ended))
  ask_refresh-IsOrderly false in_flight callers refreshes ended fit one few = record {
    fit = rw⁻¹ (or_false in_flight) fit;
    one_refresh = one;
    few_refreshes = omega arith;
  }
  ask_refresh-IsOrderly true true callers refreshes ended fit one few = record {
    fit = fit;
    one_refresh = one;
    few_refreshes = omega arith;
  }
  ask_refresh-IsOrderly true false callers refreshes ended fit one few = record {
    fit = fit;
    one_refresh = omega arith;
    few_refreshes = omega arith;
  }

  refreshed-IsOrderly :
      (is_refreshed in_flight : Bool) (callers : List Caller) (refreshes ended : ℕ)
      → IsOrderly n (page_at callers in_flight refreshes ended)
      → IsOrderly n (step (refreshed is_refreshed) (page_at callers in_flight refreshes ended))
  unfolding step
  refreshed-IsOrderly is_refreshed false callers refreshes ended ok = ok
  refreshed-IsOrderly is_refreshed true callers refreshes ended ok =
      let (fits, same) = resume-Fits_each is_refreshed true callers ok.fit in
      let one = ok.one_refresh in
      let few = ok.few_refreshes in
      record { fit = fits; one_refresh = omega arith; few_refreshes = omega arith }

  step-IsOrderly : (event : Event) (page : Page) → IsOrderly n page → IsOrderly n (step event page)
  unfolding step
  step-IsOrderly (answered i status) page ok =
      let (fits, fewer) = respond-Fits page.refresh_in_flight i status page.callers ok.fit in
      let few = ok.few_refreshes in
      let (callers, asks) = respond i status page.callers in
      ask_refresh-IsOrderly asks page.refresh_in_flight callers page.refreshes_sent
        page.refreshes_ended fits ok.one_refresh (omega arith)
  step-IsOrderly (refreshed is_refreshed) page ok =
      refreshed-IsOrderly is_refreshed page.refresh_in_flight page.callers page.refreshes_sent
        page.refreshes_ended ok

  run-IsOrderly :
      (events : List Event) (page : Page) → IsOrderly n page → IsOrderly n (run events page)
  unfolding run
  run-IsOrderly [] page ok = ok
  run-IsOrderly (event ∷ events) page ok =
      run-IsOrderly events (step event page) (step-IsOrderly event page ok)

begin-Fits :
    (paths : List Text)
    → All (CallerFits false) (begin paths) × (fresh (begin paths) ≡ length paths)
begin-Fits [] = (tt, refl)
begin-Fits (path ∷ paths) = let (fit, all) = begin-Fits paths in ((refl, fit), omega arith)

opened-IsOrderly : (paths : List Text) → IsOrderly (length paths) (opened paths)
opened-IsOrderly paths =
    let (fit, all) = begin-Fits paths in
    record { fit = fit; one_refresh = refl; few_refreshes = omega arith }

-- What a page may have done at any time: no request has gone out more than twice, one to an auth
-- route once at most; a call that awaits a refresh has one in flight.
abbrev pub IsFair : Bool → Caller → Type 0
IsFair in_flight caller =
    (caller.requests ≤ 2)
    × ((is_auth caller.path ≡ false) ⊎ (caller.requests ≡ 1))
    × ((caller.phase ≢ awaiting) ⊎ (in_flight ≡ true))

Fits-IsFair :
    (in_flight : Bool) (path : Text) (phase : Phase) (requests : ℕ)
    → Fits in_flight (is_auth path) phase requests
    → IsFair in_flight (caller_at path phase requests)
Fits-IsFair b path (sent true) requests fits = (omega arith, inr fits, inl (ground arith))
Fits-IsFair b path (sent false) requests (twice, other) =
    (omega arith, inl other, inl (ground arith))
Fits-IsFair b path awaiting requests (once, flies, other) = (omega arith, inl other, inr flies)
Fits-IsFair b path (done last) requests (inl once) = (omega arith, inr once, inl (ground arith))
Fits-IsFair b path (done last) requests (inr (twice, other)) =
    (omega arith, inl other, inl (ground arith))

All-IsFair :
    (in_flight : Bool) (callers : List Caller)
    → All (CallerFits in_flight) callers
    → All (IsFair in_flight) callers
All-IsFair b [] fit = tt
All-IsFair b (c ∷ callers) (first, fit) =
    (Fits-IsFair b c.path c.phase c.requests first, All-IsFair b callers fit)

-- However the responses of a page interleave: at most one refresh is out at a time, and no more have
-- gone out than the page has calls; no call has sent its request more than twice, one to an auth
-- route only once; and a call that awaits a refresh has one in flight.
pub run-opened :
    (paths : List Text) (events : List Event)
    → let page = run events (opened paths) in
      (page.refreshes_sent ≤ suc page.refreshes_ended)
      × (page.refreshes_sent ≤ length paths)
      × All (IsFair page.refresh_in_flight) page.callers
run-opened paths events =
    let page = run events (opened paths) in
    let ok = run-IsOrderly events (opened paths) (opened-IsOrderly paths) in
    let one = ok.one_refresh in
    let few = ok.few_refreshes in
    (
      at_most_one page.refreshes_sent page.refreshes_ended page.refresh_in_flight one,
      omega arith,
      All-IsFair page.refresh_in_flight page.callers ok.fit,
    )
