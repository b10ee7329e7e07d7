-- ===== src/Web/Phases.antt =====
-- Where a call of a page may stand, and what a response and the end of a refresh do to it:
-- apps/web/src/lib/api.ts.
use face_cam.Prelude.{
  ℕ, zero, suc, ◌+◌, ◌≤◌, ◌≡◌, refl, ap, ◌⊎◌, inl, inr, Bool, true, false, ◌||◌, List, [], ◌∷◌, map,
  All, if◌then◌else◌, Text, Bool-cases, arith,
}
use face_cam.Web.Refresh.{
  is_auth, Phase, sent, awaiting, done, Caller, wants_refresh, take_response, respond, resume,
}

-- Where a call stands fits the number of times its request went out, and it awaits a refresh only
-- while one is in flight. A call to an auth route never does.
abbrev pub Fits : Bool → Bool → Phase → ℕ → Type 0
Fits in_flight auth (sent true) requests = requests ≡ 1
Fits in_flight auth (sent false) requests = (requests ≡ 2) × (auth ≡ false)
Fits in_flight auth awaiting requests = (requests ≡ 1) × (in_flight ≡ true) × (auth ≡ false)
Fits in_flight auth (done status) requests = (requests ≡ 1) ⊎ ((requests ≡ 2) × (auth ≡ false))

abbrev pub CallerFits : Bool → Caller → Type 0
CallerFits in_flight caller = Fits in_flight (is_auth caller.path) caller.phase caller.requests

abbrev pub one_if : Bool → ℕ
one_if b = if b then 1 else 0

-- How many calls may still ask for a refresh.
abbrev pub may_ask : Phase → ℕ
may_ask (sent true) = 1
may_ask _ = 0

abbrev pub fresh : List Caller → ℕ
fresh [] = 0
fresh (caller ∷ callers) = may_ask caller.phase + fresh callers

Fits-or :
    (in_flight asks auth : Bool) (phase : Phase) (requests : ℕ)
    → Fits in_flight auth phase requests
    → Fits (in_flight || asks) auth phase requests
Fits-or in_flight asks auth (sent true) requests fits = fits
Fits-or in_flight asks auth (sent false) requests fits = fits
Fits-or in_flight asks auth awaiting requests (once, flies, other) = (once, rw flies refl, other)
Fits-or in_flight asks auth (done status) requests fits = fits

fitting_or :
    (in_flight asks : Bool) (callers : List Caller)
    → All (CallerFits in_flight) callers
    → All (CallerFits (in_flight || asks)) callers
fitting_or in_flight asks [] fit = tt
fitting_or in_flight asks (c ∷ callers) (first, fit) = (
  Fits-or in_flight asks (is_auth c.path) c.phase c.requests first,
  fitting_or in_flight asks callers fit,
)

abbrev Answered : Bool → Caller → ℕ → Type 0
Answered in_flight caller status =
    let (caller', asks) = take_response caller status in
    CallerFits (in_flight || asks) caller'
    × (may_ask caller'.phase + one_if asks ≤ may_ask caller.phase)

wants_refresh_sound :
    (caller : Caller) (allow_refresh : Bool) (status : ℕ)
    → wants_refresh caller allow_refresh status ≡ true
    → (is_auth caller.path ≡ false) × (allow_refresh ≡ true)
wants_refresh_sound caller allow_refresh status asks = elim (Bool-cases (is_auth caller.path)) [
  | inl auth ↦ absurd (ground arith)
  | inr other ↦ (other, ground arith)
]

abbrev pub caller_at : Text → Phase → ℕ → Caller
caller_at path phase requests = record { path = path; phase = phase; requests = requests }

once_of :
    (in_flight : Bool) (path : Text) (allow : Bool) (requests : ℕ)
    → allow ≡ true
    → Fits in_flight (is_auth path) (sent allow) requests
    → requests ≡ 1
once_of in_flight path true requests allowed fits = fits
once_of in_flight path false requests allowed fits = absurd (ground arith)

ended_of :
    (in_flight : Bool) (path : Text) (allow : Bool) (requests : ℕ)
    → Fits in_flight (is_auth path) (sent allow) requests
    → (requests ≡ 1) ⊎ ((requests ≡ 2) × (is_auth path ≡ false))
ended_of in_flight path true requests fits = inl fits
ended_of in_flight path false requests fits = inr fits

one_le_may_ask : (allow : Bool) → allow ≡ true → 1 ≤ may_ask (sent allow)
one_le_may_ask true allowed = omega arith
one_le_may_ask false allowed = absurd (ground arith)

pub or_false : (b : Bool) → (b || false) ≡ b
or_false true = refl
or_false false = refl

or_true : (b : Bool) → (b || true) ≡ true
or_true true = refl
or_true false = refl

take_response-Fits :
    (in_flight : Bool) (path : Text) (phase : Phase) (requests status : ℕ)
    → Fits in_flight (is_auth path) phase requests
    → Answered in_flight (record { path = path; phase = phase; requests = requests }) status
unfolding take_response
take_response-Fits in_flight path (sent allow) requests status fits =
    let caller = caller_at path (sent allow) requests in
    elim (Bool-cases (wants_refresh caller allow status)) [
      | inl asks ↦
          let (other, allowed) = wants_refresh_sound caller allow status asks in
          rw asks (
            (once_of in_flight path allow requests allowed fits, or_true in_flight, other),
            one_le_may_ask allow allowed,
          )
      | inr ends ↦ rw ends (ended_of in_flight path allow requests fits, omega arith)
    ]
take_response-Fits in_flight path awaiting requests status (once, flies, other) =
    ((once, rw flies refl, other), omega arith)
take_response-Fits in_flight path (done last) requests status fits = (fits, omega arith)

pub respond-Fits :
    (in_flight : Bool) (i status : ℕ) (callers : List Caller)
    → All (CallerFits in_flight) callers
    → let (callers', asks) = respond i status callers in
      All (CallerFits (in_flight || asks)) callers' × (fresh callers' + one_if asks ≤ fresh callers)
unfolding respond
respond-Fits in_flight i status [] fit = (tt, omega arith)
respond-Fits in_flight zero status (c ∷ callers) (first, fit) =
    let (fits, fewer) = take_response-Fits in_flight c.path c.phase c.requests status first in
    ((fits, fitting_or in_flight (take_response c status).1 callers fit), omega arith)
respond-Fits in_flight (suc i) status (c ∷ callers) (first, fit) =
    let (fits, fewer) = respond-Fits in_flight i status callers fit in
    (
      (
        Fits-or in_flight (respond i status callers).1 (is_auth c.path) c.phase c.requests first,
        fits,
      ),
      omega arith,
    )

resume-Fits :
    (is_refreshed in_flight : Bool) (path : Text) (phase : Phase) (requests : ℕ)
    → Fits in_flight (is_auth path) phase requests
    → CallerFits false (resume is_refreshed (caller_at path phase requests))
      × (may_ask (resume is_refreshed (caller_at path phase requests)).phase ≡ may_ask phase)
resume-Fits b in_flight path (sent true) requests fits = (fits, refl)
resume-Fits b in_flight path (sent false) requests fits = (fits, refl)
resume-Fits true in_flight path awaiting requests (once, flies, other) =
    ((ap suc once, other), refl)
resume-Fits false in_flight path awaiting requests (once, flies, other) = (inl once, refl)
resume-Fits b in_flight path (done last) requests fits = (fits, refl)

pub resume-Fits_each :
    (is_refreshed in_flight : Bool) (callers : List Caller)
    → All (CallerFits in_flight) callers
    → All (CallerFits false) (map (resume is_refreshed) callers)
      × (fresh (map (resume is_refreshed) callers) ≡ fresh callers)
resume-Fits_each b in_flight [] fit = (tt, refl)
resume-Fits_each b in_flight (c ∷ callers) (first, fit) =
    let (fits, same) = resume-Fits b in_flight c.path c.phase c.requests first in
    let (all, rest) = resume-Fits_each b in_flight callers fit in ((fits, all), omega arith)
