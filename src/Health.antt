-- ===== src/Health.antt =====
-- The health report: apps/api/src/health/health.service.ts and health.controller.ts. What a probe came
-- to, within its time, and the clock are arguments.
use face_cam.Prelude.{
  ℕ, ◌-◌, ◌≡◌, refl, ap, inl, inr, Bool, true, false, Option, none, some, List, [], ◌∷◌, ◌++◌,
  any_of, ◌==◌, if◌then◌else◌, Text, codes, decimal, Bool-cases,
}

pub data CheckStatus : Type 0 where
  up down disabled : CheckStatus

pub record HealthCheck : Type 0 where
  pub status : CheckStatus
  pub latency_ms : Option ℕ
  pub message : Option Text

-- A probe that returned, or threw an error with a message.
pub data Outcome (A : Type 0) : Type 0 where
  returned : A → Outcome A
  threw : Text → Outcome A

-- `timed`, from the times before and after.
pub timed : ℕ → ℕ → Outcome (Unit {0}) → HealthCheck
timed started_at now (returned _) = record {
  status = up;
  latency_ms = some (now - started_at);
  message = none;
}
timed started_at now (threw message) = record {
  status = down;
  latency_ms = some (now - started_at);
  message = some message;
}

-- `probeHttp`, whose probe gives the status of the response.
pub probe_http : List ℕ → ℕ → ℕ → Outcome ℕ → HealthCheck
probe_http accept_statuses started_at now (returned status) =
    if any_of (λ accepted. accepted == status) accept_statuses
    then (record { status = up; latency_ms = some (now - started_at); message = none })
    else record {
      status = down;
      latency_ms = some (now - started_at);
      message = some (codes "Unexpected status " ++ decimal status);
    }
probe_http accept_statuses started_at now (threw message) = record {
  status = down;
  latency_ms = some (now - started_at);
  message = some message;
}

pub record Checks : Type 0 where
  pub database : HealthCheck
  pub redis : HealthCheck
  pub compreface : HealthCheck
  pub antispoof : HealthCheck

pub data ReportStatus : Type 0 where
  healthy degraded failing : ReportStatus

abbrev pub is_down : HealthCheck → Bool
is_down check = elim check.status [ down ↦ true | _ ↦ false ]

-- `status` of the report: 'ok', 'degraded' or 'down'.
unfoldable pub report_status : Checks → ReportStatus
report_status checks =
    if is_down checks.database
    then failing
    else if any_of is_down
        (checks.database ∷ checks.redis ∷ checks.compreface ∷ checks.antispoof ∷ [])
    then degraded
    else healthy

-- What the four probes came to.
pub record Probes : Type 0 where
  pub database : Outcome (Unit {0})
  pub redis : Outcome (Unit {0})
  pub compreface : Outcome ℕ
  pub antispoof : Outcome ℕ

-- `check`, with `config.antiSpoof.enabled`.
unfoldable pub check : Bool → ℕ → ℕ → Probes → Checks
unfolding timed probe_http
check antispoof_enabled started_at now probes = record {
  database = timed started_at now probes.database;
  redis = timed started_at now probes.redis;
  compreface = probe_http (200 ∷ 400 ∷ 401 ∷ 403 ∷ []) started_at now probes.compreface;
  antispoof =
      if antispoof_enabled
      then probe_http (200 ∷ []) started_at now probes.antispoof
      else record { status = disabled; latency_ms = none; message = none };
}

abbrev is_failing : ReportStatus → Bool
is_failing failing = true
is_failing _ = false

-- `res.status(report.status === 'down' ? 503 : 200)`
unfoldable pub health_status : Bool → ℕ → ℕ → Probes → ℕ
unfolding check report_status
health_status antispoof_enabled started_at now probes =
    if is_failing (report_status (check antispoof_enabled started_at now probes)) then 503 else 200

abbrev has_thrown : {A : Type 0} → Outcome A → Bool
has_thrown (returned _) = false
has_thrown (threw _) = true

is_failing-report_status :
    (started_at now : ℕ) (database : Outcome (Unit {0})) (redis compreface antispoof : HealthCheck)
    → is_failing (
        report_status (record {
          database = timed started_at now database;
          redis = redis;
          compreface = compreface;
          antispoof = antispoof;
        }))
      ≡ has_thrown database
unfolding report_status timed
is_failing-report_status started_at now (threw message) redis compreface antispoof = refl
is_failing-report_status started_at now (returned v) redis compreface antispoof =
    elim (Bool-cases (any_of is_down (redis ∷ compreface ∷ antispoof ∷ []))) [
      | inl some_down ↦ rw some_down refl
      | inr all_up ↦ rw all_up refl
    ]

-- An instance is taken out of rotation only for its database: the answer is 503 if the probe of the
-- database threw and 200 otherwise, whatever became of the other services.
pub health_status-database :
    (antispoof_enabled : Bool) (started_at now : ℕ) (probes : Probes)
    → health_status antispoof_enabled started_at now probes
      ≡ (if has_thrown probes.database then 503 else 200)
unfolding health_status
health_status-database antispoof_enabled started_at now probes =
    let checks = check antispoof_enabled started_at now probes in
    ap (λ b. if b then 503 else 200)
      (is_failing-report_status started_at now probes.database checks.redis checks.compreface
        checks.antispoof)
