-- ===== src/Audit/Recording.antt =====
-- What the audit trail keeps, and that it cannot break a request.
use face_cam.Prelude.{
  ℕ, ◌≡◌, ◌≢◌, refl, ap, ◌∙◌, ◌⊎◌, inl, inr, Bool, true, false, ◌||◌, Option, none, some, every,
  is_some, Text, codes, starts_with, Bool-cases, Option-cases, arith,
}
use mathlib.Core.List.{Memᴰ}
use face_cam.Prelude.Errors.{Result, ok, err}
use face_cam.Context.{RequestStore, Call, as_platform}
use face_cam.Guards.{is_read}
use face_cam.FieldSchema.Values.{Value}
use face_cam.Routes.{Endpoint, AuditSpec}
use face_cam.Routes.Table.{endpoints}
use face_cam.Routes.Access.{every_sound}
use face_cam.Audit.{HttpRequest, AuditRow, audit_row, record_action, recorded, intercept}

abbrev is_marked : Endpoint → Bool
is_marked e = is_read e.method || starts_with (codes "auth/") e.path || is_some e.audit

all_marked : every is_marked endpoints ≡ true
all_marked = refl

not_marked :
    (a b : Bool) (audit : Option AuditSpec)
    → a ≡ false
    → b ≡ false
    → audit ≡ none
    → (a || b || is_some audit) ≢ true
not_marked a b audit p q unmarked = λ e. absurd (ground arith)

audited :
    (e : Endpoint)
    → Memᴰ e endpoints
    → is_read e.method ≡ false
    → starts_with (codes "auth/") e.path ≡ false
    → (spec : AuditSpec) × (e.audit ≡ some spec)
audited e listed writes other =
    let marked = every_sound is_marked endpoints e all_marked listed in
    elim (Option-cases e.audit) [
      | inr found ↦ found
      | inl unmarked ↦ absurd (
          not_marked (is_read e.method) (starts_with (codes "auth/") e.path) e.audit writes other
            unmarked marked)
    ]

module _ (to_text : Value ℕ → Text) {S : Type 0}
    (create : AuditRow → S → Result (Unit {0}) × S) where
  record_action-keeps :
      (spec : AuditSpec) (request : HttpRequest) (v : Value ℕ) (ctx : Option RequestStore) (s : S)
      → (record_action to_text create spec request v (ctx, s)).0 ≡ ctx
  unfolding record_action as_platform
  record_action-keeps spec request v none s = refl
  record_action-keeps spec request v (some r) s = elim (Option-cases r.tenant_id) [
    | inl outside ↦ rw outside refl
    | inr (t, inside) ↦ elim (Bool-cases r.platform_scope) [
      | inl platform ↦ rw (inside, platform) refl
      | inr bound ↦ rw (inside, bound) refl
    ]
  ]

  record_action-written :
      (spec : AuditSpec) (request : HttpRequest) (v : Value ℕ) (r : RequestStore) (s : S)
      → r.platform_scope ≡ false
      → record_action to_text create spec request v (some r, s)
        ≡ (some r, (create (audit_row to_text spec request v (some r)) s).1)
  unfolding record_action as_platform
  record_action-written spec request v r s bound = elim (Option-cases r.tenant_id) [
    | inl outside ↦ rw outside refl
    | inr (t, inside) ↦ rw (inside, bound) refl
  ]

  recorded-transparent :
      (spec : AuditSpec) (request : HttpRequest) (result : Result (Value ℕ))
      (st : Option RequestStore × S)
      → let (result', (ctx, s)) = recorded to_text create spec request result st in
        (result' ≡ result)
        × (ctx ≡ st.0)
        × ((s ≡ st.1)
            ⊎ ((v : Value ℕ) × (marked : AuditSpec) × (result' ≡ ok v) × (some spec ≡ some marked)))
  unfolding recorded
  recorded-transparent spec request (ok v) (ctx, s) =
      (refl, record_action-keeps spec request v ctx s, inr (v, spec, refl, refl))
  recorded-transparent spec request (err e) (ctx, s) = (refl, refl, inl refl)

  intercept_marked :
      (spec : AuditSpec) (request : HttpRequest) (handle : Call S (Value ℕ))
      (st : Option RequestStore × S) (v : Value ℕ) (r : RequestStore) (s : S)
      → r.platform_scope ≡ false
      → handle st ≡ (ok v, (some r, s))
      → intercept to_text create (some spec) request handle st
        ≡ (ok v, (some r, (create (audit_row to_text spec request v (some r)) s).1))
  unfolding intercept recorded
  intercept_marked spec request handle st v r s bound returned =
      ap (λ answer. recorded to_text create spec request answer.0 answer.1) returned
      ∙ ap (λ st'. (ok v, st')) (record_action-written spec request v r s bound)

  -- The audit trail cannot break a request: whatever the database answers to the insertion of the
  -- row, the caller gets what the handler returned or threw, and the request's store is the
  -- handler's; nothing is written when the handler throws or its route is not marked.
  pub intercept-transparent :
      (spec : Option AuditSpec) (request : HttpRequest) (handle : Call S (Value ℕ))
      (st : Option RequestStore × S)
      → let (result, (ctx, s)) = intercept to_text create spec request handle st in
        (result ≡ (handle st).0)
        × (ctx ≡ (handle st).1.0)
        × ((s ≡ (handle st).1.1)
            ⊎ ((v : Value ℕ) × (marked : AuditSpec) × (result ≡ ok v) × (spec ≡ some marked)))
  unfolding intercept
  intercept-transparent none request handle st = (refl, refl, inl refl)
  intercept-transparent (some spec) request handle st =
      recorded-transparent spec request (handle st).0 (handle st).1

  -- A row about the action of a route, by the user and for the organization of a request.
  pub record IsRowOf (spec : AuditSpec) (request : HttpRequest) (r : RequestStore) (row : AuditRow)
      : Type 0 where
    pub organization : row.tenant_id ≡ r.tenant_id
    pub actor : row.actor_user_id ≡ r.user_id
    pub action : row.action ≡ spec.action
    pub entity : row.entity ≡ spec.entity
    pub method : row.method ≡ request.method
    pub correlation : row.correlation_id ≡ r.correlation_id

  -- A write to a route outside of signing in that succeeds asks the database once to insert a row
  -- with the action and the entity of the route, the method, and the organization, the user and the
  -- correlation id of the request: every such route is marked as audited. The handler leaves the
  -- request outside of the scope of the platform. What the database answers to the insertion is not
  -- looked at.
  pub intercept-audited :
      (e : Endpoint) (request : HttpRequest) (handle : Call S (Value ℕ))
      (st : Option RequestStore × S) (v : Value ℕ) (r : RequestStore) (s : S)
      → Memᴰ e endpoints
      → is_read e.method ≡ false
      → starts_with (codes "auth/") e.path ≡ false
      → r.platform_scope ≡ false
      → handle st ≡ (ok v, (some r, s))
      → (spec : AuditSpec) × (row : AuditRow) × (e.audit ≡ some spec)
        × IsRowOf spec request r row
        × (intercept to_text create e.audit request handle st ≡ (ok v, (some r, (create row s).1)))
  unfolding intercept audit_row
  intercept-audited e request handle st v r s listed writes other bound returned =
      let (spec, marked) = audited e listed writes other in
      (
        spec,
        audit_row to_text spec request v (some r),
        marked,
        record {
          organization = refl;
          actor = refl;
          action = refl;
          entity = refl;
          method = refl;
          correlation = refl;
        },
        ap (λ audit. intercept to_text create audit request handle st) marked
            ∙ intercept_marked spec request handle st v r s bound returned,
      )
