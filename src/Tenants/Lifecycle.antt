-- ===== src/Tenants/Lifecycle.antt =====
-- Suspending, reactivating and updating an organization.
use face_cam.Prelude.{
  ℕ, ◌≡◌, ◌≢◌, ◌⊎◌, inl, inr, refl, false, Option, none, some, Text, ◌==◌, ==_iff, ==_refl,
  text_eq_iff, if◌then◌else◌, arith, Option-cases,
}
use mathlib.Core.Option
use face_cam.Prelude.Errors.{Result, ok, err, not_found}
use face_cam.Enums.{TenantStatus, cancelled, is_writable}
use face_cam.Context.{RequestStore}
use face_cam.Rows.{Tenant, User, MemberFieldDefinition}
use face_cam.Store.{Table}
use face_cam.Tenants.{
  UpdateTenantInput, TenantsState, is_tenant, has_slug, apply_update, apply_suspend,
  apply_reactivate, change, update, suspend, reactivate, public_profile,
}

module _ (tenants : Table Tenant (λ t. t.id)) (users : Table User (λ u. u.id))
    (fields : Table MemberFieldDefinition (λ f. f.id)) where
  abbrev pub row_of : Option RequestStore × TenantsState tenants users fields → ℕ → Option Tenant
  row_of st id = tenants.find_unique st.1.0 id

  -- What a change of one organization's row has done to the whole state.
  pub record IsChanged (id : ℕ) (f : Tenant → Tenant) (t : Tenant)
      (st : Option RequestStore × TenantsState tenants users fields)
      (result : Result Tenant × (Option RequestStore × TenantsState tenants users fields))
      : Type 0 where
    pub returned : result.0 ≡ ok (f t)
    pub stored : row_of result.1 id ≡ some (f t)
    pub rows : (k : ℕ) → row_of result.1 k ≡ (if k == id then some (f t) else row_of st k)
    pub users_kept : result.1.1.1 ≡ st.1.1
    pub fields_kept : result.1.1.2 ≡ st.1.2

  moved :
      (ts : tenants.State) (id k : ℕ) (f : Tenant → Tenant)
      → ((t : Tenant) → (f t).id ≡ t.id)
      → tenants.find_unique (tenants.update_many (is_tenant id) f ts) k
        ≡ (if k == id then Option.map f (tenants.find_unique ts k) else tenants.find_unique ts k)
  moved ts id k f keeps = elim (Option-cases (tenants.find_unique ts k)) [
    | inl gone ↦
        rw (tenants.find_unique-update_many ts (is_tenant id) f k keeps, gone) (ground arith)
    | inr (t, there) ↦
        let key = tenants.find_unique-key ts k t there in
        rw (tenants.find_unique-update_many ts (is_tenant id) f k keeps, there) (ground arith)
  ]

  change-IsChanged :
      (id : ℕ) (f : Tenant → Tenant) (t : Tenant)
      (st : Option RequestStore × TenantsState tenants users fields)
      → ((q : Tenant) → (f q).id ≡ q.id)
      → row_of st id ≡ some t
      → IsChanged id f t st (change tenants users fields id f st)
  unfolding change
  change-IsChanged id f t (ctx, (ts, us, fs)) keeps there =
      let here : tenants.find_unique (tenants.update_many (is_tenant id) f ts) id ≡ some (f t) =
        rw (moved ts id id f keeps, ==_refl id, there) in
      record {
        returned = ground arith;
        stored = ground arith;
        rows = λ k. elsewhere ts us fs ctx t k there;
        users_kept = ground arith;
        fields_kept = ground arith;
      }
    where
      elsewhere :
          (ts : tenants.State) (us : users.State) (fs : fields.State) (ctx : Option RequestStore)
          (t : Tenant) (k : ℕ)
          → tenants.find_unique ts id ≡ some t
          → row_of (change tenants users fields id f (ctx, (ts, us, fs))).1 k
            ≡ (if k == id then some (f t) else tenants.find_unique ts k)
      elsewhere ts us fs ctx t k there = ground (arith, moved ts id k f keeps, ==_iff k id)

  change-missing :
      (id : ℕ) (f : Tenant → Tenant) (st : Option RequestStore × TenantsState tenants users fields)
      → row_of st id ≡ none
      → change tenants users fields id f st ≡ (err not_found, st)
  unfolding change
  change-missing id f st gone = ground arith

  -- An organization that is suspended and later reactivated is answered for both times; in between
  -- its stored status lets no write through, and at the end its row is as it was but for an active
  -- status and no suspension. No other organization, user or field changes.
  pub suspend-reactivate :
      (now id : ℕ) (reason : Text) (t : Tenant)
      (st : Option RequestStore × TenantsState tenants users fields)
      → row_of st id ≡ some t
      → IsChanged id (apply_suspend now reason) t st (suspend tenants users fields now id reason st)
        × (is_writable (apply_suspend now reason t).status ≡ false)
        × IsChanged id apply_reactivate
            (apply_suspend now reason t)
            (suspend tenants users fields now id reason st).1
            (reactivate tenants users fields id (suspend tenants users fields now id reason st).1)
        × (apply_reactivate (apply_suspend now reason t) ≡ record t {
          status = TenantStatus.active;
          suspended_at = none;
          suspended_reason = none;
        })
  unfolding suspend reactivate
  suspend-reactivate now id reason t st there =
      let first = change-IsChanged id (apply_suspend now reason) t st (λ q. refl) there in
      (
        first,
        refl,
        change-IsChanged id apply_reactivate (apply_suspend now reason t)
            (change tenants users fields id (apply_suspend now reason) st).1 (λ q. refl)
            first.stored,
        refl,
      )

  -- An update writes exactly the given fields of one organization: its slug, its template and its
  -- status stay. Where there is no such organization the answer is NOT_FOUND and nothing changes.
  pub update-IsChanged :
      (id : ℕ) (input : UpdateTenantInput)
      (st : Option RequestStore × TenantsState tenants users fields)
      → ((row_of st id ≡ none) × (update tenants users fields id input st ≡ (err not_found, st)))
        ⊎ ((t : Tenant) × (row_of st id ≡ some t)
            × IsChanged id (apply_update input) t st (update tenants users fields id input st)
            × ((apply_update input t).slug ≡ t.slug)
            × ((apply_update input t).template ≡ t.template)
            × ((apply_update input t).status ≡ t.status))
  unfolding update
  update-IsChanged id input st = elim (Option-cases (row_of st id)) [
    | inl gone ↦ inl (gone, change-missing id (apply_update input) st gone)
    | inr (t, there) ↦ inr (
      t,
      there,
      change-IsChanged id (apply_update input) t st (λ q. refl) there,
      refl,
      refl,
      refl,
    )
  ]

  -- The login page of a portal is shown for a stored organization with that slug that is not
  -- cancelled, and the look-up writes nothing.
  pub public_profile_sound :
      (slug : Text) (t : Tenant) (st st' : Option RequestStore × TenantsState tenants users fields)
      → public_profile tenants users fields slug st ≡ (ok (some t), st')
      → (row_of st t.id ≡ some t) × (t.slug ≡ slug) × (t.status ≢ cancelled) × (st' ≡ st)
  unfolding public_profile
  public_profile_sound slug t st st' e =
      elim (Option-cases (tenants.find_first st.1.0 (has_slug slug))) [
        | inl nobody ↦ absurd (ground arith)
        | inr (q, found) ↦
            let (there, fits) = tenants.find_first_sound st.1.0 (has_slug slug) q found in
            let slugs = (text_eq_iff q.slug slug).0 fits in
            (ground arith, ground arith, ground arith, ground arith)
      ]
