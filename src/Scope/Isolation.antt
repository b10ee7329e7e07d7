-- ===== src/Scope/Isolation.antt =====
-- Whatever a caller passes, the database sees the caller's own tenant.
use face_cam.Prelude.{
  ℕ, ◌≡◌, ◌≢◌, refl, Bool, true, false, Option, none, some, List, [], ◌∷◌, map, All, Text, text_eq,
  text_eq_iff, text_eq_refl, Bool-cases, inl, inr, ◌⊎◌, if◌then◌else◌, arith,
}
use face_cam.Prelude.Errors.{err, missing_tenant, platform_scope}
use face_cam.Context.{RequestStore, tenant_id_of, is_platform_scope}
use face_cam.Scope.{
  Model, tenant_field, Operation, create, create_many, upsert, read, spread, Payload, absent, one,
  many, Args, stamp, stamp_payload, scope_args, scoped_query, returned,
}

module _ {V : Type 0} where
  pub read-spread :
      (key k : Text) (value : V) (obj : List (Text × V))
      → read k (spread key value obj) ≡ (if text_eq key k then some value else read k obj)
  unfolding read spread
  read-spread key k value [] = refl
  read-spread key k value ((j, v) ∷ obj) =
      ground
        (arith, text_eq_iff key k, text_eq_iff j key, text_eq_iff j k, read-spread key k value obj)

  read-spread_self :
      (key : Text) (value : V) (obj : List (Text × V))
      → read key (spread key value obj) ≡ some value
  read-spread_self key value obj = rw (read-spread, text_eq_refl key)

  -- The value that an argument object gives for a field, if there is one.
  abbrev pub filtered_by : Text → Args V → Option V
  filtered_by field args = elim args.filter [ none ↦ none | some obj ↦ read field obj ]

  abbrev pub created_for : Text → Args V → Option V
  created_for field args = elim args.creation [ none ↦ none | some obj ↦ read field obj ]

  -- Every row of the payload has the value in the field.
  abbrev pub IsStamped : Text → V → Payload V → Type 0
  IsStamped field id absent = ⊥
  IsStamped field id (one obj) = read field obj ≡ some id
  IsStamped field id (many rows) = All (λ obj. read field obj ≡ some id) rows

  -- What each operation sends.
  abbrev pub IsScoped : Text → V → Operation → Args V → Type 0
  IsScoped field id create args = IsStamped field id args.payload
  IsScoped field id create_many args = IsStamped field id args.payload
  IsScoped field id upsert args =
      (filtered_by field args ≡ some id) × (created_for field args ≡ some id)
  IsScoped field id (Operation.other name) args = Unit
  IsScoped field id _ args = filtered_by field args ≡ some id

  map-IsStamped :
      (field : Text) (id : V) (rows : List (List (Text × V)))
      → All (λ obj. read field obj ≡ some id) (map (spread field id) rows)
  map-IsStamped field id [] = tt
  map-IsStamped field id (obj ∷ rows) = (read-spread_self field id obj, map-IsStamped field id rows)

  stamp_payload-IsStamped :
      (field : Text) (id : V) (p : Payload V) → IsStamped field id (stamp_payload field id p)
  stamp_payload-IsStamped field id absent = read-spread_self field id []
  stamp_payload-IsStamped field id (one obj) = read-spread_self field id obj
  stamp_payload-IsStamped field id (many rows) = map-IsStamped field id rows

  filter-stamp :
      (field : Text) (id : V) (o : Option (List (Text × V)))
      → read field (stamp field id o) ≡ some id
  filter-stamp field id none = read-spread_self field id []
  filter-stamp field id (some obj) = read-spread_self field id obj

  scope_args-IsScoped :
      (field : Text) (id : V) (operation : Operation) (args : Args V)
      → IsScoped field id operation (scope_args field id operation args)
  unfolding scope_args
  scope_args-IsScoped field id create args = stamp_payload-IsStamped field id args.payload
  scope_args-IsScoped field id create_many args = stamp_payload-IsStamped field id args.payload
  scope_args-IsScoped field id upsert args =
      (filter-stamp field id args.filter, filter-stamp field id args.creation)
  scope_args-IsScoped field id (Operation.other name) args = tt
  scope_args-IsScoped field id _ args = filter-stamp field id args.filter

  filter-stamp_ne :
      (field k : Text) (id : V) (o : Option (List (Text × V)))
      → k ≢ field
      → read k (stamp field id o) ≡ elim o [ none ↦ none | some obj ↦ read k obj ]
  unfolding read
  filter-stamp_ne field k id none other = rw read-spread (ground (arith, text_eq_iff field k))
  filter-stamp_ne field k id (some obj) other = rw read-spread (ground (arith, text_eq_iff field k))

  scope_args-ne :
      (field k : Text) (id : V) (operation : Operation) (args : Args V)
      → k ≢ field
      → filtered_by k (scope_args field id operation args) ≡ filtered_by k args
  unfolding scope_args
  scope_args-ne field k id create args other = refl
  scope_args-ne field k id create_many args other = refl
  scope_args-ne field k id upsert args other = filter-stamp_ne field k id args.filter other
  scope_args-ne field k id (Operation.other name) args other = refl
  scope_args-ne field k id _ args other = filter-stamp_ne field k id args.filter other

module _ {S R V : Type 0} (of_id : ℕ → V) (query : Model → Operation → Args V → S → R × S)
    (transaction : ℕ → Model → Operation → Args V → S → R × S)
    (has_delegate : Model → Operation → Bool) where
  -- The arguments that reach the database in the place of the caller's.
  pub record IsIsolated (field k : Text) (t : ℕ) (operation : Operation) (args sent : Args V)
      : Type 0 where
    pub scoped : IsScoped field (of_id t) operation sent
    pub kept : filtered_by k sent ≡ filtered_by k args

  -- In a request of tenant `t`, outside of asPlatform, an operation on a tenant-owned model reaches
  -- the database once, and with arguments that filter by `t`, or stamp `t` on every row written,
  -- whatever tenant the caller's own arguments name; every other condition of the filter stays. An
  -- operation that the two sets of the source do not name is passed on as it is.
  pub scoped_query-IsIsolated :
      (model : Model) (field k : Text) (operation : Operation) (args : Args V)
      (ctx : Option RequestStore) (s : S) (t : ℕ)
      → tenant_field model ≡ some field
      → is_platform_scope ctx ≡ false
      → tenant_id_of ctx ≡ some t
      → k ≢ field
      → (sent : Args V) × (scoped_query of_id query transaction has_delegate model operation args
            (ctx, s)
          ≡ returned of_id query transaction has_delegate ctx (
              if has_delegate model operation
              then transaction t model operation sent s
              else query model operation sent s))
        × IsIsolated field k t operation args sent
  unfolding scoped_query
  scoped_query-IsIsolated model field k operation args ctx s t owned tenant_scope inside other = (
    scope_args field (of_id t) operation args,
    rw (owned, tenant_scope, inside, scoped_query) refl,
    record {
      scoped = scope_args-IsScoped field (of_id t) operation args;
      kept = scope_args-ne field k (of_id t) operation args other;
    },
  )

  -- Under asPlatform, outside of a tenant's request and outside of any request an operation on a
  -- tenant-owned model is refused, and the database is not reached.
  pub scoped_query_refuses :
      (model : Model) (field : Text) (operation : Operation) (args : Args V)
      (ctx : Option RequestStore) (s : S)
      → tenant_field model ≡ some field
      → (is_platform_scope ctx ≡ true) ⊎ (tenant_id_of ctx ≡ none)
      → (scoped_query of_id query transaction has_delegate model operation args (ctx, s)
          ≡ (err platform_scope, (ctx, s)))
        ⊎ (scoped_query of_id query transaction has_delegate model operation args (ctx, s)
            ≡ (err missing_tenant, (ctx, s)))
  unfolding scoped_query
  scoped_query_refuses model field operation args ctx s owned outside =
      elim (Bool-cases (is_platform_scope ctx)) [
        | inl platform ↦ inl (rw (owned, platform, scoped_query))
        | inr ordinary ↦ elim outside [
          | inl platform ↦ absurd (cc)
          | inr alone ↦ inr (rw (owned, ordinary, alone, scoped_query))
        ]
      ]
