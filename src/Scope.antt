-- ===== src/Scope.antt =====
-- Tenant isolation, layer one: the Prisma extension of apps/api/src/prisma/tenant-scope.ts.
-- The database behind it is a parameter: a query, and a query inside a transaction that has set
-- `app.tenant_id`.
pub mod Isolation
mod Tests
use face_cam.Prelude.{
  ℕ, ◌≡◌, Bool, true, false, ◌||◌, Option, none, some, List, [], ◌∷◌, map, Text, codes, text_eq,
  if◌then◌else◌,
}
use face_cam.Prelude.Errors.{Result, ok, err, missing_tenant, platform_scope}
use face_cam.Context.{RequestStore, Call, tenant_id_of, is_platform_scope}

-- The models of the Prisma schema.
pub data Model : Type 0 where
  tenant tenant_branding tenant_settings user audit_log member face_template : Model
  member_field_definition : Model

-- TENANT_SCOPED_MODELS: the column that holds a row's tenant.
pub tenant_field : Model → Option Text
tenant_field tenant = none
tenant_field _ = some (codes "tenantId")

-- The operations that the two sets of the source name, and any other.
pub data Operation : Type 0 where
  find_unique find_unique_or_throw find_first find_first_or_throw find_many : Operation
  count aggregate group_by update update_many delete delete_many : Operation
  create create_many upsert : Operation
  other : Text → Operation

-- `WHERE_OPERATIONS.has(operation)`
abbrev pub is_where : Operation → Bool
is_where create = false
is_where create_many = false
is_where upsert = false
is_where (other name) = false
is_where _ = true

-- `CREATE_OPERATIONS.has(operation)`
abbrev pub is_create : Operation → Bool
is_create create = true
is_create create_many = true
is_create upsert = true
is_create _ = false

-- An object literal, over values of any kind: keys with their values, each key once.
module _ {V : Type 0} where
  -- `obj[key]`
  pub read : Text → List (Text × V) → Option V
  read key [] = none
  read key ((k, v) ∷ obj) = if text_eq k key then some v else read key obj

  -- `{ ...obj, [key]: value }`
  pub spread : Text → V → List (Text × V) → List (Text × V)
  spread key value [] = (key, value) ∷ []
  spread key value ((k, v) ∷ obj) =
      if text_eq k key then (k, value) ∷ obj else (k, v) ∷ spread key value obj

pub data Payload (V : Type 0) : Type 0 where
  absent : Payload V
  one : List (Text × V) → Payload V
  many : List (List (Text × V)) → Payload V

pub record Args (V : Type 0) : Type 0 where
  pub filter : Option (List (Text × V))
  pub creation : Option (List (Text × V))
  pub payload : Payload V

-- `{ ...(obj ?? {}), [field]: tenantId }`
abbrev pub stamp : {V : Type 0} → Text → V → Option (List (Text × V)) → List (Text × V)
stamp field id none = spread field id []
stamp field id (some obj) = spread field id obj

abbrev pub stamp_payload : {V : Type 0} → Text → V → Payload V → Payload V
stamp_payload field id absent = one (spread field id [])
stamp_payload field id (one obj) = one (spread field id obj)
stamp_payload field id (many rows) = many (map (spread field id) rows)

module _ {V : Type 0} (field : Text) (id : V) where
  pub scope_where : Operation → Args V → Args V
  scope_where operation args =
      if is_where operation
      then record args { filter = some (stamp field id args.filter) }
      else args

  pub scope_create : Operation → Args V → Args V
  scope_create upsert args = record args {
    filter = some (stamp field id args.filter);
    creation = some (stamp field id args.creation);
  }
  scope_create create args = record args { payload = stamp_payload field id args.payload }
  scope_create create_many args = record args { payload = stamp_payload field id args.payload }
  scope_create _ args = args

  pub scope_args : Operation → Args V → Args V
  unfolding scope_where scope_create
  scope_args operation args = scope_create operation (scope_where operation args)

-- The handler of every operation of every model. A tenant is written into the arguments by `of_id`; an operation
-- with no delegate runs outside of the transaction.
module _ {S R V : Type 0} (of_id : ℕ → V) (query : Model → Operation → Args V → S → R × S)
    (transaction : ℕ → Model → Operation → Args V → S → R × S)
    (has_delegate : Model → Operation → Bool) where
  abbrev pub returned : Option RequestStore → R × S → Result R × (Option RequestStore × S)
  returned ctx (r, s) = (ok r, (ctx, s))

  pub scoped_query : Model → Operation → Args V → Call S R
  scoped_query model operation args (ctx, s) = elim (tenant_field model) [
    | none ↦ returned ctx (query model operation args s)
    | some field ↦
        if is_platform_scope ctx then (err platform_scope, (ctx, s)) else elim (tenant_id_of ctx) [
          | none ↦ (err missing_tenant, (ctx, s))
          | some id ↦
              let scoped = scope_args field (of_id id) operation args in
              returned ctx (
                if has_delegate model operation
                then transaction id model operation scoped s
                else query model operation scoped s)
        ]
  ]
