-- ===== src/Fields.antt =====
-- The fields of an organization: apps/api/src/members/field-definitions.service.ts. The id that the
-- database gives a row and the time of the call are arguments; a call returns the stored row where
-- the source returns a rendering of it.
pub mod Order
pub mod Display
mod Tests
use face_cam.Prelude.{
  ℕ, ◌+◌, ◌*◌, ◌≡◌, Bool, true, false, ◌&&◌, not, Option, none, some, List, [], ◌∷◌, Text, text_eq,
  ltb, ◌==◌, is_some, or_default, if◌then◌else◌,
}
use face_cam.Prelude.Errors.{
  Error, Result, ok, err, ◌>>=◌, ◌>>◌, or_throw, gets, modify, not_found, field_key_taken,
  missing_tenant, no_tenant, platform_scope,
}
use face_cam.Enums.{FieldType}
use face_cam.Context.{scoped, RequestStore, Call, tenant_id_of, is_platform_scope}
use face_cam.Rows.{MemberFieldDefinition}
use face_cam.Store.{Table}

pub record CreateFieldInput : Type 0 where
  pub key : Text
  pub label : Text
  pub type : FieldType
  pub required : Bool
  pub options : List Text
  pub group : Option Text
  pub help_text : Option Text
  pub max_length : Option ℕ
  pub min : Option (Bool × ℕ)
  pub max : Option (Bool × ℕ)

-- An absent field leaves the column.
pub record UpdateFieldInput : Type 0 where
  pub label : Option Text
  pub required : Option Bool
  pub options : Option (List Text)
  pub group : Option (Option Text)
  pub help_text : Option (Option Text)
  pub max_length : Option (Option ℕ)
  pub min : Option (Option (Bool × ℕ))
  pub max : Option (Option (Bool × ℕ))

abbrev pub own_field : ℕ → ℕ → MemberFieldDefinition → Bool
own_field t id f = f.id == id && f.tenant_id == t

-- `orderBy: { sortOrder: 'desc' }` and the first row, or 0.
pub last_order : List MemberFieldDefinition → ℕ
last_order [] = 0
last_order (f ∷ fs) =
    let rest = last_order fs in if ltb rest f.sort_order then f.sort_order else rest

abbrev pub field_row : ℕ → ℕ → ℕ → CreateFieldInput → MemberFieldDefinition
field_row id t sort_order input = record {
  id = id;
  tenant_id = t;
  key = input.key;
  label = input.label;
  type = input.type;
  required = input.required;
  options = input.options;
  group = input.group;
  sort_order = sort_order;
  help_text = input.help_text;
  max_length = input.max_length;
  min = input.min;
  max = input.max;
  archived_at = none;
}

abbrev pub edit : UpdateFieldInput → MemberFieldDefinition → MemberFieldDefinition
edit input f = record f {
  label = or_default input.label f.label;
  required = or_default input.required f.required;
  options = or_default input.options f.options;
  group = or_default input.group f.group;
  help_text = or_default input.help_text f.help_text;
  max_length = or_default input.max_length f.max_length;
  min = or_default input.min f.min;
  max = or_default input.max f.max;
}

abbrev pub to_archive : ℕ → MemberFieldDefinition → MemberFieldDefinition
to_archive now f = record f { archived_at = some now; required = false }

abbrev pub to_restore : MemberFieldDefinition → MemberFieldDefinition
to_restore f = record f { archived_at = none }

module _ (fields : Table MemberFieldDefinition (λ f. f.id)) where
  -- `assertExists`, the update of the row, and the row as it is then.
  pub change_field :
      ℕ → (MemberFieldDefinition → MemberFieldDefinition) → Call fields.State MemberFieldDefinition
  change_field id f = scoped (λ t. do
    found ← gets (λ st. fields.find_first st.1 (own_field t id))
    or_throw found not_found
    modify (λ st. (st.0, fields.update_many (own_field t id) f st.1))
    after ← gets (λ st. fields.find_first st.1 (own_field t id))
    or_throw after not_found)

  pub update_field : ℕ → UpdateFieldInput → Call fields.State MemberFieldDefinition
  unfolding change_field
  update_field id input = change_field id (edit input)

  pub archive : ℕ → ℕ → Call fields.State MemberFieldDefinition
  unfolding change_field
  archive now id = change_field id (to_archive now)

  pub restore : ℕ → Call fields.State MemberFieldDefinition
  unfolding change_field
  restore id = change_field id to_restore

  -- The loop of `reorder`, from the id with this number.
  pub reorder_all : ℕ → ℕ → List ℕ → fields.State → fields.State
  reorder_all t index [] fs = fs
  reorder_all t index (id ∷ ids) fs =
      reorder_all t (index + 1) ids
        (fields.update_many (own_field t id) (λ f. record f { sort_order = (index + 1) * 10 }) fs)

  -- `create`, with the tenant of the request.
  pub create_in :
      ℕ → ℕ → CreateFieldInput → fields.State → Result MemberFieldDefinition × fields.State
  unfolding last_order
  create_in id t input fs =
      elim (fields.find_first fs (λ f. text_eq f.key input.key && f.tenant_id == t)) [
        | some clash ↦ (err field_key_taken, fs)
        | none ↦
            let row =
              field_row id t (last_order (fields.find_many fs (λ f. f.tenant_id == t)) + 10)
                input in
            (ok row, fields.create row fs)
      ]
