-- ===== src/Fields/Display.antt =====
-- The reads of apps/api/src/members/field-definitions.service.ts, and `reorder`, which ends in one.
use face_cam.Prelude.{ℕ, Bool, false, ◌&&◌, ◌||◌, not, some, List, map, ◌==◌, is_some}
use face_cam.Prelude.Errors.{◌>>=◌, ◌>>◌, gets, modify}
use face_cam.Context.{scoped, Call, require_tenant_id}
use face_cam.Rows.{MemberFieldDefinition}
use face_cam.Templates.{FieldDefinition}
use face_cam.Store.{Table}
use face_cam.Fields.{reorder_all}

abbrev pub to_field_definition : MemberFieldDefinition → FieldDefinition
to_field_definition row = record {
  key = row.key;
  label = row.label;
  type = row.type;
  required = row.required;
  options = some row.options;
  group = row.group;
  sort_order = row.sort_order;
  help_text = row.help_text;
  max_length = row.max_length;
  min = row.min;
  max = row.max;
}

-- `includeArchived ? {} : { archivedAt: null }`, in a tenant.
abbrev pub displayed : ℕ → Bool → MemberFieldDefinition → Bool
displayed t include_archived f =
    (include_archived || not (is_some f.archived_at)) && f.tenant_id == t

-- The database's sorts: by `sortOrder` and `label`, and by `sortOrder` alone.
module _ (fields : Table MemberFieldDefinition (λ f. f.id))
    (by_order_and_label by_order : List MemberFieldDefinition → List MemberFieldDefinition) where
  unfoldable pub list : Bool → Call fields.State (List MemberFieldDefinition)
  list include_archived =
      scoped (λ t.
        gets (λ st. by_order_and_label (fields.find_many st.1 (displayed t include_archived))))

  unfoldable pub active_definitions : Call fields.State (List FieldDefinition)
  active_definitions = scoped (λ t.
      gets (λ st. map to_field_definition (by_order (fields.find_many st.1 (displayed t false)))))

  -- The loop stands in one transaction, whose filter names the tenant itself.
  unfoldable pub reorder : List ℕ → Call fields.State (List MemberFieldDefinition)
  unfolding require_tenant_id list reorder_all
  reorder ids = do
    t ← require_tenant_id
    modify (λ st. (st.0, reorder_all fields t 0 ids st.1))
    list false
