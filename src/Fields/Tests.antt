-- ===== src/Fields/Tests.antt =====
-- A run of the creation of a second field.
use face_cam.Prelude.{false, none, [], ◌∷◌, Text, codes}
use face_cam.Enums.{text}
use face_cam.Rows.{MemberFieldDefinition}
use face_cam.Store.{Table}
use face_cam.Store.Keyed.{Rows, keyed, holding}
use face_cam.Fields.{CreateFieldInput, field_row}

abbrev fields : Table MemberFieldDefinition (λ f. f.id)
fields = keyed (λ f. f.id)

abbrev input : Text → CreateFieldInput
input key = record {
  key = key;
  label = key;
  type = text;
  required = false;
  options = [];
  group = none;
  help_text = none;
  max_length = none;
  min = none;
  max = none;
}

abbrev house : MemberFieldDefinition
house = field_row 4 7 10 (input (codes "house"))

abbrev road : MemberFieldDefinition
road = field_row 5 7 20 (input (codes "road"))

abbrev fs : Rows (λ (f : MemberFieldDefinition). f.id)
fs = holding (λ f. f.id) (house ∷ [])
