-- ===== src/Csv/Tests.antt =====
-- An export and its reading, on two members with awkward names.
use face_cam.Prelude.{◌≡◌, refl, false, none, some, List, [], ◌∷◌, ◌++◌, map, Text, codes}
use face_cam.Enums.{active, archived, text}
use face_cam.Rows.{MemberFieldDefinition}
use face_cam.Csv.{MemberDto, csv_header, csv_row, dynamic_keys, to_csv, parse_csv, quote, line_feed}
use face_cam.Csv.Cells.{cell_text}
use face_cam.Csv.Export.{parse_csv-to_csv}

abbrev definitions : List MemberFieldDefinition
definitions =
    record {
      id = 1;
      tenant_id = 1;
      key = codes "shift";
      label = codes "Shift";
      type = text;
      required = false;
      options = [];
      group = none;
      sort_order = 1;
      help_text = none;
      max_length = none;
      min = none;
      max = none;
      archived_at = none;
    }
    ∷ []

abbrev quoted_name : Text
quoted_name = codes "O'Neil, " ++ quote ∷ codes "Al" ++ quote ∷ line_feed ∷ codes "x "

abbrev roll : List MemberDto
roll =
    record {
      code = codes "A1";
      full_name = quoted_name;
      email = none;
      phone = some (codes "12");
      status = active;
      attributes = λ key. some (codes "late, 2");
      consent_at = none;
      face_enrolled_at = none;
    }
    ∷ record {
      code = codes " ";
      full_name = [];
      email = none;
      phone = none;
      status = archived;
      attributes = λ key. none;
      consent_at = none;
      face_enrolled_at = none;
    }
    ∷ []

blank_lines :
    parse_csv (codes "a, b" ++ 13 ∷ 13 ∷ 10 ∷ codes "  ," ++ 10 ∷ codes "c")
    ≡ (codes "a" ∷ codes "b" ∷ []) ∷ (codes "c" ∷ []) ∷ []
unfolding parse_csv
blank_lines = refl

parse_csv-to_csv_example :
    parse_csv (to_csv definitions roll)
    ≡ csv_header (dynamic_keys definitions)
      ∷ map (λ m. map cell_text (csv_row (dynamic_keys definitions) m)) roll
unfolding face_cam.Templates.Seeds.is_field_key
parse_csv-to_csv_example = parse_csv-to_csv definitions roll refl
