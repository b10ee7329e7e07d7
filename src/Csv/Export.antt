-- ===== src/Csv/Export.antt =====
-- The import page reads back what the export wrote.
use face_cam.Prelude.{
  ℕ, ◌<◌, ◌≡◌, refl, sym, ap, ◌∙◌, Bool, true, false, ◌&&◌, ◌||◌, not, Option, some, List, [], ◌∷◌,
  ◌++◌, map, Text, every, any_of, is_empty, leb, arith,
}
use mathlib.Core.List.{append_assoc, map-map}
use face_cam.Enums.{MemberStatus, active, inactive, archived}
use face_cam.Rows.{MemberFieldDefinition}
use face_cam.Templates.Seeds.{is_field_key}
use face_cam.Csv.{
  comma, is_special, is_space, csv_cell, join, line_end, trim_left, trim_right, trim, is_filled,
  push_row, read_chars, MemberDto, dynamic_keys, csv_header, csv_row, csv_line, to_csv, status_text,
  last_row, fresh, parse_csv,
}
use face_cam.Csv.Cells.{at, append_one, cell_text, read_line}

-- A text without special characters and without spaces is written and kept as it is.
abbrev is_plain : Text → Bool
is_plain t = every (λ c. not (is_special c) && not (is_space c)) t

plain-special : (t : Text) → is_plain t ≡ true → any_of is_special t ≡ false
plain-special [] h = refl
plain-special (c ∷ t) h = ground (arith, plain-special t)

trim_left-plain : (t : Text) → is_plain t ≡ true → trim_left t ≡ t
unfolding trim_left
trim_left-plain [] h = refl
trim_left-plain (c ∷ t) h = ground arith

trim_right-plain : (t : Text) → is_plain t ≡ true → trim_right t ≡ t
unfolding trim_right
trim_right-plain [] h = refl
trim_right-plain (c ∷ t) h = ground (arith, trim_right-plain t)

trim-plain : (t : Text) → is_plain t ≡ true → trim t ≡ t
unfolding trim
trim-plain t h = rw (trim_left-plain t h) (trim_right-plain t h)

csv_cell-plain : (t : Text) → is_plain t ≡ true → csv_cell (some t) ≡ t
unfolding csv_cell
csv_cell-plain t h = rw (plain-special t h) refl

abbrev is_letter : ℕ → Bool
is_letter d = (leb b'a' d && leb d b'z') || (leb b'A' d && leb d b'Z') || (leb b'0' d && leb d b'9')

letter_bounds : (c : ℕ) → is_letter c ≡ true → (47 < c) × (c < 123)
letter_bounds c h = ground arith

between-special : (c : ℕ) → 47 < c → c < 123 → is_special c ≡ false
between-special c low high = ground arith

between-space : (c : ℕ) → 47 < c → c < 123 → is_space c ≡ false
between-space c low high = ground arith

letter-plain : (c : ℕ) → is_letter c ≡ true → (not (is_special c) && not (is_space c)) ≡ true
letter-plain c h =
    let (low, high) = letter_bounds c h in
    rw (between-special c low high, between-space c low high) refl

letters-plain : (t : Text) → every is_letter t ≡ true → is_plain t ≡ true
letters-plain [] h = refl
letters-plain (c ∷ t) h =
    let (one, more) : (is_letter c ≡ true) × (every is_letter t ≡ true) = ground arith in
    rw (letter-plain c one) (letters-plain t more)

field_key-plain : (t : Text) → is_field_key t ≡ true → is_plain t ≡ true
unfolding is_field_key
field_key-plain [] h = absurd (ground arith)
field_key-plain (c ∷ t) h =
    let (one, more) : (is_letter c ≡ true) × (every is_letter t ≡ true) = ground arith in
    rw (letter-plain c one) (letters-plain t more)

csv_cell-header : (hs : List Text) → every is_plain hs ≡ true → map csv_cell (map some hs) ≡ hs
csv_cell-header [] h = refl
csv_cell-header (t ∷ hs) h =
    let (p, rest) : (is_plain t ≡ true) × (every is_plain hs ≡ true) = ground arith in
    rw (csv_cell-plain t p, csv_cell-header hs rest) refl

cell_text-header : (hs : List Text) → every is_plain hs ≡ true → map cell_text (map some hs) ≡ hs
unfolding cell_text
cell_text-header [] h = refl
cell_text-header (t ∷ hs) h =
    let (p, rest) : (is_plain t ≡ true) × (every is_plain hs ≡ true) = ground arith in
    rw (trim-plain t p, cell_text-header hs rest) refl

plain_keys :
    (definitions : List MemberFieldDefinition) (last : List Text)
    → every (λ d. is_field_key d.key) definitions ≡ true
    → every is_plain last ≡ true
    → every is_plain (dynamic_keys definitions ++ last) ≡ true
unfolding dynamic_keys
plain_keys [] last h e = e
plain_keys (d ∷ definitions) last h e =
    ground (arith, field_key-plain d.key, plain_keys definitions last)

plain_header :
    (definitions : List MemberFieldDefinition)
    → every (λ d. is_field_key d.key) definitions ≡ true
    → every is_plain (csv_header (dynamic_keys definitions)) ≡ true
unfolding dynamic_keys
plain_header definitions h = plain_keys definitions _ h refl

status_filled : (status : MemberStatus) → is_empty (cell_text (some (status_text status))) ≡ false
unfolding cell_text trim trim_left trim_right
status_filled active = refl
status_filled inactive = refl
status_filled archived = refl

filled_member :
    (keys : List Text) (m : MemberDto) → is_filled (map cell_text (csv_row keys m)) ≡ true
filled_member keys m = let status = status_filled m.status in ground arith

push_row-filled :
    (rows : List (List Text)) (row : List Text)
    → is_filled row ≡ true
    → push_row rows row ≡ rows ++ row ∷ []
push_row-filled rows row h = rw h refl

abbrev csv_text : List (Option Text) → Text
csv_text line = join (comma ∷ []) (map csv_cell line)

-- Lines that hold something are read as rows, in their order.
read_lines :
    (rows : List (List Text)) (line : List (Option Text)) (lines : List (List (Option Text)))
    → every (λ l. is_filled (map cell_text l)) (line ∷ lines) ≡ true
    → read_chars false
        (at rows [] [] false)
        (join line_end (map csv_text (line ∷ lines)) ++ line_end)
      ≡ at (rows ++ map (map cell_text) (line ∷ lines)) [] [] false
unfolding join read_chars
read_lines rows [] lines h = absurd (ground arith)
read_lines rows (t ∷ ts) [] h =
    let now : is_filled (map cell_text (t ∷ ts)) ≡ true = ground arith in
    read_line rows [] t ts [] ∙ rw now refl
read_lines rows (t ∷ ts) (line ∷ lines) h =
    let (now, later) : (is_filled (map cell_text (t ∷ ts)) ≡ true)
        × (every (λ l. is_filled (map cell_text l)) (line ∷ lines) ≡ true) =
      ground arith in
    rw
      (
        append_assoc (csv_text (t ∷ ts) ++ line_end) (join line_end (map csv_text (line ∷ lines)))
            line_end,
        append_assoc (csv_text (t ∷ ts)) line_end
            (join line_end (map csv_text (line ∷ lines)) ++ line_end),
      )
      (read_line rows [] t ts _
        ∙ ap
            (λ rs.
              read_chars false (at rs [] [] false)
                (join line_end (map csv_text (line ∷ lines)) ++ line_end))
            (push_row-filled rows _ now)
        ∙ read_lines (rows ++ map cell_text (t ∷ ts) ∷ []) line lines later
        ∙ ap (λ rs. at rs [] [] false) (sym (append_one rows (map cell_text (t ∷ ts)) _)))

filled_members :
    (keys : List Text) (members : List MemberDto)
    → every (λ l. is_filled (map cell_text l)) (map (csv_row keys) members) ≡ true
filled_members keys [] = refl
filled_members keys (m ∷ members) = rw (filled_member keys m) (filled_members keys members)

-- The import page reads an exported file as its header and one row for each member, in their order,
-- where the keys of the fields are ones that the API accepts: every cell comes back as it was,
-- commas, quotes and line ends included, less the white space at its two ends; a null comes back as
-- the empty text.
pub parse_csv-to_csv :
    (definitions : List MemberFieldDefinition) (members : List MemberDto)
    → every (λ d. is_field_key d.key) definitions ≡ true
    → parse_csv (to_csv definitions members)
      ≡ csv_header (dynamic_keys definitions)
        ∷ map (λ m. map cell_text (csv_row (dynamic_keys definitions) m)) members
unfolding parse_csv to_csv last_row cell_text trim trim_left trim_right
parse_csv-to_csv definitions members h =
    let keys = dynamic_keys definitions in
    let header = csv_header keys in
    let plain = plain_header definitions h in
    let lines = map (csv_row keys) members in
    ap
      (λ first.
        last_row (
          read_chars false fresh (join line_end (first ∷ map (csv_line keys) members) ++ line_end)))
      (sym (ap (join (comma ∷ [])) (csv_cell-header header plain)))
    ∙ ap
        (λ rest.
          last_row (
            read_chars false fresh (join line_end (csv_text (map some header) ∷ rest) ++ line_end)))
        (sym (map-map csv_text (csv_row keys) members))
    ∙ ap last_row (read_lines [] (map some header) lines (filled_members keys members))
    ∙ ap (λ first. first ∷ map (map cell_text) lines) (cell_text-header header plain)
    ∙ ap (λ rest. header ∷ rest) (map-map (map cell_text) (csv_row keys) members)
