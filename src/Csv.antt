-- ===== src/Csv.antt =====
-- The export of members to CSV, apps/api/src/members/members.controller.ts, and its reading by the
-- import page, apps/web/src/app/t/[slug]/members/import/import-wizard.tsx. A text is a list of
-- UTF-16 code units; how an attribute is shown by `String` is part of the exported member.
pub mod Cells
pub mod Export
mod Tests
use face_cam.Prelude.{
  ℕ, zero, suc, ◌+◌, ◌≡◌, Bool, true, false, ◌&&◌, ◌||◌, not, Option, none, some, List, [], ◌∷◌,
  ◌++◌, map, Text, codes, any_of, is_empty, includes, is_some, leb, ◌==◌, if◌then◌else◌,
}
use face_cam.Enums.{MemberStatus, active, inactive, archived}
use face_cam.Rows.{MemberFieldDefinition}

abbrev pub quote : ℕ
quote = b'"'

abbrev pub comma : ℕ
comma = b','

abbrev pub line_feed : ℕ
line_feed = 10

abbrev pub carriage_return : ℕ
carriage_return = 13

abbrev pub byte_order_mark : ℕ
byte_order_mark = 65279

-- `[",\n\r]`
abbrev pub is_special : ℕ → Bool
is_special c = c == quote || c == comma || c == line_feed || c == carriage_return

-- `text.replace(/"/g, '""')`
unfoldable pub escape : Text → Text
escape [] = []
escape (c ∷ s) = let rest = escape s in if c == quote then quote ∷ quote ∷ rest else c ∷ rest

unfoldable pub csv_cell : Option Text → Text
unfolding escape
csv_cell none = []
csv_cell (some text) = if any_of is_special text then quote ∷ escape text ++ quote ∷ [] else text

-- `parts.join(separator)`
unfoldable pub join : Text → List Text → Text
join separator [] = []
join separator (s ∷ []) = s
join separator (s ∷ t ∷ parts) = s ++ separator ++ join separator (t ∷ parts)

abbrev pub status_text : MemberStatus → Text
status_text active = codes "ACTIVE"
status_text inactive = codes "INACTIVE"
status_text archived = codes "ARCHIVED"

-- The columns of a `MemberDto` that the export reads. An attribute that is null or missing is none.
pub record MemberDto : Type 0 where
  pub code : Text
  pub full_name : Text
  pub email : Option Text
  pub phone : Option Text
  pub status : MemberStatus
  pub attributes : Text → Option Text
  pub consent_at : Option Text
  pub face_enrolled_at : Option Text

-- `definitions.filter((definition) => definition.archivedAt === null)`
unfoldable pub dynamic_keys : List MemberFieldDefinition → List Text
dynamic_keys [] = []
dynamic_keys (d ∷ definitions) =
    let rest = dynamic_keys definitions in if is_some d.archived_at then rest else d.key ∷ rest

abbrev pub csv_header : List Text → List Text
csv_header keys =
    codes "code" ∷ codes "fullName" ∷ codes "email" ∷ codes "phone" ∷ codes "status" ∷ keys
    ++ codes "consentAt" ∷ codes "faceEnrolledAt" ∷ []

abbrev pub csv_row : List Text → MemberDto → List (Option Text)
csv_row keys member =
    some member.code
      ∷ some member.full_name
      ∷ member.email
      ∷ member.phone
      ∷ some (status_text member.status)
      ∷ map member.attributes keys
    ++ member.consent_at ∷ member.face_enrolled_at ∷ []

abbrev pub csv_line : List Text → MemberDto → Text
csv_line keys member = join (comma ∷ []) (map csv_cell (csv_row keys member))

abbrev pub line_end : Text
line_end = carriage_return ∷ line_feed ∷ []

-- The header is joined as it is, without quoting.
unfoldable pub to_csv : List MemberFieldDefinition → List MemberDto → Text
unfolding csv_cell join dynamic_keys
to_csv definitions members =
    let keys = dynamic_keys definitions in
    byte_order_mark
      ∷ join line_end (join (comma ∷ []) (csv_header keys) ∷ map (csv_line keys) members)
    ++ line_end

-- What JavaScript's `trim` takes off: white space and line terminators.
abbrev pub is_space : ℕ → Bool
is_space c =
    (leb 9 c && leb c 13)
    || c == 32
    || c == 160
    || c == 5760
    || (leb 8192 c && leb c 8202)
    || c == 8232
    || c == 8233
    || c == 8239
    || c == 8287
    || c == 12288
    || c == byte_order_mark

unfoldable pub trim_left : Text → Text
trim_left [] = []
trim_left (c ∷ s) = let rest = trim_left s in if is_space c then rest else c ∷ s

unfoldable pub trim_right : Text → Text
trim_right [] = []
trim_right (c ∷ s) = let rest = trim_right s in if is_empty rest && is_space c then [] else c ∷ rest

-- `s.trim()`
unfoldable pub trim : Text → Text
unfolding trim_left trim_right
trim s = trim_right (trim_left s)

-- The variables of `parseCsv` while it reads.
pub record Reader : Type 0 where
  pub rows : List (List Text)
  pub row : List Text
  pub cell : Text
  pub in_quotes : Bool

-- `source[index + 1] === c`
abbrev pub next_is : ℕ → Text → Bool
next_is c [] = false
next_is c (d ∷ rest) = d == c

abbrev pub add_char : ℕ → Reader → Reader
add_char c r = record r { cell = r.cell ++ c ∷ [] }

abbrev pub is_filled : List Text → Bool
is_filled row = any_of (λ value. not (is_empty value)) row

-- `if (row.some((value) => value !== '')) rows.push(row)`
abbrev pub push_row : List (List Text) → List Text → List (List Text)
push_row rows row = if is_filled row then rows ++ row ∷ [] else rows

-- One pass of the loop at a character, given what follows it.
unfoldable pub read_char : Reader → ℕ → Text → Reader
unfolding trim
read_char r c rest =
    if r.in_quotes
    then (if c == quote
        then (if next_is quote rest then add_char quote r else record r { in_quotes = false })
        else add_char c r)
    else if c == quote
    then record r { in_quotes = true }
    else if c == comma
    then record r { row = r.row ++ trim r.cell ∷ []; cell = [] }
    else if c == line_feed || c == carriage_return
    then (record r { rows = push_row r.rows (r.row ++ trim r.cell ∷ []); row = []; cell = [] })
    else add_char c r

-- Whether that pass advances `index` past the next character too.
abbrev pub skips : Reader → ℕ → Text → Bool
skips r c rest =
    if r.in_quotes
    then c == quote && next_is quote rest
    else c == carriage_return && next_is line_feed rest

-- The loop; the flag says that `index` was advanced past this character.
unfoldable pub read_chars : Bool → Reader → Text → Reader
unfolding read_char
read_chars skip r [] = r
read_chars true r (c ∷ rest) = read_chars false r rest
read_chars false r (c ∷ rest) = read_chars (skips r c rest) (read_char r c rest) rest

-- The last row, when no line end follows it.
unfoldable pub last_row : Reader → List (List Text)
unfolding trim
last_row r =
    if not (is_empty r.cell) || not (is_empty r.row)
    then push_row r.rows (r.row ++ trim r.cell ∷ [])
    else r.rows

-- `text.replace(/^\uFEFF/, '')`
abbrev pub without_mark : Text → Text
without_mark [] = []
without_mark (c ∷ text) = if c == byte_order_mark then text else c ∷ text

abbrev pub fresh : Reader
fresh = record { rows = []; row = []; cell = []; in_quotes = false }

unfoldable pub parse_csv : Text → List (List Text)
unfolding read_chars last_row
parse_csv text = last_row (read_chars false fresh (without_mark text))
