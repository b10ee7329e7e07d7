-- ===== src/ImportPage.antt =====
-- The page that imports members: apps/web/src/app/t/[slug]/members/import/import-wizard.tsx, without
-- its rendering. A file that was read becomes rows and a guessed mapping, and a request to the API.
mod Tests
use face_cam.Prelude.{
  ℕ, ◌+◌, Bool, true, false, ◌&&◌, ◌||◌, not, Option, none, some, List, [], ◌∷◌, ◌++◌, map, Text,
  codes, text_eq, is_empty, ltb, or_default, if◌then◌else◌,
}
use face_cam.Slug.{Unicode, is_alnum}
use face_cam.Csv.{parse_csv}
use face_cam.Import.{ImportMembersInput, ImportReport}
use face_cam.Templates.{FieldDefinition}

pub record Target : Type 0 where
  pub key : Text
  pub label : Text
  pub required : Bool

-- `IMPORTABLE_CORE_FIELDS`
abbrev pub importable_core_fields : List Target
importable_core_fields =
    record { key = codes "code"; label = codes "Member code"; required = true }
    ∷ record { key = codes "fullName"; label = codes "Full name"; required = true }
    ∷ record { key = codes "email"; label = codes "Email"; required = false }
    ∷ record { key = codes "phone"; label = codes "Phone"; required = false }
    ∷ []

abbrev pub targets : List FieldDefinition → List Target
targets definitions =
    importable_core_fields
    ++ map (λ d. record { key = d.key; label = d.label; required = d.required }) definitions

-- `.replace(/[^a-z0-9]/g, '')`
unfoldable pub only_alnum : Text → Text
only_alnum [] = []
only_alnum (c ∷ s) = let rest = only_alnum s in if is_alnum c then c ∷ rest else rest

unfoldable pub normalise : Unicode → Text → Text
unfolding only_alnum
normalise u value = only_alnum (u.to_lower value)

-- The setting of one property of an object.
unfoldable pub set_entry : Text → Text → List (Text × Text) → List (Text × Text)
set_entry key value [] = (key, value) ∷ []
set_entry key value ((k, v) ∷ entries) =
    let rest = set_entry key value entries in
    if text_eq k key then (key, value) ∷ entries else (k, v) ∷ rest

-- `Object.fromEntries(headerRow.map((h, i) => [h, cells[i] ?? '']))`, from the entries so far.
unfoldable pub row_object : List (Text × Text) → List Text → List Text → List (Text × Text)
unfolding set_entry
row_object entries [] cells = entries
row_object entries (h ∷ headers) [] = row_object (set_entry h [] entries) headers []
row_object entries (h ∷ headers) (cell ∷ cells) =
    row_object (set_entry h cell entries) headers cells

-- `headerRow.find(…)`
unfoldable pub matching_header : Unicode → Target → List Text → Option Text
unfolding normalise
matching_header u target [] = none
matching_header u target (header ∷ headers) =
    let rest = matching_header u target headers in
    if text_eq (normalise u header) (normalise u target.key)
      || text_eq (normalise u header) (normalise u target.label)
    then some header
    else rest

-- The loop that guesses the mapping, from the entries so far; an empty header is no match.
unfoldable pub guess : Unicode → List Text → List Target → List (Text × Text) → List (Text × Text)
unfolding matching_header set_entry
guess u headers [] guessed = guessed
guess u headers (target ∷ rest) guessed = elim (matching_header u target headers) [
  | none ↦ guess u headers rest guessed
  | some header ↦
      guess u headers rest
        (if is_empty header then guessed else set_entry target.key header guessed)
]

pub record ReadFile : Type 0 where
  pub headers : List Text
  pub rows : List (List (Text × Text))
  pub mapping : List (Text × Text)

-- `onFile`, for the text of the file; none is the message that it has no data rows.
unfoldable pub on_file : Unicode → List FieldDefinition → Text → Option ReadFile
unfolding row_object guess
on_file u definitions text = elim (parse_csv text) [
  | [] ↦ none
  | ◌∷◌ headers data_rows ↦
      if is_empty data_rows
      then none
      else some (record {
        headers = headers;
        rows = map (row_object [] headers) data_rows;
        mapping = guess u headers (targets definitions) [];
      })
]

-- `mapping[key]`
unfoldable pub mapped : List (Text × Text) → Text → Text
mapped [] key = []
mapped ((k, header) ∷ mapping) key =
    let rest = mapped mapping key in if text_eq k key then header else rest

unfoldable pub missing_required : List (Text × Text) → List Target → List Target
unfolding mapped
missing_required mapping [] = []
missing_required mapping (t ∷ rest) =
    let missing = missing_required mapping rest in
    if t.required && is_empty (mapped mapping t.key) then t ∷ missing else missing

unfoldable pub can_check : ReadFile → List FieldDefinition → Bool
unfolding missing_required
can_check file definitions =
    not (is_empty file.rows) && is_empty (missing_required file.mapping (targets definitions))

-- What `run` posts, and whether it leaves the page on the answer.
abbrev pub import_request : ReadFile → Bool → ImportMembersInput
import_request file dry_run = record {
  rows = file.rows;
  mapping = file.mapping;
  dry_run = dry_run;
  update_existing = false;
}

abbrev pub leaves_page : Bool → ImportReport → Bool
leaves_page dry_run report = not dry_run && ltb 0 (report.created + report.updated)
