-- ===== src/FieldSchema.antt =====
-- The schemas of member payloads: packages/shared/src/field-schema.ts, which the API and the web
-- application share.
pub mod Values
pub mod Schemas
pub mod Shapes
pub mod Readings
pub mod Answers
pub mod Payload
mod Tests
use face_cam.Prelude.{
  ℕ, zero, suc, Bool, true, false, ◌&&◌, ◌||◌, Option, none, some, List, [], ◌∷◌, length, leb, ◌==◌,
  or_default, is_empty, every, drop, take, Text, codes, text_eq, if◌then◌else◌,
}
use face_cam.Csv.{is_space}
use face_cam.Token.{is_digit}
use face_cam.Enums.{FieldType, text, number, date, select, email, phone, boolean}
use face_cam.Templates.{FieldDefinition}
use face_cam.FieldSchema.Values.{Value, undefined, null, string}
use face_cam.FieldSchema.Schemas.{Zod}

-- `[0-9\s\-()]`
abbrev phone_char : ℕ → Bool
phone_char c = is_digit c || is_space c || c == b'-' || c == b'(' || c == b')'

-- `[0-9][0-9\s\-()]{5,19}$`
abbrev phone_digits : Text → Bool
phone_digits [] = false
phone_digits (c ∷ s) = is_digit c && leb 5 (length s) && leb (length s) 19 && every phone_char s

-- `/^\+?[0-9][0-9\s\-()]{5,19}$/`
pub phone_pattern : Text → Bool
phone_pattern [] = false
phone_pattern (c ∷ s) = if c == b'+' then phone_digits s else phone_digits (c ∷ s)

-- `/^\d{4}-\d{2}-\d{2}$/`
pub date_pattern : Text → Bool
date_pattern s =
    length s == 10
    && every is_digit (take 4 s)
    && text_eq (take 1 (drop 4 s)) (codes "-")
    && every is_digit (take 2 (drop 5 s))
    && text_eq (take 1 (drop 7 s)) (codes "-")
    && every is_digit (drop 8 s)

-- `value === '' || value === null ? undefined : value`
pub blank_to_undefined : {N : Type 0} → Value N → Value N
blank_to_undefined null = undefined
blank_to_undefined (string []) = undefined
blank_to_undefined v = v

-- `shape[key] = schema`: a key keeps its place.
unfoldable pub set_key : {S : Type 0} → Text → S → List (Text × S) → List (Text × S)
set_key key s [] = (key, s) ∷ []
set_key key s ((k, old) ∷ shape) =
    let rest = set_key key s shape in if text_eq k key then (k, s) ∷ shape else (k, old) ∷ rest

-- The calendar of the runtime: whether `Date.parse(s)` is a number.
module _ {N : Type 0} (z : Zod N) (is_date : Text → Bool) where
  abbrev text_schema : FieldDefinition → z.StringSchema
  text_schema field = z.max_length (or_default field.max_length 500) (z.trim z.z_string)

  abbrev pub with_min : Option (Bool × ℕ) → z.NumberSchema → z.NumberSchema
  with_min none s = s
  with_min (some b) s = z.min b s

  abbrev pub with_max : Option (Bool × ℕ) → z.NumberSchema → z.NumberSchema
  with_max none s = s
  with_max (some b) s = z.max b s

  abbrev pub select_schema : List Text → z.Schema
  select_schema [] = z.never
  select_schema (o ∷ os) = z.z_enum (o ∷ os)

  unfoldable pub base_schema_of : FieldType → FieldDefinition → z.Schema
  unfolding phone_pattern date_pattern
  base_schema_of text field = z.of_string (text_schema field)
  base_schema_of email field = z.of_string (z.email (z.to_lower_case (z.trim z.z_string)))
  base_schema_of phone field = z.of_string (z.check phone_pattern (z.trim z.z_string))
  base_schema_of number field =
      z.of_number (with_max field.max (with_min field.min z.coerce_number))
  base_schema_of date field = z.of_string (z.check is_date (z.check date_pattern z.z_string))
  base_schema_of select field = select_schema (or_default field.options [])
  base_schema_of boolean field = z.coerce_boolean

  -- `switch (field.type)`
  abbrev pub base_schema_for : FieldDefinition → z.Schema
  base_schema_for field = base_schema_of field.type field

  unfoldable pub required_schema : FieldType → FieldDefinition → z.Schema
  required_schema text field = z.of_string (z.min_length 1 (text_schema field))
  required_schema _ field = base_schema_for field

  unfoldable pub field_schema : FieldDefinition → z.Schema
  field_schema field =
      if field.required
      then required_schema field.type field
      else z.preprocess blank_to_undefined (z.optional (base_schema_for field))

  unfoldable pub attributes_shape :
      List (Text × z.Schema) → List FieldDefinition → List (Text × z.Schema)
  attributes_shape shape [] = shape
  attributes_shape shape (field ∷ fields) =
      attributes_shape (set_key field.key (field_schema field) shape) fields

  unfoldable pub build_attributes_schema : List FieldDefinition → z.Schema
  build_attributes_schema fields = z.z_object (attributes_shape [] fields)

  -- `.optional().or(z.literal('').transform(() => undefined))`
  abbrev or_blank : z.StringSchema → z.Schema
  or_blank s = z.either (z.optional (z.of_string s)) (z.transform (λ _. undefined) (z.literal []))

  abbrev pub code_schema : z.StringSchema
  code_schema = z.max_length 64 (z.min_length 1 (z.trim z.z_string))

  abbrev pub full_name_schema : z.StringSchema
  full_name_schema = z.max_length 200 (z.min_length 1 (z.trim z.z_string))

  abbrev pub version_schema : z.StringSchema
  version_schema = z.max_length 32 (z.min_length 1 (z.trim z.z_string))

  unfoldable pub member_core_schema : List (Text × z.Schema)
  member_core_schema =
      (codes "code", z.of_string code_schema)
      ∷ (codes "fullName", z.of_string full_name_schema)
      ∷ (codes "email", or_blank (z.email (z.to_lower_case (z.trim z.z_string))))
      ∷ (codes "phone", or_blank (z.check phone_pattern (z.trim z.z_string)))
      ∷ []

  unfoldable pub member_consent_schema : z.Schema
  member_consent_schema =
      z.z_object
        ((codes "granted", z.z_boolean) ∷ (codes "version", z.of_string version_schema) ∷ [])

  -- `.extend` sets the keys of its argument.
  unfoldable pub build_member_schema : List FieldDefinition → z.Schema
  build_member_schema fields = z.z_object (
      set_key (codes "consent") (z.optional member_consent_schema)
        (set_key (codes "attributes") (build_attributes_schema fields) member_core_schema))
