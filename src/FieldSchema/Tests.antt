-- ===== src/FieldSchema/Tests.antt =====
-- Runs of packages/shared/src/field-schema.ts, with a reader of schemas that has the laws of zod.
use face_cam.Prelude.{
  ℕ, ◌≡◌, refl, Bool, true, false, not, ◌==◌, leb, Option, none, some, List, [], ◌∷◌, map, length,
  All, Text, codes, includes, any_of, ◌⊎◌, text_eq, has_char, if◌then◌else◌,
}
use face_cam.Csv.{trim}
use face_cam.Slug.{ascii_lower}
use face_cam.Enums.{FieldType, text, number, select, boolean}
use face_cam.Templates.{FieldDefinition}
use face_cam.FieldSchema.Values.{Value, undefined, null, string, object, Entries, end, entry, get}
use face_cam.FieldSchema.Schemas.{
  Zod, guarded, mapped, chained, otherwise, read_string, read_boolean, read_optional, read_object,
  truthy,
}
use face_cam.FieldSchema.Answers.{IsAnswer}
use face_cam.FieldSchema.Payload.{
  UniqueKeys, IsMember, build_attributes_schema-IsAnswer, build_member_schema-IsMember,
}
use face_cam.Web.Form.{FormState, form_payload, form_payload-IsMember}
use face_cam.FieldSchema.{build_attributes_schema, build_member_schema}

-- `Number(v)`, less the reading of digits.
abbrev number_of : Value ℕ → Option ℕ
number_of (Value.number n) = some n
number_of null = some 0
number_of (string []) = some 0
number_of (Value.boolean b) = some (if b then 1 else 0)
number_of _ = none

abbrev reader : Zod ℕ
reader = record {
  Schema = Value ℕ → Option (Value ℕ);
  StringSchema = Text → Option Text;
  NumberSchema = ℕ → Option ℕ;
  parse = λ s v. s v;
  parse_string = λ s t. s t;
  parse_number = λ s n. s n;
  of_string = λ s v. read_string s v;
  parse-of_string = λ s v. refl;
  z_string = λ t. some t;
  parse-z_string = λ t. refl;
  trimmed = trim;
  trim = λ s t. mapped trim (s t);
  parse-trim = λ s t. refl;
  lower = map ascii_lower;
  to_lower_case = λ s t. mapped (map ascii_lower) (s t);
  parse-to_lower_case = λ s t. refl;
  max_length = λ n s t. guarded (λ u. leb (length u) n) (s t);
  parse-max_length = λ n s t. refl;
  min_length = λ n s t. guarded (λ u. leb n (length u)) (s t);
  parse-min_length = λ n s t. refl;
  is_email = has_char b'@';
  email = λ s t. guarded (has_char b'@') (s t);
  parse-email = λ s t. refl;
  check = λ p s t. guarded p (s t);
  parse-check = λ p s t. refl;
  to_number = number_of;
  of_number = λ s v. mapped Value.number (chained (number_of v) s);
  parse-of_number = λ s v. refl;
  coerce_number = λ n. some n;
  parse-coerce_number = λ n. refl;
  at_least = λ b n. if b.0 then true else leb b.1 n;
  at_most = λ b n. if b.0 then false else leb n b.1;
  min = λ b s n. guarded (λ m. if b.0 then true else leb b.1 m) (s n);
  parse-min = λ b s n. refl;
  max = λ b s n. guarded (λ m. if b.0 then false else leb m b.1) (s n);
  parse-max = λ b s n. refl;
  nonzero = λ n. not (n == 0);
  coerce_boolean = λ v. some (Value.boolean (truthy (λ n. not (n == 0)) v));
  parse-coerce_boolean = λ v. refl;
  z_boolean = read_boolean;
  parse-z_boolean = λ v. refl;
  z_enum = λ os v. read_string (λ t. guarded (includes os) (some t)) v;
  parse-z_enum = λ os v. refl;
  literal = λ l v. read_string (λ t. guarded (text_eq l) (some t)) v;
  parse-literal = λ l v. refl;
  never = λ v. none;
  parse-never = λ v. refl;
  optional = λ s v. read_optional s v;
  parse-optional = λ s v. refl;
  preprocess = λ f s v. s (f v);
  parse-preprocess = λ f s v. refl;
  transform = λ f s v. mapped f (s v);
  parse-transform = λ f s v. refl;
  either = λ s t v. otherwise (s v) (t v);
  parse-either = λ s t v. refl;
  z_object = λ shape v. read_object (λ s u. s u) shape v;
  parse-z_object = λ shape v. refl;
}

abbrev field_of : Text → FieldType → Bool → FieldDefinition
field_of key type required = record {
  key = key;
  label = key;
  type = type;
  required = required;
  options = some (codes "Day" ∷ codes "Night" ∷ []);
  group = none;
  sort_order = 0;
  help_text = none;
  max_length = some 8;
  min = none;
  max = some (false, 12);
}

abbrev fields : List FieldDefinition
fields =
    field_of (codes "room") text true
    ∷ field_of (codes "grade") number true
    ∷ field_of (codes "shift") select false
    ∷ []

abbrev any_date : Text → Bool
any_date s = true

abbrev sent_attributes : Entries ℕ
sent_attributes = entry (codes "room") (string (codes " B2 ")) (
    entry (codes "grade") (Value.number 7)
      (entry (codes "shift") (string []) (entry (codes "old") (Value.boolean true) end)))

abbrev kept_attributes : Entries ℕ
kept_attributes =
    entry (codes "room") (string (codes "B2"))
      (entry (codes "grade") (Value.number 7) (entry (codes "shift") undefined end))

fields-UniqueKeys : UniqueKeys fields
fields-UniqueKeys = ((refl, (refl, tt)), ((refl, tt), (tt, tt)))

attributes_test :
    reader.parse (build_attributes_schema reader any_date fields) (object sent_attributes)
    ≡ some (object kept_attributes)
unfolding build_attributes_schema face_cam.FieldSchema.Schemas.read_shape
    face_cam.FieldSchema.attributes_shape face_cam.FieldSchema.set_key
    face_cam.FieldSchema.field_schema face_cam.FieldSchema.required_schema get trim
    face_cam.FieldSchema.base_schema_of face_cam.FieldSchema.blank_to_undefined
attributes_test = refl

build_attributes_schema-IsAnswer_example :
    (out : Entries ℕ) × (object kept_attributes ≡ object out)
    × All (λ field. IsAnswer reader any_date field (get field.key out)) fields
    × ((get (codes "old") out ≡ undefined)
        ⊎ (any_of (λ field. text_eq field.key (codes "old")) fields ≡ true))
build_attributes_schema-IsAnswer_example =
    build_attributes_schema-IsAnswer reader any_date fields (object sent_attributes)
      (object kept_attributes) (codes "old") fields-UniqueKeys attributes_test

-- A required number that is left blank is read as 0, and a required yes-or-no that is absent as no.
blank_number_test :
    reader.parse
      (build_attributes_schema reader any_date (field_of (codes "age") number true ∷ []))
      (object (entry (codes "age") (string []) end))
    ≡ some (object (entry (codes "age") (Value.number 0) end))
unfolding build_attributes_schema face_cam.FieldSchema.Schemas.read_shape
    face_cam.FieldSchema.attributes_shape face_cam.FieldSchema.set_key
    face_cam.FieldSchema.field_schema face_cam.FieldSchema.required_schema
    face_cam.FieldSchema.base_schema_of get
blank_number_test = refl

absent_boolean_test :
    reader.parse
      (build_attributes_schema reader any_date (field_of (codes "fee") boolean true ∷ []))
      (object end)
    ≡ some (object (entry (codes "fee") (Value.boolean false) end))
unfolding build_attributes_schema face_cam.FieldSchema.Schemas.read_shape
    face_cam.FieldSchema.attributes_shape face_cam.FieldSchema.set_key
    face_cam.FieldSchema.field_schema face_cam.FieldSchema.required_schema
    face_cam.FieldSchema.base_schema_of get
absent_boolean_test = refl

abbrev consent_block : Value ℕ
consent_block = object (
    entry (codes "granted") (Value.boolean true)
      (entry (codes "version") (string (codes "2024-01")) end))

abbrev sent_member : Value ℕ
sent_member = object (
    entry (codes "code") (string (codes "E7 ")) (
      entry (codes "fullName") (string (codes "Ana")) (
        entry (codes "email") (string []) (
          entry (codes "phone") (string (codes "+12 345-678")) (
            entry (codes "attributes") (object sent_attributes)
              (entry (codes "consent") consent_block end))))))

abbrev kept_member : Value ℕ
kept_member = object (
    entry (codes "code") (string (codes "E7")) (
      entry (codes "fullName") (string (codes "Ana")) (
        entry (codes "email") undefined (
          entry (codes "phone") (string (codes "+12 345-678")) (
            entry (codes "attributes") (object kept_attributes)
              (entry (codes "consent") consent_block end))))))

member_test :
    reader.parse (build_member_schema reader any_date fields) sent_member ≡ some kept_member
unfolding build_member_schema face_cam.FieldSchema.Schemas.read_shape face_cam.FieldSchema.set_key
    face_cam.FieldSchema.member_core_schema get trim face_cam.FieldSchema.phone_pattern
    build_attributes_schema face_cam.FieldSchema.attributes_shape face_cam.FieldSchema.field_schema
    face_cam.FieldSchema.required_schema face_cam.FieldSchema.base_schema_of
    face_cam.FieldSchema.blank_to_undefined face_cam.FieldSchema.member_consent_schema
member_test = refl

build_member_schema-IsMember_example :
    (sent stored : Entries ℕ) × (sent_member ≡ object sent)
    × (kept_member ≡ object stored)
    × IsMember reader any_date fields sent stored
build_member_schema-IsMember_example =
    build_member_schema-IsMember reader any_date fields sent_member kept_member fields-UniqueKeys
      member_test

abbrev form : FormState ℕ
form = record {
  code = codes "E7 ";
  full_name = codes "Ana";
  email = [];
  phone = codes "+12 345-678";
  attributes = sent_attributes;
  consent = true;
  already_consented = false;
}

abbrev formed_member : Value ℕ
formed_member = object (
    entry (codes "code") (string (codes "E7")) (
      entry (codes "fullName") (string (codes "Ana")) (
        entry (codes "email") undefined (
          entry (codes "phone") (string (codes "+12 345-678")) (
            entry (codes "attributes") (object kept_attributes) (
              entry (codes "consent")
                (object (
                  entry (codes "granted") (Value.boolean true)
                    (entry (codes "version") (string (codes "2026-08-v1")) end)))
                end))))))

form_test :
    reader.parse (build_member_schema reader any_date fields) (object (form_payload form))
    ≡ some formed_member
unfolding build_member_schema form_payload face_cam.FieldSchema.Schemas.read_shape
    face_cam.FieldSchema.set_key face_cam.FieldSchema.member_core_schema get trim
    face_cam.FieldSchema.phone_pattern build_attributes_schema face_cam.FieldSchema.attributes_shape
    face_cam.FieldSchema.field_schema face_cam.FieldSchema.required_schema
    face_cam.FieldSchema.base_schema_of face_cam.FieldSchema.blank_to_undefined
    face_cam.FieldSchema.member_consent_schema
form_test = refl

form_payload-IsMember_example :
    (stored : Entries ℕ) × (formed_member ≡ object stored)
    × (((true ≡ false) × (get (codes "consent") stored ≡ undefined))
        ⊎ ((true ≡ true)
            × ((kept : Entries ℕ) × (get (codes "consent") stored ≡ object kept)
                × (get (codes "granted") kept ≡ Value.boolean true))))
form_payload-IsMember_example =
    form_payload-IsMember reader any_date fields form formed_member fields-UniqueKeys form_test
