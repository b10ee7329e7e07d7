-- ===== src/FieldSchema/Answers.antt =====
-- What the schema of one field lets through: `baseSchemaFor` of packages/shared/src/field-schema.ts.
use face_cam.Prelude.{
  ℕ, ◌≤◌, ◌≡◌, ◌≢◌, refl, sym, ap, ◌∙◌, ◌⊎◌, inl, inr, Bool, true, false, Option, none, some, List,
  [], ◌∷◌, length, leb, includes, or_default, Text, Bool-cases, Option-cases, arith,
}
use face_cam.Enums.{FieldType, text, number, date, select, email, phone, boolean}
use face_cam.Templates.{FieldDefinition}
use face_cam.FieldSchema.Values.{Value, undefined, string}
use face_cam.FieldSchema.Schemas.{Zod, guarded, chained, read_optional, truthy}
use face_cam.FieldSchema.Readings.{
  mapped-some, guarded-some, read_string-some, blank_optional, trimmed_string, read_of_string,
  checked,
}
use face_cam.FieldSchema.{
  with_min, with_max, select_schema, phone_pattern, date_pattern, blank_to_undefined,
  base_schema_of, required_schema, field_schema,
}

module _ {N : Type 0} (z : Zod N) (is_date : Text → Bool) where
  -- A number within a bound that a definition may give.
  abbrev pub Bounded : (Bool × ℕ → N → Bool) → Option (Bool × ℕ) → N → Type 0
  Bounded within none n = Unit
  Bounded within (some b) n = within b n ≡ true

  -- The values that the definition of a field describes, by its type.
  abbrev pub HasType : FieldType → FieldDefinition → Value N → Type 0
  HasType text field v =
      (s t : Text) × (v ≡ string t)
      × (t ≡ z.trimmed s)
      × (length t ≤ or_default field.max_length 500)
      × ((field.required ≡ false) ⊎ (1 ≤ length t))
  HasType email field v =
      (s t : Text) × (v ≡ string t) × (t ≡ z.lower (z.trimmed s)) × (z.is_email t ≡ true)
  HasType phone field v =
      (s t : Text) × (v ≡ string t) × (t ≡ z.trimmed s) × (phone_pattern t ≡ true)
  HasType number field v =
      (n : N) × (v ≡ Value.number n)
      × Bounded z.at_least field.min n
      × Bounded z.at_most field.max n
  HasType date field v = (t : Text) × (v ≡ string t) × (date_pattern t ≡ true) × (is_date t ≡ true)
  HasType select field v =
      (t : Text) × (v ≡ string t) × (includes (or_default field.options []) t ≡ true)
  HasType boolean field v = (b : Bool) × (v ≡ Value.boolean b)

  -- What a payload may hold for a field: nothing, unless it is required, or a value of its type.
  abbrev pub IsAnswer : FieldDefinition → Value N → Type 0
  IsAnswer field v = ((field.required ≡ false) × (v ≡ undefined)) ⊎ HasType field.type field v

  text-HasType :
      (n : ℕ) (t u : Text)
      → z.parse_string (z.max_length n (z.trim z.z_string)) t ≡ some u
      → (u ≡ z.trimmed t) × (length u ≤ n)
  text-HasType n t u e =
      let (read, within) =
        guarded-some (λ a. leb (length a) n) (z.parse_string (z.trim z.z_string) t) u
          (sym (z.parse-max_length n (z.trim z.z_string) t) ∙ e) in
      let same = trimmed_string z t in (ground arith, ground arith)

  base_text-HasType :
      (field : FieldDefinition) (v w : Value N)
      → field.required ≡ false
      → z.parse (base_schema_of z is_date text field) v ≡ some w
      → HasType text field w
  unfolding base_schema_of
  base_text-HasType field v w free e =
      let (t, u, read, out) = read_of_string z _ v w e in
      let (same, within) = text-HasType (or_default field.max_length 500) t u read in
      (t, u, out, same, within, inl free)

  required_text-HasType :
      (field : FieldDefinition) (v w : Value N)
      → z.parse (required_schema z is_date text field) v ≡ some w
      → HasType text field w
  unfolding required_schema
  required_text-HasType field v w e =
      let (t, u, read, out) = read_of_string z _ v w e in
      let (short, some_char) = guarded-some _ _ u (sym (z.parse-min_length 1 _ t) ∙ read) in
      let (same, within) = text-HasType (or_default field.max_length 500) t u short in
      (t, u, out, same, within, inr (ground arith))

  email-HasType :
      (field : FieldDefinition) (v w : Value N)
      → z.parse (base_schema_of z is_date email field) v ≡ some w
      → HasType email field w
  unfolding base_schema_of
  email-HasType field v w e =
      let (t, u, read, out) = read_of_string z _ v w e in
      let (lowered, valid) = guarded-some _ _ u (sym (z.parse-email _ t) ∙ read) in
      let (cut, is_cut, same) = mapped-some _ _ u (sym (z.parse-to_lower_case _ t) ∙ lowered) in
      let from = trimmed_string z t in (t, u, out, ground arith, valid)

  phone-HasType :
      (field : FieldDefinition) (v w : Value N)
      → z.parse (base_schema_of z is_date phone field) v ≡ some w
      → HasType phone field w
  unfolding base_schema_of
  phone-HasType field v w e =
      let (t, u, read, out) = read_of_string z _ v w e in
      let (cut, valid) = checked z phone_pattern (z.trim z.z_string) t u read in
      let from = trimmed_string z t in (t, u, out, ground arith, valid)

  date-HasType :
      (field : FieldDefinition) (v w : Value N)
      → z.parse (base_schema_of z is_date date field) v ≡ some w
      → HasType date field w
  unfolding base_schema_of
  date-HasType field v w e =
      let (t, u, read, out) = read_of_string z _ v w e in
      let (shaped, real) = checked z is_date (z.check date_pattern z.z_string) t u read in
      let (any, valid) = checked z date_pattern z.z_string t u shaped in (u, out, valid, real)

  min-Bounded :
      (bound : Option (Bool × ℕ)) (s : z.NumberSchema) (m n : N)
      → z.parse_number (with_min z is_date bound s) m ≡ some n
      → (z.parse_number s m ≡ some n) × Bounded z.at_least bound n
  min-Bounded none s m n e = (e, tt)
  min-Bounded (some b) s m n e =
      guarded-some (z.at_least b) (z.parse_number s m) n (sym (z.parse-min b s m) ∙ e)

  max-Bounded :
      (bound : Option (Bool × ℕ)) (s : z.NumberSchema) (m n : N)
      → z.parse_number (with_max z is_date bound s) m ≡ some n
      → (z.parse_number s m ≡ some n) × Bounded z.at_most bound n
  max-Bounded none s m n e = (e, tt)
  max-Bounded (some b) s m n e =
      guarded-some (z.at_most b) (z.parse_number s m) n (sym (z.parse-max b s m) ∙ e)

  number-HasType :
      (field : FieldDefinition) (v w : Value N)
      → z.parse (base_schema_of z is_date number field) v ≡ some w
      → HasType number field w
  unfolding base_schema_of
  number-HasType field v w e =
      let s = with_max z is_date field.max (with_min z is_date field.min z.coerce_number) in
      let (n, read, out) =
        mapped-some Value.number (chained (z.to_number v) (z.parse_number s)) w
          (sym (z.parse-of_number s v) ∙ e) in
      elim (Option-cases (z.to_number v)) [
        | inl failed ↦ absurd (ground arith)
        | inr (m, given) ↦
            let (low, high) =
              max-Bounded field.max (with_min z is_date field.min z.coerce_number) m n
                (ground arith) in
            let (any, least) = min-Bounded field.min z.coerce_number m n low in
            (n, out, least, high)
      ]

  enum-includes :
      (os : List Text) (v w : Value N)
      → z.parse (select_schema z is_date os) v ≡ some w
      → (t : Text) × (w ≡ string t) × (includes os t ≡ true)
  enum-includes [] v w e = let refused = z.parse-never v in absurd (ground arith)
  enum-includes (o ∷ os) v w e =
      let (t, u, same, read, out) =
        read_string-some (λ t. guarded (includes (o ∷ os)) (some t)) v w
          (sym (z.parse-z_enum (o ∷ os) v) ∙ e) in
      let (given, listed) = guarded-some (includes (o ∷ os)) (some t) u read in (u, out, listed)

  boolean-HasType :
      (field : FieldDefinition) (v w : Value N)
      → z.parse (base_schema_of z is_date boolean field) v ≡ some w
      → HasType boolean field w
  unfolding base_schema_of
  boolean-HasType field v w e =
      let read = z.parse-coerce_boolean v in (truthy z.nonzero v, ground arith)

  base-HasType :
      (type : FieldType) (field : FieldDefinition) (v w : Value N)
      → (field.required ≡ false) ⊎ (type ≢ text)
      → z.parse (base_schema_of z is_date type field) v ≡ some w
      → HasType type field w
  unfolding base_schema_of
  base-HasType text field v w (inl free) e = base_text-HasType field v w free e
  base-HasType text field v w (inr other) e = absurd (other refl)
  base-HasType email field v w free e = email-HasType field v w e
  base-HasType phone field v w free e = phone-HasType field v w e
  base-HasType number field v w free e = number-HasType field v w e
  base-HasType date field v w free e = date-HasType field v w e
  base-HasType select field v w free e = enum-includes (or_default field.options []) v w e
  base-HasType boolean field v w free e = boolean-HasType field v w e

  required-HasType :
      (type : FieldType) (field : FieldDefinition) (v w : Value N)
      → type ≡ field.type
      → z.parse (required_schema z is_date type field) v ≡ some w
      → HasType type field w
  unfolding required_schema
  required-HasType text field v w same e = required_text-HasType field v w e
  required-HasType email field v w same e =
      base-HasType email field v w (inr (ground arith)) (rw same e)
  required-HasType phone field v w same e =
      base-HasType phone field v w (inr (ground arith)) (rw same e)
  required-HasType number field v w same e =
      base-HasType number field v w (inr (ground arith)) (rw same e)
  required-HasType date field v w same e =
      base-HasType date field v w (inr (ground arith)) (rw same e)
  required-HasType select field v w same e =
      base-HasType select field v w (inr (ground arith)) (rw same e)
  required-HasType boolean field v w same e =
      base-HasType boolean field v w (inr (ground arith)) (rw same e)

  schema_of_required :
      (field : FieldDefinition)
      → field.required ≡ true
      → field_schema z is_date field ≡ required_schema z is_date field.type field
  unfolding field_schema
  schema_of_required field required = ground arith

  parse_optional_field :
      (field : FieldDefinition) (v : Value N)
      → field.required ≡ false
      → z.parse (field_schema z is_date field) v
        ≡ read_optional (z.parse (base_schema_of z is_date field.type field)) (blank_to_undefined v)
  unfolding field_schema
  parse_optional_field field v free = rw (free, z.parse-preprocess, z.parse-optional) refl

  -- What the schema of a field makes of any payload: nothing for a field that is not required, or a
  -- value of the field's type.
  pub field_schema-IsAnswer :
      (field : FieldDefinition) (v w : Value N)
      → z.parse (field_schema z is_date field) v ≡ some w
      → IsAnswer field w
  unfolding field_schema
  field_schema-IsAnswer field v w e = elim (Bool-cases field.required) [
    | inl required ↦ inr (
        required-HasType field.type field v w refl
          (ap (λ s. z.parse s v) (sym (schema_of_required field required)) ∙ e))
    | inr free ↦
        elim (blank_optional (z.parse (base_schema_of z is_date field.type field))
          (blank_to_undefined v) w (sym (parse_optional_field field v free) ∙ e)) [
            | inl (absent, empty) ↦ inl (free, empty)
            | inr read ↦
                inr (base-HasType field.type field (blank_to_undefined v) w (inl free) read)
          ]
  ]

  -- A field that is not required takes a blank as no answer.
  pub field_schema-blank :
      (field : FieldDefinition) (v : Value N)
      → field.required ≡ false
      → blank_to_undefined v ≡ undefined
      → z.parse (field_schema z is_date field) v ≡ some undefined
  unfolding field_schema
  field_schema-blank field v free blank = parse_optional_field field v free ∙ rw blank refl
