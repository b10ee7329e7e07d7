-- ===== src/FieldSchema/Payload.antt =====
-- What the schemas of an organization let through: `buildAttributesSchema` and `buildMemberSchema`
-- of packages/shared/src/field-schema.ts.
use face_cam.Prelude.{
  ◌≤◌, ◌≡◌, refl, sym, ◌∙◌, ◌⊎◌, inl, inr, Bool, true, false, Option, some, List, [], ◌∷◌, All,
  any_of, length, Text, codes, text_eq, text_eq_refl, Bool-cases, arith,
}
use face_cam.Templates.{FieldDefinition}
use face_cam.FieldSchema.Values.{Value, undefined, object, Entries, get}
use face_cam.FieldSchema.Schemas.{Zod, read_shape, read_object, read_boolean}
use face_cam.FieldSchema.Shapes.{find, find-set_key, read_shape-find, read_shape-unnamed}
use face_cam.FieldSchema.Answers.{IsAnswer, field_schema-IsAnswer}
use face_cam.FieldSchema.Readings.{blank_optional, mapped-some, sized_string}
use face_cam.FieldSchema.{
  version_schema, code_schema, member_core_schema, full_name_schema, member_consent_schema,
  build_member_schema, set_key, field_schema, attributes_shape, build_attributes_schema,
}

-- No two definitions share a key, as the table demands.
abbrev pub UniqueKeys : List FieldDefinition → Type 0
UniqueKeys [] = Unit
UniqueKeys (field ∷ fields) =
    All (λ other. text_eq other.key field.key ≡ false) fields × UniqueKeys fields

abbrev pub Undefined : List FieldDefinition → Text → Type 0
Undefined fields key = All (λ field. text_eq field.key key ≡ false) fields

read_object-some :
    {N S : Type 0} (p : S → Value N → Option (Value N)) (shape : List (Text × S)) (v w : Value N)
    → read_object p shape v ≡ some w
    → (es out : Entries N) × (v ≡ object es) × (w ≡ object out) × (read_shape p shape es ≡ some out)
read_object-some p shape (object es) w e =
    let (out, read, same) = mapped-some object (read_shape p shape es) w e in
    (es, out, refl, same, read)
read_object-some p shape Value.undefined w e = absurd (ground arith)
read_object-some p shape Value.null w e = absurd (ground arith)
read_object-some p shape (Value.string t) w e = absurd (ground arith)
read_object-some p shape (Value.boolean b) w e = absurd (ground arith)
read_object-some p shape (Value.number n) w e = absurd (ground arith)
read_object-some p shape (Value.array xs) w e = absurd (ground arith)

module _ {N : Type 0} (z : Zod N) (is_date : Text → Bool) where
  find-attributes_shape :
      (shape : List (Text × z.Schema)) (fields : List FieldDefinition) (key : Text)
      → Undefined fields key
      → find key (attributes_shape z is_date shape fields) ≡ find key shape
  unfolding attributes_shape
  find-attributes_shape shape [] key others = refl
  find-attributes_shape shape (field ∷ fields) key (other, others) =
      let schema = field_schema z is_date field in
      find-attributes_shape (set_key field.key schema shape) fields key others
      ∙ find-set_key key field.key schema shape
      ∙ rw other refl

  parsed_object :
      (shape : List (Text × z.Schema)) (v w : Value N)
      → z.parse (z.z_object shape) v ≡ some w
      → (es out : Entries N) × (v ≡ object es)
        × (w ≡ object out)
        × (read_shape z.parse shape es ≡ some out)
  parsed_object shape v w e =
      read_object-some z.parse shape v w (sym (z.parse-z_object shape v) ∙ e)

  attributes_answered :
      (shape : List (Text × z.Schema)) (fields : List FieldDefinition) (es out : Entries N)
      → UniqueKeys fields
      → read_shape z.parse (attributes_shape z is_date shape fields) es ≡ some out
      → All (λ field. IsAnswer z is_date field (get field.key out)) fields
  unfolding attributes_shape
  attributes_answered shape [] es out unique read = tt
  attributes_answered shape (field ∷ fields) es out (fresh, unique) read =
      let schema = field_schema z is_date field in
      let shape' = set_key field.key schema shape in
      let found =
        find-attributes_shape shape' fields field.key fresh
        ∙ find-set_key field.key field.key schema shape
        ∙ rw (text_eq_refl field.key) refl in
      let parsed =
        read_shape-find z.parse (attributes_shape z is_date shape' fields) es out field.key schema
          read found in
      (
        field_schema-IsAnswer z is_date field (get field.key es) (get field.key out) parsed,
        attributes_answered shape' fields es out unique read,
      )

  key_cases :
      (fields : List FieldDefinition) (key : Text)
      → Undefined fields key ⊎ (any_of (λ field. text_eq field.key key) fields ≡ true)
  key_cases [] key = inl tt
  key_cases (field ∷ fields) key = elim (Bool-cases (text_eq field.key key)) [
    | inl same ↦ inr (rw same refl)
    | inr other ↦ elim (key_cases fields key) [
      | inl others ↦ inl (other, others)
      | inr found ↦ inr (rw (other, found) refl)
    ]
  ]

  -- An accepted set of attributes is an object that holds, for every definition of the organization,
  -- nothing where the field is not required, or a value of the field's type: trimmed and within its
  -- length, one of the options, within the bounds, of the pattern of a phone number or a date. Under
  -- any key it holds nothing unless a definition has the key. No two definitions share a key.
  pub build_attributes_schema-IsAnswer :
      (fields : List FieldDefinition) (v w : Value N) (key : Text)
      → UniqueKeys fields
      → z.parse (build_attributes_schema z is_date fields) v ≡ some w
      → (out : Entries N) × (w ≡ object out)
        × All (λ field. IsAnswer z is_date field (get field.key out)) fields
        × ((get key out ≡ undefined) ⊎ (any_of (λ field. text_eq field.key key) fields ≡ true))
  unfolding build_attributes_schema
  build_attributes_schema-IsAnswer fields v w key unique e =
      let shape = attributes_shape z is_date [] fields in
      let (es, out, given, same, read) = parsed_object shape v w e in
      let answered = attributes_answered [] fields es out unique read in
      elim (key_cases fields key) [
        | inl others ↦
            let none_found = find-attributes_shape [] fields key others in
            (out, same, answered, inl (read_shape-unnamed z.parse shape es out key read none_found))
        | inr defined ↦ (out, same, answered, inr defined)
      ]

  -- A consent block as it is stored: the decision that was sent, and a version of 1 to 32 units.
  pub record IsConsent (sent stored : Value N) : Type 0 where
    pub given : Entries N
    pub kept : Entries N
    pub sent-given : sent ≡ object given
    pub stored-kept : stored ≡ object kept
    pub granted : Bool
    pub granted_sent : get (codes "granted") given ≡ Value.boolean granted
    pub granted_kept : get (codes "granted") kept ≡ Value.boolean granted
    pub version : Text
    pub version_kept : get (codes "version") kept ≡ Value.string version
    pub version_size : (1 ≤ length version) × (length version ≤ 32)

  boolean_some :
      (v w : Value N)
      → read_boolean v ≡ some w
      → (b : Bool) × (v ≡ Value.boolean b) × (w ≡ Value.boolean b)
  boolean_some (Value.boolean b) w e = (b, refl, ground arith)
  boolean_some Value.undefined w e = absurd (ground arith)
  boolean_some Value.null w e = absurd (ground arith)
  boolean_some (Value.string t) w e = absurd (ground arith)
  boolean_some (Value.number n) w e = absurd (ground arith)
  boolean_some (Value.array xs) w e = absurd (ground arith)
  boolean_some (object es) w e = absurd (ground arith)

  stored-IsConsent :
      (v w : Value N) → z.parse (member_consent_schema z is_date) v ≡ some w → IsConsent v w
  unfolding member_consent_schema
  stored-IsConsent v w e =
      let granted = codes "granted" in
      let version = codes "version" in
      let schema = version_schema z is_date in
      let shape = (granted, z.z_boolean) ∷ (version, z.of_string schema) ∷ [] in
      let (es, out, given, same, read) = parsed_object shape v w e in
      let first = read_shape-find z.parse shape es out granted z.z_boolean read refl in
      let second = read_shape-find z.parse shape es out version (z.of_string schema) read refl in
      let (b, sent, kept) =
        boolean_some (get granted es) (get granted out)
          (sym (z.parse-z_boolean (get granted es)) ∙ first) in
      let (t, was, cut, size) = sized_string z 1 32 (get version es) (get version out) second in
      record {
        given = es;
        kept = out;
        sent-given = given;
        stored-kept = same;
        granted = b;
        granted_sent = sent;
        granted_kept = kept;
        version = z.trimmed t;
        version_kept = cut;
        version_size = size;
      }

  -- A member as it is stored: the code and the name that were sent, trimmed and then of bounded size,
  -- attributes that the definitions describe, and the consent that was sent, if one was.
  pub record IsMember (fields : List FieldDefinition) (sent stored : Entries N) : Type 0 where
    pub code : Text
    pub code_sent : get (codes "code") sent ≡ Value.string code
    pub code_kept : get (codes "code") stored ≡ Value.string (z.trimmed code)
    pub code_size : (1 ≤ length (z.trimmed code)) × (length (z.trimmed code) ≤ 64)
    pub full_name : Text
    pub full_name_sent : get (codes "fullName") sent ≡ Value.string full_name
    pub full_name_kept : get (codes "fullName") stored ≡ Value.string (z.trimmed full_name)
    pub full_name_size : (1 ≤ length (z.trimmed full_name)) × (length (z.trimmed full_name) ≤ 200)
    pub attributes : Entries N
    pub attributes_kept : get (codes "attributes") stored ≡ object attributes
    pub answered : All (λ field. IsAnswer z is_date field (get field.key attributes)) fields
    pub consent :
        ((get (codes "consent") sent ≡ undefined) × (get (codes "consent") stored ≡ undefined))
        ⊎ IsConsent (get (codes "consent") sent) (get (codes "consent") stored)

  -- An accepted member payload is an object. What is stored is the code and the name that were sent,
  -- trimmed, and then of 1 to 64 and of 1 to 200 units; attributes that are answers to the
  -- definitions of the organization; and the consent block, if one was sent, with the decision that
  -- it had: a consent is lost or made up for no payload. No two definitions share a key.
  pub build_member_schema-IsMember :
      (fields : List FieldDefinition) (v w : Value N)
      → UniqueKeys fields
      → z.parse (build_member_schema z is_date fields) v ≡ some w
      → (sent stored : Entries N) × (v ≡ object sent)
        × (w ≡ object stored)
        × IsMember fields sent stored
  unfolding build_member_schema member_core_schema set_key
  build_member_schema-IsMember fields v w unique e =
      let shape = set_key (codes "consent") (z.optional (member_consent_schema z is_date)) (
        set_key (codes "attributes") (build_attributes_schema z is_date fields)
          (member_core_schema z is_date)) in
      let (es, out, given, same, read) = parsed_object shape v w e in
      let at = λ (key : Text) (s : z.Schema) (found : find key shape ≡ some s).
        read_shape-find z.parse shape es out key s read found in
      let (code, code_sent, code_kept, code_size) =
        sized_string z 1 64 (get (codes "code") es) (get (codes "code") out)
          (at (codes "code") (z.of_string (code_schema z is_date)) refl) in
      let (name, name_sent, name_kept, name_size) =
        sized_string z 1 200 (get (codes "fullName") es) (get (codes "fullName") out)
          (at (codes "fullName") (z.of_string (full_name_schema z is_date)) refl) in
      let (attributes, kept, answered, named) =
        build_attributes_schema-IsAnswer fields (get (codes "attributes") es)
          (get (codes "attributes") out) [] unique
          (at (codes "attributes") (build_attributes_schema z is_date fields) refl) in
      let consent = get (codes "consent") es in
      let stored = get (codes "consent") out in
      let block = z.optional (member_consent_schema z is_date) in
      let parsed = blank_optional (z.parse (member_consent_schema z is_date)) consent stored (
        sym (z.parse-optional (member_consent_schema z is_date) consent)
        ∙ at (codes "consent") block refl) in
      (
        es,
        out,
        given,
        same,
        record {
          code = code;
          code_sent = code_sent;
          code_kept = code_kept;
          code_size = code_size;
          full_name = name;
          full_name_sent = name_sent;
          full_name_kept = name_kept;
          full_name_size = name_size;
          attributes = attributes;
          attributes_kept = kept;
          answered = answered;
          consent = elim parsed [
            | inl absent ↦ inl absent
            | inr read ↦ inr (stored-IsConsent consent stored read)
          ];
        },
      )
