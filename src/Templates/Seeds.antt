-- ===== src/Templates/Seeds.antt =====
-- The seeded fields pass the rules that the API applies to a field that an admin adds.
use face_cam.Prelude.{
  ℕ, ◌≡◌, refl, Bool, true, false, ◌&&◌, ◌||◌, not, Option, none, some, List, [], ◌∷◌, Text,
  text_eq, any_of, every, is_empty, length, leb, ltb,
}
use face_cam.Enums.{TenantTemplate, education, corporate, FieldType, select}
use face_cam.Templates.{FieldDefinition, fields_for_template}

-- `fieldKey` of packages/shared/src/member.ts: one to 64 characters, `/^[a-z][a-zA-Z0-9]*$/`.
unfoldable pub is_field_key : Text → Bool
is_field_key [] = false
is_field_key (c ∷ s) =
    (leb b'a' c && leb c b'z')
    && every
        (λ d.
          (leb b'a' d && leb d b'z') || (leb b'A' d && leb d b'Z') || (leb b'0' d && leb d b'9'))
        s
    && leb (length (c ∷ s)) 64

abbrev is_select : FieldType → Bool
is_select select = true
is_select _ = false

abbrev options_of : Option (List Text) → List Text
options_of none = []
options_of (some options) = options

-- `requireOptionsForSelect` of the same file.
pub has_options : FieldDefinition → Bool
has_options field = not (is_select field.type) || not (is_empty (options_of field.options))

-- The keys differ, and the fields stand in their order of display.
abbrev pub distinct_keys : List FieldDefinition → Bool
distinct_keys [] = true
distinct_keys (f ∷ fs) = not (any_of (λ g. text_eq g.key f.key) fs) && distinct_keys fs

abbrev pub in_order : ℕ → List FieldDefinition → Bool
in_order n [] = true
in_order n (f ∷ fs) = ltb n f.sort_order && in_order f.sort_order fs

-- For both templates: every seeded key is one that the API would accept, and no two fields share a
-- key; every select field has options; no field is required; and the display order is the order of
-- the list, from above 0.
pub fields_for_template_accepted :
    (template : TenantTemplate)
    → (every
          (λ f. is_field_key f.key && has_options f && not f.required)
          (fields_for_template template)
        ≡ true)
      × (distinct_keys (fields_for_template template) ≡ true)
      × (in_order 0 (fields_for_template template) ≡ true)
unfolding fields_for_template is_field_key has_options
fields_for_template_accepted education = (refl, refl, refl)
fields_for_template_accepted corporate = (refl, refl, refl)
