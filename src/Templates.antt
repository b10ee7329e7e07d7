-- ===== src/Templates.antt =====
-- The member fields that a new organization is seeded with: packages/shared/src/templates.ts.
pub mod Seeds
use face_cam.Prelude.{ℕ, Bool, true, false, Option, none, some, List, [], ◌∷◌, Text, codes}
use face_cam.Enums.{TenantTemplate, education, corporate, FieldType, text, date, select, phone}

-- packages/shared/src/field-schema.ts. The bounds of a number field are integers, as pairs of a
-- sign and a size; no template sets one.
pub record FieldDefinition : Type 0 where
  pub key : Text
  pub label : Text
  pub type : FieldType
  pub required : Bool
  pub options : Option (List Text)
  pub group : Option Text
  pub sort_order : ℕ
  pub help_text : Option Text
  pub max_length : Option ℕ
  pub min : Option (Bool × ℕ)
  pub max : Option (Bool × ℕ)

-- A literal of the two lists: what it leaves out is absent.
abbrev text_field : Text → Text → Text → ℕ → ℕ → FieldDefinition
text_field key label group sort_order max_length = record {
  key = key;
  label = label;
  type = text;
  required = false;
  options = none;
  group = some group;
  sort_order = sort_order;
  help_text = none;
  max_length = some max_length;
  min = none;
  max = none;
}

abbrev plain_field : FieldType → Text → Text → Text → ℕ → FieldDefinition
plain_field type key label group sort_order = record {
  key = key;
  label = label;
  type = type;
  required = false;
  options = none;
  group = some group;
  sort_order = sort_order;
  help_text = none;
  max_length = none;
  min = none;
  max = none;
}

abbrev select_field : Text → Text → Text → ℕ → List Text → FieldDefinition
select_field key label group sort_order options =
    let plain = plain_field select key label group sort_order in
    record plain { options = some options }

abbrev genders : List Text
genders = codes "Male" ∷ codes "Female" ∷ codes "Other" ∷ []

abbrev blood_groups : List Text
blood_groups =
    codes "A+"
    ∷ codes "A-"
    ∷ codes "B+"
    ∷ codes "B-"
    ∷ codes "AB+"
    ∷ codes "AB-"
    ∷ codes "O+"
    ∷ codes "O-"
    ∷ []

abbrev guardian_phone : FieldDefinition
guardian_phone =
    let plain =
      plain_field phone (codes "guardianPhone") (codes "Guardian Phone") (codes "Guardian") 90 in
    record plain { help_text = some (codes "Used for attendance notifications") }

pub education_fields : List FieldDefinition
education_fields =
    text_field (codes "class") (codes "Class") (codes "Academic") 10 32
    ∷ text_field (codes "section") (codes "Section") (codes "Academic") 20 16
    ∷ text_field (codes "admissionNumber") (codes "Admission Number") (codes "Academic") 30 64
    ∷ text_field (codes "academicYear") (codes "Academic Year") (codes "Academic") 40 16
    ∷ plain_field date (codes "dateOfBirth") (codes "Date of Birth") (codes "Personal") 50
    ∷ select_field (codes "gender") (codes "Gender") (codes "Personal") 60 genders
    ∷ select_field (codes "bloodGroup") (codes "Blood Group") (codes "Personal") 70 blood_groups
    ∷ text_field (codes "guardianName") (codes "Guardian Name") (codes "Guardian") 80 200
    ∷ guardian_phone
    ∷ text_field (codes "address") (codes "Address") (codes "Personal") 100 500
    ∷ []

pub corporate_fields : List FieldDefinition
corporate_fields =
    text_field (codes "department") (codes "Department") (codes "Employment") 10 100
    ∷ text_field (codes "designation") (codes "Designation") (codes "Employment") 20 100
    ∷ plain_field date (codes "dateOfJoining") (codes "Date of Joining") (codes "Employment") 30
    ∷ select_field (codes "employmentType") (codes "Employment Type") (codes "Employment") 40
        (codes "Full-time" ∷ codes "Part-time" ∷ codes "Contract" ∷ codes "Intern" ∷ [])
    ∷ text_field (codes "reportingManager") (codes "Reporting Manager") (codes "Employment") 50 200
    ∷ text_field (codes "workLocation") (codes "Work Location") (codes "Employment") 60 100
    ∷ plain_field date (codes "dateOfBirth") (codes "Date of Birth") (codes "Personal") 70
    ∷ select_field (codes "gender") (codes "Gender") (codes "Personal") 80 genders
    ∷ select_field (codes "bloodGroup") (codes "Blood Group") (codes "Personal") 90 blood_groups
    ∷ plain_field phone (codes "emergencyContact") (codes "Emergency Contact") (codes "Personal")
        100
    ∷ []

pub fields_for_template : TenantTemplate → List FieldDefinition
unfolding education_fields corporate_fields
fields_for_template education = education_fields
fields_for_template corporate = corporate_fields
