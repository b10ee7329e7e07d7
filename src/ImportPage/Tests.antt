-- ===== src/ImportPage/Tests.antt =====
-- A file as a spreadsheet writes it, read by the import page.
use face_cam.Prelude.{◌≡◌, refl, true, none, some, [], ◌∷◌, ◌++◌, Text, codes}
use face_cam.Slug.Ascii.{ascii}
use face_cam.ImportPage.{on_file, can_check, ReadFile}

abbrev file : Text
file = codes "Full Name,CODE" ++ 10 ∷ codes "Ann,A1" ++ 10 ∷ codes "Bo" ++ 10 ∷ []

abbrev read : ReadFile
read = record {
  headers = codes "Full Name" ∷ codes "CODE" ∷ [];
  rows =
      ((codes "Full Name", codes "Ann") ∷ (codes "CODE", codes "A1") ∷ [])
      ∷ ((codes "Full Name", codes "Bo") ∷ (codes "CODE", []) ∷ [])
      ∷ [];
  mapping = (codes "code", codes "CODE") ∷ (codes "fullName", codes "Full Name") ∷ [];
}

upper_case_headers : on_file ascii [] file ≡ some read
unfolding on_file face_cam.Csv.parse_csv
upper_case_headers = refl

file_checked : can_check read [] ≡ true
unfolding can_check
file_checked = refl

header_only : on_file ascii [] (codes "code") ≡ none
unfolding on_file face_cam.Csv.parse_csv
header_only = refl
