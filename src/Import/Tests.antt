-- ===== src/Import/Tests.antt =====
-- A run of an import of two rows.
use face_cam.Prelude.{ℕ, false, none, [], ◌∷◌, Text, codes}
use face_cam.Rows.{Member}
use face_cam.Store.{Table}
use face_cam.Store.Keyed.{Rows, keyed, holding}
use face_cam.Import.{
  Payload, Checked, accepted, refused, Parsed, ImportMembersInput, ImportReport, cell, run_in,
}

abbrev members : Table (Member ℕ) (λ m. m.id)
members = keyed (λ m. m.id)

-- A code is asked for.
abbrev check : Payload → Checked ℕ
check payload = elim payload.core [
  | [] ↦ refused ((codes "code", codes "Required") ∷ [])
  | cell ∷ rest ↦
      accepted
        (record { code = cell.1; full_name = cell.1; email = none; phone = none; attributes = 0 })
]

abbrev trim : Text → Text
trim s = s

abbrev two : ImportMembersInput
two = record {
  rows = ((codes "No", codes "A1") ∷ []) ∷ ((codes "No", codes "A2") ∷ []) ∷ [];
  mapping = (codes "code", codes "No") ∷ [];
  dry_run = false;
  update_existing = false;
}

abbrev empty : Rows (λ (m : Member ℕ). m.id)
empty = holding (λ m. m.id) []

abbrev after : ImportReport × members.State
after = run_in members check trim [] (λ n. n) 7 two empty

abbrev first_parsed : Parsed ℕ
first_parsed = record {
  code = codes "A1";
  full_name = codes "A1";
  email = none;
  phone = none;
  attributes = 0;
}
