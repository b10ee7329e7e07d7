-- ===== src/Import.antt =====
-- The import of members from a file: apps/api/src/members/member-import.service.ts. The check of a
-- row against the organization's schema (zod) is a parameter: it gives the parsed row, or the
-- issues found in it. Row numbers count the header as row 1.
pub mod Report
pub mod Prepared
pub mod Stored
mod Tests
use face_cam.Prelude.{
  ℕ, ◌+◌, ◌-◌, ◌≡◌, Bool, true, false, ◌||◌, ◌&&◌, not, Option, none, some, List, [], ◌∷◌, ◌++◌,
  map, length, is_empty, Text, codes, text_eq, includes, is_some, if◌then◌else◌, ◌==◌,
}
use face_cam.Prelude.Errors.{Result, ok, err, ◌>>=◌, or_throw, gets, no_tenant}
use face_cam.Enums.{MemberStatus}
use face_cam.Context.{RequestStore, Call, tenant_id_of}
use face_cam.Rows.{Member}
use face_cam.Store.{Table}
use face_cam.Tenants.{create_all}

-- `FIRST_DATA_ROW`
abbrev pub first_data_row : ℕ
first_data_row = 2

-- What goes wrong in a row: an issue of the schema, or one of the two clashes of a code.
pub data Problem : Type 0 where
  issue : Text → Problem
  duplicate_of_row : ℕ → Problem
  code_exists : Problem

pub record ImportRowError : Type 0 where
  pub row : ℕ
  pub field : Text
  pub problem : Problem

pub record ImportReport : Type 0 where
  pub dry_run : Bool
  pub total_rows : ℕ
  pub valid : ℕ
  pub created : ℕ
  pub updated : ℕ
  pub skipped : ℕ
  pub errors : List ImportRowError

-- A row that the schema accepts.
pub record Parsed (A : Type 0) : Type 0 where
  pub code : Text
  pub full_name : Text
  pub email : Option Text
  pub phone : Option Text
  pub attributes : A

pub data Checked (A : Type 0) : Type 0 where
  accepted : Parsed A → Checked A
  refused : List (Text × Text) → Checked A

-- The rows, the mapping from a field to a column, and the two switches.
pub record ImportMembersInput : Type 0 where
  pub rows : List (List (Text × Text))
  pub mapping : List (Text × Text)
  pub dry_run : Bool
  pub update_existing : Bool

-- `raw[column] ?? ''`
pub cell : List (Text × Text) → Text → Text
cell [] column = []
cell ((name, value) ∷ raw) column =
    let rest = cell raw column in if text_eq name column then value else rest

-- What `mapRow` gives: the core columns, and the attributes.
pub record Payload : Type 0 where
  pub core : List (Text × Text)
  pub attributes : List (Text × Text)

abbrev pub add_cell : List Text → Text → Text → Payload → Payload
add_cell attribute_keys target value payload =
    if includes attribute_keys target
    then record payload { attributes = (target, value) ∷ payload.attributes }
    else record payload { core = (target, value) ∷ payload.core }

-- `mapRow`, with the runtime's `trim`; the targets of a mapping differ from each other.
pub map_row : (Text → Text) → List (Text × Text) → List (Text × Text) → List Text → Payload
unfolding cell
map_row trim raw [] attribute_keys = record { core = []; attributes = [] }
map_row trim raw ((target, column) ∷ mapping) attribute_keys =
    let rest = map_row trim raw mapping attribute_keys in
    if is_empty column then rest else add_cell attribute_keys target (trim (cell raw column)) rest

-- `seenCodes.get(code)`
pub seen_at : List (Text × ℕ) → Text → Option ℕ
seen_at [] code = none
seen_at ((c, row) ∷ seen) code =
    let rest = seen_at seen code in if text_eq c code then some row else rest

abbrev pub issues_at : ℕ → List (Text × Text) → List ImportRowError
issues_at row [] = []
issues_at row ((path, message) ∷ issues) =
    record { row = row; field = if is_empty path then codes "_" else path; problem = issue message }
    ∷ issues_at row issues

abbrev pub code_error : ℕ → Problem → ImportRowError
code_error row problem = record { row = row; field = codes "code"; problem = problem }

module _ {A : Type 0} (check : Payload → Checked A) (trim : Text → Text)
    (attribute_keys : List Text) (mapping : List (Text × Text)) where
  -- The first loop of `run`, from the row with this number: the errors, and what is prepared.
  pub prepare :
      ℕ → List (Text × ℕ) → List (List (Text × Text)) → List ImportRowError × List (ℕ × Parsed A)
  unfolding map_row seen_at
  prepare row seen [] = ([], [])
  prepare row seen (raw ∷ rows) = elim (check (map_row trim raw mapping attribute_keys)) [
    | refused issues ↦
        let (errors, prepared) = prepare (row + 1) seen rows in
        (issues_at row issues ++ errors, prepared)
    | accepted parsed ↦
        let (errors, prepared) = prepare (row + 1) seen rows in
        let (errors', prepared') = prepare (row + 1) ((parsed.code, row) ∷ seen) rows in
        elim (seen_at seen parsed.code) [
          | some previous ↦ (code_error row (duplicate_of_row previous) ∷ errors, prepared)
          | none ↦ (errors', (row, parsed) ∷ prepared')
        ]
  ]

pub record Plan (A : Type 0) : Type 0 where
  pub to_create : List (ℕ × Parsed A)
  pub to_update : List (ℕ × Parsed A)
  pub clashes : List ImportRowError

module _ {A : Type 0} where
  -- The second loop of `run`; `existing` is the look-up of a code in the database.
  pub plan : (Text → Option ℕ) → Bool → List (ℕ × Parsed A) → Plan A
  plan existing update_existing [] = record { to_create = []; to_update = []; clashes = [] }
  plan existing update_existing ((row, parsed) ∷ entries) =
      let rest = plan existing update_existing entries in
      elim (existing parsed.code) [
        | none ↦ record rest { to_create = (row, parsed) ∷ rest.to_create }
        | some id ↦
            if update_existing
            then record rest { to_update = (row, parsed) ∷ rest.to_update }
            else record rest { clashes = code_error row code_exists ∷ rest.clashes }
      ]

  -- The row that `createMany` writes: without any consent.
  abbrev pub member_row : ℕ → ℕ → Parsed A → Member A
  member_row id tenant_id parsed = record {
    id = id;
    tenant_id = tenant_id;
    code = parsed.code;
    full_name = parsed.full_name;
    email = parsed.email;
    phone = parsed.phone;
    status = MemberStatus.active;
    attributes = parsed.attributes;
    consent_at = none;
    consent_version = none;
    consent_recorded_by = none;
    consent_withdrawn_at = none;
    consent_withdrawn_reason = none;
    face_enrolled_at = none;
    archived_at = none;
  }

  abbrev pub overwrite : Parsed A → Member A → Member A
  overwrite parsed m = record m {
    full_name = parsed.full_name;
    email = parsed.email;
    phone = parsed.phone;
    attributes = parsed.attributes;
  }

  abbrev pub id_of : Option (Member A) → Option ℕ
  id_of none = none
  id_of (some m) = some m.id

  -- `createMany`, with the ids that the database gives.
  unfoldable pub new_rows : (ℕ → ℕ) → ℕ → List (ℕ × Parsed A) → List (Member A)
  new_rows new_id tenant_id [] = []
  new_rows new_id tenant_id ((row, parsed) ∷ entries) =
      member_row (new_id row) tenant_id parsed ∷ new_rows new_id tenant_id entries

module _ {A : Type 0} (members : Table (Member A) (λ m. m.id)) (check : Payload → Checked A)
    (trim : Text → Text) (attribute_keys : List Text) where
  -- `existingByCode.get(code)`: a code is unique in an organization.
  abbrev pub existing_in : members.State → ℕ → Text → Option ℕ
  existing_in ms tenant_id code =
      id_of (members.find_first ms (λ m. text_eq m.code code && m.tenant_id == tenant_id))

  -- The updates of the commit, one after another.
  pub update_all : ℕ → (Text → Option ℕ) → List (ℕ × Parsed A) → members.State → members.State
  update_all tenant_id existing [] ms = ms
  update_all tenant_id existing ((row, parsed) ∷ entries) ms = elim (existing parsed.code) [
    | none ↦ update_all tenant_id existing entries ms
    | some id ↦
        update_all tenant_id existing entries
          (members.update_many (λ m. m.id == id && m.tenant_id == tenant_id) (overwrite parsed) ms)
  ]

  -- The transaction of `run`.
  pub commit : (ℕ → ℕ) → ℕ → (Text → Option ℕ) → Plan A → members.State → members.State
  unfolding update_all new_rows
  commit new_id tenant_id existing p ms =
      update_all tenant_id existing p.to_update
        (create_all members.create (new_rows new_id tenant_id p.to_create) ms)

  abbrev pub report_of : ImportMembersInput → Plan A → List ImportRowError → ImportReport
  report_of input p errors =
      let valid = length p.to_create + length p.to_update in
      record {
        dry_run = input.dry_run;
        total_rows = length input.rows;
        valid = valid;
        created = 0;
        updated = 0;
        skipped = length input.rows - valid;
        errors = errors;
      }

  -- `run`, in a request of this tenant.
  pub run_in : (ℕ → ℕ) → ℕ → ImportMembersInput → members.State → ImportReport × members.State
  unfolding prepare plan commit
  run_in new_id tenant_id input ms =
      let (errors, prepared) =
        prepare check trim attribute_keys input.mapping first_data_row [] input.rows in
      let p = plan (existing_in ms tenant_id) input.update_existing prepared in
      let report = report_of input p (errors ++ p.clashes) in
      if input.dry_run || not (is_empty (errors ++ p.clashes)) then (report, ms) else (
        record report { created = length p.to_create; updated = length p.to_update },
        commit new_id tenant_id (existing_in ms tenant_id) p ms,
      )

  pub run : (ℕ → ℕ) → ImportMembersInput → Call members.State ImportReport
  unfolding run_in
  run new_id input (ctx, ms) = elim (tenant_id_of ctx) [
    | none ↦ (err no_tenant, (ctx, ms))
    | some tenant_id ↦
        let (report, ms') = run_in new_id tenant_id input ms in (ok report, (ctx, ms'))
  ]
