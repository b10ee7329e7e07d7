-- ===== src/Members.antt =====
-- Members: apps/api/src/members/members.service.ts, behind the schema that checks a payload. Ids,
-- the time of the call and the order that the database sorts by are arguments; a call returns the
-- stored row where the source returns a rendering of it.
pub mod Effects
pub mod Codes
pub mod Entries
pub mod Roll
pub mod Consent
pub mod Listing
mod Tests
use face_cam.Prelude.{
  All, ℕ, ◌≡◌, ◌↔◌, Bool, true, false, ◌&&◌, ◌||◌, not, Option, none, some, List, [], ◌∷◌, Text,
  codes, text_eq, is_empty, is_some, ◌==◌, if◌then◌else◌,
}
use mathlib.Core.List.{Memᴰ}
use face_cam.Prelude.Errors.{
  Result, ok, err, ◌>>=◌, ◌>>◌, pure, throw_if, or_throw, gets, modify, not_found,
  member_code_taken,
}
use face_cam.Enums.{MemberStatus, archived}
use face_cam.Context.{scoped, RequestStore, Call, user_id_of, require_tenant_id}
use face_cam.Rows.{Member}
use face_cam.Store.{Table}
use face_cam.Paging.{Paginated, paginate}

pub record ConsentInput : Type 0 where
  pub granted : Bool
  pub version : Text

pub record MemberWriteInput (A : Type 0) : Type 0 where
  pub code : Text
  pub full_name : Text
  pub email : Option Text
  pub phone : Option Text
  pub attributes : A
  pub consent : Option ConsentInput

pub data SortBy : Type 0 where
  by_full_name by_code by_created_at : SortBy

pub record ListMembersQuery : Type 0 where
  pub page : ℕ
  pub page_size : ℕ
  pub search : Option Text
  pub status : Option MemberStatus
  pub attribute : Option Text
  pub attribute_value : Option Text
  pub sort_by : SortBy
  pub ascending : Bool

abbrev pub consent_version : Text
consent_version = codes "2026-08-v1"

-- `consent.version || CONSENT_VERSION`
abbrev pub version_of : ConsentInput → Text
version_of consent = if is_empty consent.version then consent_version else consent.version

-- `consentColumns`, written into a row.
abbrev pub with_consent : {A : Type 0} → ℕ → Option ℕ → Option ConsentInput → Member A → Member A
with_consent now user none m = m
with_consent now user (some consent) m =
    if consent.granted
    then (record m {
      consent_at = some now;
      consent_version = some (version_of consent);
      consent_recorded_by = user;
    })
    else m

abbrev pub own : {A : Type 0} → ℕ → ℕ → Member A → Bool
own t id m = m.id == id && m.tenant_id == t

abbrev pub coded : {A : Type 0} → ℕ → Text → Member A → Bool
coded t code m = text_eq m.code code && m.tenant_id == t

abbrev pub new_member : {A : Type 0} → ℕ → ℕ → ℕ → Option ℕ → MemberWriteInput A → Member A
new_member id t now user input = with_consent now user input.consent (record {
  id = id;
  tenant_id = t;
  code = input.code;
  full_name = input.full_name;
  email = input.email;
  phone = input.phone;
  status = MemberStatus.active;
  attributes = input.attributes;
  consent_at = none;
  consent_version = none;
  consent_recorded_by = none;
  consent_withdrawn_at = none;
  consent_withdrawn_reason = none;
  face_enrolled_at = none;
  archived_at = none;
})

-- What `update` writes: consent is only ever added.
abbrev pub edited : {A : Type 0} → ℕ → Option ℕ → MemberWriteInput A → Member A → Member A
edited now user input m =
    with_consent now user (if is_some m.consent_at then none else input.consent) (record m {
      code = input.code;
      full_name = input.full_name;
      email = input.email;
      phone = input.phone;
      attributes = input.attributes;
    })

abbrev pub to_archive : {A : Type 0} → ℕ → Member A → Member A
to_archive now m = record m { status = archived; archived_at = some now }

abbrev pub to_restore : {A : Type 0} → Member A → Member A
to_restore m = record m { status = MemberStatus.active; archived_at = none }

module _ {A : Type 0} (members : Table (Member A) (λ m. m.id)) where
  pub assert_code_free : ℕ → Text → Call members.State (Unit {0})
  assert_code_free t code = do
    clash ← gets (λ st. members.find_first st.1 (coded t code))
    throw_if (is_some clash) member_code_taken

  -- `findUnique` in the tenant, or NOT_FOUND.
  pub find_own : ℕ → ℕ → Call members.State (Member A)
  find_own t id = do
    found ← gets (λ st. members.find_first st.1 (own t id))
    or_throw found not_found

  pub find_by_id : ℕ → Call members.State (Member A)
  unfolding find_own
  find_by_id id = scoped (λ t. find_own t id)

  -- The update of one row, which gives the row as it is then.
  pub write_own : ℕ → Member A → (Member A → Member A) → Call members.State (Member A)
  write_own t m f = modify (λ st. (st.0, members.update_many (own t m.id) f st.1)) >> pure (f m)

  pub create : ℕ → ℕ → MemberWriteInput A → Call members.State (Member A)
  unfolding require_tenant_id assert_code_free
  create id now input = do
    require_tenant_id
    scoped (λ t. do
      assert_code_free t input.code
      user ← gets (λ st. user_id_of st.0)
      modify (λ st. (st.0, members.create (new_member id t now user input) st.1))
      pure (new_member id t now user input))

  pub update : ℕ → ℕ → MemberWriteInput A → Call members.State (Member A)
  unfolding find_own assert_code_free write_own
  update now id input = scoped (λ t. do
    existing ← find_own t id
    if text_eq input.code existing.code then pure tt else assert_code_free t input.code
    user ← gets (λ st. user_id_of st.0)
    write_own t existing (edited now user input))

  pub archive : ℕ → ℕ → Call members.State (Member A)
  unfolding find_own write_own
  archive now id = scoped (λ t. do existing ← find_own t id; write_own t existing (to_archive now))

  pub restore : ℕ → Call members.State (Member A)
  unfolding find_own write_own
  restore id = scoped (λ t. do existing ← find_own t id; write_own t existing to_restore)

-- No two rows tie.
abbrev pub NoTies : {A : Type 0} → (A → A → Bool) → List A → Type 0
NoTies tie [] = Unit
NoTies tie (m ∷ ms) = All (λ other. tie m other ≡ false) ms × NoTies tie ms

-- What the database does with the filters of `list`: `contains` with the case ignored or not, the
-- test of an attribute's value, and a sort. Rows that tie in the sort may come in another order in
-- each request, which is the first argument of `sorted`; where none tie, the order is determined.
pub record Searching (A : Type 0) : Type 0 where
  pub contains_insensitive : Text → Text → Bool
  pub contains : Text → Text → Bool
  pub attribute_equals : A → Text → Text → Bool
  pub ties : SortBy → Member A → Member A → Bool
  pub sorted : ℕ → SortBy → Bool → List (Member A) → List (Member A)
  pub sorted_keeps :
      (request : ℕ) (s : SortBy) (up : Bool) (ms : List (Member A)) (m : Member A)
      → Memᴰ m ms ↔ Memᴰ m (sorted request s up ms)
  pub sorted_untied :
      (request other : ℕ) (s : SortBy) (up : Bool) (ms : List (Member A))
      → NoTies (ties s) ms
      → sorted request s up ms ≡ sorted other s up ms

abbrev pub status_is : MemberStatus → MemberStatus → Bool
status_is MemberStatus.active MemberStatus.active = true
status_is MemberStatus.inactive MemberStatus.inactive = true
status_is archived archived = true
status_is _ _ = false

module _ {A : Type 0} (db : Searching A) where
  abbrev pub within : (Text → Text → Bool) → Option Text → Text → Bool
  within test none wanted = false
  within test (some value) wanted = test value wanted

  -- `query.search ? { OR: … } : {}`; the empty text is no search.
  pub search_matches : Option Text → Member A → Bool
  search_matches none m = true
  search_matches (some wanted) m =
      is_empty wanted
      || db.contains_insensitive m.full_name wanted
      || db.contains_insensitive m.code wanted
      || within db.contains_insensitive m.email wanted
      || within db.contains m.phone wanted

  pub attribute_matches : Option Text → Option Text → Member A → Bool
  attribute_matches none value m = true
  attribute_matches (some key) none m = true
  attribute_matches (some key) (some value) m =
      is_empty key || is_empty value || db.attribute_equals m.attributes key value

  abbrev pub status_matches : Option MemberStatus → Member A → Bool
  status_matches none m = not (is_some m.archived_at)
  status_matches (some status) m = status_is m.status status

  -- The `where` of `list`.
  pub listed : ℕ → ListMembersQuery → Member A → Bool
  unfolding search_matches attribute_matches
  listed t query m =
      status_matches query.status m
      && search_matches query.search m
      && attribute_matches query.attribute query.attribute_value m
      && m.tenant_id == t

module _ {A : Type 0} (members : Table (Member A) (λ m. m.id)) (db : Searching A) where
  -- `list` in a tenant, and of the rows that match.
  pub rows_of : ℕ → ListMembersQuery → members.State → List (Member A)
  unfolding listed
  rows_of t query ms =
      db.sorted query.page query.sort_by query.ascending (members.find_many ms (listed db t query))

  pub list : ListMembersQuery → Call members.State (Paginated (Member A))
  unfolding rows_of paginate
  list query = scoped (λ t. gets (λ st. paginate query.page query.page_size (rows_of t query st.1)))

  -- Every member of the tenant that is not archived, by code.
  pub export_all : Call members.State (List (Member A))
  export_all = scoped (λ t. gets (λ st.
      db.sorted 1 by_code true
        (members.find_many st.1 (λ m. not (is_some m.archived_at) && m.tenant_id == t))))
