-- ===== src/Members/Tests.antt =====
-- Runs of the members' service, in an organization with one member.
use face_cam.Prelude.{
  ℕ, ◌≡◌, ◌↔◌, ◌≤◌, refl, true, false, Option, none, some, [], ◌∷◌, Text, codes, text_eq, length,
  arith,
}
use mathlib.Core.List.{Memᴰ}
use face_cam.Prelude.Errors.{ok, err, member_code_taken}
use face_cam.Enums.{org_admin}
use face_cam.Context.{RequestStore}
use face_cam.Rows.{Member}
use face_cam.Store.{Table}
use face_cam.Store.Keyed.{Rows, keyed, holding, running}
use face_cam.Paging.{Paginated}
use face_cam.Members.{
  MemberWriteInput, ListMembersQuery, Searching, by_code, new_member, listed, create, update, list,
}
use face_cam.Members.Codes.{UniqueCodes, Step, Reach, here, next, Reach-UniqueCodes}
use face_cam.Members.Consent.{StillConsents, Reach-StillConsents}
use face_cam.Members.Entries.{Change, roll}
use face_cam.Members.Roll.{Step-Change}
use face_cam.Members.Listing.{read_pages, read_pages-exact}

abbrev members : Table (Member ℕ) (λ m. m.id)
members = keyed (λ m. m.id)

abbrev input : Text → MemberWriteInput ℕ
input code = record {
  code = code;
  full_name = codes "Bob";
  email = none;
  phone = none;
  attributes = 0;
  consent = some (record { granted = true; version = [] });
}

abbrev bob : Member ℕ
bob = new_member 5 7 10 (some 1) (input (codes "B1"))

abbrev ms : Rows (λ (m : Member ℕ). m.id)
ms = holding (λ m. m.id) (bob ∷ [])

abbrev inside : Option RequestStore
inside = some (record {
  correlation_id = codes "c1";
  tenant_id = some 7;
  tenant_slug = none;
  user_id = some 1;
  user_role = some org_admin;
  platform_scope = false;
})

-- A second member, and the first one under another code.
abbrev after_create : members.State
after_create = (create members 6 20 (input (codes "B2")) (inside, ms)).1.1

abbrev after_update : members.State
after_update = (update members 30 5 (input (codes "B3")) (inside, after_create)).1.1

creates :
    (create members 6 20 (input (codes "B2")) (inside, ms)).0
    ≡ ok (new_member 6 7 20 (some 1) (input (codes "B2")))
unfolding create running
creates = refl

refuses : (create members 6 20 (input (codes "B1")) (inside, ms)).0 ≡ err member_code_taken
unfolding create running
refuses = refl

step : Step members ms after_create
unfolding running
step = Step.created inside 6 20 (input (codes "B2")) refl refl

run : Reach members ms after_update
run = next (next here step) (Step.updated inside 30 5 (input (codes "B3")) refl)

ms-UniqueCodes : UniqueCodes members ms
unfolding running UniqueCodes
ms-UniqueCodes a b ha hb tenants same = ground arith

Reach-UniqueCodes_example : UniqueCodes members after_update
Reach-UniqueCodes_example = Reach-UniqueCodes members ms after_update run ms-UniqueCodes

Step-Change_example :
    Change (roll members ms) (roll members after_create) × UniqueCodes members after_create
Step-Change_example = Step-Change members ms after_create step ms-UniqueCodes

Reach-StillConsents_example : StillConsents members after_update bob
unfolding running
Reach-StillConsents_example = Reach-StillConsents members ms after_update bob 10 run refl refl

abbrev db : Searching ℕ
db = record {
  contains_insensitive = text_eq;
  contains = text_eq;
  attribute_equals = λ a key value. true;
  ties = λ s m other. text_eq m.code other.code;
  sorted = λ request s up rows. rows;
  sorted_keeps = λ request s up rows m. (λ h. h, λ h. h);
  sorted_untied = λ request other s up rows untied. refl;
}

abbrev query : ListMembersQuery
query = record {
  page = 1;
  page_size = 25;
  search = some [];
  status = none;
  attribute = none;
  attribute_value = none;
  sort_by = by_code;
  ascending = true;
}

abbrev answer : Paginated (Member ℕ)
answer = record { items = bob ∷ []; total = 1; page = 1; page_size = 25; total_pages = 1 }

read_pages-exact_example :
    (Memᴰ bob (read_pages members db query (inside, ms) 1)
      ↔ ((members.find_unique ms 5 ≡ some bob) × (listed db 7 query bob ≡ true)))
    × (answer.total ≡ length (read_pages members db query (inside, ms) 1))
    × (length answer.items ≤ 25)
    × (◌≡◌ {A = Option RequestStore × members.State} (inside, ms) (inside, ms))
unfolding running list
read_pages-exact_example =
    read_pages-exact members db query inside ms 7 answer (inside, ms) bob refl refl (omega arith)
      (tt, tt) refl
