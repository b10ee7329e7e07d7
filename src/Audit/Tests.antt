-- ===== src/Audit/Tests.antt =====
-- Runs of the audit trail, with a database that counts the rows or is out of reach.
use face_cam.Prelude.{ℕ, ◌≡◌, refl, ◌⊎◌, Option, some, List, [], ◌∷◌, Text, codes}
use mathlib.Core.List.{Memᴰ}
use face_cam.Prelude.Errors.{Result, ok, err, storage_error}
use face_cam.Enums.{org_admin}
use face_cam.Context.{RequestStore, opened}
use face_cam.FieldSchema.Values.{Value, object, string, entry, end}
use face_cam.Routes.{AuditSpec}
use face_cam.Routes.Table.{members_create}
use face_cam.Audit.{
  HttpRequest, AuditRow, absent, single, repeated, audit_row, intercept, use_correlation_id,
}
use face_cam.Audit.Recording.{IsRowOf, intercept-transparent, intercept-audited}

abbrev request : HttpRequest
request = record {
  method = codes "POST";
  route_path = some (codes "/api/members");
  path = codes "/api/members";
  param_id = absent;
  ip = some (codes "10.0.0.1");
  user_agent = repeated (codes "curl" ∷ codes "x" ∷ []);
}

abbrev shown : Value ℕ → Text
shown (string t) = t
shown v = []

abbrev created_member : Value ℕ
created_member = object (entry (codes "id") (string (codes "m-5")) end)

abbrev r : RequestStore
r = record (opened (codes "c1")) {
  tenant_id = some 7;
  user_id = some 1;
  user_role = some org_admin;
}

abbrev State : Type 0
State = List AuditRow

abbrev insert : AuditRow → State → Result (Unit {0}) × State
insert row rows = (ok tt, row ∷ rows)

abbrev broken : AuditRow → State → Result (Unit {0}) × State
broken row rows = (err storage_error, rows)

abbrev handle : Option RequestStore × State → Result (Value ℕ) × (Option RequestStore × State)
handle st = (ok created_member, st)

abbrev created : AuditSpec
created = record { action = codes "member.create"; entity = codes "Member" }

intercept-transparent_example :
    let (result, (ctx, s)) = intercept shown broken (some created) request handle (some r, []) in
    (result ≡ ok created_member)
    × (ctx ≡ some r)
    × ((s ≡ [])
        ⊎ ((v : Value ℕ) × (marked : AuditSpec) × (result ≡ ok v) × (some created ≡ some marked)))
intercept-transparent_example =
    intercept-transparent shown broken (some created) request handle (some r, [])

intercept-audited_example :
    (spec : AuditSpec) × (row : AuditRow) × (some created ≡ some spec)
    × IsRowOf shown insert spec request r row
    × (intercept shown insert (some created) request handle (some r, [])
        ≡ (ok created_member, (some r, row ∷ [])))
intercept-audited_example =
    intercept-audited shown insert members_create request handle (some r, []) created_member r []
      (Memᴰ.tail (Memᴰ.tail (Memᴰ.tail (Memᴰ.head refl)))) refl refl refl refl

entity_id_test :
    (audit_row shown created request created_member (some r)).entity_id ≡ some (codes "m-5")
unfolding audit_row face_cam.FieldSchema.Values.get
entity_id_test = refl

use_correlation_id_test : (use_correlation_id (single []) (codes "fresh")).0 ≡ codes "fresh"
unfolding use_correlation_id
use_correlation_id_test = refl
