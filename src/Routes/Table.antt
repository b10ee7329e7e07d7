-- ===== src/Routes/Table.antt =====
-- The routes that the controllers of apps/api/src declare, one definition for each method.
use face_cam.Prelude.{Bool, true, false, Option, none, some, List, [], ◌∷◌, ◌++◌, Text, codes}
use face_cam.Enums.{UserRole, super_admin, org_admin, operator}
use face_cam.Guards.{Method, get, post, patch, delete}
use face_cam.Routes.{AuditSpec, Policy, inherited, public, admins_only, Endpoint}

abbrev controller :
    Text → Bool → Option (List UserRole) → Method → Text → Policy → Option AuditSpec → Endpoint
controller base class_public class_roles method path policy audit = record {
  method = method;
  path = base ++ path;
  class_public = class_public;
  class_roles = class_roles;
  policy = policy;
  audit = audit;
}

-- The controllers.
abbrev members_route : Method → Text → Policy → Option AuditSpec → Endpoint
members_route = controller (codes "members") false (some (org_admin ∷ operator ∷ []))

abbrev member_fields_route : Method → Text → Policy → Option AuditSpec → Endpoint
member_fields_route = controller (codes "member-fields") false (some (org_admin ∷ operator ∷ []))

abbrev member_faces_route : Method → Text → Policy → Option AuditSpec → Endpoint
member_faces_route = controller (codes "members/:id") false (some (org_admin ∷ []))

abbrev admin_tenants_route : Method → Text → Policy → Option AuditSpec → Endpoint
admin_tenants_route = controller (codes "admin/tenants") false (some (super_admin ∷ []))

abbrev auth_route : Method → Text → Policy → Option AuditSpec → Endpoint
auth_route = controller (codes "auth") false none

abbrev public_tenants_route : Method → Text → Policy → Option AuditSpec → Endpoint
public_tenants_route = controller (codes "public/tenants") false none

abbrev health_route : Method → Text → Policy → Option AuditSpec → Endpoint
health_route = controller (codes "health") true none

abbrev files_route : Method → Text → Policy → Option AuditSpec → Endpoint
files_route = controller (codes "files") false none

abbrev pub members_list : Endpoint
members_list = members_route get (codes "") inherited none

abbrev pub members_export : Endpoint
members_export = members_route get (codes "/export.csv") admins_only none

abbrev pub members_find : Endpoint
members_find = members_route get (codes "/:id") inherited none

abbrev pub members_create : Endpoint
members_create =
    members_route post (codes "") admins_only
      (some (record { action = codes "member.create"; entity = codes "Member" }))

abbrev pub members_update : Endpoint
members_update =
    members_route patch (codes "/:id") admins_only
      (some (record { action = codes "member.update"; entity = codes "Member" }))

abbrev pub members_archive : Endpoint
members_archive =
    members_route delete (codes "/:id") admins_only
      (some (record { action = codes "member.archive"; entity = codes "Member" }))

abbrev pub members_restore : Endpoint
members_restore =
    members_route post (codes "/:id/restore") admins_only
      (some (record { action = codes "member.restore"; entity = codes "Member" }))

abbrev pub members_import : Endpoint
members_import =
    members_route post (codes "/import") admins_only
      (some (record { action = codes "member.import"; entity = codes "Member" }))

abbrev pub fields_list : Endpoint
fields_list = member_fields_route get (codes "") inherited none

abbrev pub fields_create : Endpoint
fields_create =
    member_fields_route post (codes "") admins_only (
      some (record { action = codes "memberField.create"; entity = codes "MemberFieldDefinition" }))

abbrev pub fields_reorder : Endpoint
fields_reorder =
    member_fields_route patch (codes "/reorder") admins_only (
      some
        (record { action = codes "memberField.reorder"; entity = codes "MemberFieldDefinition" }))

abbrev pub fields_update : Endpoint
fields_update =
    member_fields_route patch (codes "/:id") admins_only (
      some (record { action = codes "memberField.update"; entity = codes "MemberFieldDefinition" }))

abbrev pub fields_archive : Endpoint
fields_archive =
    member_fields_route delete (codes "/:id") admins_only (
      some
        (record { action = codes "memberField.archive"; entity = codes "MemberFieldDefinition" }))

abbrev pub fields_restore : Endpoint
fields_restore =
    member_fields_route post (codes "/:id/restore") admins_only (
      some
        (record { action = codes "memberField.restore"; entity = codes "MemberFieldDefinition" }))

abbrev pub faces_enrol : Endpoint
faces_enrol =
    member_faces_route post (codes "/faces") inherited
      (some (record { action = codes "member.faces.enrol"; entity = codes "Member" }))

abbrev pub faces_list : Endpoint
faces_list = member_faces_route get (codes "/faces") inherited none

abbrev pub consent_record : Endpoint
consent_record =
    member_faces_route post (codes "/consent") inherited
      (some (record { action = codes "member.consent.record"; entity = codes "Member" }))

abbrev pub consent_withdraw : Endpoint
consent_withdraw =
    member_faces_route delete (codes "/consent") inherited
      (some (record { action = codes "member.consent.withdraw"; entity = codes "Member" }))

abbrev pub faces_erase : Endpoint
faces_erase =
    member_faces_route delete (codes "/faces") inherited
      (some (record { action = codes "member.faces.erase"; entity = codes "Member" }))

abbrev pub tenants_create : Endpoint
tenants_create =
    admin_tenants_route post (codes "") inherited
      (some (record { action = codes "tenant.create"; entity = codes "Tenant" }))

abbrev pub tenants_list : Endpoint
tenants_list = admin_tenants_route get (codes "") inherited none

abbrev pub tenants_find : Endpoint
tenants_find = admin_tenants_route get (codes "/:id") inherited none

abbrev pub tenants_update : Endpoint
tenants_update =
    admin_tenants_route patch (codes "/:id") inherited
      (some (record { action = codes "tenant.update"; entity = codes "Tenant" }))

abbrev pub tenants_suspend : Endpoint
tenants_suspend =
    admin_tenants_route post (codes "/:id/suspend") inherited
      (some (record { action = codes "tenant.suspend"; entity = codes "Tenant" }))

abbrev pub tenants_provision : Endpoint
tenants_provision =
    admin_tenants_route post (codes "/:id/provision-face-engine") inherited
      (some (record { action = codes "tenant.provisionFaceEngine"; entity = codes "Tenant" }))

abbrev pub tenants_reactivate : Endpoint
tenants_reactivate =
    admin_tenants_route post (codes "/:id/reactivate") inherited
      (some (record { action = codes "tenant.reactivate"; entity = codes "Tenant" }))

abbrev pub auth_login : Endpoint
auth_login = auth_route post (codes "/login") public none

abbrev pub auth_refresh : Endpoint
auth_refresh = auth_route post (codes "/refresh") public none

abbrev pub auth_logout : Endpoint
auth_logout = auth_route post (codes "/logout") inherited none

abbrev pub auth_logout_all : Endpoint
auth_logout_all = auth_route post (codes "/logout-all") inherited none

abbrev pub auth_me : Endpoint
auth_me = auth_route get (codes "/me") inherited none

abbrev pub tenants_by_slug : Endpoint
tenants_by_slug = public_tenants_route get (codes "/:slug") public none

abbrev pub health_check : Endpoint
health_check = health_route get (codes "") inherited none

abbrev pub health_live : Endpoint
health_live = health_route get (codes "/live") inherited none

abbrev pub files_serve : Endpoint
files_serve = files_route get (codes "/:key") public none

-- All that the application serves.
abbrev pub endpoints : List Endpoint
endpoints =
    members_list ∷ members_export ∷ members_find ∷ members_create ∷ members_update ∷ members_archive
    ∷ members_restore ∷ members_import ∷ fields_list ∷ fields_create ∷ fields_reorder
    ∷ fields_update ∷ fields_archive ∷ fields_restore ∷ faces_enrol ∷ faces_list ∷ consent_record
    ∷ consent_withdraw ∷ faces_erase ∷ tenants_create ∷ tenants_list ∷ tenants_find ∷ tenants_update
    ∷ tenants_suspend ∷ tenants_provision ∷ tenants_reactivate ∷ auth_login ∷ auth_refresh
    ∷ auth_logout ∷ auth_logout_all ∷ auth_me ∷ tenants_by_slug ∷ health_check ∷ health_live
    ∷ files_serve ∷ []
