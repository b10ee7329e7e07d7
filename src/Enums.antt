-- ===== src/Enums.antt =====
-- The enumerations of packages/shared/src/enums.ts, which mirror the Prisma enums.
use face_cam.Prelude.{◌≡◌, ◌↔◌, Bool, true, false, List, [], ◌∷◌, any_of, arith}

pub data TenantTemplate : Type 0 where
  education corporate : TenantTemplate

pub data TenantStatus : Type 0 where
  trial active past_due suspended cancelled : TenantStatus

pub data UserRole : Type 0 where
  super_admin org_admin operator : UserRole

pub data MemberStatus : Type 0 where
  active inactive archived : MemberStatus

pub data FieldType : Type 0 where
  text number date select email phone boolean : FieldType

pub data UserStatus : Type 0 where
  active disabled invited : UserStatus

-- `===` on two statuses of a tenant, and on two roles.
abbrev pub status_eq : TenantStatus → TenantStatus → Bool
status_eq trial trial = true
status_eq TenantStatus.active TenantStatus.active = true
status_eq past_due past_due = true
status_eq suspended suspended = true
status_eq cancelled cancelled = true
status_eq _ _ = false

abbrev pub role_eq : UserRole → UserRole → Bool
role_eq super_admin super_admin = true
role_eq org_admin org_admin = true
role_eq operator operator = true
role_eq _ _ = false

pub role_eq_iff : (a b : UserRole) → (role_eq a b ≡ true) ↔ (a ≡ b)
role_eq_iff super_admin b = ground arith
role_eq_iff org_admin b = ground arith
role_eq_iff operator b = ground arith

-- `list.includes(role)`
abbrev pub includes_role : List UserRole → UserRole → Bool
includes_role roles role = any_of (λ r. role_eq r role) roles

abbrev pub writable_tenant_statuses : List TenantStatus
writable_tenant_statuses = trial ∷ TenantStatus.active ∷ past_due ∷ []

-- `WRITABLE_TENANT_STATUSES.includes(status)`
abbrev pub is_writable : TenantStatus → Bool
is_writable status = any_of (λ s. status_eq s status) writable_tenant_statuses
