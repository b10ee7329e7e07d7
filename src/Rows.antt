-- ===== src/Rows.antt =====
-- The rows of apps/api/prisma/schema.prisma that the services read and write. Ids are UUIDs and
-- times are milliseconds: numbers that the code only compares and copies.
use face_cam.Prelude.{ℕ, Bool, Option, List, Text}
use face_cam.Enums.{TenantTemplate, TenantStatus, UserRole, UserStatus, MemberStatus, FieldType}

pub record Tenant : Type 0 where
  pub id : ℕ
  pub name : Text
  pub slug : Text
  pub template : TenantTemplate
  pub status : TenantStatus
  pub timezone : Text
  pub billing_email : Option Text
  pub plan : Option Text
  pub valid_until : Option ℕ
  pub suspended_at : Option ℕ
  pub suspended_reason : Option Text
  pub compreface_api_key_enc : Option Text

pub record User : Type 0 where
  pub id : ℕ
  pub tenant_id : Option ℕ
  pub email : Text
  pub password_hash : Text
  pub full_name : Text
  pub role : UserRole
  pub status : UserStatus
  pub failed_login_count : ℕ
  pub locked_until : Option ℕ
  pub last_login_at : Option ℕ
  pub token_version : ℕ

pub record MemberFieldDefinition : Type 0 where
  pub id : ℕ
  pub tenant_id : ℕ
  pub key : Text
  pub label : Text
  pub type : FieldType
  pub required : Bool
  pub options : List Text
  pub group : Option Text
  pub sort_order : ℕ
  pub help_text : Option Text
  pub max_length : Option ℕ
  pub min : Option (Bool × ℕ)
  pub max : Option (Bool × ℕ)
  pub archived_at : Option ℕ

-- The attributes are a JSON object that the services copy and do not read.
pub record Member (A : Type 0) : Type 0 where
  pub id : ℕ
  pub tenant_id : ℕ
  pub code : Text
  pub full_name : Text
  pub email : Option Text
  pub phone : Option Text
  pub status : MemberStatus
  pub attributes : A
  pub consent_at : Option ℕ
  pub consent_version : Option Text
  pub consent_recorded_by : Option ℕ
  pub consent_withdrawn_at : Option ℕ
  pub consent_withdrawn_reason : Option Text
  pub face_enrolled_at : Option ℕ
  pub archived_at : Option ℕ

pub record FaceTemplate : Type 0 where
  pub id : ℕ
  pub tenant_id : ℕ
  pub member_id : ℕ
  pub compreface_image_id : Option Text
  pub compreface_subject : Option Text
  pub image_ref : Option Text
  pub spoof_score : Option ℕ
  pub enrolled_by : Option ℕ

pub record TenantSettings : Type 0 where
  pub reject_spoof_above : Option ℕ
  pub store_embedding_only : Bool
