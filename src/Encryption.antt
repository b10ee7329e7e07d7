-- ===== src/Encryption.antt =====
-- The encryption of stored secrets: apps/api/src/common/crypto/encryption.service.ts, and its use for
-- an organization's key of the face engine, tenantApiKey of apps/api/src/face/face-sealed.service.ts.
-- AES-256-GCM and the codings of Node's Buffer are parameters.
pub mod Recovery
mod Tests
use face_cam.Prelude.{
  ℕ, ◌<◌, ◌≡◌, Bool, true, false, ◌||◌, not, Option, none, some, List, [], ◌∷◌, ◌++◌, length, Text,
  codes, has_char, is_empty, All, ◌==◌, if◌then◌else◌,
}
use face_cam.Prelude.Errors.{Result, ok, err, ◌>>=◌, gets, malformed_ciphertext, forged_ciphertext}
use face_cam.Context.{RequestStore, Call, as_platform, require_tenant_id}
use face_cam.Rows.{Tenant}
use face_cam.Store.{Table}
use face_cam.Csv.{join}

abbrev pub IsBytes : List ℕ → Type 0
IsBytes = All (λ b. b < 256)

abbrev pub iv_bytes : ℕ
iv_bytes = 12

abbrev pub tag_bytes : ℕ
tag_bytes = 16

-- The cipher under the server's key, with what is documented of it.
pub record Cipher : Type 0 where
  pub base64 : List ℕ → Text
  pub from_base64 : Text → List ℕ
  pub utf8 : Text → List ℕ
  pub from_utf8 : List ℕ → Text
  -- The ciphertext and its tag, for an initialization vector.
  pub seal : List ℕ → List ℕ → List ℕ × List ℕ
  pub unseal : List ℕ → List ℕ → List ℕ → Option (List ℕ)
  pub from_base64-base64 : (b : List ℕ) → IsBytes b → from_base64 (base64 b) ≡ b
  pub base64-colon : (b : List ℕ) → has_char b':' (base64 b) ≡ false
  pub from_utf8-utf8 : (t : Text) → All (λ c. c < 128) t → from_utf8 (utf8 t) ≡ t
  pub utf8-IsBytes : (t : Text) → IsBytes (utf8 t)
  pub seal-IsBytes : (iv p : List ℕ) → IsBytes p → IsBytes (seal iv p).0 × IsBytes (seal iv p).1
  pub seal_tag : (iv p : List ℕ) → length (seal iv p).1 ≡ tag_bytes
  pub unseal-seal :
      (iv p : List ℕ) → length iv ≡ iv_bytes → unseal iv (seal iv p).1 (seal iv p).0 ≡ some p

-- `s.split(':')`
unfoldable pub split_colon : Text → List Text
split_colon [] = [] ∷ []
split_colon (c ∷ s) =
    let rest = split_colon s in
    if c == b':'
    then [] ∷ rest
    else elim rest [ [] ↦ (c ∷ []) ∷ [] | ◌∷◌ part parts ↦ (c ∷ part) ∷ parts ]

module _ (cipher : Cipher) where
  -- With the random initialization vector.
  unfoldable pub encrypt : List ℕ → Text → Text
  unfolding join
  encrypt iv plaintext =
      let (sealed, tag) = cipher.seal iv (cipher.utf8 plaintext) in
      join (codes ":") (cipher.base64 iv ∷ cipher.base64 tag ∷ cipher.base64 sealed ∷ [])

  unfoldable pub decrypt_parts : List ℕ → List ℕ → List ℕ → Result Text
  decrypt_parts iv tag sealed =
      if not (length iv == iv_bytes) || not (length tag == tag_bytes)
      then err malformed_ciphertext
      else elim (cipher.unseal iv tag sealed) [
        | none ↦ err forged_ciphertext
        | some plaintext ↦ ok (cipher.from_utf8 plaintext)
      ]

  unfoldable pub decrypt : Text → Result Text
  unfolding split_colon decrypt_parts
  decrypt payload = elim (split_colon payload) [
    | ◌∷◌ iv (◌∷◌ tag (◌∷◌ sealed [])) ↦
        decrypt_parts (cipher.from_base64 iv) (cipher.from_base64 tag) (cipher.from_base64 sealed)
    | _ ↦ err malformed_ciphertext
  ]

  -- The key of a row, decrypted; an empty one counts as none.
  unfoldable pub key_of_row : Option Text → Result (Option Text)
  unfolding decrypt
  key_of_row none = ok none
  key_of_row (some enc) =
      if is_empty enc
      then ok none
      else elim (decrypt enc) [ err e ↦ err e | ok key ↦ ok (some key) ]

  abbrev pub stored_key : Option Tenant → Option Text
  stored_key none = none
  stored_key (some tenant) = tenant.compreface_api_key_enc

  unfoldable pub tenant_api_key :
      (tenants : Table Tenant (λ t. t.id)) → Call tenants.State (Option Text)
  unfolding require_tenant_id as_platform key_of_row
  tenant_api_key tenants = do
    t ← require_tenant_id
    tenant ← as_platform (gets (λ st. tenants.find_unique st.1 t))
    λ st. (key_of_row (stored_key tenant), st)
