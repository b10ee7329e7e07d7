-- ===== src/Encryption/Recovery.antt =====
-- A stored key comes back as it was.
use face_cam.Prelude.{
  ℕ, ◌<◌, ◌≡◌, refl, ap, ◌∙◌, false, some, List, [], ◌∷◌, ◌++◌, length, Text, codes, has_char,
  is_empty, All, ◌==◌, arith,
}
use mathlib.Core.List.{append_assoc}
use face_cam.Prelude.Errors.{ok}
use face_cam.Context.{RequestStore, as_platform, require_tenant_id}
use face_cam.Rows.{Tenant}
use face_cam.Store.{Table}
use face_cam.Csv.{join}
use face_cam.Encryption.{
  Cipher, IsBytes, iv_bytes, split_colon, encrypt, decrypt_parts, decrypt, key_of_row,
  tenant_api_key,
}

split_colon-one : (a : Text) → has_char b':' a ≡ false → split_colon a ≡ a ∷ []
unfolding split_colon
split_colon-one [] h = refl
split_colon-one (c ∷ a) h =
    let (here, more) : ((c == b':') ≡ false) × (has_char b':' a ≡ false) = ground arith in
    rw (here, split_colon-one a more) refl

split_colon-append :
    (a s : Text) → has_char b':' a ≡ false → split_colon (a ++ (b':' ∷ s)) ≡ a ∷ split_colon s
unfolding split_colon
split_colon-append [] s h = refl
split_colon-append (c ∷ a) s h =
    let (here, more) : ((c == b':') ≡ false) × (has_char b':' a ≡ false) = ground arith in
    rw (here, split_colon-append a s more) refl

starts_filled : (a s : Text) → is_empty ((a ++ codes ":") ++ s) ≡ false
starts_filled [] s = refl
starts_filled (c ∷ a) s = refl

module _ (cipher : Cipher) where
  decrypt_of_parts :
      (payload iv tag sealed : Text)
      → split_colon payload ≡ iv ∷ tag ∷ sealed ∷ []
      → decrypt cipher payload
        ≡ decrypt_parts cipher
            (cipher.from_base64 iv)
            (cipher.from_base64 tag)
            (cipher.from_base64 sealed)
  unfolding decrypt
  decrypt_of_parts payload iv tag sealed e = rw (decrypt, e) refl

  decrypt_parts-seal :
      (iv : List ℕ) (plaintext : Text)
      → length iv ≡ iv_bytes
      → All (λ c. c < 128) plaintext
      → let (sealed, tag) = cipher.seal iv (cipher.utf8 plaintext) in
        decrypt_parts cipher iv tag sealed ≡ ok plaintext
  unfolding decrypt_parts
  decrypt_parts-seal iv plaintext size ascii =
      let bytes = cipher.utf8 plaintext in
      rw
        (
          decrypt_parts,
          size,
          cipher.seal_tag iv bytes,
          cipher.unseal-seal iv bytes size,
          cipher.from_utf8-utf8 plaintext ascii,
        )
        refl

  decrypt-encrypt :
      (iv : List ℕ) (plaintext : Text)
      → length iv ≡ iv_bytes
      → IsBytes iv
      → All (λ c. c < 128) plaintext
      → decrypt cipher (encrypt cipher iv plaintext) ≡ ok plaintext
  unfolding encrypt join
  decrypt-encrypt iv plaintext size bytes ascii =
      let (sealed, tag) = cipher.seal iv (cipher.utf8 plaintext) in
      let (sealed_bytes, tag_is_bytes) =
        cipher.seal-IsBytes iv (cipher.utf8 plaintext) (cipher.utf8-IsBytes plaintext) in
      let last = codes ":" ++ cipher.base64 sealed in
      let three : split_colon (encrypt cipher iv plaintext)
          ≡ cipher.base64 iv ∷ cipher.base64 tag ∷ cipher.base64 sealed ∷ [] =
        ap split_colon (
          append_assoc (cipher.base64 iv) (codes ":")
            ((cipher.base64 tag ++ codes ":") ++ cipher.base64 sealed))
        ∙ split_colon-append (cipher.base64 iv) _ (cipher.base64-colon iv)
        ∙ ap (λ parts. cipher.base64 iv ∷ parts)
            (ap split_colon (append_assoc (cipher.base64 tag) (codes ":") (cipher.base64 sealed))
              ∙ split_colon-append (cipher.base64 tag) (cipher.base64 sealed)
                  (cipher.base64-colon tag)
              ∙ ap (λ parts. cipher.base64 tag ∷ parts)
                  (split_colon-one (cipher.base64 sealed) (cipher.base64-colon sealed))) in
      decrypt_of_parts (encrypt cipher iv plaintext) (cipher.base64 iv) (cipher.base64 tag)
        (cipher.base64 sealed) three
      ∙ rw
          (
            cipher.from_base64-base64 iv bytes,
            cipher.from_base64-base64 tag tag_is_bytes,
            cipher.from_base64-base64 sealed sealed_bytes,
          )
          (decrypt_parts-seal iv plaintext size ascii)

  encrypt-filled : (iv : List ℕ) (plaintext : Text) → is_empty (encrypt cipher iv plaintext) ≡ false
  unfolding encrypt join
  encrypt-filled iv plaintext = starts_filled (cipher.base64 iv) _

  -- A key that was encrypted for an organization and stored in its row is what its requests get, in
  -- every request that names the organization, with any initialization vector of twelve bytes; the
  -- request's store and the tables stay as they are. The key is of ASCII characters, as an API key is.
  pub tenant_api_key-encrypt :
      (tenants : Table Tenant (λ t. t.id)) (st : tenants.State) (r : RequestStore) (tenant : Tenant)
      (t : ℕ) (iv : List ℕ) (key : Text)
      → r.tenant_id ≡ some t
      → tenants.find_unique st t ≡ some tenant
      → tenant.compreface_api_key_enc ≡ some (encrypt cipher iv key)
      → length iv ≡ iv_bytes
      → IsBytes iv
      → All (λ c. c < 128) key
      → tenant_api_key cipher tenants (some r, st) ≡ (ok (some key), (some r, st))
  unfolding tenant_api_key as_platform require_tenant_id key_of_row
  tenant_api_key-encrypt tenants st r tenant t iv key inside stored held size bytes ascii =
      rw
        (
          tenant_api_key,
          inside,
          stored,
          held,
          encrypt-filled iv key,
          decrypt-encrypt iv key size bytes ascii,
        )
        refl
