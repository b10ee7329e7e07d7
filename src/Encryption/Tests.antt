-- ===== src/Encryption/Tests.antt =====
-- A cipher that hides nothing, and a stored key that it gives back.
use face_cam.Prelude.{
  ℕ, ◌+◌, ◌-◌, ◌%◌, ◌<◌, ◌≡◌, refl, false, none, some, List, [], ◌∷◌, Text, codes, has_char, All,
  arith,
}
use face_cam.Prelude.Errors.{ok, err, malformed_ciphertext}
use face_cam.Enums.{trial, corporate}
use face_cam.Context.{RequestStore, opened}
use face_cam.Rows.{Tenant}
use face_cam.Store.{Table}
use face_cam.Store.Keyed.{keyed, holding}
use face_cam.Encryption.{Cipher, IsBytes, decrypt, encrypt, tenant_api_key}
use face_cam.Encryption.Recovery.{tenant_api_key-encrypt}

abbrev spread : List ℕ → Text
spread [] = []
spread (b ∷ bytes) = (b + 100) ∷ spread bytes

abbrev gathered : Text → List ℕ
gathered [] = []
gathered (c ∷ s) = (c - 100) ∷ gathered s

gathered-spread : (b : List ℕ) → gathered (spread b) ≡ b
gathered-spread [] = refl
gathered-spread (b ∷ bytes) =
    let same : (b + 100) - 100 ≡ b = omega arith in rw (same, gathered-spread bytes) refl

spread-colon : (b : List ℕ) → has_char b':' (spread b) ≡ false
spread-colon [] = refl
spread-colon (b ∷ bytes) = ground (arith, spread-colon bytes)

abbrev wrapped : Text → List ℕ
wrapped [] = []
wrapped (c ∷ s) = (c % 256) ∷ wrapped s

wrapped-ascii : (t : Text) → All (λ c. c < 128) t → wrapped t ≡ t
wrapped-ascii [] h = refl
wrapped-ascii (c ∷ t) h =
    let small = h.0 in
    let same : c % 256 ≡ c = grind (arith, small) in rw (same, wrapped-ascii t h.1) refl

wrapped-IsBytes : (t : Text) → IsBytes (wrapped t)
wrapped-IsBytes [] = tt
wrapped-IsBytes (c ∷ t) = (omega arith, wrapped-IsBytes t)

abbrev zeros : List ℕ
zeros = 0 ∷ 0 ∷ 0 ∷ 0 ∷ 0 ∷ 0 ∷ 0 ∷ 0 ∷ 0 ∷ 0 ∷ 0 ∷ 0 ∷ []

zeros-IsBytes : IsBytes zeros
zeros-IsBytes = ground arith

zero_tag-IsBytes : IsBytes (0 ∷ 0 ∷ 0 ∷ 0 ∷ zeros)
zero_tag-IsBytes = ground arith

abbrev open_cipher : Cipher
open_cipher = record {
  base64 = spread;
  from_base64 = gathered;
  utf8 = wrapped;
  from_utf8 = λ bytes. bytes;
  seal = λ iv p. (p, 0 ∷ 0 ∷ 0 ∷ 0 ∷ zeros);
  unseal = λ iv tag sealed. some sealed;
  from_base64-base64 = λ b bytes. gathered-spread b;
  base64-colon = spread-colon;
  from_utf8-utf8 = wrapped-ascii;
  utf8-IsBytes = wrapped-IsBytes;
  seal-IsBytes = λ iv p bytes. (bytes, zero_tag-IsBytes);
  seal_tag = λ iv p. refl;
  unseal-seal = λ iv p size. refl;
}

two_parts : decrypt open_cipher (codes "abc:def") ≡ err malformed_ciphertext
unfolding decrypt
two_parts = refl

abbrev tenants : Table Tenant (λ t. t.id)
tenants = keyed (λ t. t.id)

abbrev secured : Tenant
secured = record {
  id = 7;
  name = codes "Acme";
  slug = codes "acme";
  template = corporate;
  status = trial;
  timezone = codes "UTC";
  billing_email = none;
  plan = none;
  valid_until = none;
  suspended_at = none;
  suspended_reason = none;
  compreface_api_key_enc = some (encrypt open_cipher zeros (codes "k-1"));
}

abbrev asking : RequestStore
asking = record (opened (codes "c1")) { tenant_id = some 7 }

tenant_api_key-encrypt_example :
    tenant_api_key open_cipher tenants (some asking, holding (λ t. t.id) (secured ∷ []))
    ≡ (ok (some (codes "k-1")), (some asking, holding (λ t. t.id) (secured ∷ [])))
unfolding face_cam.Store.Keyed.at face_cam.Store.Keyed.added
tenant_api_key-encrypt_example =
    tenant_api_key-encrypt open_cipher tenants (holding (λ t. t.id) (secured ∷ [])) asking secured 7
      zeros (codes "k-1") refl refl refl refl zeros-IsBytes (ground arith)
