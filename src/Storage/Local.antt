-- ===== src/Storage/Local.antt =====
-- Files of the local driver and the links to them: apps/api/src/storage/local-disk.storage.ts and
-- apps/api/src/storage/files.controller.ts. HMAC, paths and files are parameters.
use face_cam.Prelude.{
  ℕ, ◌+◌, ◌*◌, ◌/◌, Bool, false, ◌&&◌, ◌||◌, not, Option, none, some, List, [], ◌∷◌, ◌++◌, length,
  Text, codes, text_eq, starts_with, ltb, ◌==◌, if◌then◌else◌, decimal, or_default,
}
use face_cam.Prelude.Errors.{
  Result, ok, err, invalid_signature, malformed_uri, object_not_found, outside_root, storage_error,
}

-- `hmac` gives the digest as bytes, `hex` and `from_hex` are Buffer's. A file operation that throws
-- gives none.
pub record Disk (X : Type 0) : Type 0 where
  pub root : Text
  pub encryption_key : Text
  pub signed_url_ttl : ℕ
  pub hmac : Text → Text → List ℕ
  pub hex : List ℕ → Text
  pub from_hex : Text → List ℕ
  -- `resolve(join(root, normalize(key)))`
  pub resolved : Text → Text → Text
  pub separator : Text
  pub read_file : Text → X → Option (List ℕ)
  pub write_file : Text → List ℕ → X → Option X
  pub is_there : Text → X → Bool
  pub remove : Text → X → Option X
  pub to_lower : Text → Text
  -- `encodeURIComponent`, and `decodeURIComponent`, which throws for a malformed escape.
  pub encode : Text → Text
  pub decode : Text → Option Text

module _ {X : Type 0} (disk : Disk X) where
  unfoldable pub resolve_key : Text → Result Text
  resolve_key key =
      let path = disk.resolved disk.root key in
      if not (text_eq path disk.root) && not (starts_with (disk.root ++ disk.separator) path)
      then err outside_root
      else ok path

  -- A throw in the `try` of `get`, that of `resolveKey` included, is answered with NOT_FOUND.
  unfoldable pub get : Text → X → Result (List ℕ)
  unfolding resolve_key
  get key x = elim (resolve_key key) [
    | err e ↦ err object_not_found
    | ok path ↦ elim (disk.read_file path x) [ none ↦ err object_not_found | some body ↦ ok body ]
  ]

  -- `put`, which throws what the file system throws.
  unfoldable pub put : Text → List ℕ → X → Result (Text × ℕ) × X
  unfolding resolve_key
  put key body x = elim (resolve_key key) [
    | err e ↦ (err e, x)
    | ok path ↦ elim (disk.write_file path body x) [
      | none ↦ (err storage_error, x)
      | some x' ↦ (ok (key, length body), x')
    ]
  ]

  unfoldable pub delete : Text → X → Result (Unit {0}) × X
  unfolding resolve_key
  delete key x = elim (resolve_key key) [
    | err e ↦ (err e, x)
    | ok path ↦ elim (disk.remove path x) [ none ↦ (err storage_error, x) | some x' ↦ (ok tt, x') ]
  ]

  -- The number is 1 for a removal that worked, whatever it removed; one that failed is only logged.
  unfoldable pub delete_prefix : Text → X → Result ℕ × X
  unfolding resolve_key
  delete_prefix prefix x = elim (resolve_key prefix) [
    | err e ↦ (err e, x)
    | ok path ↦ elim (disk.remove path x) [ none ↦ (ok 0, x) | some x' ↦ (ok 1, x') ]
  ]

  unfoldable pub exists : Text → X → Bool
  unfolding resolve_key
  exists key x = elim (resolve_key key) [ err e ↦ false | ok path ↦ disk.is_there path x ]

  unfoldable pub sign : Text → ℕ → Text
  unfolding decimal
  sign key expires = disk.hex (disk.hmac disk.encryption_key (key ++ codes ":" ++ decimal expires))

  -- The time is in milliseconds; an `expires` that is no finite number is none.
  unfoldable pub verify : ℕ → Text → Option ℕ → Text → Bool
  unfolding sign
  verify now key none signature = false
  verify now key (some expires) signature =
      if ltb (expires * 1000) now
      then false
      else text_eq (disk.from_hex (sign key expires)) (disk.from_hex signature)

  -- The parts of the link that `signedUrl` writes: the key, encoded, `expires` and `signature`.
  unfoldable pub signed_url : ℕ → Text → Option ℕ → Text × ℕ × Text
  unfolding sign
  signed_url now key ttl =
      let expires = now / 1000 + or_default ttl disk.signed_url_ttl in
      (disk.encode key, expires, sign key expires)

  -- What follows the last dot, in lower case: `key.split('.').pop()?.toLowerCase()`.
  unfoldable pub last_part : Text → Text → Text
  last_part part [] = part
  last_part part (c ∷ s) = if c == b'.' then last_part [] s else last_part (part ++ c ∷ []) s

  unfoldable pub content_type_for : Text → Text
  unfolding last_part
  content_type_for key =
      let extension = disk.to_lower (last_part [] key) in
      if text_eq extension (codes "jpg") || text_eq extension (codes "jpeg")
      then codes "image/jpeg"
      else if text_eq extension (codes "png")
      then codes "image/png"
      else if text_eq extension (codes "webp")
      then codes "image/webp"
      else if text_eq extension (codes "svg")
      then codes "image/svg+xml"
      else codes "application/octet-stream"

  -- `serve`, for the parameter that the router has decoded already: the type and the bytes of the
  -- file. A key that cannot be decoded again is answered with an internal error.
  unfoldable pub serve : ℕ → Text → Option ℕ → Option Text → X → Result (Text × List ℕ)
  unfolding verify get content_type_for
  serve now param expires signature x = elim (disk.decode param) [
    | none ↦ err malformed_uri
    | some key ↦
        if not (verify now key expires (or_default signature []))
        then err invalid_signature
        else (elim (get key x) [ err e ↦ err e | ok body ↦ ok (content_type_for key, body) ])
  ]

  -- A request for a link, whose key the router decodes before the handler does.
  unfoldable pub serve_link : ℕ → Text → Option ℕ → Option Text → X → Result (Text × List ℕ)
  unfolding serve
  serve_link now link_key expires signature x = elim (disk.decode link_key) [
    | none ↦ err malformed_uri
    | some param ↦ serve now param expires signature x
  ]
