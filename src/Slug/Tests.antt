-- ===== src/Slug/Tests.antt =====
-- Runs of the portal addresses.
use face_cam.Prelude.{◌≡◌, refl, some, ◌++◌, codes, arith}
use face_cam.Slug.{
  Unicode, ascii_lower, is_alnum, hyphen, slug_max_length, slugify, validate_slug,
  tenant_slug_from_host, before_colon, slug_of_names, hyphenate, trim_start, trim_end, squeeze,
}
use face_cam.Slug.Ascii.{ascii}
use face_cam.Slug.Hosts.{tenant_slug_from_host-append}

slugify_runs : slugify ascii (codes " Acme & Sons^ Ltd. ") ≡ codes "acme-sons-ltd"
unfolding slugify hyphenate trim_start trim_end squeeze face_cam.Slug.strip_diacritics
slugify_runs = refl

host-append_example :
    tenant_slug_from_host ascii
      (codes "Acme.FACE.cam" ++ codes ":3000")
      (codes "Face.Cam" ++ codes ":80")
    ≡ some (codes "acme")
unfolding validate_slug face_cam.Slug.slug_pattern face_cam.Slug.slug_rest face_cam.Slug.is_reserved
host-append_example =
    tenant_slug_from_host-append ascii (codes "acme") (codes "Acme.FACE.cam") (codes "Face.Cam")
      (codes ":3000") (codes ":80") refl refl (ground arith) (ground arith) (ground arith)
      (ground arith) (ground arith) refl refl
