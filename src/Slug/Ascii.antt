-- ===== src/Slug/Ascii.antt =====
-- Unicode tables that know ASCII only, for runs of the definitions on texts in ASCII.
use face_cam.Prelude.{ℕ, ◌≡◌, refl, Bool, true, false, ◌||◌, map, ◌==◌, arith}
use face_cam.Slug.{Unicode, ascii_lower, is_alnum}

abbrev pub is_accent : ℕ → Bool
is_accent c = (c == b'^') || (c == b'`')

pub is_accent-alnum : (c : ℕ) → is_alnum c ≡ true → is_accent c ≡ false
is_accent-alnum c h = ground arith

-- The runtime's tables, restricted to ASCII.
abbrev pub ascii : Unicode
ascii = record {
  nfkd = λ s. s;
  is_diacritic = is_accent;
  to_lower = map ascii_lower;
  nfkd-ascii = λ s h. refl;
  is_diacritic-hyphen = refl;
  is_diacritic-alnum = is_accent-alnum;
  to_lower-ascii = λ s h. refl;
}
