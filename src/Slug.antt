-- ===== src/Slug.antt =====
-- Portal addresses: packages/shared/src/slug.ts and RESERVED_SLUGS of packages/shared/src/enums.ts.
pub mod Shape
pub mod Derived
pub mod Hosts
pub mod Ascii
mod Tests
use face_cam.Prelude.{
  ℕ, ◌+◌, ◌-◌, ◌<◌, ◌≡◌, Bool, true, false, ◌&&◌, ◌||◌, not, Option, none, some, List, [], ◌∷◌, map,
  ltb, leb, ◌==◌, if◌then◌else◌, length, take, is_empty, All, Text, codes, text_eq, includes,
  has_char, ends_with, is_some,
}

abbrev pub hyphen : ℕ
hyphen = b'-'

abbrev pub slug_min_length : ℕ
slug_min_length = 3

abbrev pub slug_max_length : ℕ
slug_max_length = 40

abbrev pub reserved_slugs : List Text
reserved_slugs =
    codes "www"
    ∷ codes "api"
    ∷ codes "admin"
    ∷ codes "app"
    ∷ codes "mail"
    ∷ codes "smtp"
    ∷ codes "static"
    ∷ codes "assets"
    ∷ codes "cdn"
    ∷ codes "superadmin"
    ∷ codes "super-admin"
    ∷ codes "support"
    ∷ codes "status"
    ∷ codes "docs"
    ∷ codes "help"
    ∷ codes "billing"
    ∷ codes "auth"
    ∷ codes "login"
    ∷ codes "dashboard"
    ∷ codes "kiosk"
    ∷ codes "test"
    ∷ codes "staging"
    ∷ codes "dev"
    ∷ []

-- `[a-z0-9]`
abbrev pub is_alnum : ℕ → Bool
is_alnum c = (leb b'a' c && leb c b'z') || (leb b'0' c && leb c b'9')

-- What the code asks of the Unicode tables of its runtime, with the laws it relies on.
abbrev pub IsAscii : Text → Type 0
IsAscii = All (λ c. c < 128)

abbrev pub ascii_lower : ℕ → ℕ
ascii_lower c = if leb b'A' c && leb c b'Z' then c + 32 else c

pub record Unicode : Type 0 where
  -- `s.normalize('NFKD')`
  pub nfkd : Text → Text
  -- `\p{Diacritic}`
  pub is_diacritic : ℕ → Bool
  -- `s.toLowerCase()`
  pub to_lower : Text → Text
  pub nfkd-ascii : (s : Text) → IsAscii s → nfkd s ≡ s
  pub is_diacritic-hyphen : is_diacritic hyphen ≡ false
  pub is_diacritic-alnum : (c : ℕ) → is_alnum c ≡ true → is_diacritic c ≡ false
  pub to_lower-ascii : (s : Text) → IsAscii s → to_lower s ≡ map ascii_lower s

-- `.replace(/\p{Diacritic}/gu, '')`
unfoldable pub strip_diacritics : (ℕ → Bool) → Text → Text
strip_diacritics is_diacritic [] = []
strip_diacritics is_diacritic (c ∷ s) =
    let rest = strip_diacritics is_diacritic s in if is_diacritic c then rest else c ∷ rest

-- `.replace(/[^a-z0-9]+/g, '-')`; the flag says that the last character read was replaced.
unfoldable pub hyphenate : Bool → Text → Text
hyphenate run [] = []
hyphenate run (c ∷ s) =
    let rest = hyphenate (not (is_alnum c)) s in
    if is_alnum c then c ∷ rest else if run then rest else hyphen ∷ rest

-- `.replace(/^-+/, '')` and `.replace(/-+$/, '')`
unfoldable pub trim_start : Text → Text
trim_start [] = []
trim_start (c ∷ s) = let rest = trim_start s in if c == hyphen then rest else c ∷ s

unfoldable pub trim_end : Text → Text
trim_end [] = []
trim_end (c ∷ s) = let rest = trim_end s in if (c == hyphen) && is_empty rest then [] else c ∷ rest

-- `.replace(/-{2,}/g, '-')`
unfoldable pub squeeze : Bool → Text → Text
squeeze run [] = []
squeeze run (c ∷ s) =
    let rest = squeeze (c == hyphen) s in if (c == hyphen) && run then rest else c ∷ rest

unfoldable pub slugify : Unicode → Text → Text
slugify u input =
    let folded = u.to_lower (strip_diacritics u.is_diacritic (u.nfkd input)) in
    trim_end (take slug_max_length (squeeze false (trim_end (trim_start (hyphenate false folded)))))

pub data SlugError : Type 0 where
  too_short too_long invalid_characters reserved : SlugError

-- `/^[a-z0-9](?:[a-z0-9-]*[a-z0-9])?$/`: the optional group, then the whole pattern.
unfoldable pub slug_rest : Text → Bool
slug_rest [] = false
slug_rest (c ∷ []) = is_alnum c
slug_rest (c ∷ d ∷ s) = (is_alnum c || c == hyphen) && slug_rest (d ∷ s)

unfoldable pub slug_pattern : Text → Bool
slug_pattern [] = false
slug_pattern (c ∷ s) = is_alnum c && (is_empty s || slug_rest s)

-- `RESERVED_SLUGS.includes(slug)`
unfoldable pub is_reserved : Text → Bool
is_reserved slug = includes reserved_slugs slug

unfoldable pub validate_slug : Text → Option SlugError
validate_slug slug =
    if ltb (length slug) slug_min_length
    then some too_short
    else if ltb slug_max_length (length slug)
    then some too_long
    else if not (slug_pattern slug)
    then some invalid_characters
    else if is_reserved slug
    then some reserved
    else none

-- `s.split(':')[0]`
unfoldable pub before_colon : Text → Text
before_colon [] = []
before_colon (c ∷ s) = let rest = before_colon s in if c == b':' then [] else c ∷ rest

-- The checks of `tenantSlugFromHost`, on the two names in lower case and without their ports.
unfoldable pub slug_of_names : Text → Text → Option Text
slug_of_names clean_host clean_root =
    let slug = take (length clean_host - (length clean_root + 1)) clean_host in
    if is_empty clean_host || is_empty clean_root
    then none
    else if text_eq clean_host clean_root
    then none
    else if not (ends_with (b'.' ∷ clean_root) clean_host)
    then none
    else if has_char b'.' slug
    then none
    else if is_some (validate_slug slug)
    then none
    else some slug

unfoldable pub tenant_slug_from_host : Unicode → Text → Text → Option Text
unfolding before_colon slug_of_names
tenant_slug_from_host u host root_domain =
    slug_of_names (before_colon (u.to_lower host)) (before_colon (u.to_lower root_domain))
