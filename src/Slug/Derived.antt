-- ===== src/Slug/Derived.antt =====
-- What `slugify` derives, and what the suffix loop of `resolveSlug` makes of it
-- (apps/api/src/tenants/tenants.service.ts).
use face_cam.Prelude.{
  ◌≤◌, ◌≡◌, ◌≢◌, refl, ◌⊎◌, inl, inr, Bool, true, false, not, some, [], ◌∷◌, map, length,
  length-take_le, take-all, take, Text, arith,
}
use face_cam.Slug.{
  is_alnum, hyphenate, trim_start, trim_end, squeeze, slugify, Unicode, validate_slug,
  slug_max_length, too_long, invalid_characters, IsAscii, ascii_lower, strip_diacritics,
}
use face_cam.Slug.Shape.{
  clean, joined, hyphenate-joined, trim_start-joined, joined-trim_start, joined-take,
  squeeze-joined, trim_end-clean, joined-clean, trim_end_of_clean, hyphenate_of_joined,
  slug_pattern-clean,
}

-- The passes after the folding, on any text.
abbrev passes : Text → Text
passes s =
    trim_end (take slug_max_length (squeeze false (trim_end (trim_start (hyphenate false s)))))

joined-weaken : (s : Text) → joined true s ≡ true → joined false s ≡ true
unfolding joined
joined-weaken [] h = refl
joined-weaken (c ∷ s) h = ground arith

trim_end-joined : (b : Bool) (s : Text) → joined b s ≡ true → joined b (trim_end s) ≡ true
unfolding joined
trim_end-joined b s h = elim (trim_end-clean b s h) [
  | inl e ↦ rw e
  | inr e ↦ joined-clean b (trim_end s) e
]

trimmed-joined : (s : Text) → joined true (trim_end (trim_start (hyphenate false s))) ≡ true
trimmed-joined s = trim_end-joined true _ (joined-trim_start _ (hyphenate-joined false s))

length-trim_end : (s : Text) → length (trim_end s) ≤ length s
unfolding trim_end
length-trim_end [] = omega arith
length-trim_end (c ∷ s) = ground (arith, length-trim_end s)

passes-clean : (s : Text) → (passes s ≡ []) ⊎ (clean true (passes s) ≡ true)
passes-clean s =
    let h = trimmed-joined s in
    rw (squeeze-joined false _ (joined-weaken _ h))
      (trim_end-clean true _ (joined-take slug_max_length true _ h))

length-passes : (s : Text) → length (passes s) ≤ slug_max_length
length-passes s =
    let before = squeeze false (trim_end (trim_start (hyphenate false s))) in
    omega
      (arith, length-trim_end (take slug_max_length before), length-take_le slug_max_length before)

-- Whatever the organization's name, the derived slug is empty or of the form
-- `[a-z0-9]+(-[a-z0-9]+)*`, and it has at most 40 characters.
pub slugify-clean :
    (u : Unicode) (input : Text)
    → ((slugify u input ≡ []) ⊎ (clean true (slugify u input) ≡ true))
      × (length (slugify u input) ≤ slug_max_length)
unfolding slugify
slugify-clean u input = (passes-clean _, length-passes _)

-- So only its length or the reserved list can make `validateSlug` refuse it.
pub validate_slug-slugify :
    (u : Unicode) (input : Text)
    → (validate_slug (slugify u input) ≢ some too_long)
      × (validate_slug (slugify u input) ≢ some invalid_characters)
unfolding validate_slug
validate_slug-slugify u input = elim (slugify-clean u input).0 [
  | inl e ↦ rw e (ground arith)
  | inr e ↦ (
    ground (arith, (slugify-clean u input).1),
    ground (arith, slug_pattern-clean (slugify u input) e),
  )
]

clean-IsAscii : (b : Bool) (s : Text) → clean b s ≡ true → IsAscii s
unfolding clean
clean-IsAscii b [] h = tt
clean-IsAscii b (c ∷ s) h = ground (arith, clean-IsAscii (not (is_alnum c)) s)

lower_of_clean : (b : Bool) (s : Text) → clean b s ≡ true → map ascii_lower s ≡ s
unfolding clean
lower_of_clean b [] h = refl
lower_of_clean b (c ∷ s) h = ground (arith, lower_of_clean (not (is_alnum c)) s)

strip_of_clean :
    (u : Unicode) (b : Bool) (s : Text) → clean b s ≡ true → strip_diacritics u.is_diacritic s ≡ s
unfolding clean strip_diacritics
strip_of_clean u b [] h = refl
strip_of_clean u b (c ∷ s) h =
    ground
      (arith, strip_of_clean u (not (is_alnum c)) s, u.is_diacritic-hyphen, u.is_diacritic-alnum c)

passes_of_clean : (s : Text) → clean true s ≡ true → length s ≤ slug_max_length → passes s ≡ s
passes_of_clean s h k =
    let j = joined-clean true s h in
    rw
      (
        hyphenate_of_joined false s (joined-weaken s j),
        trim_start-joined s j,
        trim_end_of_clean true s h,
        squeeze-joined false s (joined-weaken s j),
        take-all slug_max_length s k,
      )
      (trim_end_of_clean true s h)

-- A slug of that form that fits is derived unchanged.
pub slugify_of_clean :
    (u : Unicode) (s : Text) → clean true s ≡ true → length s ≤ slug_max_length → slugify u s ≡ s
unfolding slugify
slugify_of_clean u s h k =
    let ascii = clean-IsAscii true s h in
    rw
      (
        u.nfkd-ascii s ascii,
        strip_of_clean u true s h,
        u.to_lower-ascii s ascii,
        lower_of_clean true s h,
      )
      (passes_of_clean s h k)
