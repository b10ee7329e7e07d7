-- ===== src/Slug/Shape.antt =====
-- The shape of a derived slug, and what each pass of `slugify` does to it.
use face_cam.Prelude.{
  ℕ, zero, suc, ◌≡◌, refl, ◌⊎◌, inl, Bool, true, false, ◌&&◌, ◌||◌, not, [], ◌∷◌, ◌==◌, take, Text,
  arith,
}
use face_cam.Slug.{
  hyphen, is_alnum, hyphenate, trim_start, trim_end, squeeze, slug_rest, slug_pattern,
}

-- Letters and digits in groups joined by single hyphens: `[a-z0-9]+(-[a-z0-9]+)*`. The flag says
-- that a group must begin here.
unfoldable pub clean : Bool → Text → Bool
clean start [] = not start
clean start (c ∷ s) =
    let rest = clean (not (is_alnum c)) s in (is_alnum c || (c == hyphen && not start)) && rest

-- The same, but for a hyphen that may stand at the end.
unfoldable pub joined : Bool → Text → Bool
joined start [] = true
joined start (c ∷ s) =
    let rest = joined (not (is_alnum c)) s in (is_alnum c || (c == hyphen && not start)) && rest

pub hyphenate-joined : (b : Bool) (s : Text) → joined b (hyphenate b s) ≡ true
unfolding joined hyphenate
hyphenate-joined b [] = refl
hyphenate-joined b (c ∷ s) = ground (arith, hyphenate-joined (not (is_alnum c)) s)

pub trim_start-joined : (s : Text) → joined true s ≡ true → trim_start s ≡ s
unfolding joined trim_start
trim_start-joined [] h = refl
trim_start-joined (c ∷ s) h = ground arith

pub joined-trim_start : (s : Text) → joined false s ≡ true → joined true (trim_start s) ≡ true
unfolding joined trim_start
joined-trim_start [] h = refl
joined-trim_start (c ∷ s) h = ground (arith, trim_start-joined s)

pub joined-take : (n : ℕ) (b : Bool) (s : Text) → joined b s ≡ true → joined b (take n s) ≡ true
unfolding joined
joined-take zero b s h = refl
joined-take (suc n) b [] h = refl
joined-take (suc n) b (c ∷ s) h = ground (arith, joined-take n (not (is_alnum c)) s)

pub squeeze-joined : (b : Bool) (s : Text) → joined b s ≡ true → squeeze b s ≡ s
unfolding joined squeeze
squeeze-joined b [] h = refl
squeeze-joined b (c ∷ s) h = ground (arith, squeeze-joined (c == hyphen) s)

-- Trimming leaves nothing, or a clean text.
pub trim_end-clean :
    (b : Bool) (s : Text) → joined b s ≡ true → (trim_end s ≡ []) ⊎ (clean b (trim_end s) ≡ true)
unfolding joined trim_end clean
trim_end-clean b [] h = inl refl
trim_end-clean b (c ∷ s) h = ground (arith, trim_end-clean (not (is_alnum c)) s)

pub joined-clean : (b : Bool) (s : Text) → clean b s ≡ true → joined b s ≡ true
unfolding joined clean
joined-clean b [] h = refl
joined-clean b (c ∷ s) h = ground (arith, joined-clean (not (is_alnum c)) s)

pub trim_end_of_clean : (b : Bool) (s : Text) → clean b s ≡ true → trim_end s ≡ s
unfolding clean trim_end
trim_end_of_clean b [] h = refl
trim_end_of_clean b (c ∷ []) h = ground arith
trim_end_of_clean b (c ∷ d ∷ s) h = ground (arith, trim_end_of_clean (not (is_alnum c)) (d ∷ s))

pub hyphenate_of_joined : (b : Bool) (s : Text) → joined b s ≡ true → hyphenate b s ≡ s
unfolding joined hyphenate
hyphenate_of_joined b [] h = refl
hyphenate_of_joined b (c ∷ s) h = ground (arith, hyphenate_of_joined (not (is_alnum c)) s)

-- A clean text matches SLUG_PATTERN.
slug_rest-clean : (b : Bool) (c : ℕ) (s : Text) → clean b (c ∷ s) ≡ true → slug_rest (c ∷ s) ≡ true
unfolding clean slug_rest
slug_rest-clean b c [] h = ground arith
slug_rest-clean b c (d ∷ s) h = ground (arith, slug_rest-clean (not (is_alnum c)) d s)

pub slug_pattern-clean : (s : Text) → clean true s ≡ true → slug_pattern s ≡ true
unfolding clean slug_pattern
slug_pattern-clean [] h = h
slug_pattern-clean (c ∷ []) h = ground arith
slug_pattern-clean (c ∷ d ∷ s) h = ground (arith, slug_rest-clean (not (is_alnum c)) d s)
