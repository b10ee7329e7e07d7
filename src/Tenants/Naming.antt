-- ===== src/Tenants/Naming.antt =====
-- The portal address that a new organization gets.
use face_cam.Prelude.{
  ℕ, zero, suc, ◌+◌, ◌/◌, ◌%◌, ◌≤◌, ◌<◌, ◌≡◌, ◌≢◌, ◌⊎◌, inl, inr, refl, ap, sym, ◌∙◌, Bool, true,
  false, ◌&&◌, not, none, some, List, [], ◌∷◌, ◌++◌, All, any_of, length, length-append, Text,
  text_eq, text_eq_iff, decimal, decimal_below, leb, ◌==◌, arith, Option-cases, Bool-cases,
}
use face_cam.Prelude.Errors.{Result, ok, err, slug_unavailable}
use face_cam.Slug.{
  Unicode, slugify, validate_slug, slug_pattern, is_reserved, reserved_slugs, too_long, hyphen,
  is_alnum, tenant_slug_from_host,
}
use face_cam.Slug.Shape.{clean, slug_pattern-clean}
use face_cam.Slug.Derived.{slugify-clean, slugify_of_clean}
use face_cam.Slug.Hosts.{length-validate_slug, tenant_slug_from_host_sound}
use face_cam.Tenants.{candidate, free_slug, max_attempts, resolve_slug}

free_slug_sound :
    (taken : Text → Bool) (base : Text) (left attempt : ℕ) (s : Text)
    → free_slug taken base left attempt ≡ ok s
    → (k : ℕ) × (s ≡ candidate base k) × (k < attempt + left) × (taken s ≡ false)
unfolding free_slug
free_slug_sound taken base zero attempt s e = cc
free_slug_sound taken base (suc left) attempt s e =
    elim (Bool-cases (taken (candidate base attempt))) [
      | inl used ↦
          let (k, named, below, free) =
            free_slug_sound taken base left (attempt + 1) s (ground arith) in
          (k, named, omega arith, free)
      | inr free ↦ (attempt, ground arith, omega arith, ground arith)
    ]

free_slug_fails :
    (taken : Text → Bool) (base : Text) (left attempt j : ℕ) (x : Result Text)
    → free_slug taken base left attempt ≡ err slug_unavailable
    → attempt ≤ j
    → j < attempt + left
    → taken (candidate base j) ≡ true
unfolding free_slug
free_slug_fails taken base zero attempt j x e low high = absurd (omega arith)
free_slug_fails taken base (suc left) attempt j x e low high =
    elim (Bool-cases (taken (candidate base attempt))) [
      | inl used ↦ elim (Bool-cases (j == attempt)) [
        | inl here ↦ ground arith
        | inr later ↦
            free_slug_fails taken base left (attempt + 1) j x (ground arith) (ground arith)
              (omega arith)
      ]
      | inr free ↦ absurd (ground arith)
    ]

-- A clean text, a hyphen and a clean text make a clean text.
clean-append :
    (b : Bool) (s t : Text)
    → clean b s ≡ true
    → clean true t ≡ true
    → clean b (s ++ hyphen ∷ t) ≡ true
unfolding clean
clean-append b [] t h k = ground arith
clean-append b (c ∷ s) t h k = ground (arith, clean-append (not (is_alnum c)) s t)

decimal-clean : (n : ℕ) → n < 100 → clean true (decimal n) ≡ true
unfolding clean
decimal-clean n h = elim (decimal_below n h) [
  | inl (small, e) ↦ rw e (ground arith)
  | inr e ↦ rw e (ground arith)
]

candidate-clean :
    (base : Text) (k : ℕ) → k < 50 → clean true base ≡ true → clean true (candidate base k) ≡ true
unfolding candidate
candidate-clean base zero h c = c
candidate-clean base (suc k) h c =
    clean-append true base (decimal (k + 2)) c (decimal-clean (k + 2) (omega arith))

length-candidate_le :
    (base : Text) (k : ℕ)
    → k < 50
    → (length base ≤ length (candidate base k)) × (length (candidate base k) ≤ length base + 3)
unfolding candidate
length-candidate_le base zero h = omega arith
length-candidate_le base (suc k) h = elim (decimal_below (k + 2) (omega arith)) [
  | inl (small, e) ↦ rw e (omega (arith, length-append base (hyphen ∷ (48 + (k + 2)) ∷ [])))
  | inr e ↦
      rw e (
        omega (arith, length-append base (hyphen ∷ (48 + (k + 2) / 10) ∷ (48 + (k + 2) % 10) ∷ [])))
]

-- No reserved slug ends in a digit, as every suffixed name does.
ends_in_digit : Text → Bool
ends_in_digit [] = false
ends_in_digit (c ∷ []) = leb b'0' c && leb c b'9'
ends_in_digit (c ∷ d ∷ s) = ends_in_digit (d ∷ s)

not_listed :
    (s : Text) (xs : List Text)
    → All (λ x. ends_in_digit x ≡ false) xs
    → ends_in_digit s ≡ true
    → any_of (λ x. text_eq x s) xs ≡ false
not_listed s [] h e = refl
not_listed s (x ∷ xs) (h, hs) e = ground (arith, text_eq_iff x s, not_listed s xs hs e)

reserved-digits : All (λ x. ends_in_digit x ≡ false) reserved_slugs
unfolding ends_in_digit
reserved-digits = ground arith

ends_in_digit-append :
    (s : Text) (c : ℕ) (t : Text) → ends_in_digit (s ++ c ∷ t) ≡ ends_in_digit (c ∷ t)
unfolding ends_in_digit
ends_in_digit-append [] c t = refl
ends_in_digit-append (d ∷ []) c t = refl
ends_in_digit-append (d ∷ e ∷ s) c t = ends_in_digit-append (e ∷ s) c t

suffix_digit : (n : ℕ) → n < 100 → ends_in_digit (hyphen ∷ decimal n) ≡ true
unfolding ends_in_digit
suffix_digit n h = elim (decimal_below n h) [
  | inl (small, e) ↦ rw e (ground arith)
  | inr e ↦ rw e (ground arith)
]

is_reserved-candidate :
    (base : Text) (k : ℕ) → k < 49 → is_reserved (candidate base (suc k)) ≡ false
unfolding candidate is_reserved
is_reserved-candidate base k h =
    not_listed (base ++ hyphen ∷ decimal (k + 2)) reserved_slugs reserved-digits
      (ends_in_digit-append base hyphen (decimal (k + 2)) ∙ suffix_digit (k + 2) (omega arith))

validate_slug_of :
    (s : Text)
    → 3 ≤ length s
    → length s ≤ 40
    → slug_pattern s ≡ true
    → is_reserved s ≡ false
    → validate_slug s ≡ none
unfolding validate_slug
validate_slug_of s low high shape free = ground arith

candidate_zero : (base : Text) → candidate base 0 ≡ base
unfolding candidate
candidate_zero base = refl

-- A base that is acceptable stays so under every suffix, if it leaves room for one.
validate_slug-candidate :
    (base : Text) (k : ℕ)
    → k < 50
    → clean true base ≡ true
    → validate_slug base ≡ none
    → length base ≤ 37
    → validate_slug (candidate base k) ≡ none
validate_slug-candidate base zero h c v room = rw (candidate_zero base) v
validate_slug-candidate base (suc k) h c v room =
    let (low, high) = length-candidate_le base (suc k) h in
    let (three, _) = length-validate_slug base v in
    validate_slug_of (candidate base (suc k)) (omega arith) (omega arith)
      (slug_pattern-clean _ (candidate-clean base (suc k) h c))
      (is_reserved-candidate base k (omega arith))

-- What the address of a new organization is.
pub record IsResolved (u : Unicode) (taken : Text → Bool) (wanted slug : Text) : Type 0 where
  pub attempt : ℕ
  pub early : attempt < max_attempts
  pub named : slug ≡ candidate (slugify u wanted) attempt
  pub free : taken slug ≡ false
  pub shape : slug_pattern slug ≡ true
  pub acceptable : (validate_slug slug ≡ none) ⊎ (38 ≤ length (slugify u wanted))

clean_of_valid :
    (u : Unicode) (wanted : Text)
    → validate_slug (slugify u wanted) ≡ none
    → clean true (slugify u wanted) ≡ true
clean_of_valid u wanted v = elim (slugify-clean u wanted).0 [
  | inl e ↦ absurd (omega (arith, (length-validate_slug _ v).0, ap length e))
  | inr c ↦ c
]

-- The address that `resolveSlug` settles on is free, is the derived slug or that slug with a
-- number from 2 to 50 behind a hyphen, has the shape of a slug, and is one that `validateSlug`
-- accepts, so that a host name can carry it, unless the derived slug alone has 38 characters or
-- more.
pub resolve_slug-IsResolved :
    (u : Unicode) (taken : Text → Bool) (wanted slug : Text)
    → resolve_slug u taken wanted ≡ ok slug
    → IsResolved u taken wanted slug
unfolding resolve_slug
resolve_slug-IsResolved u taken wanted slug e =
    elim (Option-cases (validate_slug (slugify u wanted))) [
      | inr (x, bad) ↦ absurd (ground arith)
      | inl v ↦
          let (k, named, below, free) =
            free_slug_sound taken (slugify u wanted) max_attempts 0 slug (ground arith) in
          let c = clean_of_valid u wanted v in
          let early : k < 50 = omega arith in
          record {
            attempt = k;
            early = early;
            named = named;
            free = free;
            shape = rw named (slug_pattern-clean _ (candidate-clean _ k early c));
            acceptable = elim (Bool-cases (leb (length (slugify u wanted)) 37)) [
              | inl room ↦ inl (rw named (validate_slug-candidate _ k early c v (ground arith)))
              | inr long ↦ inr (ground arith)
            ];
          }
    ]

-- It gives up only when the derived slug and all forty-nine numbered ones are taken.
pub resolve_slug_fails :
    (u : Unicode) (taken : Text → Bool) (wanted : Text) (attempt : ℕ)
    → resolve_slug u taken wanted ≡ err slug_unavailable
    → attempt < max_attempts
    → taken (candidate (slugify u wanted) attempt) ≡ true
unfolding resolve_slug
resolve_slug_fails u taken wanted attempt e h =
    elim (Option-cases (validate_slug (slugify u wanted))) [
      | inr (x, bad) ↦ absurd (ground arith)
      | inl v ↦
          free_slug_fails taken (slugify u wanted) max_attempts 0 attempt (err slug_unavailable)
            (ground arith) (omega arith) (omega arith)
    ]

first_suffix :
    (taken : Text → Bool) (base : Text) (left : ℕ)
    → taken base ≡ true
    → taken (candidate base 1) ≡ false
    → free_slug taken base (suc (suc left)) 0 ≡ ok (candidate base 1)
unfolding free_slug
first_suffix taken base left used free = rw (candidate_zero base, used, free)

length_first_suffix : (base : Text) → length (candidate base 1) ≡ length base + 2
unfolding candidate decimal
length_first_suffix base = omega (arith, length-append base (hyphen ∷ 50 ∷ []))

too_long_of : (s : Text) → 41 ≤ length s → validate_slug s ≡ some too_long
unfolding validate_slug
too_long_of s h = ground arith

differ : {A : Type 0} {a : A} → ¬ (none ≡ some a)
differ e = cc

-- A name whose slug has 39 or 40 characters and is taken gets a second address that is too long:
-- `resolveSlug` returns the slug with the suffix "-2", which `validateSlug` refuses, and no host
-- name leads to it.
pub resolve_slug_too_long :
    (u : Unicode) (taken : Text → Bool) (base host root : Text)
    → clean true base ≡ true
    → validate_slug base ≡ none
    → 39 ≤ length base
    → taken base ≡ true
    → taken (candidate base 1) ≡ false
    → (resolve_slug u taken base ≡ ok (candidate base 1))
      × (validate_slug (candidate base 1) ≡ some too_long)
      × (tenant_slug_from_host u host root ≢ some (candidate base 1))
unfolding resolve_slug
resolve_slug_too_long u taken base host root c v long used free =
    let fits = (length-validate_slug base v).1 in
    let refused = too_long_of (candidate base 1) (omega (arith, length_first_suffix base)) in
    (
      rw (slugify_of_clean u base c fits, v) (first_suffix taken base 48 used free),
      refused,
      λ e. differ (sym (tenant_slug_from_host_sound u host root (candidate base 1) e).2 ∙ refused),
    )
