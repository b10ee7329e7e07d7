-- ===== src/Slug/Hosts.antt =====
-- The slug that a Host header names.
use face_cam.Prelude.{
  ℕ, suc, ◌+◌, ◌-◌, ◌≤◌, ◌≡◌, ◌≢◌, refl, ap, ◌⊎◌, inl, inr, true, false, none, some, [], ◌∷◌, ◌++◌,
  map, length, length-append, take-append, take-append-drop, drop-append, drop, is_empty, Text,
  arith, Bool-cases, All, has_char, text_eq, text_eq_iff, text_eq_refl, ends_with,
}
use face_cam.Slug.{
  hyphen, is_alnum, slug_rest, slug_pattern, Unicode, validate_slug, IsAscii, ascii_lower,
  before_colon, slug_of_names, tenant_slug_from_host,
}

-- An acceptable slug has neither dots nor colons nor capitals, and is ASCII.
abbrev pub IsLabel : Text → Type 0
IsLabel = All (λ c. (is_alnum c ≡ true) ⊎ (c ≡ hyphen))

slug_rest-IsLabel : (s : Text) → slug_rest s ≡ true → IsLabel s
unfolding slug_rest
slug_rest-IsLabel [] h = tt
slug_rest-IsLabel (c ∷ []) h = (inl h, tt)
slug_rest-IsLabel (c ∷ d ∷ s) h = ground (arith, slug_rest-IsLabel (d ∷ s))

slug_pattern-IsLabel : (s : Text) → slug_pattern s ≡ true → IsLabel s
unfolding slug_pattern
slug_pattern-IsLabel [] h = tt
slug_pattern-IsLabel (c ∷ []) h = ground arith
slug_pattern-IsLabel (c ∷ d ∷ s) h = ground (arith, slug_rest-IsLabel (d ∷ s))

pub validate_slug-IsLabel : (s : Text) → validate_slug s ≡ none → IsLabel s
unfolding validate_slug
validate_slug-IsLabel s h = slug_pattern-IsLabel s (ground arith)

pub length-validate_slug : (s : Text) → validate_slug s ≡ none → (3 ≤ length s) × (length s ≤ 40)
unfolding validate_slug
length-validate_slug s h = ground arith

has_no_dot : (s : Text) → IsLabel s → has_char b'.' s ≡ false
has_no_dot [] h = refl
has_no_dot (c ∷ s) h = ground (arith, has_no_dot s h.1)

IsLabel-IsAscii : (s : Text) → IsLabel s → IsAscii s
IsLabel-IsAscii [] h = tt
IsLabel-IsAscii (c ∷ s) h = ground (arith, IsLabel-IsAscii s h.1)

lower_label : (s : Text) → IsLabel s → map ascii_lower s ≡ s
lower_label [] h = refl
lower_label (c ∷ s) h = ground (arith, lower_label s h.1)

map-append_lower : (s t : Text) → map ascii_lower (s ++ t) ≡ map ascii_lower s ++ map ascii_lower t
map-append_lower [] t = refl
map-append_lower (c ∷ s) t = ap (λ r. ascii_lower c ∷ r) (map-append_lower s t)

-- A host name without a port: no colon.
abbrev pub HasNoColon : Text → Type 0
HasNoColon = All (λ c. c ≢ b':')

-- A port, or none.
abbrev pub IsPort : Text → Type 0
IsPort [] = Unit
IsPort (c ∷ s) = c ≡ b':'

before_colon-append : (s p : Text) → HasNoColon s → IsPort p → before_colon (s ++ p) ≡ s
unfolding before_colon
before_colon-append [] [] h k = refl
before_colon-append [] (c ∷ p) h k = ground arith
before_colon-append (c ∷ s) p h k = ground (arith, before_colon-append s p h.1 k)

lower-HasNoColon : (s : Text) → HasNoColon s → HasNoColon (map ascii_lower s)
lower-HasNoColon [] h = tt
lower-HasNoColon (c ∷ s) h = (ground arith, lower-HasNoColon s h.1)

lower-IsPort : (p : Text) → IsPort p → IsPort (map ascii_lower p)
lower-IsPort [] h = tt
lower-IsPort (c ∷ p) h = ground arith

label-HasNoColon : (s : Text) → IsLabel s → HasNoColon s
label-HasNoColon [] h = tt
label-HasNoColon (c ∷ s) h = (ground arith, label-HasNoColon s h.1)

-- The host part of a header, lower case, without its port.
host_name :
    (u : Unicode) (name port : Text)
    → IsAscii (name ++ port)
    → HasNoColon name
    → IsPort port
    → before_colon (u.to_lower (name ++ port)) ≡ map ascii_lower name
host_name u name port a h k =
    rw (u.to_lower-ascii _ a, map-append_lower name port)
      (before_colon-append _ _ (lower-HasNoColon name h) (lower-IsPort port k))

longer-ne : (s : Text) (c : ℕ) (d : Text) → text_eq (s ++ c ∷ d) d ≡ false
longer-ne s c d = elim (Bool-cases (text_eq (s ++ c ∷ d) d)) [
  | inl e ↦
      let lengths = ap length ((text_eq_iff (s ++ c ∷ d) d).0 e) in
      absurd (omega (arith, length-append s (c ∷ d)))
  | inr e ↦ e
]

ends_with-append : (s t : Text) → ends_with t (s ++ t) ≡ true
ends_with-append s t =
    let at : length (s ++ t) - length t ≡ length s = omega (arith, length-append s t) in
    rw (at, drop-append s t, text_eq_refl t) (ground (arith, length-append s t))

is_empty-append : (s : Text) (c : ℕ) (t : Text) → is_empty (s ++ c ∷ t) ≡ false
is_empty-append [] c t = refl
is_empty-append (d ∷ s) c t = refl

slug_of_names-append :
    (slug root : Text)
    → validate_slug slug ≡ none
    → root ≢ []
    → slug_of_names (slug ++ b'.' ∷ root) root ≡ some slug
unfolding slug_of_names
slug_of_names-append slug root v r =
    let at : length (slug ++ b'.' ∷ root) - (length root + 1) ≡ length slug =
      omega (arith, length-append slug (b'.' ∷ root)) in
    rw
      (
        at,
        take-append slug (b'.' ∷ root),
        longer-ne slug b'.' root,
        ends_with-append slug (b'.' ∷ root),
        has_no_dot slug (validate_slug-IsLabel slug v),
        v,
        is_empty-append slug b'.' root,
      )
      (ground arith)

map-ne_nil : (d : Text) → d ≢ [] → map ascii_lower d ≢ []
map-ne_nil [] h = λ e. h refl
map-ne_nil (c ∷ d) h = cc

-- A portal's host name leads to its slug: `<slug>.<root domain>` in any case of its letters, which
-- need not be that of the configured root domain, with or without a port on either.
pub tenant_slug_from_host-append :
    (u : Unicode) (slug name domain port root_port : Text)
    → validate_slug slug ≡ none
    → map ascii_lower name ≡ slug ++ b'.' ∷ map ascii_lower domain
    → domain ≢ []
    → IsAscii (name ++ port)
    → IsAscii (domain ++ root_port)
    → HasNoColon name
    → HasNoColon domain
    → IsPort port
    → IsPort root_port
    → tenant_slug_from_host u (name ++ port) (domain ++ root_port) ≡ some slug
unfolding tenant_slug_from_host
tenant_slug_from_host-append u slug name domain port root_port v same ne a ar h hr k kr =
    rw (host_name u name port a h k, host_name u domain root_port ar hr kr, same)
      (slug_of_names-append slug (map ascii_lower domain) v (map-ne_nil domain ne))

slug_of_names_sound :
    (host root slug : Text)
    → slug_of_names host root ≡ some slug
    → (host ≡ slug ++ b'.' ∷ root) × (root ≢ []) × (validate_slug slug ≡ none)
unfolding slug_of_names
slug_of_names_sound host root slug e =
    let n = length host - (length root + 1) in
    ground (
      arith,
      take-append-drop n host,
      text_eq_iff (drop (length host - suc (length root)) host) (b'.' ∷ root),
    )

-- Only such hosts do: the slug is acceptable, and the host without its port is the slug, a dot and
-- the root domain.
pub tenant_slug_from_host_sound :
    (u : Unicode) (host root_domain slug : Text)
    → tenant_slug_from_host u host root_domain ≡ some slug
    → (before_colon (u.to_lower host) ≡ slug ++ b'.' ∷ before_colon (u.to_lower root_domain))
      × (before_colon (u.to_lower root_domain) ≢ [])
      × (validate_slug slug ≡ none)
unfolding tenant_slug_from_host
tenant_slug_from_host_sound u host root_domain slug e = slug_of_names_sound _ _ slug e
