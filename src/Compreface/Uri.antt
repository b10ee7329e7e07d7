-- ===== src/Compreface/Uri.antt =====
-- `encodeURIComponent`, which the client of the face engine puts subjects into a path with: the text
-- in UTF-8, with all but the unreserved characters as `%XX`. Half of a surrogate pair throws.
use face_cam.Prelude.{
  ℕ, ◌+◌, ◌-◌, ◌*◌, ◌/◌, ◌%◌, Bool, true, false, ◌&&◌, ◌||◌, Option, none, some, [], ◌∷◌, ◌++◌,
  Text, codes, has_char, leb, ltb, if◌then◌else◌,
}
use mathlib.Core.Option

abbrev is_unreserved : ℕ → Bool
is_unreserved c =
    (leb b'A' c && leb c b'Z')
    || (leb b'a' c && leb c b'z')
    || (leb b'0' c && leb c b'9')
    || has_char c (codes "-_.!~*'()")

abbrev hex_digit : ℕ → ℕ
hex_digit n = if ltb n 10 then 48 + n else 55 + n

abbrev percent : ℕ → Text
percent byte = b'%' ∷ hex_digit (byte / 16) ∷ hex_digit (byte % 16) ∷ []

-- A code point in UTF-8, each byte as `%XX`.
abbrev encode_point : ℕ → Text
encode_point p =
    if ltb p 128
    then percent p
    else if ltb p 2048
    then percent (192 + p / 64) ++ percent (128 + p % 64)
    else if ltb p 65536
    then percent (224 + p / 4096) ++ percent (128 + (p / 64) % 64) ++ percent (128 + p % 64)
    else percent (240 + p / 262144)
      ++ percent (128 + (p / 4096) % 64)
      ++ percent (128 + (p / 64) % 64)
      ++ percent (128 + p % 64)

abbrev is_high : ℕ → Bool
is_high c = leb 55296 c && leb c 56319

abbrev is_low : ℕ → Bool
is_low c = leb 56320 c && leb c 57343

-- The first argument is a high surrogate that waits for its low one.
encode_from : Option ℕ → Text → Option Text
encode_from none [] = some []
encode_from (some high) [] = none
encode_from none (c ∷ s) = elim (is_high c) [
  | true ↦ encode_from (some c) s
  | false ↦
      let rest = encode_from none s in
      if is_low c
      then none
      else Option.map (λ t. (if is_unreserved c then c ∷ [] else encode_point c) ++ t) rest
]
encode_from (some high) (c ∷ s) =
    let rest = encode_from none s in
    if is_low c
    then Option.map (λ t. encode_point (65536 + (high - 55296) * 1024 + (c - 56320)) ++ t) rest
    else none

unfoldable pub encode_uri_component : Text → Option Text
unfolding encode_from
encode_uri_component s = encode_from none s
