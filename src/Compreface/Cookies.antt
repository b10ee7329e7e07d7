-- ===== src/Compreface/Cookies.antt =====
-- `extractCookie` of apps/api/src/face/compreface.client.ts: the value of one cookie in the headers
-- of an answer.
use face_cam.Prelude.{
  ℕ, ◌+◌, Bool, true, false, not, ◌||◌, ◌&&◌, Option, none, some, List, [], ◌∷◌, ◌++◌, length, drop,
  Text, codes, starts_with, is_empty, ◌==◌, if◌then◌else◌, or_default,
}
use face_cam.Csv.{is_space}

-- `[^;]+`, or none of it
abbrev pub until_semicolon : Text → Text
until_semicolon [] = []
until_semicolon (c ∷ s) = let rest = until_semicolon s in if c == b';' then [] else c ∷ rest

abbrev pub value_here : Text → Text → Option Text
value_here name s =
    let value = until_semicolon (drop (length name + 1) s) in
    if starts_with (name ++ codes "=") s && not (is_empty value) then some value else none

-- Where a name may begin: at the start of the header, and after a comma and white space.
pub data Place : Type 0 where
  at_start after_comma inside : Place

abbrev pub may_begin : Place → Bool
may_begin inside = false
may_begin _ = true

abbrev pub moved_past : ℕ → Place → Place
moved_past c after_comma = if c == b',' || is_space c then after_comma else inside
moved_past c _ = if c == b',' then after_comma else inside

-- `new RegExp('(?:^|,\\s*)' + name + '=([^;]+)').exec(entry)`
unfoldable pub search_cookie : Text → Place → Text → Option Text
search_cookie name place [] = none
search_cookie name place (c ∷ s) =
    let later = search_cookie name (moved_past c place) s in
    if may_begin place
    then elim (value_here name (c ∷ s)) [ some value ↦ some value | none ↦ later ]
    else later

unfoldable pub first_cookie : Text → List Text → Option Text
unfolding search_cookie
first_cookie name [] = none
first_cookie name (entry ∷ entries) =
    let later = first_cookie name entries in
    elim (search_cookie name at_start entry) [ some value ↦ some value | none ↦ later ]

-- `extractCookie`, of the cookies that `getSetCookie` lists and of the plain header.
unfoldable pub extract_cookie : Text → List Text → Option Text → Option Text
unfolding first_cookie
extract_cookie name raw header =
    first_cookie name (if is_empty raw then or_default header [] ∷ [] else raw)
