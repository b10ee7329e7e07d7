-- ===== src/Prelude/Words.antt =====
-- Texts are lists of UTF-16 code units, as a JavaScript string is.
use Prim.Native.Nat.{ℕ, zero, suc, ◌+◌, ◌-◌, ◌/◌, ◌%◌, ◌<◌}
use Prim.Native.Char.{code}
use Prim.Native.String.{String}
use mathlib.Core.Path.{◌≡◌, refl, ap}
use mathlib.Core.Logic.{◌↔◌, ◌⊎◌}
use mathlib.Core.Bool.{Bool, true, false, ◌&&◌, ◌||◌}
use mathlib.Core.List.{List, [], ◌∷◌, ◌++◌}
use native.Mathlib.Omega.{arith}
use face_cam.Prelude.Tests.{ltb, leb, ◌==◌, ==_refl, ==_iff, if◌then◌else◌}
use face_cam.Prelude.Lists.{length, drop, any_of}

abbrev pub Text : Type 0
Text = List ℕ

-- A literal of the source; each one is ASCII.
abbrev pub codes : String → Text
codes String.[] = []
codes (String.◌∷◌ c s) = code c ∷ codes s

-- `s === t`
abbrev pub text_eq : Text → Text → Bool
text_eq [] [] = true
text_eq [] (d ∷ t) = false
text_eq (c ∷ s) [] = false
text_eq (c ∷ s) (d ∷ t) = c == d && text_eq s t

pub text_eq_iff : (s t : Text) → (text_eq s t ≡ true) ↔ (s ≡ t)
text_eq_iff [] [] = ground arith
text_eq_iff [] (d ∷ t) = ground arith
text_eq_iff (c ∷ s) [] = ground arith
text_eq_iff (c ∷ s) (d ∷ t) = ground (arith, text_eq_iff s t)

pub text_eq_refl : (s : Text) → text_eq s s ≡ true
text_eq_refl s = (text_eq_iff s s).1 refl

-- `list.includes(s)`
abbrev pub includes : List Text → Text → Bool
includes xs s = any_of (λ x. text_eq x s) xs

-- `s.includes(c)` for a single character
abbrev pub has_char : ℕ → Text → Bool
has_char c [] = false
has_char c (d ∷ s) = d == c || has_char c s

-- `s.endsWith(suffix)`
abbrev pub ends_with : Text → Text → Bool
ends_with suffix s =
    leb (length suffix) (length s) && text_eq (drop (length s - length suffix) s) suffix

-- `s.startsWith(prefix)`
abbrev pub starts_with : Text → Text → Bool
starts_with [] s = true
starts_with (c ∷ p) [] = false
starts_with (c ∷ p) (d ∷ s) = c == d && starts_with p s

pub starts_with-append : (p s : Text) → starts_with p (p ++ s) ≡ true
starts_with-append [] s = refl
starts_with-append (c ∷ p) s = rw (==_refl c) (starts_with-append p s)

-- Two names without a slash, each followed by one, begin alike only if they are equal.
pub segments_apart :
    (t u path : Text)
    → has_char b'/' t ≡ false
    → has_char b'/' u ≡ false
    → starts_with (t ++ codes "/") ((u ++ codes "/") ++ path) ≡ true
    → t ≡ u
segments_apart [] [] path ht hu begins = refl
segments_apart [] (d ∷ u) path ht hu begins = absurd (ground arith)
segments_apart (c ∷ t) [] path ht hu begins = absurd (ground arith)
segments_apart (c ∷ t) (d ∷ u) path ht hu begins =
    let (same, more) : (c ≡ d) × (starts_with (t ++ codes "/") ((u ++ codes "/") ++ path) ≡ true) =
      ground (arith, ==_iff c d) in
    rw (same, segments_apart t u path (ground arith) (ground arith) more) refl

-- The decimal digits of a number, least fuel `n`: `String(n)`.
digits_from : ℕ → ℕ → Text
digits_from zero n = (48 + n % 10) ∷ []
digits_from (suc f) n =
    let more = digits_from f (n / 10) in
    if ltb n 10 then (48 + n) ∷ [] else more ++ (48 + n % 10) ∷ []

unfoldable pub decimal : ℕ → Text
unfolding digits_from
decimal n = digits_from n n

digits_from_below : (f n : ℕ) → n < 10 → digits_from f n ≡ (48 + n) ∷ []
unfolding digits_from
digits_from_below zero n h = ap (λ k. (48 + k) ∷ []) (omega arith)
digits_from_below (suc f) n h = ground arith

-- `String(n)` for a number below one hundred.
pub decimal_below :
    (n : ℕ)
    → n < 100
    → ((n < 10) × (decimal n ≡ (48 + n) ∷ [])) ⊎ (decimal n ≡ (48 + n / 10) ∷ (48 + n % 10) ∷ [])
unfolding decimal
decimal_below zero h = ground arith
decimal_below (suc f) h = ground (arith, digits_from_below f (suc f / 10))
