-- ===== src/Token.antt =====
-- The lifetimes of tokens and of their cookies: TokenService.ttlMs of
-- apps/api/src/auth/token.service.ts.
mod Tests
use face_cam.Prelude.{
  ℕ, ◌+◌, ◌-◌, ◌*◌, ◌/◌, Bool, true, false, ◌&&◌, Option, none, some, List, [], ◌∷◌, Text, leb,
  ◌==◌, if◌then◌else◌,
}
use mathlib.Core.Option

abbrev pub is_digit : ℕ → Bool
is_digit c = leb b'0' c && leb c b'9'

-- `{ s: 1000, m: 60_000, h: 3_600_000, d: 86_400_000 }[unit]`
abbrev pub multiplier : ℕ → Option ℕ
multiplier c =
    if c == b's'
    then some 1000
    else if c == b'm'
    then some 60000
    else if c == b'h'
    then some 3600000
    else if c == b'd'
    then some 86400000
    else none

-- `/^(\d+)([smhd])$/`, read from the left: the amount so far, if a digit was read, and the rest.
unfoldable pub duration_from : Option ℕ → Text → Option ℕ
duration_from none [] = none
duration_from none (c ∷ s) =
    let rest = duration_from (some (c - 48)) s in if is_digit c then rest else none
duration_from (some amount) [] = none
duration_from (some amount) (c ∷ s) =
    let rest = duration_from (some (amount * 10 + (c - 48))) s in
    if is_digit c
    then rest
    else (elim s [ [] ↦ Option.map (λ m. amount * m) (multiplier c) | ◌∷◌ d more ↦ none ])

-- `ttlMs`; none is the throw for an unsupported duration.
unfoldable pub ttl_ms : Text → Option ℕ
unfolding duration_from
ttl_ms duration = duration_from none duration

-- `Math.floor(this.ttlMs(ttl) / 1000)`, the `expiresIn` of both tokens.
unfoldable pub expires_in : Text → Option ℕ
unfolding ttl_ms
expires_in ttl = Option.map (λ ms. ms / 1000) (ttl_ms ttl)
