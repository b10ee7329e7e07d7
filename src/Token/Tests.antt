-- ===== src/Token/Tests.antt =====
-- Durations as the configuration writes them.
use face_cam.Prelude.{◌≡◌, refl, none, some, codes}
use face_cam.Token.{ttl_ms, expires_in}

minutes : ttl_ms (codes "15m") ≡ some 900000
unfolding ttl_ms
minutes = refl

days : expires_in (codes "7d") ≡ some 604800
unfolding expires_in
days = refl

no_unit : ttl_ms (codes "15") ≡ none
unfolding ttl_ms
no_unit = refl

no_amount : ttl_ms (codes "m") ≡ none
unfolding ttl_ms
no_amount = refl

trailing : ttl_ms (codes "15m ") ≡ none
unfolding ttl_ms
trailing = refl
