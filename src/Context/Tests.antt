-- ===== src/Context/Tests.antt =====
-- A run of `asPlatform` whose callback throws.
use face_cam.Prelude.{ℕ, ◌+◌, codes}
use face_cam.Prelude.Errors.{err, not_found}
use face_cam.Context.{RequestStore, Call, opened}

abbrev r : RequestStore
r = opened (codes "c1")

abbrev count_and_throw : Call ℕ ℕ
count_and_throw (ctx, n) = (err not_found, (ctx, n + 1))
