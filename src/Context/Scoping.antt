-- ===== src/Context/Scoping.antt =====
-- What `asPlatform` guarantees.
use mathlib.Core.Option
use face_cam.Prelude.{Bool, true, Option, none, some, ◌≡◌, refl, arith}
use face_cam.Context.{RequestStore, Call, as_platform, with_scope}

scope_of_map :
    (flag : Bool) (o : Option RequestStore) (r : RequestStore)
    → Option.map (with_scope flag) o ≡ some r
    → r.platform_scope ≡ flag
scope_of_map flag none r e = cc
scope_of_map flag (some c) r e = ground arith

-- The callback runs with the flag set; its result or its error, and its writes, come back; and the
-- flag has its former value again in whatever store the callback leaves, also after a throw.
pub as_platform_restores :
    {S A : Type 0} (callback : Call S A) (r r' : RequestStore) (s : S)
    → (as_platform callback (some r, s)).1.0 ≡ some r'
    → ((as_platform callback (some r, s)).0 ≡ (callback (some (with_scope true r), s)).0)
      × ((as_platform callback (some r, s)).1.1 ≡ (callback (some (with_scope true r), s)).1.1)
      × (r'.platform_scope ≡ r.platform_scope)
unfolding as_platform
as_platform_restores callback r r' s left =
    (refl, refl, scope_of_map r.platform_scope (callback (some (with_scope true r), s)).1.0 r' left)
