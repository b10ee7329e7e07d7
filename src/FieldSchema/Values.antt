-- ===== src/FieldSchema/Values.antt =====
-- What JSON.parse gives, with `undefined` for what is absent: the `unknown` that a schema parses.
use face_cam.Prelude.{Bool, true, false, Option, none, some, Text, text_eq, if◌then◌else◌}

mutual
  pub data Value (N : Type 0) : Type 0 where
    undefined null : Value N
    boolean : Bool → Value N
    number : N → Value N
    string : Text → Value N
    array : Items N → Value N
    object : Entries N → Value N

  pub data Items (N : Type 0) : Type 0 where
    nil : Items N
    item : Value N → Items N → Items N

  pub data Entries (N : Type 0) : Type 0 where
    end : Entries N
    entry : Text → Value N → Entries N → Entries N

module _ {N : Type 0} where
  -- `o[key]`
  unfoldable pub get : Text → Entries N → Value N
  get key end = undefined
  get key (entry k v es) = let rest = get key es in if text_eq k key then v else rest

  -- `JSON.stringify` leaves `undefined` out, so a key is there when its value is not that.
  abbrev pub is_undefined : Value N → Bool
  is_undefined undefined = true
  is_undefined _ = false

  abbrev pub text_of : Value N → Option Text
  text_of (string s) = some s
  text_of _ = none
