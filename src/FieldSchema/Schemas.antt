-- ===== src/FieldSchema/Schemas.antt =====
-- The schemas of the zod library that packages/shared/src/field-schema.ts builds: an interface, with
-- what the library documents of `safeParse`. The messages of a refusal are not part of it.
use face_cam.Prelude.{
  ℕ, ◌≡◌, Bool, true, false, not, Option, none, some, List, [], ◌∷◌, length, leb, includes,
  is_empty, Text, text_eq, if◌then◌else◌,
}
use face_cam.FieldSchema.Values.{
  Value, undefined, null, boolean, number, string, object, Entries, end, entry, get,
}

abbrev pub guarded : {A : Type 0} → (A → Bool) → Option A → Option A
guarded p none = none
guarded p (some a) = if p a then some a else none

abbrev pub mapped : {A B : Type 0} → (A → B) → Option A → Option B
mapped f none = none
mapped f (some a) = some (f a)

abbrev pub chained : {A B : Type 0} → Option A → (A → Option B) → Option B
chained none f = none
chained (some a) f = f a

abbrev pub otherwise : {A : Type 0} → Option A → Option A → Option A
otherwise none b = b
otherwise (some a) b = some a

module _ {N : Type 0} where
  abbrev pub read_string : (Text → Option Text) → Value N → Option (Value N)
  read_string p (string s) = mapped string (p s)
  read_string p _ = none

  abbrev pub read_boolean : Value N → Option (Value N)
  read_boolean (boolean b) = some (boolean b)
  read_boolean _ = none

  abbrev pub read_optional : (Value N → Option (Value N)) → Value N → Option (Value N)
  read_optional p undefined = some undefined
  read_optional p v = p v

  -- `Boolean(v)`
  abbrev pub truthy : (N → Bool) → Value N → Bool
  truthy nonzero undefined = false
  truthy nonzero null = false
  truthy nonzero (boolean b) = b
  truthy nonzero (number n) = nonzero n
  truthy nonzero (string s) = not (is_empty s)
  truthy nonzero _ = true

  -- Each key of the shape is read, an absent one as `undefined`; what the shape does not name is
  -- left out.
  unfoldable pub read_shape :
      {S : Type 0}
      → (S → Value N → Option (Value N))
      → List (Text × S)
      → Entries N
      → Option (Entries N)
  read_shape p [] es = some end
  read_shape p ((key, s) ∷ shape) es =
      let rest = read_shape p shape es in
      chained (p s (get key es)) (λ v. mapped (entry key v) rest)

  abbrev pub read_object :
      {S : Type 0} → (S → Value N → Option (Value N)) → List (Text × S) → Value N → Option (Value N)
  read_object p shape (object es) = mapped object (read_shape p shape es)
  read_object p shape _ = none

pub record Zod (N : Type 0) : Type 1 where
  pub Schema : Type 0
  pub StringSchema : Type 0
  pub NumberSchema : Type 0
  -- `schema.safeParse(v)`: the data, or none where it fails. A string schema is read on a string, a
  -- number schema on a number.
  pub parse : Schema → Value N → Option (Value N)
  pub parse_string : StringSchema → Text → Option Text
  pub parse_number : NumberSchema → N → Option N
  pub of_string : StringSchema → Schema
  pub parse-of_string :
      (s : StringSchema) (v : Value N) → parse (of_string s) v ≡ read_string (parse_string s) v
  -- `z.string()` and its checks
  pub z_string : StringSchema
  pub parse-z_string : (t : Text) → parse_string z_string t ≡ some t
  pub trimmed : Text → Text
  pub trim : StringSchema → StringSchema
  pub parse-trim :
      (s : StringSchema) (t : Text) → parse_string (trim s) t ≡ mapped trimmed (parse_string s t)
  pub lower : Text → Text
  pub to_lower_case : StringSchema → StringSchema
  pub parse-to_lower_case :
      (s : StringSchema) (t : Text)
      → parse_string (to_lower_case s) t ≡ mapped lower (parse_string s t)
  pub max_length : ℕ → StringSchema → StringSchema
  pub parse-max_length :
      (n : ℕ) (s : StringSchema) (t : Text)
      → parse_string (max_length n s) t ≡ guarded (λ u. leb (length u) n) (parse_string s t)
  pub min_length : ℕ → StringSchema → StringSchema
  pub parse-min_length :
      (n : ℕ) (s : StringSchema) (t : Text)
      → parse_string (min_length n s) t ≡ guarded (λ u. leb n (length u)) (parse_string s t)
  pub is_email : Text → Bool
  pub email : StringSchema → StringSchema
  pub parse-email :
      (s : StringSchema) (t : Text) → parse_string (email s) t ≡ guarded is_email (parse_string s t)
  -- `.regex(p)` and `.refine(p)`, for the test of the pattern or predicate
  pub check : (Text → Bool) → StringSchema → StringSchema
  pub parse-check :
      (p : Text → Bool) (s : StringSchema) (t : Text)
      → parse_string (check p s) t ≡ guarded p (parse_string s t)
  -- `z.coerce.number()`, which reads `Number(v)` and refuses NaN
  pub to_number : Value N → Option N
  pub of_number : NumberSchema → Schema
  pub parse-of_number :
      (s : NumberSchema) (v : Value N)
      → parse (of_number s) v ≡ mapped number (chained (to_number v) (parse_number s))
  pub coerce_number : NumberSchema
  pub parse-coerce_number : (n : N) → parse_number coerce_number n ≡ some n
  -- `a <= b`, for a number and a whole number that a definition gives
  pub at_least : Bool × ℕ → N → Bool
  pub at_most : Bool × ℕ → N → Bool
  pub min : Bool × ℕ → NumberSchema → NumberSchema
  pub parse-min :
      (b : Bool × ℕ) (s : NumberSchema) (n : N)
      → parse_number (min b s) n ≡ guarded (at_least b) (parse_number s n)
  pub max : Bool × ℕ → NumberSchema → NumberSchema
  pub parse-max :
      (b : Bool × ℕ) (s : NumberSchema) (n : N)
      → parse_number (max b s) n ≡ guarded (at_most b) (parse_number s n)
  -- `z.coerce.boolean()` and `z.boolean()`
  pub nonzero : N → Bool
  pub coerce_boolean : Schema
  pub parse-coerce_boolean :
      (v : Value N) → parse coerce_boolean v ≡ some (boolean (truthy nonzero v))
  pub z_boolean : Schema
  pub parse-z_boolean : (v : Value N) → parse z_boolean v ≡ read_boolean v
  -- `z.enum(options)`, `z.literal(t)` and `z.never()`
  pub z_enum : List Text → Schema
  pub parse-z_enum :
      (os : List Text) (v : Value N)
      → parse (z_enum os) v ≡ read_string (λ t. guarded (includes os) (some t)) v
  pub literal : Text → Schema
  pub parse-literal :
      (l : Text) (v : Value N)
      → parse (literal l) v ≡ read_string (λ t. guarded (text_eq l) (some t)) v
  pub never : Schema
  pub parse-never : (v : Value N) → parse never v ≡ none
  -- `.optional()`, `z.preprocess(f, s)`, `.transform(f)` and `.or(s)`
  pub optional : Schema → Schema
  pub parse-optional : (s : Schema) (v : Value N) → parse (optional s) v ≡ read_optional (parse s) v
  pub preprocess : (Value N → Value N) → Schema → Schema
  pub parse-preprocess :
      (f : Value N → Value N) (s : Schema) (v : Value N) → parse (preprocess f s) v ≡ parse s (f v)
  pub transform : (Value N → Value N) → Schema → Schema
  pub parse-transform :
      (f : Value N → Value N) (s : Schema) (v : Value N)
      → parse (transform f s) v ≡ mapped f (parse s v)
  pub either : Schema → Schema → Schema
  pub parse-either :
      (s t : Schema) (v : Value N) → parse (either s t) v ≡ otherwise (parse s v) (parse t v)
  -- `z.object(shape)`, which strips what the shape does not name
  pub z_object : List (Text × Schema) → Schema
  pub parse-z_object :
      (shape : List (Text × Schema)) (v : Value N)
      → parse (z_object shape) v ≡ read_object parse shape v
