-- ===== src/FieldSchema/Shapes.antt =====
-- Reading an object by its shape, for the schemas of packages/shared/src/field-schema.ts.
use face_cam.Prelude.{
  ◌≡◌, refl, inl, inr, false, Option, none, some, List, [], ◌∷◌, All, Text, text_eq, text_eq_iff,
  Bool-cases, Option-cases, if◌then◌else◌, arith,
}
use face_cam.FieldSchema.Values.{Value, undefined, Entries, end, entry, get}
use face_cam.FieldSchema.Schemas.{read_shape}
use face_cam.FieldSchema.{set_key}

abbrev pub find : {S : Type 0} → Text → List (Text × S) → Option S
find key [] = none
find key ((k, s) ∷ shape) = let rest = find key shape in if text_eq k key then some s else rest

module _ {S : Type 0} where
  find_later :
      (key k : Text) (s : S) (shape : List (Text × S)) {o : Option S}
      → text_eq k key ≡ false
      → find key ((k, s) ∷ shape) ≡ o
      → find key shape ≡ o
  find_later key k s shape other found = ground arith

  pub find-set_key :
      (k key : Text) (s : S) (shape : List (Text × S))
      → find k (set_key key s shape) ≡ (if text_eq key k then some s else find k shape)
  unfolding set_key
  find-set_key k key s [] = refl
  find-set_key k key s ((j, old) ∷ shape) = elim (Bool-cases (text_eq j key)) [
    | inl same ↦ let eq = (text_eq_iff j key).0 same in ground arith
    | inr other ↦
        ground
          (arith, find-set_key k key s shape, text_eq_iff j key, text_eq_iff j k, text_eq_iff key k)
  ]

  pub All-set_key :
      (P : Text × S → Type 0) (key : Text) (s : S) (shape : List (Text × S))
      → ((k : Text) → P (k, s))
      → All P shape
      → All P (set_key key s shape)
  unfolding set_key
  All-set_key P key s [] new old = (new key, tt)
  All-set_key P key s ((j, o) ∷ shape) new old = elim (Bool-cases (text_eq j key)) [
    | inl same ↦ rw same (new j, old.1)
    | inr other ↦ rw other (old.0, All-set_key P key s shape new old.1)
  ]

  module _ {N : Type 0} (p : S → Value N → Option (Value N)) where
    -- What is read under a key of the shape is what the schema made of the value there.
    pub read_shape-find :
        (shape : List (Text × S)) (es out : Entries N) (key : Text) (s : S)
        → read_shape p shape es ≡ some out
        → find key shape ≡ some s
        → p s (get key es) ≡ some (get key out)
    unfolding read_shape get
    read_shape-find [] es out key s done found = absurd (ground arith)
    read_shape-find ((k, s') ∷ shape) es out key s done found =
        elim (Option-cases (p s' (get k es))) [
          | inl failed ↦ absurd (ground arith)
          | inr (v, first) ↦ elim (Option-cases (read_shape p shape es)) [
            | inl failed ↦ absurd (ground arith)
            | inr (rest, others) ↦ elim (Bool-cases (text_eq k key)) [
              | inl same ↦ let eq = (text_eq_iff k key).0 same in ground arith
              | inr other ↦
                  let found' = find_later key k s' shape other found in
                  let later = read_shape-find shape es rest key s others found' in ground arith
            ]
          ]
        ]

    pub read_shape-unnamed :
        (shape : List (Text × S)) (es out : Entries N) (key : Text)
        → read_shape p shape es ≡ some out
        → find key shape ≡ none
        → get key out ≡ undefined
    unfolding read_shape get
    read_shape-unnamed [] es out key done unnamed = ground arith
    read_shape-unnamed ((k, s') ∷ shape) es out key done unnamed =
        elim (Option-cases (p s' (get k es))) [
          | inl failed ↦ absurd (ground arith)
          | inr (v, first) ↦ elim (Option-cases (read_shape p shape es)) [
            | inl failed ↦ absurd (ground arith)
            | inr (rest, others) ↦ elim (Bool-cases (text_eq k key)) [
              | inl same ↦ absurd (ground arith)
              | inr other ↦
                  let unnamed' = find_later key k s' shape other unnamed in
                  let later = read_shape-unnamed shape es rest key others unnamed' in ground arith
            ]
          ]
        ]

    pub read_shape_total :
        (shape : List (Text × S)) (es : Entries N)
        → All (λ ks. (w : Value N) × (p ks.1 (get ks.0 es) ≡ some w)) shape
        → (out : Entries N) × (read_shape p shape es ≡ some out)
    unfolding read_shape
    read_shape_total [] es all = (end, refl)
    read_shape_total ((k, s) ∷ shape) es ((w, first), all) =
        let (out, others) = read_shape_total shape es all in (entry k w out, ground arith)
