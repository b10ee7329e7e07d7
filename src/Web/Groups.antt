-- ===== src/Web/Groups.antt =====
-- The fields of a member's form by their group, and the order of fields in the settings:
-- `groupDefinitions` of apps/web/src/components/members/dynamic-field.tsx and `move` of
-- apps/web/src/app/t/[slug]/settings/fields/field-manager.tsx.
use face_cam.Prelude.{
  ◌≡◌, refl, sym, ap, ◌∙◌, inl, inr, Bool, true, false, Option, List, [], ◌∷◌, ◌++◌, ◌||◌,
  or_default, if◌then◌else◌, Text, codes, text_eq, text_eq_iff, Bool-cases, arith, is_empty,
}
use mathlib.Core.List.{append_assoc, append-nil}

same_key : (k name key : Text) → text_eq k name ≡ true → text_eq name key ≡ text_eq k key
same_key k name key same = ap (λ q. text_eq q key) (sym ((text_eq_iff k name).0 same))

other_key :
    (k name key : Text) → text_eq k name ≡ false → text_eq k key ≡ true → text_eq name key ≡ false
other_key k name key differs here = elim (Bool-cases (text_eq name key)) [
  | inr other ↦ other
  | inl same ↦
      let k_key = (text_eq_iff k key).0 here in
      let name_key = (text_eq_iff name key).0 same in absurd (ground (arith, text_eq_iff k name))
]

flipped : (k name : Text) → text_eq k name ≡ false → text_eq name k ≡ false
flipped k name differs = elim (Bool-cases (text_eq name k)) [
  | inr other ↦ other
  | inl same ↦ absurd (ground (arith, text_eq_iff name k, text_eq_iff k name))
]

module _ {A : Type 0} (group : A → Option Text) where
  -- `definition.group ?? 'Other'`
  abbrev pub group_key : A → Text
  group_key d = or_default (group d) (codes "Other")

  -- `bucket.push(definition)`, or a new bucket at the end: a Map keeps the order of insertion.
  unfoldable pub push : Text → A → List (Text × List A) → List (Text × List A)
  push key d [] = (key, d ∷ []) ∷ []
  push key d ((k, bucket) ∷ groups) =
      let rest = push key d groups in
      if text_eq k key then (k, bucket ++ d ∷ []) ∷ groups else (k, bucket) ∷ rest

  unfoldable pub push_all : List (Text × List A) → List A → List (Text × List A)
  push_all groups [] = groups
  push_all groups (d ∷ ds) = push_all (push (group_key d) d groups) ds

  unfoldable pub group_definitions : List A → List (Text × List A)
  unfolding push_all
  group_definitions ds = push_all [] ds

  -- The definitions of a group, in their order.
  abbrev pub of_group : Text → List A → List A
  of_group key [] = []
  of_group key (d ∷ ds) =
      let rest = of_group key ds in if text_eq (group_key d) key then d ∷ rest else rest

  -- The bucket that is shown under a name.
  abbrev pub bucket_of : Text → List (Text × List A) → List A
  bucket_of key [] = []
  bucket_of key ((k, bucket) ∷ groups) =
      let rest = bucket_of key groups in if text_eq k key then bucket else rest

  bucket_of-push :
      (key name : Text) (d : A) (groups : List (Text × List A))
      → bucket_of key (push name d groups)
        ≡ (if text_eq name key then bucket_of key groups ++ d ∷ [] else bucket_of key groups)
  unfolding push
  bucket_of-push key name d [] = elim (Bool-cases (text_eq name key)) [
    | inl here ↦ rw here refl
    | inr other ↦ rw other refl
  ]
  bucket_of-push key name d ((k, bucket) ∷ groups) = elim (Bool-cases (text_eq k name)) [
    | inl same ↦ elim (Bool-cases (text_eq k key)) [
      | inl here ↦ rw (same, here, same_key k name key same ∙ here) refl
      | inr other ↦ rw (same, other, same_key k name key same ∙ other) refl
    ]
    | inr differs ↦ elim (Bool-cases (text_eq k key)) [
      | inl here ↦ rw (differs, here, other_key k name key differs here) refl
      | inr other ↦ rw (differs, other) (bucket_of-push key name d groups)
    ]
  ]

  bucket_of-push_all :
      (key : Text) (ds : List A) (groups : List (Text × List A))
      → bucket_of key (push_all groups ds) ≡ bucket_of key groups ++ of_group key ds
  unfolding push_all
  bucket_of-push_all key [] groups = sym (append-nil (bucket_of key groups))
  bucket_of-push_all key (d ∷ ds) groups =
      bucket_of-push_all key ds (push (group_key d) d groups)
      ∙ ap (λ b. b ++ of_group key ds) (bucket_of-push key (group_key d) d groups)
      ∙ joined (text_eq (group_key d) key) (bucket_of key groups) d (of_group key ds)
    where
      joined :
          (b : Bool) (bucket : List A) (e : A) (rest : List A)
          → (if b then bucket ++ e ∷ [] else bucket) ++ rest
            ≡ bucket ++ (if b then e ∷ rest else rest)
      joined true bucket e rest = append_assoc bucket (e ∷ []) rest
      joined false bucket e rest = refl

  abbrev has_name : Text → List (Text × List A) → Bool
  has_name key [] = false
  has_name key ((k, bucket) ∷ groups) = text_eq k key || has_name key groups

  -- No two groups have the same name, and none is empty.
  abbrev pub AreGroups : List (Text × List A) → Type 0
  AreGroups [] = Unit
  AreGroups ((k, bucket) ∷ groups) =
      (has_name k groups ≡ false) × (is_empty bucket ≡ false) × AreGroups groups

  has_name-push :
      (key name : Text) (d : A) (groups : List (Text × List A))
      → has_name key groups ≡ false
      → text_eq name key ≡ false
      → has_name key (push name d groups) ≡ false
  unfolding push
  has_name-push key name d [] unnamed other = rw other refl
  has_name-push key name d ((k, bucket) ∷ groups) unnamed other =
      elim (Bool-cases (text_eq k name)) [
        | inl same ↦ rw same unnamed
        | inr differs ↦ elim (Bool-cases (text_eq k key)) [
          | inl here ↦ absurd (ground arith)
          | inr there ↦ rw (differs, there) (has_name-push key name d groups (ground arith) other)
        ]
      ]

  is_empty-snoc : (bucket : List A) (d : A) → is_empty (bucket ++ d ∷ []) ≡ false
  is_empty-snoc [] d = refl
  is_empty-snoc (e ∷ bucket) d = refl

  push-AreGroups :
      (name : Text) (d : A) (groups : List (Text × List A))
      → AreGroups groups
      → AreGroups (push name d groups)
  unfolding push
  push-AreGroups name d [] ok = (refl, refl, tt)
  push-AreGroups name d ((k, bucket) ∷ groups) (fresh, filled, ok) =
      elim (Bool-cases (text_eq k name)) [
        | inl same ↦ rw same (fresh, is_empty-snoc bucket d, ok)
        | inr differs ↦ rw differs (
          has_name-push k name d groups fresh (flipped k name differs),
          filled,
          push-AreGroups name d groups ok,
        )
      ]

  push_all-AreGroups :
      (ds : List A) (groups : List (Text × List A))
      → AreGroups groups
      → AreGroups (push_all groups ds)
  unfolding push_all
  push_all-AreGroups [] groups ok = ok
  push_all-AreGroups (d ∷ ds) groups ok =
      push_all-AreGroups ds (push (group_key d) d groups) (push-AreGroups (group_key d) d groups ok)

  -- The form shows each group once, and under its name exactly the fields that have it, in the order
  -- in which they were given; a field without a group is shown under Other.
  pub group_definitions-AreGroups :
      (ds : List A) (key : Text)
      → AreGroups (group_definitions ds) × (bucket_of key (group_definitions ds) ≡ of_group key ds)
  unfolding group_definitions
  group_definitions-AreGroups ds key = (push_all-AreGroups ds [] tt, bucket_of-push_all key ds [])
