-- ===== src/ErrorFilter/Details.antt =====
-- The grouping of issues by their path, apps/api/src/common/filters/all-exceptions.filter.ts.
use face_cam.Prelude.{
  ℕ, ◌≡◌, refl, sym, ap, ◌∙◌, inl, inr, false, List, [], ◌∷◌, All, is_empty, Text, text_eq,
  text_eq_iff, Bool-cases, if◌then◌else◌,
}
use face_cam.FieldSchema.Values.{Value, undefined, null, boolean, number, string, array, object}
use face_cam.ErrorFilter.{Issue, add_message, path_of, details_from}

-- The first message that is grouped under a path, and the first issue that has the path.
abbrev pub shown : Text → List (Text × List Text) → Value ℕ
shown key [] = undefined
shown key ((p, []) ∷ details) = shown key details
shown key ((p, m ∷ ms) ∷ details) =
    let rest = shown key details in if text_eq p key then string m else rest

abbrev pub first_issue : Text → List Issue → Value ℕ
first_issue key [] = undefined
first_issue key (issue ∷ issues) =
    let rest = first_issue key issues in
    if text_eq (path_of issue) key then string issue.message else rest

abbrev pub or_later : Value ℕ → Value ℕ → Value ℕ
or_later undefined b = b
or_later v b = v

-- Every list of messages starts with one that is not empty.
abbrev Filled : Text × List Text → Type 0
Filled (p, []) = ⊥
Filled (p, m ∷ ms) = is_empty m ≡ false

abbrev pub AllFilled : List (Text × List Text) → Type 0
AllFilled = All Filled

or_later-undefined : (a : Value ℕ) → or_later a undefined ≡ a
or_later-undefined undefined = refl
or_later-undefined null = refl
or_later-undefined (boolean b) = refl
or_later-undefined (number n) = refl
or_later-undefined (string t) = refl
or_later-undefined (array vs) = refl
or_later-undefined (object es) = refl

or_later_assoc : (a b c : Value ℕ) → or_later (or_later a b) c ≡ or_later a (or_later b c)
or_later_assoc undefined x y = refl
or_later_assoc null x y = refl
or_later_assoc (boolean b) x y = refl
or_later_assoc (number n) x y = refl
or_later_assoc (string t) x y = refl
or_later_assoc (array vs) x y = refl
or_later_assoc (object es) x y = refl

module _ (path message : Text) (named : is_empty message ≡ false) where
  add_message-AllFilled :
      (details : List (Text × List Text))
      → AllFilled details
      → AllFilled (add_message path message details)
  unfolding add_message
  add_message-AllFilled [] filled = (named, tt)
  add_message-AllFilled ((p, []) ∷ details) (filled, rest) = absurd filled
  add_message-AllFilled ((p, m ∷ ms) ∷ details) (filled, rest) =
      elim (Bool-cases (text_eq p path)) [
        | inl same ↦ rw same (filled, rest)
        | inr differs ↦ rw differs (filled, add_message-AllFilled details rest)
      ]

  shown-add_message :
      (key : Text) (details : List (Text × List Text))
      → AllFilled details
      → shown key (add_message path message details)
        ≡ or_later (shown key details) (if text_eq path key then string message else undefined)
  unfolding add_message
  shown-add_message key [] filled = refl
  shown-add_message key ((p, []) ∷ details) (filled, rest) = absurd filled
  shown-add_message key ((p, m ∷ ms) ∷ details) (filled, rest) =
      elim (Bool-cases (text_eq p path)) [
        | inl same ↦ elim (Bool-cases (text_eq p key)) [
          | inl here ↦ rw (same, here) refl
          | inr other ↦
              let p_path = (text_eq_iff p path).0 same in
              let path_key = ap (λ q. text_eq q key) (sym p_path) ∙ other in
              rw (same, other, path_key) (sym (or_later-undefined (shown key details)))
        ]
        | inr differs ↦ elim (Bool-cases (text_eq p key)) [
          | inl here ↦ rw (differs, here) refl
          | inr other ↦ rw (differs, other) (shown-add_message key details rest)
        ]
      ]

joined :
    (path key : Text) (issue : Issue) (issues : List Issue)
    → or_later
        (if text_eq path key then string issue.message else undefined)
        (first_issue key issues)
      ≡ (if text_eq path key then string issue.message else first_issue key issues)
joined path key issue issues = elim (Bool-cases (text_eq path key)) [
  | inl same ↦ rw same refl
  | inr other ↦ rw other refl
]

-- Under each path the messages of its issues are grouped; the first of them is shown first.
pub shown-details_from :
    (key : Text) (details : List (Text × List Text)) (issues : List Issue)
    → AllFilled details
    → All (λ issue. is_empty issue.message ≡ false) issues
    → (shown key (details_from details issues)
        ≡ or_later (shown key details) (first_issue key issues))
      × AllFilled (details_from details issues)
unfolding details_from
shown-details_from key details [] filled named =
    (sym (or_later-undefined (shown key details)), filled)
shown-details_from key details (issue ∷ issues) filled (first, named) =
    let path = path_of issue in
    let more = add_message path issue.message details in
    let (grouped, all) =
      shown-details_from key more issues
        (add_message-AllFilled path issue.message first details filled) named in
    (
      grouped
          ∙ ap (λ a. or_later a (first_issue key issues))
              (shown-add_message path issue.message first key details filled)
          ∙ or_later_assoc (shown key details)
              (if text_eq path key then string issue.message else undefined)
              (first_issue key issues)
          ∙ ap (or_later (shown key details)) (joined path key issue issues),
      all,
    )
