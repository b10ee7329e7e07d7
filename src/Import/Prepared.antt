-- ===== src/Import/Prepared.antt =====
-- The rows of a file that an import has checked: they differ, and each is created or updated.
use face_cam.Prelude.{
  ℕ, ◌+◌, ◌≤◌, ◌≡◌, ◌≢◌, refl, sym, ap, ◌∙◌, ◌⊎◌, inl, inr, Bool, true, Option, none, some, List,
  [], ◌∷◌, All, Text, text_eq, text_eq_iff, Bool-cases, Option-cases, arith,
}
use mathlib.Core.List.{Memᴰ}
use face_cam.Import.{Parsed, Checked, accepted, refused, Payload, map_row, seen_at, prepare, plan}

All-map :
    {A : Type 0} {P Q : A → Type 0} (xs : List A) → ((x : A) → P x → Q x) → All P xs → All Q xs
All-map [] f h = tt
All-map (x ∷ xs) f (h, hs) = (f x h, All-map xs f hs)

All-at : {A : Type 0} (P : A → Type 0) (x : A) (xs : List A) → All P xs → Memᴰ x xs → P x
All-at P x (y ∷ ys) h (Memᴰ.head e) = rw e h.0
All-at P x (y ∷ ys) h (Memᴰ.tail m) = All-at P x ys h.1 m
All-at P x [] h m = elim m [ ]

pub All-of : {A : Type 0} (P : A → Type 0) (xs : List A) → ((x : A) → Memᴰ x xs → P x) → All P xs
All-of P [] f = tt
All-of P (x ∷ xs) f = (f x (Memᴰ.head refl), All-of P xs (λ y m. f y (Memᴰ.tail m)))

pub Checked-cases :
    {A : Type 0} (c : Checked A)
    → ((p : Parsed A) × (c ≡ accepted p)) ⊎ ((i : List (Text × Text)) × (c ≡ refused i))
Checked-cases (accepted p) = inl (p, refl)
Checked-cases (refused i) = inr (i, refl)

unseen :
    (code : Text) (row : ℕ) (seen : List (Text × ℕ)) (other : Text)
    → seen_at ((code, row) ∷ seen) other ≡ none
    → seen_at seen other ≡ none
unfolding seen_at
unseen code row seen other e = elim (Bool-cases (text_eq code other)) [
  | inl same ↦ absurd (ground arith)
  | inr apart ↦ ground arith
]

unseen_apart :
    (code : Text) (row : ℕ) (seen : List (Text × ℕ)) (other : Text)
    → seen_at ((code, row) ∷ seen) other ≡ none
    → code ≢ other
unfolding seen_at
unseen_apart code row seen other e = λ same.
    let here : text_eq code other ≡ true = (text_eq_iff code other).1 same in absurd (ground arith)

module _ {A : Type 0} where
  -- The rows of a file have other numbers and other codes than each other.
  abbrev pub Apart : List (ℕ × Parsed A) → Type 0
  Apart [] = Unit
  Apart (e ∷ es) = All (λ other. (e.0 ≢ other.0) × (e.1.code ≢ other.1.code)) es × Apart es

  pub one_row :
      (es : List (ℕ × Parsed A)) (e other : ℕ × Parsed A)
      → Apart es
      → Memᴰ e es
      → Memᴰ other es
      → (other.0 ≡ e.0) ⊎ (other.1.code ≡ e.1.code)
      → other ≡ e
  one_row [] e other apart there m same = elim there [ ]
  one_row (x ∷ xs) e other (fresh, apart) (Memᴰ.head p) (Memᴰ.head q) same = q ∙ sym p
  one_row (x ∷ xs) e other (fresh, apart) (Memᴰ.tail m) (Memᴰ.tail n) same =
      one_row xs e other apart m n same
  one_row (x ∷ xs) e other (fresh, apart) (Memᴰ.head p) (Memᴰ.tail n) same =
      let (rows, codes) = All-at (λ o. (x.0 ≢ o.0) × (x.1.code ≢ o.1.code)) other xs fresh n in
      elim same [
        | inl row ↦ absurd (rows (ap (λ o. o.0) (sym p) ∙ sym row))
        | inr code ↦ absurd (codes (ap (λ o. o.1.code) (sym p) ∙ sym code))
      ]
  one_row (x ∷ xs) e other (fresh, apart) (Memᴰ.tail m) (Memᴰ.head q) same =
      let (rows, codes) = All-at (λ o. (x.0 ≢ o.0) × (x.1.code ≢ o.1.code)) e xs fresh m in
      elim same [
        | inl row ↦ absurd (rows (ap (λ o. o.0) (sym q) ∙ row))
        | inr code ↦ absurd (codes (ap (λ o. o.1.code) (sym q) ∙ code))
      ]

  -- A row of the file is created or, where its code is known, updated; unless there are clashes.
  pub plan_cases :
      (existing : Text → Option ℕ) (update_existing : Bool) (es : List (ℕ × Parsed A))
      (e : ℕ × Parsed A)
      → (plan existing update_existing es).clashes ≡ []
      → Memᴰ e es
      → (Memᴰ e (plan existing update_existing es).to_create)
        ⊎ ((Memᴰ e (plan existing update_existing es).to_update)
            × ((id : ℕ) × (existing e.1.code ≡ some id)))
  unfolding plan
  plan_cases existing update_existing [] e clear there = elim there [ ]
  plan_cases existing update_existing ((row, p) ∷ es) e clear there =
      elim (Option-cases (existing p.code)) [
        | inl new ↦ elim there [
          | Memᴰ.head same ↦ inl (rw (plan, new) (Memᴰ.head same))
          | Memᴰ.tail m ↦ elim (plan_cases existing update_existing es e (ground arith) m) [
            | inl made ↦ inl (rw (plan, new) (Memᴰ.tail made))
            | inr (changed, known) ↦ inr (rw (plan, new) changed, known)
          ]
        ]
        | inr (id, known) ↦ elim (Bool-cases update_existing) [
          | inr forbidden ↦ absurd (ground arith)
          | inl allowed ↦ elim there [
            | Memᴰ.head same ↦ inr (
              rw (plan, known, allowed) (Memᴰ.head same),
              (id, ap (λ o. existing o.1.code) same ∙ known),
            )
            | Memᴰ.tail m ↦ elim (plan_cases existing update_existing es e (ground arith) m) [
              | inl made ↦ inl (rw (plan, known, allowed) made)
              | inr (changed, id') ↦ inr (rw (plan, known, allowed) (Memᴰ.tail changed), id')
            ]
          ]
        ]
      ]

  moved : {xs ys : List (ℕ × Parsed A)} {e : ℕ × Parsed A} → xs ≡ ys → Memᴰ e xs → Memᴰ e ys
  moved same m = rw (← same) m

  head_or :
      {x e : ℕ × Parsed A} {xs ys : List (ℕ × Parsed A)}
      → (Memᴰ e xs → Memᴰ e ys)
      → Memᴰ e (x ∷ xs)
      → Memᴰ e (x ∷ ys)
  head_or f (Memᴰ.head p) = Memᴰ.head p
  head_or f (Memᴰ.tail m) = Memᴰ.tail (f m)

  pub planned :
      (existing : Text → Option ℕ) (update_existing : Bool) (es : List (ℕ × Parsed A))
      (e : ℕ × Parsed A)
      → (Memᴰ e (plan existing update_existing es).to_create)
        ⊎ (Memᴰ e (plan existing update_existing es).to_update)
      → Memᴰ e es
  unfolding plan
  planned existing update_existing [] e (inl there) = there
  planned existing update_existing [] e (inr there) = there
  planned existing update_existing ((row, p) ∷ es) e (inl there) =
      let rest = plan existing update_existing es in
      elim (Option-cases (existing p.code)) [
        | inl new ↦
            let same : (plan existing update_existing ((row, p) ∷ es)).to_create
                ≡ (row, p) ∷ rest.to_create =
              rw (plan, new) refl in
            head_or (λ m. planned existing update_existing es e (inl m)) (moved same there)
        | inr (id, known) ↦ elim (Bool-cases update_existing) [
          | inl allowed ↦
              let same : (plan existing update_existing ((row, p) ∷ es)).to_create
                  ≡ rest.to_create =
                rw (plan, known, allowed) refl in
              Memᴰ.tail (planned existing update_existing es e (inl (moved same there)))
          | inr forbidden ↦
              let same : (plan existing update_existing ((row, p) ∷ es)).to_create
                  ≡ rest.to_create =
                rw (plan, known, forbidden) refl in
              Memᴰ.tail (planned existing update_existing es e (inl (moved same there)))
        ]
      ]
  planned existing update_existing ((row, p) ∷ es) e (inr there) =
      let rest = plan existing update_existing es in
      elim (Option-cases (existing p.code)) [
        | inl new ↦
            let same : (plan existing update_existing ((row, p) ∷ es)).to_update ≡ rest.to_update =
              rw (plan, new) refl in
            Memᴰ.tail (planned existing update_existing es e (inr (moved same there)))
        | inr (id, known) ↦ elim (Bool-cases update_existing) [
          | inl allowed ↦
              let same : (plan existing update_existing ((row, p) ∷ es)).to_update
                  ≡ (row, p) ∷ rest.to_update =
                rw (plan, known, allowed) refl in
              head_or (λ m. planned existing update_existing es e (inr m)) (moved same there)
          | inr forbidden ↦
              let same : (plan existing update_existing ((row, p) ∷ es)).to_update
                  ≡ rest.to_update =
                rw (plan, known, forbidden) refl in
              Memᴰ.tail (planned existing update_existing es e (inr (moved same there)))
        ]
      ]

module _ {A : Type 0} (check : Payload → Checked A) (trim : Text → Text)
    (attribute_keys : List Text) (mapping : List (Text × Text)) where
  -- What is prepared from a row on has no lower number and no code that was seen.
  prepare_fresh :
      (row : ℕ) (seen : List (Text × ℕ)) (rows : List (List (Text × Text)))
      → All
          (λ e. (row ≤ e.0) × (seen_at seen e.1.code ≡ none))
          (prepare check trim attribute_keys mapping row seen rows).1
  unfolding prepare seen_at
  prepare_fresh row seen [] = tt
  prepare_fresh row seen (raw ∷ rows) =
      elim (Checked-cases (check (map_row trim raw mapping attribute_keys))) [
        | inr (issues, bad) ↦
            rw (prepare, bad)
              (All-map _ (λ e h. (omega (arith, h.0), h.1)) (prepare_fresh (row + 1) seen rows))
        | inl (p, good) ↦ elim (Option-cases (seen_at seen p.code)) [
          | inl new ↦
              rw (prepare, good, new)
                (
                  (omega arith, new),
                  All-map _ (λ e h. (omega (arith, h.0), unseen p.code row seen e.1.code h.1))
                      (prepare_fresh (row + 1) ((p.code, row) ∷ seen) rows),
                )
          | inr (previous, again) ↦
              rw (prepare, good, again)
                (All-map _ (λ e h. (omega (arith, h.0), h.1)) (prepare_fresh (row + 1) seen rows))
        ]
      ]

  pub prepare-Apart :
      (row : ℕ) (seen : List (Text × ℕ)) (rows : List (List (Text × Text)))
      → Apart (prepare check trim attribute_keys mapping row seen rows).1
  unfolding prepare
  prepare-Apart row seen [] = tt
  prepare-Apart row seen (raw ∷ rows) =
      elim (Checked-cases (check (map_row trim raw mapping attribute_keys))) [
        | inr (issues, bad) ↦ rw (prepare, bad) (prepare-Apart (row + 1) seen rows)
        | inl (p, good) ↦ elim (Option-cases (seen_at seen p.code)) [
          | inl new ↦
              rw (prepare, good, new)
                (
                  All-map _
                      (λ e h. (
                        λ same. absurd (omega (arith, h.0, same)),
                        unseen_apart p.code row seen e.1.code h.1,
                      ))
                      (prepare_fresh (row + 1) ((p.code, row) ∷ seen) rows),
                  prepare-Apart (row + 1) ((p.code, row) ∷ seen) rows,
                )
          | inr (previous, again) ↦ rw (prepare, good, again) (prepare-Apart (row + 1) seen rows)
        ]
      ]
