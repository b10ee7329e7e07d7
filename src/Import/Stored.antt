-- ===== src/Import/Stored.antt =====
-- What the commit of an import leaves in the table for each row of the file.
use face_cam.Prelude.{
  ℕ, ◌≡◌, ◌≢◌, refl, sym, ap, ◌∙◌, ◌⊎◌, inl, inr, Bool, ◌&&◌, Option, none, some, List, [], ◌∷◌,
  All, Text, text_eq, text_eq_iff, ◌==◌, Bool-cases, Option-cases, arith,
}
use mathlib.Core.List.{Memᴰ}
use face_cam.Rows.{Member}
use face_cam.Store.{Table}
use face_cam.Tenants.{create_all}
use face_cam.Import.{
  Plan, Parsed, Checked, Payload, plan, member_row, overwrite, new_rows, existing_in, update_all,
  commit,
}
use face_cam.Import.Prepared.{Apart, All-of, one_row, plan_cases, planned}

-- A row that is still to be written is not the one that was looked at.
later :
    {A S : Type 0} (x e : ℕ × Parsed A) (es : List (ℕ × Parsed A)) (existing : Text → Option ℕ)
    (k : ℕ)
    → existing x.1.code ≢ some k
    → S ⊎ (Memᴰ e (x ∷ es) × (existing e.1.code ≡ some k))
    → S ⊎ (Memᴰ e es × (existing e.1.code ≡ some k))
later x e es existing k other (inl says) = inl says
later x e es existing k other (inr (Memᴰ.head p, known)) =
    absurd (other (ap (λ o. existing o.1.code) (sym p) ∙ known))
later x e es existing k other (inr (Memᴰ.tail m, known)) = inr (m, known)

module _ {A : Type 0} (members : Table (Member A) (λ m. m.id)) (check : Payload → Checked A)
    (trim : Text → Text) (attribute_keys : List Text) where
  -- A member of the organization with what the row of the file says.
  abbrev pub Says : ℕ → Parsed A → Member A → Type 0
  Says t p m =
      (m.tenant_id ≡ t)
      × (m.code ≡ p.code)
      × (m.full_name ≡ p.full_name)
      × (m.email ≡ p.email)
      × (m.phone ≡ p.phone)
      × (m.attributes ≡ p.attributes)

  abbrev pub IsWritten : ℕ → members.State → ℕ × Parsed A → Type 0
  IsWritten t ms e = (k : ℕ) × (m : Member A) × (members.find_unique ms k ≡ some m) × Says t e.1 m

  created_kept :
      (new_id : ℕ → ℕ) (t : ℕ) (es : List (ℕ × Parsed A)) (ms : members.State) (k : ℕ)
      → ((row : ℕ) → new_id row ≢ k)
      → members.find_unique (create_all members.create (new_rows new_id t es) ms) k
        ≡ members.find_unique ms k
  unfolding new_rows create_all
  created_kept new_id t [] ms k other = refl
  created_kept new_id t ((row, p) ∷ es) ms k other =
      created_kept new_id t es (members.create (member_row (new_id row) t p) ms) k other
      ∙ members.find_unique-create ms (member_row (new_id row) t p) k
      ∙ (elim (Bool-cases (new_id row == k)) [
        | inl same ↦ absurd (other row (ground arith))
        | inr apart ↦ rw apart refl
      ])

  created_there :
      (new_id : ℕ → ℕ) (t : ℕ) (es : List (ℕ × Parsed A)) (ms : members.State) (e : ℕ × Parsed A)
      → ((a b : ℕ) → new_id a ≡ new_id b → a ≡ b)
      → ((other : ℕ × Parsed A) → Memᴰ other es → other.0 ≡ e.0 → other ≡ e)
      → (members.find_unique ms (new_id e.0) ≡ some (member_row (new_id e.0) t e.1)) ⊎ Memᴰ e es
      → members.find_unique (create_all members.create (new_rows new_id t es) ms) (new_id e.0)
        ≡ some (member_row (new_id e.0) t e.1)
  unfolding new_rows create_all
  created_there new_id t [] ms e apart alone (inl there) = there
  created_there new_id t [] ms e apart alone (inr there) = elim there [ ]
  created_there new_id t (x ∷ es) ms e apart alone there =
      let row = member_row (new_id x.0) t x.1 in
      let law = members.find_unique-create ms row (new_id e.0) in
      let rest =
        created_there new_id t es (members.create row ms) e apart
          (λ other m same. alone other (Memᴰ.tail m) same) in
      elim (Bool-cases (new_id x.0 == new_id e.0)) [
        | inl same ↦
            let it : x ≡ e = alone x (Memᴰ.head refl) (apart x.0 e.0 (ground arith)) in
            rest (
              inl (
                law
                ∙ rw same refl
                ∙ ap (λ (o : ℕ × Parsed A). some (member_row (new_id o.0) t o.1)) it))
        | inr other ↦ rest (elim there [
          | inl was ↦ inl (law ∙ rw other was)
          | inr (Memᴰ.head p) ↦
              let same_id : new_id x.0 ≡ new_id e.0 = ap (λ o. new_id o.0) (sym p) in
              absurd (ground arith)
          | inr (Memᴰ.tail m) ↦ inr m
        ])
      ]

  update_there :
      (t : ℕ) (existing : Text → Option ℕ) (es : List (ℕ × Parsed A)) (ms : members.State) (k : ℕ)
      (e : ℕ × Parsed A) (m : Member A)
      → ((other : ℕ × Parsed A) → Memᴰ other es → existing other.1.code ≡ some k → other ≡ e)
      → members.find_unique ms k ≡ some m
      → (m.tenant_id ≡ t) × (m.code ≡ e.1.code)
      → Says t e.1 m ⊎ (Memᴰ e es × (existing e.1.code ≡ some k))
      → (m' : Member A) × (members.find_unique
            (update_all members check trim attribute_keys t existing es ms)
            k
          ≡ some m')
        × Says t e.1 m'
  unfolding update_all
  update_there t existing [] ms k e m alone there own (inl says) = (m, there, says)
  update_there t existing [] ms k e m alone there own (inr (listed, known)) = elim listed [ ]
  update_there t existing (x ∷ es) ms k e m alone there own goal =
      let rest = λ (s : members.State) (n : Member A).
        update_there t existing es s k e n (λ other q same. alone other (Memᴰ.tail q) same) in
      elim (Option-cases (existing x.1.code)) [
        | inl unknown ↦
            rw (update_all, unknown)
              (rest ms m there own (later x e es existing k (rw unknown (λ p. cc)) goal))
        | inr (id, known) ↦
            let hit : Member A → Bool = λ q. q.id == id && q.tenant_id == t in
            let s = members.update_many hit (overwrite x.1) ms in
            let law = members.find_unique-update_many ms hit (overwrite x.1) k (λ q. refl) in
            let key = members.find_unique-key ms k m there in
            elim (Bool-cases (id == k)) [
              | inl same ↦
                  let it : x ≡ e = alone x (Memᴰ.head refl) (known ∙ ap some (ground arith)) in
                  let found : members.find_unique s k ≡ some (overwrite x.1 m) = ground arith in
                  let says : Says t e.1 (overwrite x.1 m) =
                    rw it (own.0, own.1, refl, refl, refl, refl) in
                  rw (update_all, known) (rest s (overwrite x.1 m) found own (inl says))
              | inr other ↦
                  let found : members.find_unique s k ≡ some m = ground arith in
                  rw (update_all, known)
                    (rest s m found own
                      (later x e es existing k (rw known (λ p. absurd (ground arith))) goal))
            ]
      ]

  -- The member behind a code that is known.
  existing_member :
      (ms : members.State) (t : ℕ) (code : Text) (id : ℕ)
      → existing_in members check trim attribute_keys ms t code ≡ some id
      → (m : Member A) × (members.find_unique ms id ≡ some m) × (m.tenant_id ≡ t) × (m.code ≡ code)
  existing_member ms t code id e =
      let own : Member A → Bool = λ m. text_eq m.code code && m.tenant_id == t in
      elim (Option-cases (members.find_first ms own)) [
        | inl gone ↦ absurd (ground arith)
        | inr (m, found) ↦
            let (there, fits) = members.find_first_sound ms own m found in
            let named : m.id ≡ id = ground arith in
            (
              m,
              ap (members.find_unique ms) (sym named) ∙ there,
              ground arith,
              (text_eq_iff m.code code).0 (ground arith),
            )
      ]

  module _ (new_id : ℕ → ℕ) (t : ℕ) (update_existing : Bool) (es : List (ℕ × Parsed A))
      (ms : members.State) (distinct : (a b : ℕ) → new_id a ≡ new_id b → a ≡ b)
      (unused : (row : ℕ) → members.find_unique ms (new_id row) ≡ none) (apart : Apart es) where
    abbrev existing : Text → Option ℕ
    existing = existing_in members check trim attribute_keys ms t

    abbrev planned_rows : Plan A
    planned_rows = plan existing update_existing es

    abbrev committed : members.State
    committed = commit members check trim attribute_keys new_id t existing planned_rows ms

    abbrev created : members.State
    created = create_all members.create (new_rows new_id t planned_rows.to_create) ms

    created-IsWritten :
        (e : ℕ × Parsed A) → Memᴰ e es → Memᴰ e planned_rows.to_create → IsWritten t committed e
    unfolding commit
    created-IsWritten e listed new =
        let k = new_id e.0 in
        let there =
          created_there new_id t planned_rows.to_create ms e distinct
            (λ other m same.
              one_row es e other apart listed (planned existing update_existing es other (inl m))
                (inl same))
            (inr new) in
        let (m, found, says) =
          update_there t existing planned_rows.to_update created k e (member_row k t e.1)
            (λ other q known.
              let (n, stored, of_tenant, of_code) = existing_member ms t other.1.code k known in
              absurd (cc (sym (unused e.0) ∙ stored)))
            there (refl, refl) (inl (refl, refl, refl, refl, refl, refl)) in
        (k, m, found, says)

    updated-IsWritten :
        (e : ℕ × Parsed A) (id : ℕ)
        → Memᴰ e es
        → Memᴰ e planned_rows.to_update
        → existing e.1.code ≡ some id
        → IsWritten t committed e
    unfolding commit
    updated-IsWritten e id listed changed known =
        let (old, stored, of_tenant, of_code) = existing_member ms t e.1.code id known in
        let there =
          created_kept new_id t planned_rows.to_create ms id
            (λ row same. absurd (cc (sym (unused row) ∙ ap (members.find_unique ms) same ∙ stored)))
          ∙ stored in
        let (m, found, says) =
          update_there t existing planned_rows.to_update created id e old
            (λ other q which.
              let (n, stored', of_tenant', of_code') = existing_member ms t other.1.code id which in
              let same : n ≡ old = cc (sym stored' ∙ stored) in
              one_row es e other apart listed (planned existing update_existing es other (inr q))
                (inr (sym of_code' ∙ ap (λ q. q.code) same ∙ of_code)))
            there (of_tenant, of_code) (inr (changed, known)) in
        (id, m, found, says)

    -- After the commit of a plan without clashes, each row of the file is written.
    pub commit-IsWritten : planned_rows.clashes ≡ [] → All (IsWritten t committed) es
    commit-IsWritten clear = All-of _ es (λ e listed.
        elim (plan_cases existing update_existing es e clear listed) [
          | inl new ↦ created-IsWritten e listed new
          | inr (changed, (id, known)) ↦ updated-IsWritten e id listed changed known
        ])
