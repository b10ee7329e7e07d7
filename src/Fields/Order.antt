-- ===== src/Fields/Order.antt =====
-- Where a new field stands among the fields of its organization.
use face_cam.Prelude.{
  ℕ, ◌+◌, ◌≤◌, ◌<◌, ◌≡◌, ◌≢◌, inl, inr, refl, true, ◌&&◌, some, List, [], ◌∷◌, text_eq, text_eq_iff,
  ◌==◌, ==_refl, ==_iff, arith, Option-cases,
}
use mathlib.Core.List.{Memᴰ}
use face_cam.Prelude.Errors.{ok}
use face_cam.Rows.{MemberFieldDefinition}
use face_cam.Store.{Table}
use face_cam.Fields.{CreateFieldInput, field_row, last_order, create_in}

last_order_le :
    (f : MemberFieldDefinition) (fs : List MemberFieldDefinition)
    → Memᴰ f fs
    → f.sort_order ≤ last_order fs
unfolding last_order
last_order_le f [] h = elim h [ ]
last_order_le f (g ∷ fs) (Memᴰ.head e) = ground arith
last_order_le f (g ∷ fs) (Memᴰ.tail h) = ground (arith, last_order_le f fs h)

module _ (fields : Table MemberFieldDefinition (λ f. f.id)) where
  -- A field that `create` stores has the given key, which no field of the organization had, not
  -- an archived one either, and it comes after all of them in the order of display.
  pub create_in_sound :
      (id t : ℕ) (input : CreateFieldInput) (fs fs' : fields.State) (row : MemberFieldDefinition)
      (k : ℕ) (f : MemberFieldDefinition)
      → create_in fields id t input fs ≡ (ok row, fs')
      → fields.find_unique fs k ≡ some f
      → f.tenant_id ≡ t
      → (fields.find_unique fs' id ≡ some row)
        × (row.key ≡ input.key)
        × (f.key ≢ row.key)
        × (f.sort_order < row.sort_order)
  unfolding create_in
  create_in_sound id t input fs fs' row k f e there theirs =
      elim (Option-cases
        (fields.find_first fs (λ q. text_eq q.key input.key && q.tenant_id == t))) [
          | inr (clash, found) ↦ absurd (ground arith)
          | inl unused ↦
              let own : (f.tenant_id == t) ≡ true = ground (arith, ==_iff f.tenant_id t) in
              let missed =
                fields.find_first_none fs (λ q. text_eq q.key input.key && q.tenant_id == t) k f
                  unused there in
              let listed = fields.find_many_complete fs (λ q. q.tenant_id == t) k f there own in
              let below = last_order_le f (fields.find_many fs (λ q. q.tenant_id == t)) listed in
              let made =
                field_row id t (last_order (fields.find_many fs (λ q. q.tenant_id == t)) + 10)
                  input in
              let same : row ≡ made = ground arith in
              let law = fields.find_unique-create fs made id in
              let stored : fields.find_unique fs' id ≡ some made =
                ground (arith, law, ==_refl id) in
              let other_key : f.key ≢ input.key = ground (arith, text_eq_iff f.key input.key) in
              (rw same stored, rw same refl, rw same other_key, rw same (omega (arith, below)))
        ]
