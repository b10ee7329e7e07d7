-- ===== src/Members/Roll.antt =====
-- Each write of the members' service is one change of the roll, or none.
use face_cam.Prelude.{
  ℕ, ◌≡◌, ◌⊎◌, inl, inr, refl, sym, ap, ◌∙◌, true, none, some, Text, text_eq, text_eq_iff,
  text_eq_refl, ==_iff, arith,
}
use face_cam.Context.{user_id_of}
use face_cam.Rows.{Member}
use face_cam.Store.{Table}
use face_cam.Members.{own, coded, new_member, edited, to_archive, to_restore}
use face_cam.Members.Effects.{create_effect, update_effect, archive_effect, restore_effect}
use face_cam.Members.Codes.{UniqueCodes, Step, Step-UniqueCodes, new_member_keeps, edited_keeps}
use face_cam.Members.Entries.{Change, roll, roll_right, create_rolls, move_rolls}

module _ {A : Type 0} (members : Table (Member A) (λ m. m.id)) where
  Change-move :
      (ms : members.State) (t id : ℕ) (m : Member A) (f : Member A → Member A)
      → UniqueCodes members ms
      → UniqueCodes members (members.update_many (own t m.id) f ms)
      → members.find_first ms (own t id) ≡ some m
      → ((q : Member A) → (f q).id ≡ q.id)
      → (f m).tenant_id ≡ t
      → ((f m).code ≡ m.code) ⊎ (roll members ms t (f m).code ≡ none)
      → Change (roll members ms) (roll members (members.update_many (own t m.id) f ms))
  Change-move ms t id m f unique unique' found keeps tenant code =
      let (stored, passed) = members.find_first_sound ms (own t id) m found in
      let in_t : m.tenant_id ≡ t = ground (arith, ==_iff m.tenant_id t) in
      let fits : coded t m.code m ≡ true =
        ground (arith, text_eq_refl m.code, ==_iff m.tenant_id t) in
      Change.moved t m (f m) (roll_right members ms t m.code m unique stored fits) (keeps m, tenant)
        code (λ u c. move_rolls members ms t id m f u c unique unique' found keeps tenant)

  Change-entered :
      (ms : members.State) (t : ℕ) (row : Member A)
      → UniqueCodes members ms
      → members.find_unique ms row.id ≡ none
      → row.tenant_id ≡ t
      → roll members ms t row.code ≡ none
      → Change (roll members ms) (roll members (members.create row ms))
  Change-entered ms t row unique fresh tenant free =
      let free' : roll members ms row.tenant_id row.code ≡ none =
        ap (λ k. roll members ms k row.code) tenant ∙ free in
      Change.entered row.tenant_id row refl free'
        (λ u c. create_rolls members ms row u c unique fresh free')

  stays : (ms ms' : members.State) → ms' ≡ ms → Change (roll members ms) (roll members ms')
  stays ms ms' e = Change.stay (λ u c. ap (λ s. roll members s u c) e)

  free_or_own :
      (ms : members.State) (t : ℕ) (code new : Text) (m : Member A)
      → new ≡ code
      → (text_eq code m.code ≡ true) ⊎ (roll members ms t code ≡ none)
      → (new ≡ m.code) ⊎ (roll members ms t new ≡ none)
  free_or_own ms t code new m same (inl own_code) =
      inl (same ∙ (text_eq_iff code m.code).0 own_code)
  free_or_own ms t code new m same (inr free) = inr (ap (roll members ms t) same ∙ free)

  -- Each call of the service, by any request, is one change of the rolls or none: a member enters
  -- at a code that is free, or an entry moves to a code that is free or its own, in one
  -- organization, and every other entry of every organization stays. The codes stay unique.
  pub Step-Change :
      (ms ms' : members.State)
      → Step members ms ms'
      → UniqueCodes members ms
      → Change (roll members ms) (roll members ms') × UniqueCodes members ms'
  Step-Change ms ms' step unique = (
    change ms ms' step unique (Step-UniqueCodes members ms ms' step unique),
    Step-UniqueCodes members ms ms' step unique,
  )
    where
      change :
          (ms ms' : members.State)
          → Step members ms ms'
          → UniqueCodes members ms
          → UniqueCodes members ms'
          → Change (roll members ms) (roll members ms')
      change ms ms' (Step.created ctx id now input fresh e) unique unique' =
          elim (create_effect members id now input ctx ms) [
            | inl same ↦ stays ms ms' (e ∙ same)
            | inr done ↦
                let row = new_member id done.t now (user_id_of ctx) input in
                let (i, tenant, code) = new_member_keeps id done.t now (user_id_of ctx) input in
                rw (e, done.written)
                  (Change-entered ms done.t row unique
                    (ap (λ k. members.find_unique ms k) i ∙ fresh) tenant
                    (ap (roll members ms done.t) code ∙ done.free))
          ]
      change ms ms' (Step.updated ctx now id input e) unique unique' =
          elim (update_effect members now id input ctx ms) [
            | inl same ↦ stays ms ms' (e ∙ same)
            | inr done ↦
                let f = edited now (user_id_of ctx) input in
                let (i, tenant, code) = edited_keeps now (user_id_of ctx) input done.m in
                let (stored, passed) =
                  members.find_first_sound ms (own done.t id) done.m done.found in
                let in_t : done.m.tenant_id ≡ done.t =
                  ground (arith, ==_iff done.m.tenant_id done.t) in
                rw (e, done.written)
                  (Change-move ms done.t id done.m f unique (rw (sym (e ∙ done.written)) unique')
                    done.found (λ q. (edited_keeps now (user_id_of ctx) input q).0) (tenant ∙ in_t)
                    (free_or_own ms done.t input.code (f done.m).code done.m code done.code))
          ]
      change ms ms' (Step.archived ctx now id e) unique unique' =
          elim (archive_effect members now id ctx ms) [
            | inl same ↦ stays ms ms' (e ∙ same)
            | inr done ↦
                let (stored, passed) =
                  members.find_first_sound ms (own done.t id) done.m done.found in
                rw (e, done.written)
                  (Change-move ms done.t id done.m (to_archive now) unique
                    (rw (sym (e ∙ done.written)) unique') done.found (λ q. refl)
                    (ground (arith, ==_iff done.m.tenant_id done.t)) (inl refl))
          ]
      change ms ms' (Step.restored ctx id e) unique unique' =
          elim (restore_effect members id ctx ms) [
            | inl same ↦ stays ms ms' (e ∙ same)
            | inr done ↦
                let (stored, passed) =
                  members.find_first_sound ms (own done.t id) done.m done.found in
                rw (e, done.written)
                  (Change-move ms done.t id done.m to_restore unique
                    (rw (sym (e ∙ done.written)) unique') done.found (λ q. refl)
                    (ground (arith, ==_iff done.m.tenant_id done.t)) (inl refl))
          ]
