-- ===== src/Members/Consent.antt =====
-- A recorded consent stays on record through the ordinary writes of the service.
use face_cam.Prelude.{
  ℕ, ◌≡◌, inl, inr, refl, sym, ap, ◌∙◌, Bool, true, Option, none, some, is_some, ◌==◌, ==_iff,
  if◌then◌else◌, arith, Bool-cases,
}
use face_cam.Context.{user_id_of}
use face_cam.Rows.{Member}
use face_cam.Store.{Table}
use face_cam.Members.{
  with_consent, MemberWriteInput, own, new_member, edited, to_archive, to_restore,
}
use face_cam.Members.Effects.{create_effect, update_effect, archive_effect, restore_effect}
use face_cam.Members.Codes.{Step, Reach, here, next, new_member_keeps, edited_keeps}

-- The same member with the same consent.
pub record SameConsent {A : Type 0} (m m' : Member A) : Type 0 where
  pub id : m'.id ≡ m.id
  pub given : m'.consent_at ≡ m.consent_at
  pub version : m'.consent_version ≡ m.consent_version
  pub recorded_by : m'.consent_recorded_by ≡ m.consent_recorded_by

module _ {A : Type 0} where
  unchanged : {m : Member A} → SameConsent m m
  unchanged = record { id = refl; given = refl; version = refl; recorded_by = refl }

  SameConsent-trans : (a b c : Member A) → SameConsent a b → SameConsent b c → SameConsent a c
  SameConsent-trans a b c p q = record {
    id = q.id ∙ p.id;
    given = q.given ∙ p.given;
    version = q.version ∙ p.version;
    recorded_by = q.recorded_by ∙ p.recorded_by;
  }

  abbrev plain_edit : MemberWriteInput A → Member A → Member A
  plain_edit input m = record m {
    code = input.code;
    full_name = input.full_name;
    email = input.email;
    phone = input.phone;
    attributes = input.attributes;
  }

  edited-consenting :
      (now since : ℕ) (user : Option ℕ) (input : MemberWriteInput A) (m : Member A)
      → m.consent_at ≡ some since
      → edited now user input m ≡ plain_edit input m
  edited-consenting now since user input m given =
      let flag : is_some m.consent_at ≡ true = ap is_some given in
      ap (λ b. with_consent now user (if b then none else input.consent) (plain_edit input m)) flag

  edited-SameConsent :
      (now since : ℕ) (user : Option ℕ) (input : MemberWriteInput A) (m : Member A)
      → m.consent_at ≡ some since
      → SameConsent m (edited now user input m)
  edited-SameConsent now since user input m given = record {
    id = (edited_keeps now user input m).0;
    given = ap (λ q. q.consent_at) (edited-consenting now since user input m given);
    version = ap (λ q. q.consent_version) (edited-consenting now since user input m given);
    recorded_by = ap (λ q. q.consent_recorded_by) (edited-consenting now since user input m given);
  }

module _ {A : Type 0} (members : Table (Member A) (λ m. m.id)) where
  -- A member of the table with this consent.
  abbrev pub StillConsents : members.State → Member A → Type 0
  StillConsents ms m = (m' : Member A) × (members.find_unique ms m.id ≡ some m') × SameConsent m m'

  update_many-StillConsents :
      (ms : members.State) (p : Member A → Bool) (f : Member A → Member A) (m : Member A)
      → ((q : Member A) → (f q).id ≡ q.id)
      → SameConsent m (f m)
      → members.find_unique ms m.id ≡ some m
      → StillConsents (members.update_many p f ms) m
  update_many-StillConsents ms p f m keeps same there =
      let law = members.find_unique-update_many ms p f m.id keeps in
      elim (Bool-cases (p m)) [
        | inl hit ↦ (f m, ground (arith, law), same)
        | inr missed ↦ (m, ground (arith, law), unchanged)
      ]

  Step-StillConsents :
      (ms ms' : members.State) (m : Member A) (since : ℕ)
      → Step members ms ms'
      → members.find_unique ms m.id ≡ some m
      → m.consent_at ≡ some since
      → StillConsents ms' m
  Step-StillConsents ms ms' m since (Step.created ctx id now input fresh e) there given =
      elim (create_effect members id now input ctx ms) [
        | inl same ↦ rw (e, same) (m, there, unchanged)
        | inr done ↦
            let row = new_member id done.t now (user_id_of ctx) input in
            let i = (new_member_keeps id done.t now (user_id_of ctx) input).0 in
            let law = members.find_unique-create ms row m.id in
            elim (Bool-cases (row.id == m.id)) [
              | inl hit ↦
                  let same_id : id ≡ m.id = sym i ∙ (==_iff row.id m.id).0 hit in
                  let taken : none ≡ some m =
                    sym fresh ∙ ap (λ k. members.find_unique ms k) same_id ∙ there in
                  cc
              | inr missed ↦ (m, rw (e, done.written) (ground (arith, law)), unchanged)
            ]
      ]
  Step-StillConsents ms ms' m since (Step.updated ctx now id input e) there given =
      elim (update_effect members now id input ctx ms) [
        | inl same ↦ rw (e, same) (m, there, unchanged)
        | inr done ↦
            rw (e, done.written)
              (update_many-StillConsents ms (own done.t done.m.id)
                (edited now (user_id_of ctx) input) m
                (λ q. (edited_keeps now (user_id_of ctx) input q).0)
                (edited-SameConsent now since (user_id_of ctx) input m given) there)
      ]
  Step-StillConsents ms ms' m since (Step.archived ctx now id e) there given =
      elim (archive_effect members now id ctx ms) [
        | inl same ↦ rw (e, same) (m, there, unchanged)
        | inr done ↦
            rw (e, done.written)
              (update_many-StillConsents ms (own done.t done.m.id) (to_archive now) m (λ q. refl)
                (record { id = refl; given = refl; version = refl; recorded_by = refl }) there)
      ]
  Step-StillConsents ms ms' m since (Step.restored ctx id e) there given =
      elim (restore_effect members id ctx ms) [
        | inl same ↦ rw (e, same) (m, there, unchanged)
        | inr done ↦
            rw (e, done.written)
              (update_many-StillConsents ms (own done.t done.m.id) to_restore m (λ q. refl)
                (record { id = refl; given = refl; version = refl; recorded_by = refl }) there)
      ]

  -- A consent that is on record stays on record, with its time, its version and who recorded it,
  -- through any sequence of creations, edits, archivings and restorations, whatever consent their
  -- inputs carry.
  pub Reach-StillConsents :
      (ms ms' : members.State) (m : Member A) (since : ℕ)
      → Reach members ms ms'
      → members.find_unique ms m.id ≡ some m
      → m.consent_at ≡ some since
      → StillConsents ms' m
  Reach-StillConsents ms ms' m since here there given = (m, there, unchanged)
  Reach-StillConsents ms ms' m since (next {u} {v} run last) there given =
      let (m₁, there₁, same₁) = Reach-StillConsents ms u m since run there given in
      let (m₂, there₂, same₂) =
        Step-StillConsents u v m₁ since last (ap (λ k. members.find_unique u k) same₁.id ∙ there₁)
          (same₁.given ∙ given) in
      (
        m₂,
        ap (λ k. members.find_unique v k) (sym same₁.id) ∙ there₂,
        SameConsent-trans m m₁ m₂ same₁ same₂,
      )
