-- ===== src/Web/Form.antt =====
-- The form of a member, apps/web/src/components/members/member-form.tsx, and what the schema of the
-- API makes of the consent that it sends.
use face_cam.Prelude.{
  ◌≡◌, ◌≢◌, refl, sym, ap, ◌∙◌, ◌⊎◌, inl, inr, Bool, true, false, ◌&&◌, not, some, List, [], ◌∷◌,
  if◌then◌else◌, Text, codes, Bool-cases,
}
use face_cam.Templates.{FieldDefinition}
use face_cam.Members.{consent_version}
use face_cam.FieldSchema.Values.{Value, undefined, string, object, Entries, end, entry, get}
use face_cam.FieldSchema.Schemas.{Zod}
use face_cam.FieldSchema.Payload.{UniqueKeys, build_member_schema-IsMember}
use face_cam.FieldSchema.{build_member_schema}

-- The state of the form.
pub record FormState (N : Type 0) : Type 0 where
  pub code : Text
  pub full_name : Text
  pub email : Text
  pub phone : Text
  pub attributes : Entries N
  -- The box is ticked.
  pub consent : Bool
  -- `Boolean(member?.consentAt)`
  pub already_consented : Bool

module _ {N : Type 0} where
  -- `text || undefined`
  abbrev or_undefined : Text → Value N
  or_undefined [] = undefined
  or_undefined (c ∷ s) = string (c ∷ s)

  -- `{ granted: true, version: CONSENT_VERSION }`
  abbrev given_consent : Value N
  given_consent = object (
      entry (codes "granted") (Value.boolean true)
        (entry (codes "version") (string consent_version) end))

  abbrev consent_entry : Bool → Entries N
  consent_entry false = end
  consent_entry true = entry (codes "consent") given_consent end

  -- `payload` of `onSubmit`
  unfoldable pub form_payload : FormState N → Entries N
  form_payload form = entry (codes "code") (string form.code) (
      entry (codes "fullName") (string form.full_name) (
        entry (codes "email") (or_undefined form.email) (
          entry (codes "phone") (or_undefined form.phone) (
            entry (codes "attributes") (object form.attributes)
              (consent_entry (form.consent && not form.already_consented))))))

  object_inj : {es fs : Entries N} → ◌≡◌ {A = Value N} (object es) (object fs) → es ≡ fs
  object_inj e = cc

  undefined-ne_object : {es : Entries N} → ◌≢◌ {A = Value N} undefined (object es)
  undefined-ne_object = cc

  granted_given :
      get {N = N} (codes "granted") (
        entry
          (codes "granted")
          (Value.boolean true)
          (entry (codes "version") (string consent_version) end))
      ≡ Value.boolean true
  unfolding get
  granted_given = refl

  payload_consent :
      (form : FormState N) (b : Bool)
      → (form.consent && not form.already_consented) ≡ b
      → get (codes "consent") (form_payload form) ≡ (if b then given_consent else undefined)
  unfolding form_payload get
  payload_consent form true same = rw same refl
  payload_consent form false same = rw same refl

module _ {N : Type 0} (z : Zod N) (is_date : Text → Bool) where
  -- The form records a consent only if its box is ticked and the member has none: when the API
  -- accepts its payload, the member that is stored then has a consent block with `granted` true, and
  -- otherwise no consent block. No two definitions share a key.
  pub form_payload-IsMember :
      (fields : List FieldDefinition) (form : FormState N) (w : Value N)
      → UniqueKeys fields
      → z.parse (build_member_schema z is_date fields) (object (form_payload form)) ≡ some w
      → (stored : Entries N) × (w ≡ object stored)
        × (((form.consent && not form.already_consented ≡ false)
              × (get (codes "consent") stored ≡ undefined))
            ⊎ ((form.consent && not form.already_consented ≡ true)
                × ((kept : Entries N) × (get (codes "consent") stored ≡ object kept)
                    × (get (codes "granted") kept ≡ Value.boolean true))))
  form_payload-IsMember fields form w unique e =
      let (sent, stored, given, same, member) =
        build_member_schema-IsMember z is_date fields (object (form_payload form)) w unique e in
      let sends = form.consent && not form.already_consented in
      let here = sym (ap (get (codes "consent")) (object_inj given)) in
      elim (Bool-cases sends) [
        | inr silent ↦
            let nothing = here ∙ payload_consent form false silent in
            elim member.consent [
              | inl (absent, none_kept) ↦ (stored, same, inl (silent, none_kept))
              | inr block ↦ absurd (undefined-ne_object (sym nothing ∙ block.sent-given))
            ]
        | inl ticked ↦
            let given_here = here ∙ payload_consent form true ticked in
            elim member.consent [
              | inl (absent, none_kept) ↦ absurd (undefined-ne_object (sym absent ∙ given_here))
              | inr block ↦ (
                stored,
                same,
                inr (
                  ticked,
                  (
                    block.kept,
                    block.stored-kept,
                    block.granted_kept
                        ∙ sym block.granted_sent
                        ∙ ap (get (codes "granted"))
                            (object_inj (sym block.sent-given ∙ given_here))
                        ∙ granted_given,
                  ),
                ),
              )
            ]
      ]
