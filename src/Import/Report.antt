-- ===== src/Import/Report.antt =====
-- What an import writes, and what it reports.
use face_cam.Prelude.{ℕ, ◌≡◌, ◌⊎◌, Option, none, some, List, Text}
use face_cam.Rows.{Member}
use face_cam.Store.{Table}
use face_cam.Import.{Checked, Payload}

module _ {A : Type 0} (members : Table (Member A) (λ m. m.id)) (check : Payload → Checked A)
    (trim : Text → Text) (attribute_keys : List Text) where
  -- All that a member's row says about a consent.
  abbrev pub consent_of : Member A → Option ℕ × Option Text × Option ℕ × Option ℕ × Option Text
  consent_of m = (
    m.consent_at, m.consent_version, m.consent_recorded_by, m.consent_withdrawn_at,
    m.consent_withdrawn_reason,
  )

  -- A member of the table who has no consent at all, or has what the row under that id said before.
  abbrev pub ConsentFrom : members.State → ℕ → Member A → Type 0
  ConsentFrom ms k m =
      (consent_of m ≡ (none, none, none, none, none))
      ⊎ ((before : Member A) × (members.find_unique ms k ≡ some before)
          × (consent_of before ≡ consent_of m))
