-- ===== src/Antispoof.antt =====
-- The scoring of presentation attacks: apps/api/src/face/antispoof.client.ts. The service is outside
-- of the repository; the label of a score is not read by anything.
mod Tests
use face_cam.Prelude.{
  ℕ, ◌≡◌, refl, inl, inr, Bool, true, false, ◌&&◌, Option, none, some, List, ◌++◌, leb,
  if◌then◌else◌, Text, codes, Option-cases, Bool-cases, arith,
}
use face_cam.Face.{Image, SpoofResult, exceeds}
use face_cam.Enrolment.{spoofed}

pub data Mode : Type 0 where
  log enforce : Mode

pub record AntiSpoofConfig : Type 0 where
  pub url : Text
  pub enabled : Bool
  pub mode : Mode

-- The JSON body of a score.
pub record ScorePayload : Type 0 where
  pub spoof_score : Option ℕ
  pub ready : Bool

pub record ScoreResponse : Type 0 where
  pub status : ℕ
  -- `response.json()`, none where it throws
  pub payload : Option ScorePayload

abbrev pub unknown : SpoofResult
unknown = record { score = none; ready = false }

abbrev pub response_ok : ScoreResponse → Bool
response_ok response = leb 200 response.status && leb response.status 299

abbrev read_payload : Option ScorePayload → SpoofResult
read_payload none = unknown
read_payload (some payload) = record { score = payload.spoof_score; ready = payload.ready }

-- Whatever is thrown is swallowed.
abbrev read_score : Option ScoreResponse → SpoofResult
read_score none = unknown
read_score (some response) = if response_ok response then read_payload response.payload else unknown

-- `this.config.antiSpoof.mode === 'enforce'`
abbrev is_enforce : Mode → Bool
is_enforce log = false
is_enforce enforce = true

pub enforcing : AntiSpoofConfig → Bool
enforcing config = config.enabled && is_enforce config.mode

enforced : (mode : Mode) → is_enforce mode ≡ true → mode ≡ enforce
enforced log e = absurd (ground arith)
enforced enforce e = refl

-- The upload of an image within five seconds, none where it throws.
module _ (fetch : Text → Image → Option ScoreResponse) where
  pub score : AntiSpoofConfig → Image → SpoofResult
  score config image =
      if config.enabled then read_score (fetch (config.url ++ codes "/score") image) else unknown

  -- An enrolment refuses an image as spoofed only if scoring is enabled and enforced, and the
  -- service answered with success, with weights installed and a score above the threshold: an outage
  -- of the service refuses no image.
  pub spoofed_sound :
      (config : AntiSpoofConfig) (image : Image) (threshold : Option ℕ)
      → spoofed (enforcing config) (score config image) threshold ≡ true
      → (config.enabled ≡ true)
        × (config.mode ≡ enforce)
        × ((response : ScoreResponse) × (payload : ScorePayload) × (fetch
                (config.url ++ codes "/score")
                image
              ≡ some response)
            × (response_ok response ≡ true)
            × (response.payload ≡ some payload)
            × (payload.ready ≡ true)
            × (exceeds payload.spoof_score threshold ≡ true))
  unfolding enforcing score
  spoofed_sound config image threshold refused = elim (Bool-cases config.enabled) [
    | inr disabled ↦ absurd (ground arith)
    | inl enabled ↦ elim (Option-cases (fetch (config.url ++ codes "/score") image)) [
      | inl thrown ↦ absurd (ground arith)
      | inr (response, answered) ↦ elim (Bool-cases (response_ok response)) [
        | inr failed ↦ absurd (ground arith)
        | inl fine ↦ elim (Option-cases response.payload) [
          | inl bad ↦ absurd (ground arith)
          | inr (payload, read) ↦ (
            enabled,
            enforced config.mode (ground arith),
            (response, payload, answered, fine, read, ground arith, ground arith),
          )
        ]
      ]
    ]
  ]
