-- ===== src/Antispoof/Tests.antt =====
-- A run of the scoring of an image that is refused.
use face_cam.Prelude.{◌≡◌, refl, true, Option, some, [], ◌++◌, Text, codes}
use face_cam.Face.{Image, exceeds}
use face_cam.Antispoof.{
  enforce, AntiSpoofConfig, ScorePayload, ScoreResponse, response_ok, enforcing, score,
  spoofed_sound,
}

abbrev config : AntiSpoofConfig
config = record { url = codes "http://spoof"; enabled = true; mode = enforce }

abbrev answer : Text → Image → Option ScoreResponse
answer url image =
    some (record { status = 200; payload = some (record { spoof_score = some 90; ready = true }) })

abbrev frame : Image
frame = record { bytes = []; byte_length = 0 }

spoofed_sound_example :
    (true ≡ true)
    × (enforce ≡ enforce)
    × ((response : ScoreResponse) × (payload : ScorePayload) × (answer
            (codes "http://spoof" ++ codes "/score")
            frame
          ≡ some response)
        × (response_ok response ≡ true)
        × (response.payload ≡ some payload)
        × (payload.ready ≡ true)
        × (exceeds payload.spoof_score (some 80) ≡ true))
unfolding enforcing score
spoofed_sound_example = spoofed_sound answer config frame (some 80) refl
