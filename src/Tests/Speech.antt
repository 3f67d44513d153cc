-- ===== src/Tests/Speech.antt =====
-- Runs of app/speech_decode.h, and instances of its theorems.
use whitenoise_linux.Base.{[], ◌∷◌, some, ◌≡◌, refl}
use whitenoise_linux.Speech.Input.{AudioInput, audio_read}

abbrev tape : AudioInput
tape = record { data_bytes = 1 ∷ 2 ∷ 3 ∷ []; position = 1 }

read_rest : audio_read tape 8 ≡ (some (2 ∷ 3 ∷ []), record tape { position = 3 })
unfolding audio_read
read_rest = refl
