-- ===== src/Tests/SharedMemory.antt =====
-- Runs of app/helper_ipc.c, and instances of its theorems.
use whitenoise_linux.Base.{[], ◌∷◌, Bytes, none, some, write_at, ◌≡◌, refl}
use whitenoise_linux.SharedMemory.Access.{exchange}
use whitenoise_linux.SharedMemory.Words.{latest, exchange-latest}

abbrev mapping : Bytes
mapping = 1 ∷ 2 ∷ 3 ∷ 4 ∷ 5 ∷ 6 ∷ []

-- Another thread changes the second byte while the first is written.
raced :
    exchange (1 ∷ 2 ∷ 3 ∷ 4 ∷ []) (9 ∷ []) 0 (some (1 ∷ 7 ∷ 3 ∷ 4 ∷ []) ∷ none ∷ [])
    ≡ some (9 ∷ 7 ∷ 3 ∷ 4 ∷ [])
unfolding exchange
raced = refl

exchange-latest_example :
    9 ∷ 7 ∷ 3 ∷ 4 ∷ []
    ≡ write_at (latest (1 ∷ 2 ∷ 3 ∷ 4 ∷ []) (some (1 ∷ 7 ∷ 3 ∷ 4 ∷ []) ∷ none ∷ [])) 0 (9 ∷ [])
exchange-latest_example =
    exchange-latest (1 ∷ 2 ∷ 3 ∷ 4 ∷ []) (9 ∷ []) (9 ∷ 7 ∷ 3 ∷ 4 ∷ []) 0
      (some (1 ∷ 7 ∷ 3 ∷ 4 ∷ []) ∷ none ∷ []) raced
