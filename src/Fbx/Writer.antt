-- ===== src/Fbx/Writer.antt =====
-- `Writer` of app/fbx_helper.c, which measures a message while it has no memory, and fills it then.
use whitenoise_linux.Base.{
  ℕ, ◌+◌, ◌-◌, ◌*◌, ◌/◌, ◌^◌, List, [], ◌∷◌, ◌++◌, Bytes, Bool, true, false, not, ◌||◌, Option,
  none, some, ltb, ◌==◌, if◌then◌else◌, length,
}
use whitenoise_linux.Decoder.Wire.{model_output_max, put}

-- `room` is the capacity of the memory, if there is one; `content` what was copied to it.
pub record Writer : Type 0 where
  pub room : Option ℕ
  pub size : ℕ
  pub content : Bytes
  pub good : Bool

abbrev pub measuring : Writer
measuring = record { room = none; size = 0; content = []; good = true }

abbrev pub filling : ℕ → Writer
filling capacity = record { room = some capacity; size = 0; content = []; good = true }

abbrev pub spoiled : Writer → Writer
spoiled w = record w { good = false }

-- w->data && n > w->capacity - w->size
abbrev pub no_room : Option ℕ → ℕ → ℕ → Bool
no_room none size n = false
no_room (some capacity) size n = ltb (capacity - size) n

abbrev pub copied : Option ℕ → Bytes → Bytes → Bytes
copied none content d = content
copied (some capacity) content d = content ++ d

-- bytes: `n` bytes at `d`.
unfoldable pub bytes : Writer → Bytes → ℕ → Writer
bytes w d n =
    if not w.good || ltb (model_output_max - w.size) n || no_room w.room w.size n
    then spoiled w
    else record w { size = w.size + n; content = copied w.room w.content d }

-- u32
abbrev pub word : Writer → ℕ → Writer
word w v = bytes w (put v) 4

-- A float or a double by its bits, and whether it is finite.
pub record Float : Type 0 where
  pub bits : ℕ
  pub finite : Bool

unfoldable pub f32 : Writer → Float → Writer
f32 w v = if not v.finite then spoiled w else word w v.bits

unfoldable pub f64 : Writer → Float → Writer
f64 w v = if not v.finite then spoiled w else word (word w v.bits) (v.bits / 2 ^ 32)

-- A loop that stops when the writer is spoiled.
unfoldable pub each_good {ℓ} : {A : Type ℓ} → (Writer → A → Writer) → Writer → List A → Writer
each_good op w [] = w
each_good op w (x ∷ xs) = let rest = each_good op (op w x) xs in if w.good then rest else w

-- A loop that goes to its end.
unfoldable pub each {ℓ} : {A : Type ℓ} → (Writer → A → Writer) → Writer → List A → Writer
each op w [] = w
each op w (x ∷ xs) = each op (op w x) xs

-- floats: measured at once, written one by one.
unfoldable pub floats : Writer → List Float → Writer
floats w vs = elim w.room [ none ↦ bytes w [] (length vs * 4) | some capacity ↦ each_good f32 w vs ]

abbrev pub max_string : ℕ
max_string = 4096

abbrev pub string_bytes : Option Bytes → Bytes
string_bytes none = []
string_bytes (some s) = s

-- string; the text is NULL or ends at its NUL.
unfoldable pub string : Writer → Option Bytes → Writer
string w s =
    let d = string_bytes s in
    if ltb max_string (length d)
    then spoiled w
    else if length d == 0
    then word w (length d)
    else bytes (word w (length d)) d (length d)
