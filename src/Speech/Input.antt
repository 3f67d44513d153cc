-- ===== src/Speech/Input.antt =====
-- audio_read and audio_seek of app/speech_decode.h.
use whitenoise_linux.Base.Int.{ℤ, pos, negsuc}
use whitenoise_linux.Base.{
  ℕ, suc, ◌+◌, ◌-◌, ◌≤◌, ◌<◌, min, Bytes, Option, none, some, ltb, ◌==◌, if◌then◌else◌, length,
  take, drop, ◌≡◌, refl, sym, ap, arith, ◌⊎◌, inl, inr, Bool-cases, length-take, length-drop,
}

-- AudioInput: the mapping and the position in it; its deadline has no part here.
pub record AudioInput : Type 0 where
  pub data_bytes : Bytes
  pub position : ℕ

-- The position is in the mapping.
abbrev pub InRange : AudioInput → Type 0
InRange a = a.position ≤ length a.data_bytes

-- audio_read into a buffer of `size` bytes: the bytes read, or `none` for AVERROR_EOF.
unfoldable pub audio_read : AudioInput → ℕ → Option Bytes × AudioInput
audio_read a size =
    let count = min size (length a.data_bytes - a.position) in
    if count == 0 then (none, a) else (
      some (take count (drop a.position a.data_bytes)),
      record a { position = a.position + count },
    )

-- AVSEEK_SIZE, SEEK_SET, SEEK_CUR, SEEK_END, or another; AVSEEK_FORCE is cleared.
pub data Whence : Type 0 where
  avseek_size seek_set seek_cur seek_end seek_other : Whence

-- The base of a seek; `none` is -1.
abbrev pub base_of : AudioInput → Whence → Option ℕ
base_of a seek_set = some 0
base_of a seek_cur = some a.position
base_of a seek_end = some (length a.data_bytes)
base_of a _ = none

-- base + offset, if offset is neither below -base nor above size - base.
abbrev pub target : ℕ → ℕ → ℤ → Option ℕ
target size base (pos n) = if ltb (size - base) n then none else some (base + n)
target size base (negsuc n) = if ltb base (suc n) then none else some (base - suc n)

abbrev pub seek_to : AudioInput → Option ℕ → Option ℕ × AudioInput
seek_to a none = (none, a)
seek_to a (some position) = (some position, record a { position = position })

abbrev pub seek_from : AudioInput → Option ℕ → ℤ → Option ℕ × AudioInput
seek_from a none offset = (none, a)
seek_from a (some base) offset = seek_to a (target (length a.data_bytes) base offset)

-- audio_seek: the new position or the size, or `none` for AVERROR(EINVAL).
unfoldable pub audio_seek : AudioInput → ℤ → Whence → Option ℕ × AudioInput
audio_seek a offset avseek_size = (some (length a.data_bytes), a)
audio_seek a offset whence = seek_from a (base_of a whence) offset

-- Reading gives the next bytes of the mapping, at most as many as asked for and at least one before
-- the end, and moves behind them.
pub audio_read-InRange :
    (a : AudioInput) (size : ℕ)
    → InRange a
    → 0 < size
    → let (read, a') = audio_read a size in
      InRange a'
      × (((read ≡ none) × (a.position ≡ length a.data_bytes) × (a' ≡ a))
          ⊎ ((d : Bytes) × (read ≡ some d)
              × (0 < length d)
              × (length d ≤ size)
              × (d ≡ take (length d) (drop a.position a.data_bytes))
              × (a'.position ≡ a.position + length d)))
unfolding audio_read
audio_read-InRange a size v some_room =
    elim (Bool-cases (min size (length a.data_bytes - a.position) == 0)) [
      | inl over ↦ rw over (v, inl (refl, ground arith, refl))
      | inr more ↦
          let count = min size (length a.data_bytes - a.position) in
          let d = take count (drop a.position a.data_bytes) in
          let long : length d ≡ count = omega (
            arith,
            length-take count (drop a.position a.data_bytes),
            length-drop a.position a.data_bytes,
          ) in
          rw more (
            omega (arith, v),
            inr (
              d,
              refl,
              ground (arith, long),
              omega (arith, long),
              ap (λ (n : ℕ). take n (drop a.position a.data_bytes)) (sym long),
              omega (arith, long),
            ),
          )
    ]

-- A seek that moves is to a position in the mapping, which it returns; one that fails does not move.
abbrev pub Sought : AudioInput → Option ℕ × AudioInput → Type 0
Sought a (none, a') = a' ≡ a
Sought a (some n, a') = InRange a' × (n ≤ length a.data_bytes) × (a'.data_bytes ≡ a.data_bytes)

Sought-moved : (a : AudioInput) (n : ℕ) → n ≤ length a.data_bytes → Sought a (seek_to a (some n))
Sought-moved a n h = (h, h, refl)

seek_from-Sought :
    (a : AudioInput) (base : ℕ) (offset : ℤ)
    → base ≤ length a.data_bytes
    → Sought a (seek_from a (some base) offset)
seek_from-Sought a base (pos n) h = elim (Bool-cases (ltb (length a.data_bytes - base) n)) [
  | inl beyond ↦ rw beyond refl
  | inr within ↦ rw within (Sought-moved a (base + n) (ground arith))
]
seek_from-Sought a base (negsuc n) h = elim (Bool-cases (ltb base (suc n))) [
  | inl before ↦ rw before refl
  | inr within ↦ rw within (Sought-moved a (base - suc n) (omega arith))
]

-- A seek never leaves the mapping, whatever its offset: it is to a position in the mapping, or fails
-- and does not move.
pub audio_seek-Sought :
    (a : AudioInput) (offset : ℤ) (whence : Whence)
    → InRange a
    → Sought a (audio_seek a offset whence)
unfolding audio_seek
audio_seek-Sought a offset avseek_size v = (v, omega arith, refl)
audio_seek-Sought a offset seek_set v = seek_from-Sought a 0 offset (omega arith)
audio_seek-Sought a offset seek_cur v = seek_from-Sought a a.position offset v
audio_seek-Sought a offset seek_end v =
    seek_from-Sought a (length a.data_bytes) offset (omega arith)
audio_seek-Sought a offset seek_other v = refl
