-- ===== src/Fbx/Measure.antt =====
-- The two passes of metadata of app/fbx_helper.c agree.
use mathlib.Core.Bool.{false≢true}
use whitenoise_linux.Base.{
  ℕ, ◌+◌, ◌-◌, ◌≤◌, Bytes, Bool, true, false, not, ◌||◌, none, some, ltb, length, ◌≡◌, refl, sym,
  ◌∙◌, arith, inl, inr, Bool-cases, length-append,
}
use whitenoise_linux.Decoder.Wire.{model_output_max}
use whitenoise_linux.Fbx.Writer.{Writer, no_room, copied, bytes}

-- As long as the filling writer is good, so is the measuring one, they are as far, and the content is
-- as long as they say.
pub record Agree (capacity : ℕ) (m f : Writer) : Type 0 where
  pub measures : m.room ≡ none
  pub fills : f.room ≡ some capacity
  pub both_good : m.good ≡ true
  pub same_size : m.size ≡ f.size
  pub filled : length f.content ≡ f.size
  pub within : f.size ≤ capacity
  pub small : f.size ≤ model_output_max

abbrev pub Sim : ℕ → Writer → Writer → Type 0
Sim capacity m f = f.good ≡ true → Agree capacity m f

pub bytes-good : (w : Writer) (d : Bytes) (n : ℕ) → (bytes w d n).good ≡ true → w.good ≡ true
unfolding bytes
bytes-good w d n e = ground arith

abbrev pub stops : Writer → ℕ → Bool
stops w n = not w.good || ltb (model_output_max - w.size) n || no_room w.room w.size n

pub bytes_go :
    (w : Writer) (d : Bytes) (n : ℕ)
    → stops w n ≡ false
    → bytes w d n ≡ record w { size = w.size + n; content = copied w.room w.content d }
unfolding bytes
bytes_go w d n e = rw e refl

pub bytes_stop : (w : Writer) (d : Bytes) (n : ℕ) → stops w n ≡ true → (bytes w d n).good ≡ false
unfolding bytes
bytes_stop w d n e = rw e refl

pub bytes-Sim :
    (capacity : ℕ) (m f : Writer) (d d' : Bytes) (n : ℕ)
    → length d ≡ n
    → Sim capacity m f
    → Sim capacity (bytes m d' n) (bytes f d n)
bytes-Sim capacity m f d d' n size sim e = elim (Bool-cases (stops f n)) [
  | inl stop ↦ absurd (false≢true (sym (bytes_stop f d n stop) ∙ e))
  | inr go ↦
      let v = sim (bytes-good f d n e) in
      let fits : n ≤ model_output_max - f.size = ground arith in
      let room : ltb (capacity - f.size) n ≡ false = room_left v.fills go in
      let m_go : stops m n ≡ false = rw (v.measures, v.both_good, v.same_size) (ground arith) in
      rw (bytes_go f d n go, bytes_go m d' n m_go)
        (record {
          measures = v.measures;
          fills = v.fills;
          both_good = v.both_good;
          same_size = omega (arith, v.same_size);
          filled = rw v.fills (omega (arith, length-append f.content d, v.filled));
          within = ground (arith, v.within);
          small = ground (arith, v.small);
        })
]
  where
    room_left : f.room ≡ some capacity → stops f n ≡ false → ltb (capacity - f.size) n ≡ false
    room_left e go = ground (arith, rw e at go)
