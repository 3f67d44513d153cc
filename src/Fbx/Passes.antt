-- ===== src/Fbx/Passes.antt =====
-- metadata of app/fbx_helper.c fills exactly the memory that it measured.
use mathlib.Core.Bool.{false≢true}
use whitenoise_linux.Base.{
  ℕ, ◌+◌, ◌*◌, ◌/◌, ◌^◌, List, [], ◌∷◌, Bytes, Bool, true, false, not, Option, none, some, ltb,
  ◌==◌, if◌then◌else◌, length, ◌≡◌, refl, sym, ap, ◌∙◌, arith, inl, inr, Bool-cases, Option-cases,
  if_true, if_false, subst,
}
use whitenoise_linux.Decoder.Wire.{put, length-put}
use whitenoise_linux.Fbx.Writer.{
  Writer, spoiled, bytes, word, Float, f32, f64, each_good, each, floats, max_string, string_bytes,
  string,
}
use whitenoise_linux.Fbx.Measure.{Agree, Sim, stops, bytes_go, bytes_stop, bytes-good, bytes-Sim}

pub word-Sim :
    (capacity v : ℕ) (m f : Writer) → Sim capacity m f → Sim capacity (word m v) (word f v)
word-Sim capacity v m f sim = bytes-Sim capacity m f (put v) (put v) 4 (length-put v) sim

pub Sim-if :
    (capacity : ℕ) (b : Bool) (m m' f f' : Writer)
    → Sim capacity m f
    → Sim capacity m' f'
    → Sim capacity (if b then m else m') (if b then f else f')
Sim-if capacity true m m' f f' h k = h
Sim-if capacity false m m' f f' h k = k

pub spoiled-Sim : (capacity : ℕ) (m f : Writer) → Sim capacity m (spoiled f)
spoiled-Sim capacity m f e = absurd (false≢true e)

pub f64-Sim :
    (capacity : ℕ) (v : Float) (m f : Writer) → Sim capacity m f → Sim capacity (f64 m v) (f64 f v)
unfolding f64
f64-Sim capacity v m f sim =
    Sim-if capacity (not v.finite) (spoiled m) (word (word m v.bits) (v.bits / 2 ^ 32)) (spoiled f)
      (word (word f v.bits) (v.bits / 2 ^ 32)) (spoiled-Sim capacity (spoiled m) f)
      (word-Sim capacity (v.bits / 2 ^ 32) (word m v.bits) (word f v.bits)
        (word-Sim capacity v.bits m f sim))

pub string-Sim :
    (capacity : ℕ) (s : Option Bytes) (m f : Writer)
    → Sim capacity m f
    → Sim capacity (string m s) (string f s)
unfolding string
string-Sim capacity s m f sim =
    let d = string_bytes s in
    let n = length d in
    let sized = word-Sim capacity n m f sim in
    Sim-if capacity (ltb max_string n) (spoiled m) _ (spoiled f) _
      (spoiled-Sim capacity (spoiled m) f)
      (Sim-if capacity (n == 0) (word m n) _ (word f n) _ sized
        (bytes-Sim capacity (word m n) (word f n) d d n refl sized))

pub each-Sim :
    {A : Type 0} (capacity : ℕ) (op : Writer → A → Writer)
    → ((x : A) (m f : Writer) → Sim capacity m f → Sim capacity (op m x) (op f x))
    → (xs : List A) (m f : Writer) → Sim capacity m f
    → Sim capacity (each op m xs) (each op f xs)
unfolding each
each-Sim capacity op step [] m f sim = sim
each-Sim capacity op step (x ∷ xs) m f sim =
    each-Sim capacity op step xs (op m x) (op f x) (step x m f sim)

-- A loop that stops is the loop that does not, as long as the filling writer is good.
pub each_good-Sim :
    {A : Type 0} (capacity : ℕ) (op : Writer → A → Writer)
    → ((x : A) (m f : Writer) → Sim capacity m f → Sim capacity (op m x) (op f x))
    → (xs : List A) (m f : Writer) → Sim capacity m f
    → Sim capacity (each_good op m xs) (each_good op f xs)
unfolding each_good
each_good-Sim capacity op step [] m f sim e = sim e
each_good-Sim capacity op step (x ∷ xs) m f sim e = elim (Bool-cases f.good) [
  | inl good ↦
      let m_goes = if_true m.good (each_good op (op m x) xs) m (sim good).both_good in
      let f_goes = if_true f.good (each_good op (op f x) xs) f good in
      let later = each_good-Sim capacity op step xs (op m x) (op f x) (step x m f sim) in
      subst (λ (w : Writer). Sim capacity w (each_good op f (x ∷ xs))) (sym m_goes)
        (subst (λ (w : Writer). Sim capacity (each_good op (op m x) xs) w) (sym f_goes) later) e
  | inr bad ↦
      let f_stays = if_false f.good (each_good op (op f x) xs) f bad in
      absurd (false≢true (sym bad ∙ ap (λ (w : Writer). w.good) (sym f_stays) ∙ e))
]

f32_finite : (f : Writer) (v : Float) → (f32 f v).good ≡ true → f32 f v ≡ word f v.bits
unfolding f32
f32_finite f v e = elim (Bool-cases v.finite) [
  | inl finite ↦ if_false (not v.finite) (spoiled f) (word f v.bits) (rw finite refl)
  | inr infinite ↦ absurd (
      false≢true (
        ap (λ (w : Writer). w.good)
          (sym (if_true (not v.finite) (spoiled f) (word f v.bits) (rw infinite refl)))
        ∙ e))
]

f32-Sim :
    (capacity : ℕ) (v : Float) (m f : Writer) → Sim capacity m f → Sim capacity (f32 m v) (f32 f v)
unfolding f32
f32-Sim capacity v m f sim =
    Sim-if capacity (not v.finite) (spoiled m) (word m v.bits) (spoiled f) (word f v.bits)
      (spoiled-Sim capacity (spoiled m) f) (word-Sim capacity v.bits m f sim)

each_good_was :
    {A : Type 0} (op : Writer → A → Writer) (w : Writer) (xs : List A)
    → (each_good op w xs).good ≡ true
    → w.good ≡ true
unfolding each_good
each_good_was op w [] e = e
each_good_was op w (x ∷ xs) e = elim (Bool-cases w.good) [
  | inl good ↦ good
  | inr bad ↦ absurd (
      false≢true (
        sym bad
        ∙ ap (λ (v : Writer). v.good) (sym (if_false w.good (each_good op (op w x) xs) w bad))
        ∙ e))
]

word_size : (f : Writer) (v : ℕ) → (word f v).good ≡ true → (word f v).size ≡ f.size + 4
word_size f v e = elim (Bool-cases (stops f 4)) [
  | inl stop ↦ absurd (false≢true (sym (bytes_stop f (put v) 4 stop) ∙ e))
  | inr go ↦ ap (λ (w : Writer). w.size) (bytes_go f (put v) 4 go)
]

floats_size :
    (vs : List Float) (f : Writer)
    → (each_good f32 f vs).good ≡ true
    → (each_good f32 f vs).size ≡ f.size + length vs * 4
unfolding each_good
floats_size [] f e = omega arith
floats_size (v ∷ vs) f e =
    let good = each_good_was f32 f (v ∷ vs) e in
    let goes = if_true f.good (each_good f32 (f32 f v) vs) f good in
    let e' = ap (λ (w : Writer). w.good) (sym goes) ∙ e in
    let finite = f32_finite f v (each_good_was f32 (f32 f v) vs e') in
    let one =
      word_size f v.bits
        (ap (λ (w : Writer). w.good) (sym finite) ∙ each_good_was f32 (f32 f v) vs e') in
    ap (λ (w : Writer). w.size) goes
    ∙ floats_size vs (f32 f v) e'
    ∙ omega (arith, one, ap (λ (w : Writer). w.size) finite)

floats_measured :
    (capacity : ℕ) (vs : List Float) (m f : Writer)
    → Agree capacity m f
    → (each_good f32 f vs).good ≡ true
    → Agree capacity (bytes m [] (length vs * 4)) (each_good f32 f vs)
floats_measured capacity vs m f v e =
    let w = each_good-Sim capacity f32 (f32-Sim capacity) vs m f (λ good. v) e in
    let grown = floats_size vs f e in
    let go : stops m (length vs * 4) ≡ false =
      rw (v.measures, v.both_good, v.same_size) (ground (arith, grown, w.small)) in
    rw (bytes_go m [] (length vs * 4) go) (record {
      measures = v.measures;
      fills = w.fills;
      both_good = v.both_good;
      same_size = omega (arith, grown, v.same_size);
      filled = w.filled;
      within = w.within;
      small = w.small;
    })

floats-none :
    (w : Writer) (vs : List Float) → w.room ≡ none → floats w vs ≡ bytes w [] (length vs * 4)
unfolding floats
floats-none w vs e = by_room w.room e
  where
    by_room :
        (x : Option ℕ)
        → x ≡ none
        → ◌≡◌ {A = Writer}
            (elim x [ none ↦ bytes w [] (length vs * 4) | some c ↦ each_good f32 w vs ])
            (bytes w [] (length vs * 4))
    by_room none e = refl
    by_room (some c) e = cc

floats-some :
    (w : Writer) (vs : List Float) (c : ℕ) → w.room ≡ some c → floats w vs ≡ each_good f32 w vs
unfolding floats
floats-some w vs c e = by_room w.room e
  where
    by_room :
        (x : Option ℕ)
        → x ≡ some c
        → ◌≡◌ {A = Writer}
            (elim x [ none ↦ bytes w [] (length vs * 4) | some c ↦ each_good f32 w vs ])
            (each_good f32 w vs)
    by_room none e = cc
    by_room (some c') e = refl

floats_good : (vs : List Float) (f : Writer) → (floats f vs).good ≡ true → f.good ≡ true
floats_good vs f e = elim (Option-cases f.room) [
  | inl empty ↦
      bytes-good f [] (length vs * 4)
        (ap (λ (w : Writer). w.good) (sym (floats-none f vs empty)) ∙ e)
  | inr (c, given) ↦
      each_good_was f32 f vs (ap (λ (w : Writer). w.good) (sym (floats-some f vs c given)) ∙ e)
]

pub floats-Sim :
    (capacity : ℕ) (vs : List Float) (m f : Writer)
    → Sim capacity m f
    → Sim capacity (floats m vs) (floats f vs)
floats-Sim capacity vs m f sim e =
    let v = sim (floats_good vs f e) in
    let m_is = floats-none m vs v.measures in
    let f_is = floats-some f vs capacity v.fills in
    subst (λ (w : Writer). Agree capacity w (floats f vs)) (sym m_is)
      (subst (λ (w : Writer). Agree capacity (bytes m [] (length vs * 4)) w) (sym f_is)
        (floats_measured capacity vs m f v (ap (λ (w : Writer). w.good) (sym f_is) ∙ e)))
