-- ===== src/Decoder/Requests/Outcome.antt =====
-- What the callers of the one-shot requests of app/decoder_ipc.c get.
use whitenoise_linux.Base.Int.{ℤ, pos, negsuc, positive_to, value}
use whitenoise_linux.Base.{
  ℕ, ◌+◌, ◌*◌, ◌-◌, ◌≤◌, ◌<◌, Bytes, Bool, true, false, Option, none, some, length, ◌≡◌, refl, ap,
  arith, ◌⊎◌, inl, inr, Bool-cases, subst, length-take, length-drop,
}
use whitenoise_linux.Decoder.Wire.{image_dim_max, model_output_max}
use whitenoise_linux.Decoder.Reply.{Kind, pdf, ArchiveOp, Reply}
use whitenoise_linux.Decoder.Reply.Filled.{head_size}
use whitenoise_linux.Decoder.Reply.Header.{page_prefix}
use whitenoise_linux.Decoder.Reply.Arrive.{GivesSize}
use whitenoise_linux.Decoder.Reply.Limits.{limits}
use whitenoise_linux.Decoder.Reply.Keeps.{IsWhole}
use whitenoise_linux.Decoder.Transfer.{Transfer, Next, stop, go}
use whitenoise_linux.Decoder.Transfer.Sound.{IsFresh, decoder_transfer-IsWhole}
use whitenoise_linux.Decoder.Build.{Run, blank, run_result, image_outcome}
use whitenoise_linux.Decoder.Requests.{image_run_at, image_run}

-- A reply that is whole, with the limits that were set before anything was read.
abbrev pub Whole : Kind → Reply → Reply → Type 0
Whole k r₀ r = (s : Bytes) × (b : Bytes) × IsWhole k r s b × (limits r ≡ limits r₀)

module _ (malloc : ℕ → Option Bytes) (gives : GivesSize malloc) (run : Run) where
  run_result-eq :
      (x : Next) (r : Reply)
      → run_result x ≡ some (r, true)
      → (t : Transfer) × (x ≡ stop t true) × (t.reply ≡ r)
  run_result-eq (stop t true) r e = (t, refl, ground arith)
  run_result-eq (stop t false) r e = cc
  run_result-eq (go t) r e = cc

  image_run_at-Whole :
      (clock : Option ℕ) (k : Kind) (header content : Bytes) (r₀ r : Reply)
      → IsFresh k r₀
      → image_run_at malloc run clock header content r₀ ≡ some (r, true)
      → Whole k r₀ r
  unfolding image_run_at
  image_run_at-Whole none k header content r₀ r fresh e = cc
  image_run_at-Whole (some now) k header content r₀ r fresh e = elim (Bool-cases run.started) [
    | inl on ↦
        let (t, stopped, reply_is) = run_result-eq _ r (rw on at e) in
        let (b, whole, same, _, _) =
          decoder_transfer-IsWhole malloc gives _ k r₀ run.peek run.rounds t fresh stopped in
        subst (λ r. Whole k r₀ r) reply_is (t.arrived, b, whole, same)
    | inr off ↦ cc (rw off at e)
  ]

  pub image_run-Whole :
      (k : Kind) (header content : Bytes) (r₀ r : Reply)
      → IsFresh k r₀
      → image_run malloc run header content r₀ ≡ some (r, true)
      → Whole k r₀ r
  unfolding image_run
  image_run-Whole k header content r₀ r fresh e =
      image_run_at-Whole run.clock k header content r₀ r fresh e

-- A picture of `w` by `h` pixels within the limits, in memory that has all of its RGBA bytes.
pub record IsPicture (dimension max_height cap w h : ℕ) (p : Option Bytes) : Type 0 where
  pub pixels : Bytes
  pub pixels_are : p ≡ some pixels
  pub wide : 0 < w
  pub high : 0 < h
  pub width_fits : w ≤ dimension
  pub height_fits : h ≤ max_height
  pub bytes_fit : w * h * 4 ≤ cap
  pub in_memory : w * h * 4 ≤ length pixels

pub payload_room :
    (k : Kind) (r : Reply) (s b : Bytes)
    → IsWhole k r s b
    → 16 ≤ head_size k
    → r.bytes ≤ length b + page_prefix k
payload_room k r s b v h = omega (
  arith,
  v.size,
  ap length v.payload,
  length-take (r.bytes - page_prefix k) b,
  length-drop (head_size k) s,
)

pub positive_to-le : (z : ℤ) (max : ℕ) → positive_to z max ≡ true → value z ≤ max
positive_to-le (pos n) max h = ground arith
positive_to-le (negsuc n) max h = cc

abbrev pub Failed : Option Bytes → ℕ → ℕ → Type 0
Failed p w h = (p ≡ none) × (w ≡ 0) × (h ≡ 0)

pub image_outcome_cases :
    (x : Option (Reply × Bool)) (p : Option Bytes) (w h : ℕ)
    → image_outcome x ≡ some (p, w, h)
    → Failed p w h
      ⊎ ((r : Reply) × (x ≡ some (r, true)) × (r.pixels ≡ p) × (r.width ≡ w) × (r.height ≡ h))
image_outcome_cases none p w h e = cc
image_outcome_cases (some (r, true)) p w h e =
    inr (r, refl, ground arith, ground arith, ground arith)
image_outcome_cases (some (r, false)) p w h e = inl (ground arith)

-- A blank reply is fresh, whatever limits within the maximum are set.
pub IsFresh-blank :
    (k : Kind) (d c : ℕ) (o : ArchiveOp) (i h : ℕ)
    → d ≤ image_dim_max
    → c ≤ model_output_max
    → IsFresh k (record (blank k) { dimension = d; cap = c; op = o; index = i; target_height = h })
IsFresh-blank pdf d c o i h fits cap_fits = record {
  kind_is = refl;
  counted = refl;
  short = omega arith;
  no_bytes = refl;
  small = fits;
  cap_small = cap_fits;
  header_size = refl;
  page_size = refl;
  prefix = refl;
  lent = refl;
}
IsFresh-blank k d c o i h fits cap_fits = record {
  kind_is = refl;
  counted = refl;
  short = omega arith;
  no_bytes = refl;
  small = fits;
  cap_small = cap_fits;
  header_size = refl;
  page_size = refl;
  prefix = refl;
  lent = inl refl;
}
