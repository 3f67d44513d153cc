-- ===== src/Decoder/Requests/Picture.antt =====
-- The pictures that wn_image_decode and wn_math_render of app/decoder_ipc.c return.
use whitenoise_linux.Base.Int.{ℤ, value}
use whitenoise_linux.Base.{
  ℕ, ◌≤◌, Bytes, Bool, Option, some, ◌≡◌, refl, ap, arith, ◌⊎◌, inl, inr, Bool-cases,
}
use whitenoise_linux.Decoder.Wire.{image_dim_max}
use whitenoise_linux.Decoder.Reply.{Kind, image, archive, pdf, mesh, model, math, list_all, Reply}
use whitenoise_linux.Decoder.Reply.Arrive.{GivesSize}
use whitenoise_linux.Decoder.Reply.Limits.{Limits}
use whitenoise_linux.Decoder.Reply.Keeps.{IsWhole}
use whitenoise_linux.Decoder.Build.{image_refused, math_refused, Run, image_reply, math_reply}
use whitenoise_linux.Decoder.Requests.{wn_image_decode, wn_math_render}
use whitenoise_linux.Decoder.Requests.Outcome.{
  image_run-Whole, IsPicture, payload_room, positive_to-le, Failed, image_outcome_cases,
  IsFresh-blank,
}

raster-IsPicture :
    (k : Kind) (r : Reply) (s b : Bytes)
    → (k ≡ image) ⊎ (k ≡ math)
    → IsWhole k r s b
    → IsPicture r.dimension r.dimension r.cap r.width r.height r.pixels
raster-IsPicture image r s b which v = record {
  pixels = b;
  pixels_are = v.pixels_are;
  wide = v.accepted.wide;
  high = v.accepted.high;
  width_fits = v.accepted.width_fits;
  height_fits = v.accepted.page_fits.0;
  bytes_fit = v.accepted.pixels_fit;
  in_memory = omega (arith, payload_room image r s b v (omega arith), v.accepted.payload);
}
raster-IsPicture math r s b which v = record {
  pixels = b;
  pixels_are = v.pixels_are;
  wide = v.accepted.wide;
  high = v.accepted.high;
  width_fits = v.accepted.width_fits;
  height_fits = v.accepted.page_fits.0;
  bytes_fit = v.accepted.pixels_fit;
  in_memory = omega (arith, payload_room math r s b v (omega arith), v.accepted.payload);
}
raster-IsPicture archive r s b which v = absurd (ground arith)
raster-IsPicture pdf r s b which v = absurd (ground arith)
raster-IsPicture mesh r s b which v = absurd (ground arith)
raster-IsPicture model r s b which v = absurd (ground arith)

module _ (malloc : ℕ → Option Bytes) (gives : GivesSize malloc) (run : Run) where
  -- wn_image_decode gives NULL and zeros, or a picture within the limits of the call that is all
  -- in memory.
  pub wn_image_decode-IsPicture :
      (outputs : Bool) (helper content : Option Bytes) (size max_dimension : ℤ) (max_bytes : ℕ)
      (p : Option Bytes) (w h : ℕ)
      → wn_image_decode malloc run outputs helper content size max_dimension max_bytes
        ≡ some (p, w, h)
      → Failed p w h ⊎ IsPicture (value max_dimension) (value max_dimension) max_bytes w h p
  unfolding wn_image_decode
  wn_image_decode-IsPicture outputs helper content size max_dimension max_bytes p w h e =
      elim (Bool-cases (image_refused outputs helper content size max_dimension max_bytes)) [
        | inl refused ↦ inl (ground (arith, rw refused at e))
        | inr allowed ↦ elim (image_outcome_cases _ p w h (rw allowed at e)) [
          | inl bad ↦ inl bad
          | inr (r, ran, pe, we, he) ↦
              let small : value max_dimension ≤ image_dim_max =
                positive_to-le max_dimension image_dim_max (ground arith) in
              let (s, b, whole, same) =
                image_run-Whole malloc gives run image _ _ (image_reply max_dimension max_bytes) r
                  (IsFresh-blank image (value max_dimension) max_bytes list_all 0 0 small
                    (ground arith))
                  ran in
              inr (
                rw
                  (
                    ← pe,
                    ← we,
                    ← he,
                    ← ap (λ (l : Limits). l.dimension) same,
                    ← ap (λ (l : Limits). l.cap) same,
                  )
                  (raster-IsPicture image r s b (inl refl) whole))
        ]
      ]

  -- wn_math_render gives NULL and zeros, or such a picture.
  pub wn_math_render-IsPicture :
      (outputs : Bool) (helper content : Option Bytes) (size : ℤ) (font_bits : ℕ)
      (font_in_range : Bool) (argb max_side max_bytes : ℕ) (p : Option Bytes) (w h : ℕ)
      → wn_math_render malloc run outputs helper content size font_bits font_in_range argb max_side
          max_bytes
        ≡ some (p, w, h)
      → Failed p w h ⊎ IsPicture max_side max_side max_bytes w h p
  unfolding wn_math_render
  wn_math_render-IsPicture outputs helper content size font_bits font_in_range argb max_side
        max_bytes p w h e =
      elim (Bool-cases
        (math_refused outputs helper content size font_in_range max_side max_bytes)) [
          | inl refused ↦ inl (ground (arith, rw refused at e))
          | inr allowed ↦ elim (image_outcome_cases _ p w h (rw allowed at e)) [
            | inl bad ↦ inl bad
            | inr (r, ran, pe, we, he) ↦
                let (s, b, whole, same) =
                  image_run-Whole malloc gives run math _ _ (math_reply max_side max_bytes) r
                    (IsFresh-blank math max_side max_bytes list_all 0 0 (ground arith)
                      (ground arith))
                    ran in
                inr (
                  rw
                    (
                      ← pe,
                      ← we,
                      ← he,
                      ← ap (λ (l : Limits). l.dimension) same,
                      ← ap (λ (l : Limits). l.cap) same,
                    )
                    (raster-IsPicture math r s b (inr refl) whole))
          ]
        ]
