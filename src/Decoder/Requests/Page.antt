-- ===== src/Decoder/Requests/Page.antt =====
-- The page that wn_pdf_render of app/decoder_ipc.c returns.
use whitenoise_linux.Base.Int.{ℤ}
use whitenoise_linux.Base.{
  ℕ, ◌≤◌, ◌<◌, Bytes, Bool, true, false, Option, none, some, ◌≡◌, refl, ap, arith, ◌⊎◌, inl, inr,
  Bool-cases,
}
use whitenoise_linux.Decoder.Wire.{pdf_output_max, pdf_dim_max, pdf_pages_max}
use whitenoise_linux.Decoder.Reply.{pdf, list_all, Reply}
use whitenoise_linux.Decoder.Reply.Arrive.{GivesSize}
use whitenoise_linux.Decoder.Reply.Limits.{Limits}
use whitenoise_linux.Decoder.Reply.Keeps.{IsWhole}
use whitenoise_linux.Decoder.Build.{pdf_refused, Run, pdf_outcome, pdf_reply}
use whitenoise_linux.Decoder.Requests.{wn_pdf_render}
use whitenoise_linux.Decoder.Requests.Outcome.{
  image_run-Whole, IsPicture, payload_room, Failed, IsFresh-blank,
}

page-IsPicture :
    (r : Reply) (s b : Bytes)
    → IsWhole pdf r s b
    → IsPicture r.dimension pdf_dim_max r.cap r.width r.height r.pixels
page-IsPicture r s b v = record {
  pixels = b;
  pixels_are = v.pixels_are;
  wide = v.accepted.wide;
  high = v.accepted.high;
  width_fits = v.accepted.width_fits;
  height_fits = v.accepted.page_fits.0;
  bytes_fit = v.accepted.pixels_fit;
  in_memory = omega (arith, payload_room pdf r s b v (omega arith), v.accepted.payload);
}

pdf_outcome_cases :
    (x : Option (Reply × Bool)) (p : Option Bytes) (n w h : ℕ)
    → pdf_outcome x ≡ some (p, n, w, h)
    → (Failed p w h × (n ≡ 0))
      ⊎ ((r : Reply) × (x ≡ some (r, true))
          × (r.pixels ≡ p)
          × (r.count ≡ n)
          × (r.width ≡ w)
          × (r.height ≡ h))
pdf_outcome_cases none p n w h e = cc
pdf_outcome_cases (some (r, true)) p n w h e =
    inr (r, refl, ground arith, ground arith, ground arith, ground arith)
pdf_outcome_cases (some (r, false)) p n w h e = inl (ground arith)

module _ (malloc : ℕ → Option Bytes) (gives : GivesSize malloc) (run : Run) where
  -- wn_pdf_render gives NULL and zeros, or a picture no wider than asked for, no taller than a
  -- height that was asked for, of a document that has the page.
  pub wn_pdf_render-IsPicture :
      (outputs : Bool) (helper content : Option Bytes) (size : ℤ) (page width height : ℕ)
      (p : Option Bytes) (n w h : ℕ)
      → wn_pdf_render malloc run outputs helper content size page width height ≡ some (p, n, w, h)
      → (Failed p w h × (n ≡ 0))
        ⊎ (IsPicture width pdf_dim_max pdf_output_max w h p
            × ((height ≡ 0) ⊎ (h ≤ height))
            × (page < n)
            × (n ≤ pdf_pages_max))
  unfolding wn_pdf_render
  wn_pdf_render-IsPicture outputs helper content size page width height p n w h e =
      elim (Bool-cases (pdf_refused outputs helper content size page width height)) [
        | inl refused ↦ inl (ground (arith, rw refused at e))
        | inr allowed ↦ elim (pdf_outcome_cases _ p n w h (rw allowed at e)) [
          | inl bad ↦ inl bad
          | inr (r, ran, pe, ne, we, he) ↦
              let (s, b, whole, same) =
                image_run-Whole malloc gives run pdf _ _ (pdf_reply page width height) r
                  (IsFresh-blank pdf width pdf_output_max list_all page height (ground arith)
                    (ground arith))
                  ran in
              let th : r.target_height ≡ height = ap (λ (l : Limits). l.target_height) same in
              let ix : r.index ≡ page = ap (λ (l : Limits). l.index) same in
              inr (
                rw
                    (
                      ← pe,
                      ← we,
                      ← he,
                      ← ap (λ (l : Limits). l.dimension) same,
                      ← ap (λ (l : Limits). l.cap) same,
                    )
                    (page-IsPicture r s b whole),
                rw (← he, ← th) whole.accepted.page_fits.1,
                rw (← ne, ← ix) whole.paged.2,
                rw (← ne) whole.paged.1,
              )
        ]
      ]
