-- ===== src/Decoder/Reply/Keeps.antt =====
-- image_received of app/decoder_ipc.c keeps `Filled`: each piece that arrives stands behind the
-- bytes before it, whatever the sizes of the pieces.
mod Header
mod Page
mod Pixels
use whitenoise_linux.Base.{
  ℕ, zero, suc, ◌+◌, ◌-◌, ◌*◌, ◌/◌, ◌%◌, ◌^◌, ◌≤◌, ◌<◌, List, [], ◌∷◌, ◌++◌, Bytes, Bool, true,
  false, not, ◌&&◌, ◌||◌, Option, none, some, ltb, leb, ◌==◌, ==_iff, if◌then◌else◌, codes, length,
  take, drop, write_at, ◌≡◌, ◌≢◌, ◌↔◌, ◌⊎◌, inl, inr, refl, sym, arith, ap, ◌∙◌, Bool-cases,
  Option-cases, take-write_at, length-write_at, length-append, take_all, subst, take-append_le,
  drop-append_le, take-append, drop-append, drop_all, length-drop, length-take,
}
use mathlib.Core.Bool.{false≢true}
use whitenoise_linux.Decoder.Wire.{
  u32, u32_mod, u64_mod, image_header, image_dim_max, model_output_max, pdf_pages_max,
}
use whitenoise_linux.Decoder.Reply.{
  Kind, image, archive, pdf, mesh, model, math, ArchiveOp, list_all, one_entry, Reply, is_pdf,
  Place, in_header, in_page, in_pixels, in_extra, image_buffer, store, page_counted, pixel_bytes,
  decoder_header, image_received, is_some, image_complete,
}
use whitenoise_linux.Decoder.Reply.Header.{
  IsGood, IsArchive, IsRaster, parsed, block, ready, page_prefix, header_result,
  decoder_header_accepts, with_block,
}
use whitenoise_linux.Decoder.Reply.Filled.{
  AtHeader, AtPage, AtPixels, Filled, Paged, at_header, at_page, at_pixels, Lent, head_size,
  pixel_bytes_lem, good_bytes, prefix_bytes,
}
use whitenoise_linux.Decoder.Reply.Arrive.{
  arrive, GivesSize, more_header, more_page, IsGood-pixels, block_room, whole_prefix, nothing_yet,
  whole_page, is_some_value,
}
use Header.{
  arrive-AtHeader, header_prefix, keeps_header, accepted_header, first_page, first_pixels,
  complete_header,
}
use Page.{
  arrive-AtPage, page_counted_checks, page_prefix_grows, IsRaster-page, keeps_page,
  IsRaster-counted, complete_page,
}
use Pixels.{more_pixels, arrive-AtPixels, IsGood-grows, Paged-grows, keeps_pixels}

module _ (malloc : ℕ → Option Bytes) (gives : GivesSize malloc) where
  -- While pieces are accepted, every byte that has arrived stands in its place.
  pub arrive-Filled :
      (k : Kind) (r : Reply) (s d : Bytes)
      → Filled k r s
      → 0 < length d
      → length d ≤ (image_buffer r).1
      → (arrive malloc r d).1 ≡ true
      → Filled k (arrive malloc r d).0 (s ++ d)
  arrive-Filled k r s d (at_header v) pos h ok =
      let (within, result) = arrive-AtHeader malloc k r s d v h in
      elim (Bool-cases ((length s + length d) == 16)) [
        | inl e ↦
            rw (result, e)
              (complete_header malloc gives k r s d v ((==_iff _ _).0 e) (rw (result, e) at ok))
        | inr e ↦ rw (result, e) (at_header (keeps_header malloc k r s d v (ground arith)))
      ]
  arrive-Filled k r s d (at_page kp v) pos h ok =
      let (within, result) = arrive-AtPage malloc r s d v pos h in
      elim (Bool-cases ((length s + length d) == 20)) [
        | inl e ↦
            rw (result, e)
              (subst (λ k. Filled k (page_counted malloc (more_page r d)).0 (s ++ d)) (sym kp)
                (complete_page malloc gives r s d v ((==_iff _ _).0 e) (rw (result, e) at ok)))
        | inr e ↦ rw (result, e) (at_page kp (keeps_page malloc r s d v (ground arith)))
      ]
  arrive-Filled k r s d (at_pixels b v) pos h ok =
      let (within, result) = arrive-AtPixels malloc k r s d b v pos h ok in
      rw result (at_pixels _ (keeps_pixels malloc k r s d b v (omega arith) within))

-- A whole reply: the header, the page count of a page, and the payload, all in place.
pub record IsWhole (k : Kind) (r : Reply) (s b : Bytes) : Type 0 where
  pub size : length s ≡ 16 + r.bytes
  pub accepted : IsGood k r
  pub header_is : r.header ≡ take 16 s
  pub paged : Paged k r s
  pub pixels_are : r.pixels ≡ some b
  pub payload : take (r.bytes - page_prefix k) b ≡ drop (head_size k) s

-- A reply that image_complete finds complete is whole.
pub image_complete-IsWhole :
    (k : Kind) (r : Reply) (s : Bytes)
    → Filled k r s
    → image_complete r ≡ true
    → (b : Bytes) × IsWhole k r s b
unfolding image_complete
image_complete-IsWhole k r s (at_header v) h = absurd (ground arith)
image_complete-IsWhole k r s (at_page e v) h =
    absurd (ground (arith, prefix_bytes pdf r v.accepted))
image_complete-IsWhole k r s (at_pixels b v) h = (
  b,
  record {
    size = full;
    accepted = v.accepted;
    header_is = v.header_is;
    paged = v.paged;
    pixels_are = v.pixels_are;
    payload = ap (λ (t : ℕ). take t b) (omega (arith, full)) ∙ v.prefix;
  },
)
  where
    full : length s ≡ 16 + r.bytes
    full = ground (arith, v.counted)
