-- ===== src/Decoder/Reply/Keeps/Page.antt =====
-- A piece of the page count of a PDF reply in image_received of app/decoder_ipc.c.
use whitenoise_linux.Base.{
  ℕ, ◌+◌, ◌-◌, ◌%◌, ◌≤◌, ◌<◌, ◌++◌, Bytes, true, Option, ◌==◌, if◌then◌else◌, length, take, drop,
  ◌≡◌, refl, sym, arith, ap, ◌∙◌, take-write_at, length-write_at, length-append, take-append_le,
  drop-append_le,
}
use whitenoise_linux.Decoder.Wire.{u32, u32_mod, pdf_pages_max}
use whitenoise_linux.Decoder.Reply.{
  pdf, Reply, image_buffer, store, page_counted, image_received, is_some,
}
use whitenoise_linux.Decoder.Reply.Header.{IsRaster}
use whitenoise_linux.Decoder.Reply.Filled.{AtPage, Filled, at_pixels, good_bytes, prefix_bytes}
use whitenoise_linux.Decoder.Reply.Arrive.{
  arrive, GivesSize, more_page, nothing_yet, whole_page, is_some_value,
}

module _ (malloc : ℕ → Option Bytes) where
  pub arrive-AtPage :
      (r : Reply) (s d : Bytes)
      → AtPage r s
      → 0 < length d
      → length d ≤ (image_buffer r).1
      → (length s + length d ≤ 20)
        × (arrive malloc r d ≡ (
            if (length s + length d) == 20
            then page_counted malloc (more_page r d)
            else (more_page r d, true)))
  unfolding image_buffer store image_received
  arrive-AtPage r s d v pos h = (ground arith, ground (arith, v.accepted.payload))

  pub page_counted_checks :
      (r : Reply)
      → (page_counted malloc r).1 ≡ true
      → (0 < u32 r.page_header 0)
        × (u32 r.page_header 0 ≤ pdf_pages_max)
        × (r.index < u32 r.page_header 0)
        × (is_some (malloc ((r.bytes + u32_mod - 4) % u32_mod)) ≡ true)
        × ((page_counted malloc r).0 ≡ record r {
          count = u32 r.page_header 0;
          pixels = malloc ((r.bytes + u32_mod - 4) % u32_mod);
        })
  unfolding page_counted
  page_counted_checks r h = ground arith

  -- The page header after a piece that does not pass its end.
  pub page_prefix_grows :
      (r : Reply) (s d : Bytes)
      → AtPage r s
      → length s + length d ≤ 20
      → (length (more_page r d).page_header ≡ 4)
        × (take (length (s ++ d) - 16) (more_page r d).page_header ≡ drop 16 (s ++ d))
        × (r.received + length d ≡ length (s ++ d))
        × (r.header ≡ take 16 (s ++ d))
  page_prefix_grows r s d v h = (
    length-write_at r.page_header (r.received - 16) d
          (omega (arith, v.counted, v.page_size, v.long))
        ∙ v.page_size,
    take-write_at r.page_header (r.received - 16) d (length (s ++ d) - 16)
          (omega (arith, v.counted, v.long, length-append s d))
          (omega (arith, v.counted, v.page_size))
        ∙ rw v.counted (ap (λ (t : Bytes). t ++ d) v.prefix)
        ∙ sym (drop-append_le 16 s d v.long),
    omega (arith, v.counted, length-append s d),
    v.header_is ∙ sym (take-append_le 16 s d v.long),
  )

  pub IsRaster-page : (r : Reply) (d : Bytes) → IsRaster pdf r → IsRaster pdf (more_page r d)
  IsRaster-page r d v = ground arith

  pub keeps_page :
      (r : Reply) (s d : Bytes)
      → AtPage r s
      → length s + length d < 20
      → AtPage (more_page r d) (s ++ d)
  keeps_page r s d v h =
      let (size, prefix, counted, header_is) = page_prefix_grows r s d v (omega arith) in
      record {
        kind_is = v.kind_is;
        counted = counted;
        long = omega (arith, v.long, length-append s d);
        short = omega (arith, length-append s d);
        accepted = IsRaster-page r d v.accepted;
        cap_small = v.cap_small;
        header_is = header_is;
        page_size = size;
        prefix = prefix;
      }

module _ (malloc : ℕ → Option Bytes) (gives : GivesSize malloc) where
  pub IsRaster-counted :
      (r : Reply) (c : ℕ) (p : Option Bytes)
      → IsRaster pdf r
      → IsRaster pdf (record r { count = c; pixels = p })
  IsRaster-counted r c p v = ground arith

  -- The piece that completes the page count, when the count is accepted.
  pub complete_page :
      (r : Reply) (s d : Bytes)
      → AtPage r s
      → length s + length d ≡ 20
      → (page_counted malloc (more_page r d)).1 ≡ true
      → Filled pdf (page_counted malloc (more_page r d)).0 (s ++ d)
  complete_page r s d v full h =
      let (size, prefix, counted, header_is) = page_prefix_grows malloc r s d v (omega arith) in
      let (pos, few, within, got, result) = page_counted_checks malloc (more_page r d) h in
      let (b, e) = is_some_value (malloc ((r.bytes + u32_mod - 4) % u32_mod)) got in
      rw result (
        at_pixels b (record {
          kind_is = v.kind_is;
          counted = counted;
          long = omega (arith, length-append s d);
          within = omega (arith, length-append s d, prefix_bytes pdf r v.accepted);
          accepted = IsRaster-counted (more_page r d) _ _ (IsRaster-page malloc r d v.accepted);
          cap_small = v.cap_small;
          header_is = header_is;
          paged = (
            pos,
            few,
            within,
            refl,
            whole_page _ (s ++ d) size (length-append s d ∙ full) prefix,
          );
          pixels_are = e;
          room = omega (
            arith,
            gives ((r.bytes + u32_mod - 4) % u32_mod) b e,
            good_bytes pdf r v.accepted,
            prefix_bytes pdf r v.accepted,
            v.cap_small,
          );
          prefix = nothing_yet 20 b (s ++ d) (length-append s d ∙ full);
        }))
