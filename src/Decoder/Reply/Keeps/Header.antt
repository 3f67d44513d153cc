-- ===== src/Decoder/Reply/Keeps/Header.antt =====
-- A piece of the header of a reply, up to decoder_header of app/decoder_ipc.c.
use whitenoise_linux.Base.{
  ℕ, ◌+◌, ◌≤◌, ◌<◌, ◌++◌, Bytes, true, Option, some, ◌==◌, if◌then◌else◌, length, take, ◌≡◌, ◌≢◌,
  refl, arith, ap, ◌∙◌, take-write_at, length-write_at, length-append, subst,
}
use whitenoise_linux.Decoder.Wire.{image_dim_max}
use whitenoise_linux.Decoder.Reply.{
  Kind, pdf, Reply, image_buffer, store, decoder_header, image_received,
}
use whitenoise_linux.Decoder.Reply.Header.{
  IsGood, parsed, block, ready, header_result, decoder_header_accepts, with_block,
}
use whitenoise_linux.Decoder.Reply.Filled.{AtHeader, AtPixels, Filled, at_page, at_pixels, Lent}
use whitenoise_linux.Decoder.Reply.Arrive.{
  arrive, GivesSize, more_header, IsGood-pixels, block_room, whole_prefix, nothing_yet,
  is_some_value,
}

module _ (malloc : ℕ → Option Bytes) where
  pub arrive-AtHeader :
      (k : Kind) (r : Reply) (s d : Bytes)
      → AtHeader k r s
      → length d ≤ (image_buffer r).1
      → (length s + length d ≤ 16)
        × (arrive malloc r d ≡ (
            if (length s + length d) == 16
            then decoder_header malloc (more_header r d)
            else (more_header r d, true)))
  unfolding image_buffer store image_received
  arrive-AtHeader k r s d v h = (ground arith, ground arith)

  -- The header array after a piece that does not pass its end.
  pub header_prefix :
      (k : Kind) (r : Reply) (s d : Bytes)
      → AtHeader k r s
      → length s + length d ≤ 16
      → (length (more_header r d).header ≡ 16)
        × (take (length (s ++ d)) (more_header r d).header ≡ s ++ d)
        × (r.received + length d ≡ length (s ++ d))
  header_prefix k r s d v h = (
    length-write_at r.header r.received d (omega (arith, v.counted, v.header_size)) ∙ v.header_size,
    take-write_at r.header r.received d (length (s ++ d))
          (omega (arith, v.counted, length-append s d)) (omega (arith, v.counted, v.header_size))
        ∙ rw v.counted (ap (λ (t : Bytes). t ++ d) v.prefix),
    omega (arith, v.counted, length-append s d),
  )

  pub keeps_header :
      (k : Kind) (r : Reply) (s d : Bytes)
      → AtHeader k r s
      → length s + length d < 16
      → AtHeader k (more_header r d) (s ++ d)
  keeps_header k r s d v h =
      let (size, prefix, counted) = header_prefix k r s d v (omega arith) in
      record {
        kind_is = v.kind_is;
        counted = counted;
        short = omega (arith, length-append s d);
        no_bytes = v.no_bytes;
        small = v.small;
        cap_small = v.cap_small;
        header_size = size;
        page_size = v.page_size;
        prefix = prefix;
        lent = lent k v.lent;
      }
    where
      lent : (k : Kind) → Lent k r → Lent k (more_header r d)
      lent pdf l = l
      lent _ l = l

module _ (malloc : ℕ → Option Bytes) (gives : GivesSize malloc) where
  pub accepted_header :
      (k : Kind) (r : Reply) (d : Bytes)
      → r.kind ≡ k
      → r.dimension ≤ image_dim_max
      → (decoder_header malloc (more_header r d)).1 ≡ true
      → IsGood k (parsed k (more_header r d))
        × (ready k (block k malloc (parsed k (more_header r d))) ≡ true)
  accepted_header k r d e small h =
      subst
        (λ k.
          IsGood k (parsed k (more_header r d))
          × (ready k (block k malloc (parsed k (more_header r d))) ≡ true))
        e ((decoder_header_accepts malloc (more_header r d) small).0 h)

  -- The piece that completes the header of a page.
  pub first_page :
      (r : Reply) (s d : Bytes)
      → AtHeader pdf r s
      → length s + length d ≡ 16
      → IsGood pdf (parsed pdf (more_header r d))
      → Filled pdf (with_block malloc pdf (more_header r d)) (s ++ d)
  first_page r s d v full good =
      let (size, prefix, counted) = header_prefix malloc pdf r s d v (omega arith) in
      at_page refl (record {
        kind_is = v.kind_is;
        counted = counted;
        long = omega (arith, length-append s d);
        short = omega (arith, length-append s d);
        accepted = IsGood-pixels pdf (parsed pdf (more_header r d)) r.pixels good;
        cap_small = v.cap_small;
        header_is = whole_prefix _ (s ++ d) size (length-append s d ∙ full) prefix;
        page_size = v.page_size;
        prefix = nothing_yet 16 r.page_header (s ++ d) (length-append s d ∙ full);
      })

  -- The piece that completes the header of any other payload.
  pub first_pixels :
      (k : Kind) (r : Reply) (s d b : Bytes)
      → k ≢ pdf
      → AtHeader k r s
      → length s + length d ≡ 16
      → IsGood k (parsed k (more_header r d))
      → block k malloc (parsed k (more_header r d)) ≡ some b
      → AtPixels k (with_block malloc k (more_header r d)) (s ++ d) b
  first_pixels pdf r s d b ne v full good e = absurd (ne refl)
  first_pixels k r s d b ne v full good e =
      let (size, prefix, counted) = header_prefix malloc k r s d v (omega arith) in
      let room = block_room malloc gives k (parsed k (more_header r d)) b ne v.lent good e in
      record {
        kind_is = v.kind_is;
        counted = counted;
        long = omega (arith, length-append s d);
        within = omega (arith, length-append s d);
        accepted = IsGood-pixels k (parsed k (more_header r d)) _ good;
        cap_small = v.cap_small;
        header_is = whole_prefix _ (s ++ d) size (length-append s d ∙ full) prefix;
        paged = tt;
        pixels_are = e;
        room = omega arith;
        prefix = nothing_yet 16 b (s ++ d) (length-append s d ∙ full);
      }

  -- The piece that completes the header, when the header is accepted.
  pub complete_header :
      (k : Kind) (r : Reply) (s d : Bytes)
      → AtHeader k r s
      → length s + length d ≡ 16
      → (decoder_header malloc (more_header r d)).1 ≡ true
      → Filled k (decoder_header malloc (more_header r d)).0 (s ++ d)
  complete_header pdf r s d v full h =
      rw (header_result malloc pdf (more_header r d) v.kind_is h)
        (first_page r s d v full (accepted_header pdf r d v.kind_is v.small h).0)
  complete_header k r s d v full h =
      let (good, got) = accepted_header k r d v.kind_is v.small h in
      let (b, e) = is_some_value (block k malloc (parsed k (more_header r d))) got in
      rw (header_result malloc k (more_header r d) v.kind_is h)
        (at_pixels b (first_pixels k r s d b (λ x. cc) v full good e))
