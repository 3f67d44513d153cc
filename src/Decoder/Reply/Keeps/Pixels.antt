-- ===== src/Decoder/Reply/Keeps/Pixels.antt =====
-- A piece of the payload in image_received of app/decoder_ipc.c.
use whitenoise_linux.Base.{
  ℕ, ◌+◌, ◌-◌, ◌≤◌, ◌<◌, ◌++◌, Bytes, true, Option, some, length, take, drop, write_at, ◌≡◌, refl,
  sym, arith, ap, ◌∙◌, take-write_at, length-write_at, length-append, take-append_le,
  drop-append_le, length-drop,
}
use whitenoise_linux.Decoder.Reply.{
  Kind, image, archive, pdf, mesh, model, math, ArchiveOp, list_all, one_entry, Reply, image_buffer,
  store, image_received,
}
use whitenoise_linux.Decoder.Reply.Header.{IsGood, IsArchive}
use whitenoise_linux.Decoder.Reply.Filled.{AtPixels, Paged, head_size, pixel_bytes_lem}
use whitenoise_linux.Decoder.Reply.Arrive.{arrive}

abbrev pub more_pixels : Reply → Bytes → Bytes → Reply
more_pixels r b d = record r { pixels = some b; received = r.received + length d }

module _ (malloc : ℕ → Option Bytes) where
  -- Behind the last byte of the payload nothing more is accepted.
  pub arrive-AtPixels :
      (k : Kind) (r : Reply) (s d b : Bytes)
      → AtPixels k r s b
      → 0 < length d
      → length d ≤ (image_buffer r).1
      → (arrive malloc r d).1 ≡ true
      → (length s + length d ≤ 16 + r.bytes)
        × (arrive malloc r d ≡ (more_pixels r (write_at b (length s - head_size k) d) d, true))
  unfolding image_buffer store image_received
  arrive-AtPixels pdf r s d b v pos h ok =
      ground (arith, pixel_bytes_lem pdf r v.kind_is v.accepted v.cap_small)
  arrive-AtPixels _ r s d b v pos h ok = ground arith

  pub IsGood-grows :
      (k : Kind) (r : Reply) (p : Option Bytes) (n : ℕ)
      → IsGood k r
      → IsGood k (record r { pixels = p; received = n })
  IsGood-grows pdf r p n v = ground arith
  IsGood-grows image r p n v = ground arith
  IsGood-grows math r p n v = ground arith
  IsGood-grows mesh r p n v = ground arith
  IsGood-grows model r p n v = ground arith
  IsGood-grows archive r p n v = archive_grows r.op v
    where
      archive_grows :
          (o : ArchiveOp) → IsArchive o r → IsArchive o (record r { pixels = p; received = n })
      archive_grows list_all v = ground arith
      archive_grows one_entry v = ground arith

  pub Paged-grows :
      (k : Kind) (r : Reply) (s d : Bytes) (p : Option Bytes) (n : ℕ)
      → head_size k ≤ length s
      → Paged k r s
      → Paged k (record r { pixels = p; received = n }) (s ++ d)
  Paged-grows pdf r s d p n h (pos, few, within, count, page) = (
    pos,
    few,
    within,
    count,
    page
        ∙ sym (take-append_le 4 (drop 16 s) d (omega (arith, length-drop 16 s)))
        ∙ ap (take 4) (sym (drop-append_le 16 s d (omega arith))),
  )
  Paged-grows _ r s d p n h v = tt

  pub keeps_pixels :
      (k : Kind) (r : Reply) (s d b : Bytes)
      → AtPixels k r s b
      → 16 ≤ head_size k
      → length s + length d ≤ 16 + r.bytes
      → let b' = write_at b (length s - head_size k) d in
        AtPixels k (more_pixels r b' d) (s ++ d) b'
  keeps_pixels k r s d b v head h =
      let fits : length s - head_size k + length d ≤ length b = omega (arith, v.room, v.long) in
      record {
        kind_is = v.kind_is;
        counted = omega (arith, v.counted, length-append s d);
        long = omega (arith, v.long, length-append s d);
        within = omega (arith, length-append s d);
        accepted = IsGood-grows k r _ _ v.accepted;
        cap_small = v.cap_small;
        header_is = v.header_is ∙ sym (take-append_le 16 s d (omega (arith, v.long)));
        paged = Paged-grows k r s d _ _ v.long v.paged;
        pixels_are = refl;
        room = omega (arith, v.room, length-write_at b (length s - head_size k) d fits);
        prefix =
            take-write_at b (length s - head_size k) d (length (s ++ d) - head_size k)
              (omega (arith, v.long, length-append s d)) (omega arith)
            ∙ ap (λ (t : Bytes). t ++ d) v.prefix
            ∙ sym (drop-append_le (head_size k) s d v.long);
      }
