-- ===== src/Decoder/Reply/Limits.antt =====
-- What a request set in `struct image_reply` of app/decoder_ipc.c stays as it was set.
use whitenoise_linux.Base.{ℕ, ◌+◌, [], ◌∷◌, Bytes, Bool, Option, ◌≡◌, refl, ◌∙◌, arith, length}
use whitenoise_linux.Decoder.Reply.{
  Kind, pdf, ArchiveOp, Reply, Place, in_header, in_page, in_pixels, in_extra, image_buffer, store,
  decoder_header_in, decoder_header, page_counted, image_received,
}
use whitenoise_linux.Decoder.Reply.Arrive.{arrive}

pub record Limits : Type 0 where
  pub dimension : ℕ
  pub cap : ℕ
  pub kind : Kind
  pub op : ArchiveOp
  pub index : ℕ
  pub target_height : ℕ
  pub sequence : ℕ
  pub borrowed : Bool

abbrev pub limits : Reply → Limits
limits r = record {
  dimension = r.dimension;
  cap = r.cap;
  kind = r.kind;
  op = r.op;
  index = r.index;
  target_height = r.target_height;
  sequence = r.sequence;
  borrowed = r.borrowed;
}

limits-store : (r : Reply) (p : Place) (d : Bytes) → limits (store r p d) ≡ limits r
unfolding store
limits-store r (in_header o) d = refl
limits-store r (in_page o) d = refl
limits-store r (in_pixels o) d = refl
limits-store r in_extra [] = refl
limits-store r in_extra (c ∷ d) = refl

module _ (malloc : ℕ → Option Bytes) where
  limits-decoder_header_in :
      (k : Kind) (r : Reply) → limits (decoder_header_in malloc k r).0 ≡ limits r
  unfolding decoder_header_in
  limits-decoder_header_in pdf r = refl
  limits-decoder_header_in _ r = ground arith

  limits-page_counted : (r : Reply) → limits (page_counted malloc r).0 ≡ limits r
  unfolding page_counted
  limits-page_counted r = ground arith

  limits-image_received : (r : Reply) (n : ℕ) → limits (image_received malloc r n).0 ≡ limits r
  unfolding image_received
  limits-image_received r n =
      let r' = record r { received = r.received + n } in
      ground (arith, limits-decoder_header r', limits-page_counted r')
    where
      limits-decoder_header : (r : Reply) → limits (decoder_header malloc r).0 ≡ limits r
      limits-decoder_header r = unfold decoder_header in limits-decoder_header_in r.kind r

  -- An arrival changes none of the limits.
  pub limits-arrive : (r : Reply) (d : Bytes) → limits (arrive malloc r d).0 ≡ limits r
  limits-arrive r d =
      limits-image_received (store r (image_buffer r).0 d) (length d)
      ∙ limits-store r (image_buffer r).0 d
