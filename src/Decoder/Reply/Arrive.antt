-- ===== src/Decoder/Reply/Arrive.antt =====
-- One arrival of bytes at a reply, and what a piece does to the arrays of app/decoder_ipc.c.
use whitenoise_linux.Base.{
  ℕ, ◌+◌, ◌-◌, ◌≤◌, Bytes, Bool, true, Option, none, some, ◌==◌, if◌then◌else◌, length, take, drop,
  write_at, ◌≡◌, ◌≢◌, refl, sym, arith, ap, ◌∙◌, take_all, drop_all, length-drop,
}
use mathlib.Core.Bool.{false≢true}
use whitenoise_linux.Decoder.Reply.{
  Kind, image, archive, pdf, mesh, model, math, ArchiveOp, list_all, one_entry, Reply, image_buffer,
  store, image_received, is_some,
}
use whitenoise_linux.Decoder.Reply.Header.{IsGood, IsArchive, block}
use whitenoise_linux.Decoder.Reply.Filled.{Lent}

-- One recv() of the bytes `d` and the call of image_received behind it.
abbrev pub arrive : (ℕ → Option Bytes) → Reply → Bytes → Reply × Bool
arrive malloc r d = image_received malloc (store r (image_buffer r).0 d) (length d)

-- malloc gives as many bytes as were asked for.
abbrev pub GivesSize : (ℕ → Option Bytes) → Type 0
GivesSize malloc = (n : ℕ) (b : Bytes) → malloc n ≡ some b → length b ≡ n

abbrev pub more_header : Reply → Bytes → Reply
more_header r d = record r {
  header = write_at r.header r.received d;
  received = r.received + length d;
}

abbrev pub more_page : Reply → Bytes → Reply
more_page r d = record r {
  page_header = write_at r.page_header (r.received - 16) d;
  received = r.received + length d;
}

-- Where the pixels are kept does not matter to what the header says.
pub IsGood-pixels :
    (k : Kind) (r : Reply) (p : Option Bytes) → IsGood k r → IsGood k (record r { pixels = p })
IsGood-pixels pdf r p v = ground arith
IsGood-pixels image r p v = ground arith
IsGood-pixels math r p v = ground arith
IsGood-pixels mesh r p v = ground arith
IsGood-pixels model r p v = ground arith
IsGood-pixels archive r p v = archive_pixels r.op v
  where
    archive_pixels : (o : ArchiveOp) → IsArchive o r → IsArchive o (record r { pixels = p })
    archive_pixels list_all v = ground arith
    archive_pixels one_entry v = ground arith

-- Memory that malloc or the caller gave has room for an accepted payload.
pub block_room :
    (malloc : ℕ → Option Bytes)
    → GivesSize malloc
    → (k : Kind) (r : Reply) (b : Bytes) → k ≢ pdf
    → Lent k r
    → IsGood k r
    → block k malloc r ≡ some b
    → r.bytes ≤ length b
block_room malloc gives pdf r b ne l v e = absurd (ne refl)
block_room malloc gives _ r b ne l v e =
    ground (arith, gives (if r.bytes == 0 then 1 else r.bytes) b)

pub whole_prefix :
    (a s : Bytes) → length a ≡ 16 → length s ≡ 16 → take (length s) a ≡ s → a ≡ take 16 s
whole_prefix a s p q e =
    sym (take_all 16 a (omega arith))
    ∙ ap (λ (t : ℕ). take t a) (sym q)
    ∙ e
    ∙ sym (take_all 16 s (omega arith))

pub nothing_yet : (n : ℕ) (b s : Bytes) → length s ≡ n → take (length s - n) b ≡ drop n s
nothing_yet n b s e =
    ap (λ (t : ℕ). take t b) (zero_left (length s) n e) ∙ sym (drop_all n s (omega arith))
  where
    zero_left : (m n : ℕ) → m ≡ n → m - n ≡ 0
    zero_left m n e = omega arith

pub whole_page :
    (a s : Bytes)
    → length a ≡ 4
    → length s ≡ 20
    → take (length s - 16) a ≡ drop 16 s
    → a ≡ take 4 (drop 16 s)
whole_page a s p q e =
    sym (take_all 4 a (omega arith))
    ∙ ap (λ (t : ℕ). take t a) (sym (four (length s) q))
    ∙ e
    ∙ sym (take_all 4 (drop 16 s) (omega (arith, length-drop 16 s)))
  where
    four : (m : ℕ) → m ≡ 20 → m - 16 ≡ 4
    four m e = omega arith

pub is_some_value {ℓ} : {A : Type ℓ} (o : Option A) → is_some o ≡ true → (a : A) × (o ≡ some a)
is_some_value none h = absurd (false≢true h)
is_some_value (some a) h = (a, refl)
