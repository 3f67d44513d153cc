-- ===== src/Decoder/Requests/Payload.antt =====
-- The payload that wn_archive_read of app/decoder_ipc.c returns.
use whitenoise_linux.Base.Int.{ℤ}
use whitenoise_linux.Base.{
  ℕ, ◌*◌, ◌≤◌, Bytes, Bool, true, false, Option, none, some, length, ◌≡◌, refl, ap, arith, ◌⊎◌, inl,
  inr, Bool-cases,
}
use whitenoise_linux.Decoder.Wire.{model_output_max}
use whitenoise_linux.Decoder.Reply.{archive, ArchiveOp, list_all, one_entry, Reply}
use whitenoise_linux.Decoder.Reply.Header.{IsArchiveCount}
use whitenoise_linux.Decoder.Reply.Arrive.{GivesSize}
use whitenoise_linux.Decoder.Reply.Limits.{Limits}
use whitenoise_linux.Decoder.Reply.Keeps.{IsWhole}
use whitenoise_linux.Decoder.Transfer.Sound.{IsFresh}
use whitenoise_linux.Decoder.Build.{
  archive_refused, Run, archive_cap, archive_outcome, archive_reply,
}
use whitenoise_linux.Decoder.Requests.{wn_archive_read}
use whitenoise_linux.Decoder.Wire.{archive_count_max}
use whitenoise_linux.Decoder.Requests.Outcome.{image_run-Whole, payload_room, Failed, IsFresh-blank}

archive_outcome_cases :
    (x : Option (Reply × Bool)) (p : Option Bytes) (n l : ℕ)
    → archive_outcome x ≡ some (p, n, l)
    → Failed p n l
      ⊎ ((r : Reply) × (x ≡ some (r, true)) × (r.pixels ≡ p) × (r.count ≡ n) × (r.bytes ≡ l))
archive_outcome_cases none p n l e = cc
archive_outcome_cases (some (r, true)) p n l e =
    inr (r, refl, ground arith, ground arith, ground arith)
archive_outcome_cases (some (r, false)) p n l e = inl (ground arith)

-- A list has at most the maximum of entries and 17 bytes or more for each; an entry has no count.
abbrev pub CountFits : ArchiveOp → ℕ → ℕ → Type 0
CountFits list_all n l = (n ≤ archive_count_max) × (n * 17 ≤ l) × ((n ≡ 0) → (l ≡ 0))
CountFits one_entry n l = n ≡ 0

counted_fits : (o : ArchiveOp) (r : Reply) → IsArchiveCount o r → CountFits o r.count r.bytes
counted_fits list_all r v = (v.0, v.2, v.3)
counted_fits one_entry r v = v.0

all_in_memory : (r : Reply) (s b : Bytes) → IsWhole archive r s b → r.bytes ≤ length b
all_in_memory r s b v = omega (arith, payload_room archive r s b v (omega arith))

cap_small : (o : ArchiveOp) → archive_cap o ≤ model_output_max
cap_small list_all = omega arith
cap_small one_entry = omega arith

archive_reply-IsFresh : (op : ArchiveOp) (index : ℕ) → IsFresh archive (archive_reply op index)
archive_reply-IsFresh op index =
    IsFresh-blank archive 0 (archive_cap op) op index 0 (omega arith) (cap_small op)

module _ (malloc : ℕ → Option Bytes) (gives : GivesSize malloc) (run : Run) where
  -- wn_archive_read gives NULL and zeros, or a payload that is all in memory, within the limit of
  -- the operation, with a count of entries that its length allows.
  pub wn_archive_read_payload :
      (outputs : Bool) (helper content : Option Bytes) (size : ℤ) (op : ArchiveOp) (index : ℕ)
      (p : Option Bytes) (n l : ℕ)
      → wn_archive_read malloc run outputs helper content size op index ≡ some (p, n, l)
      → Failed p n l
        ⊎ ((b : Bytes) × (p ≡ some b) × (l ≤ length b) × (l ≤ archive_cap op) × CountFits op n l)
  unfolding wn_archive_read
  wn_archive_read_payload outputs helper content size op index p n l e =
      elim (Bool-cases (archive_refused outputs helper content size op index)) [
        | inl refused ↦ inl (ground (arith, rw refused at e))
        | inr allowed ↦ elim (archive_outcome_cases _ p n l (rw allowed at e)) [
          | inl bad ↦ inl bad
          | inr (r, ran, pe, ne, le) ↦
              let (s, b, whole, same) =
                image_run-Whole malloc gives run archive _ _ (archive_reply op index) r
                  (archive_reply-IsFresh op index) ran in
              let oe : r.op ≡ op = ap (λ (l : Limits). l.op) same in
              let ce : r.cap ≡ archive_cap op = ap (λ (l : Limits). l.cap) same in
              inr (
                b,
                rw (← pe) whole.pixels_are,
                rw (← le) (all_in_memory r s b whole),
                rw (← le, ← ce) whole.accepted.fits,
                rw (← le, ← ne, ← oe) (counted_fits r.op r whole.accepted.counted),
              )
        ]
      ]
