-- ===== src/Archive/Accepted.antt =====
-- The result of arc_read of app/archive.c, and that its parent accepts it.
use mathlib.Core.Option.{some-injective}
use whitenoise_linux.Base.{
  ℕ, ◌+◌, ◌^◌, ◌<◌, List, [], ◌∷◌, Bool, Option, none, some, leb, ◌==◌, length, ◌≡◌, refl, sym, ◌∙◌,
  arith, inl, inr, Bool-cases, Option-cases, guarded_some, subst,
}
use whitenoise_linux.Decoder.Wire.{archive_scan_max, put, u32}
use whitenoise_linux.Decoder.Reply.{archive, ArchiveOp, list_all, one_entry, Reply}
use whitenoise_linux.Decoder.Reply.Header.{IsArchive, parsed}
use whitenoise_linux.Decoder.Build.{archive_cap}
use whitenoise_linux.Archive.Output.{Output, empty_output}
use whitenoise_linux.Archive.Bounds.{
  IsListed, IsExtracted, arc_record-IsListed, arc_extract-IsExtracted,
}
use whitenoise_linux.Archive.Read.{Entry, list_entry, arc_read, reply_header}

-- What the output of a request may be.
abbrev pub IsResult : ArchiveOp → Output → Type 0
IsResult list_all out = IsListed out
IsResult one_entry out = IsExtracted out

module _ (memory : ℕ → Bool) (requested : ℕ) where
  list_entry-IsListed :
      (e : Entry) (index : ℕ) (out out' : Output)
      → IsListed out
      → list_entry memory e index out ≡ some out'
      → IsListed out'
  unfolding list_entry
  list_entry-IsListed e index out out' v h = elim (Bool-cases e.regular) [
    | inl file ↦ arc_record-IsListed memory out out' e index v (ground (arith, h))
    | inr other ↦ subst IsListed (some-injective out out' (ground (arith, h))) v
  ]

  list-IsListed :
      (index : ℕ) (es : List (Option Entry)) (out out' : Output)
      → IsListed out
      → arc_read memory list_all requested index es out ≡ some out'
      → IsListed out'
  unfolding arc_read
  list-IsListed index [] out out' v h = subst IsListed (some-injective out out' h) v
  list-IsListed index (none ∷ es) out out' v h = cc
  list-IsListed index (some e ∷ es) out out' v h = elim (Bool-cases (leb archive_scan_max index)) [
    | inl late ↦ cc (rw late at h)
    | inr early ↦ elim (Option-cases (list_entry memory e index out)) [
      | inl bad ↦ cc (rw (early, bad) at h)
      | inr (o, good) ↦
          let (skips, rest) = guarded_some e.skips _ out' (rw (early, good) at h) in
          list-IsListed (index + 1) es o out' (list_entry-IsListed e index out o v good) rest
    ]
  ]

  entry-IsExtracted :
      (index : ℕ) (es : List (Option Entry)) (out out' : Output)
      → IsExtracted out
      → arc_read memory one_entry requested index es out ≡ some out'
      → IsExtracted out'
  unfolding arc_read
  entry-IsExtracted index [] out out' v h = cc
  entry-IsExtracted index (none ∷ es) out out' v h = cc
  entry-IsExtracted index (some e ∷ es) out out' v h =
      elim (Bool-cases (leb archive_scan_max index)) [
        | inl late ↦ cc (rw late at h)
        | inr early ↦ elim (Bool-cases (index == requested)) [
          | inl this ↦
              let (file, rest) = guarded_some e.regular _ out' (rw (early, this) at h) in
              arc_extract-IsExtracted memory e out out' v rest
          | inr other ↦
              let (skips, rest) = guarded_some e.skips _ out' (rw (early, other) at h) in
              entry-IsExtracted (index + 1) es out out' v rest
        ]
      ]

-- What arc_read collects keeps to the limits of the request: a list has at most 2000 records of 17
-- bytes or more, an entry at most 64 MiB and no count; the content is inside its block.
pub arc_read-IsResult :
    (memory : ℕ → Bool) (op : ArchiveOp) (requested : ℕ) (es : List (Option Entry)) (out : Output)
    → arc_read memory op requested 0 es empty_output ≡ some out
    → IsResult op out
arc_read-IsResult memory list_all requested es out h =
    list-IsListed memory requested 0 es empty_output out
      (record {
        bounded = record { within = omega arith; limited = omega arith };
        few = omega arith;
        long = omega arith;
        none_yet = λ e. refl;
      })
      h
arc_read-IsResult memory one_entry requested es out h =
    entry-IsExtracted memory requested 0 es empty_output out
      (record {
        bounded = record { within = omega arith; limited = omega arith };
        uncounted = refl;
      })
      h

-- The parent's reply behind the header that the helper writes.
abbrev pub answered : ArchiveOp → ℕ → Output → Reply → Reply
answered op index out r =
    parsed archive
      (record r { header = reply_header out index; op = op; index = index; cap = archive_cap op })

header_words :
    (out : Output) (index : ℕ)
    → out.count < 2 ^ 32
    → index < 2 ^ 32
    → length out.content < 2 ^ 32
    → (u32 (reply_header out index) 4 ≡ out.count)
      × (u32 (reply_header out index) 8 ≡ index)
      × (u32 (reply_header out index) 12 ≡ length out.content)
unfolding reply_header put u32
header_words out index few small short = (omega arith, omega arith, omega arith)

-- Whatever the helper answers to a request, its parent accepts the header: the two sides agree.
pub reply_header-IsArchive :
    (memory : ℕ → Bool) (op : ArchiveOp) (index : ℕ) (es : List (Option Entry)) (out : Output)
    (r : Reply)
    → index < archive_scan_max
    → (op ≡ list_all → index ≡ 0)
    → arc_read memory op index 0 es empty_output ≡ some out
    → IsArchive op (answered op index out r)
unfolding reply_header
reply_header-IsArchive memory op index es out r small only h =
    accepted op only (arc_read-IsResult memory op index es out h)
  where
    accepted :
        (op : ArchiveOp)
        → (op ≡ list_all → index ≡ 0)
        → IsResult op out
        → IsArchive op (answered op index out r)
    accepted list_all only v =
        let (count, word, size) =
          header_words out index (omega (arith, v.few)) (omega arith)
            (omega (arith, v.bounded.within, v.bounded.limited)) in
        record {
          magic = refl;
          fits = omega (arith, size, v.bounded.within, v.bounded.limited);
          counted = (
            omega (arith, count, v.few),
            word ∙ only refl,
            omega (arith, count, size, v.long),
            λ e. size ∙ v.none_yet (sym count ∙ e),
          );
        }
    accepted one_entry only v =
        let (count, word, size) =
          header_words out index (omega (arith, v.uncounted)) (omega arith)
            (omega (arith, v.bounded.within, v.bounded.limited)) in
        record {
          magic = refl;
          fits = omega (arith, size, v.bounded.within, v.bounded.limited);
          counted = (count ∙ v.uncounted, word);
        }
