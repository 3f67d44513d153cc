-- ===== src/Archive/Read.antt =====
-- arc_record, arc_extract and arc_read of app/archive.c over the answers of libarchive.
use whitenoise_linux.Base.Int.{ℤ, pos, negsuc}
use whitenoise_linux.Base.{
  ℕ, zero, suc, ◌+◌, ◌-◌, ◌/◌, ◌^◌, List, [], ◌∷◌, ◌++◌, Bytes, Bool, true, false, not, ◌&&◌, ◌||◌,
  Option, none, some, ltb, leb, ◌==◌, if◌then◌else◌, codes, length, take,
}
use whitenoise_linux.Decoder.Wire.{
  archive_count_max, archive_name_max, archive_list_max, archive_entry_max, archive_scan_max, put,
  u64_mod,
}
use whitenoise_linux.Decoder.Reply.{ArchiveOp, list_all, one_entry}
use whitenoise_linux.Archive.Output.{Output, arc_reserve}

-- What one archive_read_data gives: bytes, of which it stores as many as there is room for, or an
-- error. When the list ends it gives 0.
pub data Data : Type 0 where
  gives : Bytes → Data
  fails : Data

-- An entry: whether it is a regular file and no link (arc_regular), its UTF-8 name, its size if it is
-- set, the answers of archive_read_data, and whether archive_read_data_skip succeeds.
pub record Entry : Type 0 where
  pub regular : Bool
  pub name : Option Bytes
  pub size : Option ℤ
  pub reads : List Data
  pub skips : Bool

-- int64_t declared, with -1 for a size that is not set.
abbrev pub declared : Entry → ℤ
declared e = elim e.size [ none ↦ negsuc 0 | some z ↦ z ]

abbrev pub below_minus_one : ℤ → Bool
below_minus_one (pos n) = false
below_minus_one (negsuc zero) = false
below_minus_one (negsuc (suc n)) = true

-- (uint64_t)declared
abbrev pub as_u64 : ℤ → ℕ
as_u64 (pos n) = n
as_u64 (negsuc n) = u64_mod - suc n

-- The 16 bytes of a record, and the name behind them.
unfoldable pub record_bytes : ℕ → ℤ → Bytes → Bytes
record_bytes index size name =
    put index ++ (put (length name) ++ (put (as_u64 size) ++ (put (as_u64 size / 2 ^ 32) ++ name)))

abbrev pub name_refused : Output → Entry → Bytes → Bool
name_refused out e name =
    leb archive_count_max out.count
    || length name == 0
    || ltb archive_name_max (length name)
    || below_minus_one (declared e)

abbrev pub add_record : Option Output → ℕ → ℤ → Bytes → Option Output
add_record none index size name = none
add_record (some out) index size name =
    some
      (record out { content = out.content ++ record_bytes index size name; count = out.count + 1 })

-- declared < -1 || declared > WN_ARCHIVE_ENTRY_MAX
abbrev pub size_refused : ℤ → Bool
size_refused (pos n) = ltb archive_entry_max n
size_refused (negsuc zero) = false
size_refused (negsuc (suc n)) = true

abbrev pub is_positive : ℤ → Bool
is_positive (pos n) = ltb 0 n
is_positive (negsuc n) = false

-- declared < 0 || (uint64_t)declared == out->size
abbrev pub size_agrees : ℤ → ℕ → Bool
size_agrees (pos n) size = n == size
size_agrees (negsuc n) size = true

module _ (memory : ℕ → Bool) where
  -- arc_record
  unfoldable pub arc_record : Output → Entry → ℕ → Option Output
  arc_record out e index = elim e.name [
    | none ↦ none
    | some name ↦
        if name_refused out e name
        then none
        else add_record (arc_reserve memory out (16 + length name) archive_list_max) index
            (declared e) name
  ]

  -- Room for the next read of the loop, while the entry may grow.
  unfoldable pub make_room : Output → Option Output
  make_room out =
      let remaining = archive_entry_max - length out.content in
      if not (remaining == 0) && (length out.content == out.capacity)
      then arc_reserve memory out (if ltb remaining 65536 then remaining else 65536)
          archive_entry_max
      else some out

  -- The loop of arc_extract.
  unfoldable pub extract_loop : ℤ → List Data → Output → Option Output
  extract_loop size [] out = elim (make_room out) [
    | none ↦ none
    | some out' ↦ if size_agrees size (length out'.content) then some out' else none
  ]
  extract_loop size (fails ∷ ds) out = none
  extract_loop size (gives d ∷ ds) out = elim (make_room out) [
    | none ↦ none
    | some out' ↦
        let remaining = archive_entry_max - length out'.content in
        let got = take (if remaining == 0 then 1 else out'.capacity - length out'.content) d in
        let rest = extract_loop size ds (record out' { content = out'.content ++ got }) in
        if ltb remaining (length got)
        then none
        else if length got == 0
        then (if size_agrees size (length out'.content) then some out' else none)
        else rest
  ]

  -- Room for a declared size.
  abbrev pub declared_room : ℤ → Output → Option Output
  declared_room size out =
      if is_positive size then arc_reserve memory out (as_u64 size) archive_entry_max else some out

  -- arc_extract
  unfoldable pub arc_extract : Entry → Output → Option Output
  arc_extract e out =
      if size_refused (declared e) then none else elim (declared_room (declared e) out) [
        | none ↦ none
        | some out' ↦ extract_loop (declared e) e.reads out'
      ]

  -- The entry `index` of a list.
  unfoldable pub list_entry : Entry → ℕ → Output → Option Output
  list_entry e index out = if e.regular then arc_record out e index else some out

  -- arc_read from the entry `index` on: a header that is read, or (`none`) one that is not.
  unfoldable pub arc_read : ArchiveOp → ℕ → ℕ → List (Option Entry) → Output → Option Output
  arc_read list_all requested index [] out = some out
  arc_read one_entry requested index [] out = none
  arc_read op requested index (none ∷ es) out = none
  arc_read list_all requested index (some e ∷ es) out =
      if leb archive_scan_max index then none else elim (list_entry e index out) [
        | none ↦ none
        | some out' ↦
            let rest = arc_read list_all requested (index + 1) es out' in
            if e.skips then rest else none
      ]
  arc_read one_entry requested index (some e ∷ es) out =
      let rest = arc_read one_entry requested (index + 1) es out in
      if leb archive_scan_max index
      then none
      else if index == requested
      then (if e.regular then arc_extract e out else none)
      else if e.skips
      then rest
      else none

-- What main writes after arc_read: the header and the payload.
unfoldable pub reply_header : Output → ℕ → Bytes
reply_header out index = codes "ARO1" ++ (put out.count ++ (put index ++ put (length out.content)))
