-- ===== src/Archive/Bounds.antt =====
-- What the archive helper, app/archive.c, collects.
use mathlib.Core.Option.{some-injective}
use whitenoise_linux.Base.Int.{ℤ}
use whitenoise_linux.Base.{
  ℕ, ◌+◌, ◌-◌, ◌*◌, ◌≤◌, ◌<◌, List, [], ◌∷◌, ◌++◌, Bytes, Bool, false, not, ◌&&◌, Option, none,
  some, ltb, ◌==◌, if◌then◌else◌, length, take, ◌≡◌, refl, ap, arith, inl, inr, Bool-cases,
  Option-cases, subst, length-append, length-take,
}
use whitenoise_linux.Decoder.Wire.{archive_count_max, archive_list_max, archive_entry_max, put}
use whitenoise_linux.Archive.Output.{Output, arc_reserve, IsOutput, arc_reserve_room}
use whitenoise_linux.Archive.Read.{
  Data, gives, fails, Entry, declared, record_bytes, name_refused, add_record, size_refused,
  is_positive, size_agrees, arc_record, make_room, extract_loop, declared_room, arc_extract,
}

-- The list so far: its records have 17 bytes at least.
pub record IsListed (out : Output) : Type 0 where
  pub bounded : IsOutput archive_list_max out
  pub few : out.count ≤ archive_count_max
  pub long : out.count * 17 ≤ length out.content
  pub none_yet : out.count ≡ 0 → length out.content ≡ 0

-- The entry so far.
pub record IsExtracted (out : Output) : Type 0 where
  pub bounded : IsOutput archive_entry_max out
  pub uncounted : out.count ≡ 0

length-record_bytes :
    (index : ℕ) (size : ℤ) (name : Bytes) → length (record_bytes index size name) ≡ 16 + length name
unfolding record_bytes put
length-record_bytes index size name = omega arith

got_fits :
    (capacity size : ℕ) (d : Bytes)
    → size ≤ capacity
    → ltb
        (archive_entry_max - size)
        (length (take (if (archive_entry_max - size) == 0 then 1 else capacity - size) d))
      ≡ false
    → (length (take (if (archive_entry_max - size) == 0 then 1 else capacity - size) d) == 0)
      ≡ false
    → size + length (take (if (archive_entry_max - size) == 0 then 1 else capacity - size) d)
      ≤ capacity
got_fits capacity size d held fits more = elim (Bool-cases ((archive_entry_max - size) == 0)) [
  | inl full ↦ absurd (ground (arith, rw full at fits, rw full at more))
  | inr space ↦ rw space (omega (arith, length-take (capacity - size) d))
]

module _ (memory : ℕ → Bool) where
  added-IsListed :
      (x : Option Output) (out out' : Output) (index : ℕ) (size : ℤ) (name : Bytes)
      → arc_reserve memory out (16 + length name) archive_list_max ≡ x
      → IsListed out
      → out.count < archive_count_max
      → 0 < length name
      → add_record x index size name ≡ some out'
      → IsListed out'
  added-IsListed none out out' index size name same v few named e = cc
  added-IsListed (some o) out out' index size name same v few named e =
      let (bounded, room, content, count) =
        arc_reserve_room memory out o (16 + length name) archive_list_max (omega arith) v.bounded
          same in
      let total : length (o.content ++ record_bytes index size name)
          ≡ length out.content + (16 + length name) =
        omega (
          arith,
          length-append o.content (record_bytes index size name),
          length-record_bytes index size name,
          ap length content,
        ) in
      subst IsListed (some-injective _ out' e) (record {
        bounded = record { within = omega (arith, total); limited = bounded.limited };
        few = omega (arith, count);
        long = omega (arith, total, count, v.long);
        none_yet = λ h. absurd (omega arith);
      })

  pub arc_record-IsListed :
      (out out' : Output) (e : Entry) (index : ℕ)
      → IsListed out
      → arc_record memory out e index ≡ some out'
      → IsListed out'
  unfolding arc_record
  arc_record-IsListed out out' e index v h = by_name e.name h
    where
      by_name :
          (x : Option Bytes)
          → ◌≡◌ {A = Option Output}
              (elim x [
                | none ↦ none
                | some name ↦
                    if name_refused out e name
                    then none
                    else add_record
                        (arc_reserve memory out (16 + length name) archive_list_max)
                        index
                        (declared e)
                        name
              ])
              (some out')
          → IsListed out'
      by_name none h = cc
      by_name (some name) h = elim (Bool-cases (name_refused out e name)) [
        | inl bad ↦ cc (rw bad at h)
        | inr good ↦
            added-IsListed _ out out' index (declared e) name refl v (ground arith) (ground arith)
              (rw good at h)
      ]

  make_room-IsExtracted :
      (out out' : Output) → IsExtracted out → make_room memory out ≡ some out' → IsExtracted out'
  unfolding make_room
  make_room-IsExtracted out out' v e =
      let remaining = archive_entry_max - length out.content in
      elim (Bool-cases (not (remaining == 0) && (length out.content == out.capacity))) [
        | inl more ↦
            let (bounded, room, content, count) =
              arc_reserve_room memory out out' _ archive_entry_max (omega arith) v.bounded
                (rw more at e) in
            record { bounded = bounded; uncounted = omega (arith, count, v.uncounted) }
        | inr no_more ↦ subst IsExtracted (some-injective out out' (rw no_more at e)) v
      ]

  grown-IsExtracted :
      (out : Output) (d : Bytes)
      → IsExtracted out
      → length out.content + length d ≤ out.capacity
      → IsExtracted (record out { content = out.content ++ d })
  grown-IsExtracted out d v fits = record {
    bounded = record {
      within = omega (arith, length-append out.content d);
      limited = v.bounded.limited;
    };
    uncounted = v.uncounted;
  }

  extract_loop-IsExtracted :
      (size : ℤ) (ds : List Data) (out out' : Output)
      → IsExtracted out
      → extract_loop memory size ds out ≡ some out'
      → IsExtracted out'
  unfolding extract_loop
  extract_loop-IsExtracted size [] out out' v e = ended (make_room memory out) refl e
    where
      ended :
          (x : Option Output)
          → make_room memory out ≡ x
          → ◌≡◌ {A = Option Output}
              (elim x [
                | none ↦ none
                | some o ↦ if size_agrees size (length o.content) then some o else none
              ])
              (some out')
          → IsExtracted out'
      ended none same e = cc
      ended (some o) same e = elim (Bool-cases (size_agrees size (length o.content))) [
        | inl agrees ↦
            subst IsExtracted (some-injective o out' (rw agrees at e))
              (make_room-IsExtracted out o v same)
        | inr differs ↦ cc (rw differs at e)
      ]
  extract_loop-IsExtracted size (fails ∷ ds) out out' v e = cc
  extract_loop-IsExtracted size (gives d ∷ ds) out out' v e =
      next (λ o. extract_loop-IsExtracted size ds o out') (make_room memory out) refl e
    where
      got : Output → Bytes
      got o =
          take
            (if (archive_entry_max - length o.content) == 0
              then 1
              else o.capacity - length o.content)
            d

      next :
          ((o : Output)
            → IsExtracted o
            → extract_loop memory size ds o ≡ some out'
            → IsExtracted out')
          → (x : Option Output) → make_room memory out ≡ x
          → ◌≡◌ {A = Option Output}
              (elim x [
                | none ↦ none
                | some o ↦
                    if ltb (archive_entry_max - length o.content) (length (got o))
                    then none
                    else if length (got o) == 0
                    then (if size_agrees size (length o.content) then some o else none)
                    else extract_loop memory size ds (record o { content = o.content ++ got o })
              ])
              (some out')
          → IsExtracted out'
      next later none same e = cc
      next later (some o) same e =
          let v' = make_room-IsExtracted out o v same in
          elim (Bool-cases (ltb (archive_entry_max - length o.content) (length (got o)))) [
            | inl much ↦ cc (rw much at e)
            | inr fits ↦ elim (Bool-cases (length (got o) == 0)) [
              | inl over ↦ elim (Bool-cases (size_agrees size (length o.content))) [
                | inl agrees ↦
                    subst IsExtracted (some-injective o out' (rw (fits, over, agrees) at e)) v'
                | inr differs ↦ cc (rw (fits, over, differs) at e)
              ]
              | inr more ↦
                  later (record o { content = o.content ++ got o })
                    (grown-IsExtracted o (got o) v'
                      (got_fits o.capacity (length o.content) d v'.bounded.within fits more))
                    (rw (fits, more) at e)
            ]
          ]

  declared_room-IsExtracted :
      (size : ℤ) (out out' : Output)
      → IsExtracted out
      → declared_room memory size out ≡ some out'
      → IsExtracted out'
  declared_room-IsExtracted size out out' v e = elim (Bool-cases (is_positive size)) [
    | inl more ↦
        let (bounded, room, content, count) =
          arc_reserve_room memory out out' _ archive_entry_max (omega arith) v.bounded
            (rw more at e) in
        record { bounded = bounded; uncounted = omega (arith, count, v.uncounted) }
    | inr no_more ↦ subst IsExtracted (some-injective out out' (rw no_more at e)) v
  ]

  pub arc_extract-IsExtracted :
      (e : Entry) (out out' : Output)
      → IsExtracted out
      → arc_extract memory e out ≡ some out'
      → IsExtracted out'
  unfolding arc_extract
  arc_extract-IsExtracted e out out' v h = elim (Bool-cases (size_refused (declared e))) [
    | inl bad ↦ cc (rw bad at h)
    | inr good ↦ elim (Option-cases (declared_room memory (declared e) out)) [
      | inl no_room ↦ cc (rw (good, no_room) at h)
      | inr (o, room) ↦
          extract_loop-IsExtracted (declared e) e.reads o out'
            (declared_room-IsExtracted (declared e) out o v room) (rw (good, room) at h)
    ]
  ]
