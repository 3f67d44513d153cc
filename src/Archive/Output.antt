-- ===== src/Archive/Output.antt =====
-- `struct arc_output` of app/archive.c and arc_reserve.
use mathlib.Core.Option.{some-injective}
use whitenoise_linux.Base.{
  ℕ, zero, suc, ◌+◌, ◌-◌, ◌*◌, ◌/◌, ◌≤◌, ◌<◌, [], Bytes, Bool, Option, none, some, ltb, leb, ◌==◌,
  if◌then◌else◌, length, ◌≡◌, refl, arith, inl, inr, Bool-cases, subst,
}

-- The bytes in use, `out->size` being their number, the size of the block, and the records.
pub record Output : Type 0 where
  pub content : Bytes
  pub capacity : ℕ
  pub count : ℕ

abbrev pub empty_output : Output
empty_output = record { content = []; capacity = 0; count = 0 }

-- while (capacity < needed) capacity = capacity > limit / 2 ? limit : capacity * 2;
unfoldable pub grow : ℕ → ℕ → ℕ → ℕ → ℕ
grow zero capacity needed limit = capacity
grow (suc turns) capacity needed limit =
    let rest = grow turns (if ltb (limit / 2) capacity then limit else capacity * 2) needed limit in
    if ltb capacity needed then rest else capacity

-- The capacity that arc_reserve asks realloc for; `needed` turns of the loop are enough.
abbrev pub grown : Output → ℕ → ℕ → ℕ
grown out needed limit = grow needed (if out.capacity == 0 then 4096 else out.capacity) needed limit

-- realloc, whose results are taken from `memory`: whether it succeeds, by the size asked for.
module _ (memory : ℕ → Bool) where
  -- arc_reserve: the output, or `none` for 0.
  unfoldable pub arc_reserve : Output → ℕ → ℕ → Option Output
  arc_reserve out extra limit =
      if ltb (limit - length out.content) extra
      then none
      else let needed = length out.content + extra in
        if leb needed out.capacity
        then some out
        else if memory (grown out needed limit)
        then some (record out { capacity = grown out needed limit })
        else none

-- The bytes in use are in the block, which is no larger than the limit.
pub record IsOutput (limit : ℕ) (out : Output) : Type 0 where
  pub within : length out.content ≤ out.capacity
  pub limited : out.capacity ≤ limit

-- The loop ends in as many turns, with a capacity that is enough and within the limit.
grow_lem :
    (turns capacity needed limit : ℕ)
    → 0 < capacity
    → capacity ≤ limit
    → needed ≤ limit
    → needed ≤ turns + capacity
    → (needed ≤ grow turns capacity needed limit) × (grow turns capacity needed limit ≤ limit)
unfolding grow
grow_lem zero capacity needed limit pos small fits enough = (omega arith, small)
grow_lem (suc turns) capacity needed limit pos small fits enough =
    elim (Bool-cases (ltb capacity needed)) [
      | inl more ↦ rw more (elim (Bool-cases (ltb (limit / 2) capacity)) [
        | inl big ↦
            rw big
              (grow_lem turns limit needed limit (omega arith) (omega arith) fits (omega arith))
        | inr h ↦ rw h (
            grow_lem turns (capacity * 2) needed limit (omega arith) (ground arith) fits
              (ground arith))
      ])
      | inr enough' ↦ rw enough' (ground arith, small)
    ]

-- What arc_reserve leaves has room for what was asked for, and the same content.
abbrev pub HasRoomFor : ℕ → ℕ → Output → Output → Type 0
HasRoomFor extra limit out out' =
    IsOutput limit out'
    × (length out.content + extra ≤ out'.capacity)
    × (out'.content ≡ out.content)
    × (out'.count ≡ out.count)

pub arc_reserve_room :
    (memory : ℕ → Bool) (out out' : Output) (extra limit : ℕ)
    → 4096 ≤ limit
    → IsOutput limit out
    → arc_reserve memory out extra limit ≡ some out'
    → HasRoomFor extra limit out out'
unfolding arc_reserve
arc_reserve_room memory out out' extra limit big v e =
    elim (Bool-cases (ltb (limit - length out.content) extra)) [
      | inl much ↦ cc (rw much at e)
      | inr fits ↦ elim (Bool-cases (leb (length out.content + extra) out.capacity)) [
        | inl enough ↦
            subst (HasRoomFor extra limit out) (some-injective out out' (rw (fits, enough) at e))
              (v, ground arith, refl, refl)
        | inr more ↦ elim (Bool-cases (memory (grown out (length out.content + extra) limit))) [
          | inl got ↦
              let needed = length out.content + extra in
              let start = if out.capacity == 0 then 4096 else out.capacity in
              let (room, small) =
                grow_lem needed start needed limit (ground arith) (ground arith) (ground arith)
                  (omega arith) in
              subst (HasRoomFor extra limit out)
                (some-injective (record out { capacity = grown out needed limit }) out'
                  (rw (fits, more, got) at e))
                (record { within = omega arith; limited = small }, room, refl, refl)
          | inr failed ↦ cc (rw (fits, more, failed) at e)
        ]
      ]
    ]
