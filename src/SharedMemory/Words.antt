-- ===== src/SharedMemory/Words.antt =====
-- Reads and writes of app/helper_ipc.c are inside the mapping, and no concurrent change is lost.
use mathlib.Core.Option.{some-injective}
use whitenoise_linux.Base.{
  ℕ, ◌+◌, ◌≤◌, List, [], ◌∷◌, ◌++◌, Bytes, true, false, Option, none, some, leb, if◌then◌else◌,
  length, take, drop, write_at, ◌≡◌, refl, sym, ap, ◌∙◌, arith, inl, inr, Bool-cases, length-take,
  length-drop, take-append_le, drop-append_le, length-write_at, take_all, drop-append,
  take-append-drop, append_assoc, take-append,
}
use whitenoise_linux.SharedMemory.Access.{
  outside, in_header, read_at, wn_ipc_read, exchange, written, wn_ipc_write,
}

-- The word that the last failed attempt found, or the one first loaded.
abbrev pub latest : Bytes → List (Option Bytes) → Bytes
latest word [] = word
latest word (none ∷ attempts) = word
latest word (some other ∷ attempts) = latest other attempts

-- A write to the header word changes its own bytes only: the other bytes of the word that is stored
-- are those of the latest change by anyone else, so no concurrent command is lost.
pub exchange-latest :
    (previous d word : Bytes) (offset : ℕ) (attempts : List (Option Bytes))
    → exchange previous d offset attempts ≡ some word
    → word ≡ write_at (latest previous attempts) offset d
unfolding exchange
exchange-latest previous d word offset [] e = cc
exchange-latest previous d word offset (none ∷ attempts) e = sym (some-injective _ word e)
exchange-latest previous d word offset (some other ∷ attempts) e =
    exchange-latest other d word offset attempts e

read_word :
    (n size offset : ℕ) (m : Bytes)
    → offset + size ≤ n
    → read_at (take n m) size offset ≡ read_at m size offset
read_word n size offset m h = elim (Bool-cases (leb (length m) n)) [
  | inl short ↦ ap (λ (t : Bytes). read_at t size offset) (take_all n m (ground arith))
  | inr long ↦
      let a = take n m in
      let b = drop n m in
      let whole : length a ≡ n = ground (arith, length-take n m) in
      sym (
        ap (λ (t : Bytes). read_at t size offset) (sym (take-append-drop n m))
        ∙ ap (take size) (drop-append_le offset a b (omega arith))
        ∙ take-append_le size (drop offset a) b (omega (arith, length-drop offset a)))
]

-- wn_ipc_read fails exactly if the range is not in the mapping, and otherwise reads the range, in
-- the header word as elsewhere.
pub wn_ipc_read-range :
    (memory : Bytes) (size offset : ℕ)
    → wn_ipc_read (some memory) size offset
      ≡ (if leb (offset + size) (length memory) then some (read_at memory size offset) else none)
unfolding wn_ipc_read
wn_ipc_read-range memory size offset = elim (Bool-cases (leb (offset + size) (length memory))) [
  | inr out ↦ rw (out, beyond out) refl
  | inl within ↦ elim (Bool-cases (in_header memory size offset)) [
    | inl word ↦
        rw (within, inside within, word) (ap some (read_word 4 size offset memory (ground arith)))
    | inr other ↦ rw (within, inside within, other) refl
  ]
]
  where
    beyond : leb (offset + size) (length memory) ≡ false → outside memory size offset ≡ true
    beyond e = ground arith

    inside : leb (offset + size) (length memory) ≡ true → outside memory size offset ≡ false
    inside e = ground arith

write_word :
    (n offset : ℕ) (m d : Bytes)
    → offset + length d ≤ n
    → n ≤ length m
    → write_at (take n m) offset d ++ drop n m ≡ write_at m offset d
write_word n offset m d h k =
    let a = take n m in
    let b = drop n m in
    let size : length a ≡ n = ground (arith, length-take n m) in
    append_assoc (take offset a) (d ++ drop (offset + length d) a) b
    ∙ ap (λ (t : Bytes). take offset a ++ t)
        (append_assoc d (drop (offset + length d) a) b
          ∙ ap (λ (t : Bytes). d ++ t) (sym (drop-append_le (offset + length d) a b (omega arith))))
    ∙ ap (λ (t : Bytes). t ++ (d ++ drop (offset + length d) (a ++ b)))
        (sym (take-append_le offset a b (omega arith)))
    ∙ ap (λ (t : Bytes). write_at t offset d) (take-append-drop n m)

read_written :
    (m d : Bytes) (offset : ℕ)
    → offset + length d ≤ length m
    → read_at (write_at m offset d) (length d) offset ≡ d
read_written m d offset h =
    let before : length (take offset m) ≡ offset = ground (arith, length-take offset m) in
    let rest = d ++ drop (offset + length d) m in
    ap (λ (n : ℕ). take (length d) (drop n (take offset m ++ rest))) (sym before)
    ∙ ap (take (length d)) (drop-append (take offset m) rest)
    ∙ take-append d (drop (offset + length d) m)

-- A write that no one interferes with stores its bytes in their range, in the header word as
-- elsewhere, and they are read back; the mapping keeps its size.
pub wn_ipc_read-wn_ipc_write :
    (memory d : Bytes) (offset : ℕ)
    → offset + length d ≤ length memory
    → let memory' = write_at memory offset d in
      (wn_ipc_write (some memory) d offset (none ∷ []) ≡ written memory')
      × (length memory' ≡ length memory)
      × (wn_ipc_read (some memory') (length d) offset ≡ some d)
unfolding wn_ipc_write exchange
wn_ipc_read-wn_ipc_write memory d offset h = (stored, length-write_at memory offset d h, back)
  where
    inside : outside memory (length d) offset ≡ false
    inside = ground arith

    stored : wn_ipc_write (some memory) d offset (none ∷ []) ≡ written (write_at memory offset d)
    stored = elim (Bool-cases (in_header memory (length d) offset)) [
      | inl word ↦
          rw (inside, word)
            (ap written (write_word 4 offset memory d (ground arith) (ground arith)))
      | inr other ↦ rw (inside, other) refl
    ]

    within : leb (offset + length d) (length (write_at memory offset d)) ≡ true
    within = ground (arith, length-write_at memory offset d h)

    back : wn_ipc_read (some (write_at memory offset d)) (length d) offset ≡ some d
    back =
        wn_ipc_read-range (write_at memory offset d) (length d) offset
        ∙ rw within (ap some (read_written memory d offset h))
