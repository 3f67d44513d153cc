-- ===== src/Broker/Strings.antt =====
-- Argument strings in one block, each ended by a NUL: strnlen, and the loops of serve_request in
-- app/tool_broker.c and app/helper_broker.c that take such a block apart.
use mathlib.Core.Option.{some-injective}
use native.Mathlib.Nat.{le_refl}
use whitenoise_linux.Base.{
  ℕ, zero, suc, ◌≤◌, ◌<◌, List, [], ◌∷◌, ◌++◌, Bytes, Option, none, some, ◌==◌, ◌||◌, if◌then◌else◌,
  length, take, drop, All, ◌≡◌, refl, sym, ap, ◌∙◌, arith, inl, inr, Bool-cases, length-append,
  take-append, append_assoc, if_false, unless_some, subst,
}

-- strnlen(s, n), where `s` is the memory from the pointer on.
unfoldable pub strnlen : Bytes → ℕ → ℕ
strnlen [] n = 0
strnlen (c ∷ s) zero = 0
strnlen (c ∷ s) (suc n) = if c == 0 then 0 else suc (strnlen s n)

-- A string of C without its NUL.
abbrev pub IsText : Bytes → Type 0
IsText s = All (λ (c : ℕ). 0 < c) s

-- The block that holds these strings.
unfoldable pub terminated : List Bytes → Bytes
terminated [] = []
terminated (s ∷ ss) = s ++ 0 ∷ terminated ss

-- One more string in front of those that the rest of the loop finds.
abbrev pub with_first : Bytes → Option (List Bytes × Bytes) → Option (List Bytes × Bytes)
with_first s none = none
with_first s (some (ss, rest)) = some (s ∷ ss, rest)

-- The loop over the arguments: `rest` is what of the block lies behind `offset`. It gives the
-- strings and what is left behind them.
unfoldable pub split : ℕ → Bytes → Option (List Bytes × Bytes)
split zero rest = some ([], rest)
split (suc count) rest =
    let l = strnlen rest (length rest) in
    if length rest == 0 || l == length rest
    then none
    else with_first (take l rest) (split count (drop (suc l) rest))

abbrev pub slash_at : ℕ → Bytes → Option Bytes → Option Bytes
slash_at c s none = if c == b'/' then some s else none
slash_at c s (some base) = some base

abbrev pub or_name : Bytes → Option Bytes → Bytes
or_name name none = name
or_name name (some base) = base

-- The last part of a path, behind strrchr(name, '/').
unfoldable pub after_slash : Bytes → Option Bytes
after_slash [] = none
after_slash (c ∷ s) = slash_at c s (after_slash s)

unfoldable pub base_name : Bytes → Bytes
unfolding after_slash
base_name name = or_name name (after_slash name)

pub strnlen-le : (s : Bytes) (n : ℕ) → strnlen s n ≤ n
unfolding strnlen
strnlen-le [] n = omega arith
strnlen-le (c ∷ s) zero = omega arith
strnlen-le (c ∷ s) (suc n) = ground (arith, strnlen-le s n)

pub strnlen-text :
    (s rest : Bytes) (n : ℕ) → IsText s → length s < n → strnlen (s ++ 0 ∷ rest) n ≡ length s
unfolding strnlen
strnlen-text [] rest zero t h = absurd (omega arith)
strnlen-text [] rest (suc n) t h = refl
strnlen-text (c ∷ s) rest zero t h = absurd (omega arith)
strnlen-text (c ∷ s) rest (suc n) t h = ground (arith, strnlen-text s rest n t.1 (omega arith))

-- A string that is as long as it may be, or longer, fills the range.
pub strnlen-long : (s rest : Bytes) (n : ℕ) → IsText s → n ≤ length s → strnlen (s ++ rest) n ≡ n
unfolding strnlen
strnlen-long [] [] zero t h = refl
strnlen-long [] (c ∷ rest) zero t h = refl
strnlen-long [] rest (suc n) t h = absurd (omega arith)
strnlen-long (c ∷ s) rest zero t h = refl
strnlen-long (c ∷ s) rest (suc n) t h = ground (arith, strnlen-long s rest n t.1 (omega arith))

-- Where strnlen stops inside the range, a string ends there.
pub strnlen-found :
    (s : Bytes) (n : ℕ)
    → n ≤ length s
    → strnlen s n < n
    → let l = strnlen s n in (s ≡ take l s ++ 0 ∷ drop (suc l) s) × IsText (take l s)
unfolding strnlen
strnlen-found s zero h lt = absurd (omega arith)
strnlen-found [] (suc n) h lt = absurd (omega arith)
strnlen-found (c ∷ s) (suc n) h lt = elim (Bool-cases (c == 0)) [
  | inl e ↦ rw e (let z : c ≡ 0 = ground arith in (ap (λ (t : ℕ). t ∷ s) z, tt))
  | inr e ↦
      let later : strnlen s n < n = ground (arith, e) in
      let (whole, text) = strnlen-found s n (omega arith) later in
      rw e (ap (◌∷◌ c) whole, (ground arith, text))
]

split-step :
    (count : ℕ) (rest : Bytes)
    → let l = strnlen rest (length rest) in
      l < length rest
      → split (suc count) rest ≡ with_first (take l rest) (split count (drop (suc l) rest))
unfolding split
split-step count rest h =
    if_false (length rest == 0 || strnlen rest (length rest) == length rest) none _ (ground arith)

-- Strings that follow one another are found again, and what stands behind them is left.
pub split-terminated :
    (ss : List Bytes) (rest : Bytes)
    → All IsText ss
    → split (length ss) (terminated ss ++ rest) ≡ some (ss, rest)
unfolding terminated
split-terminated [] rest t = unfold split in refl
split-terminated (s ∷ ss) rest (t, ts) =
    let more = terminated ss ++ rest in
    let block : (s ++ 0 ∷ terminated ss) ++ rest ≡ s ++ 0 ∷ more = append_assoc s _ _ in
    let room : length s < length (s ++ 0 ∷ more) = omega (arith, length-append s (0 ∷ more)) in
    let found = strnlen-text s more (length (s ++ 0 ∷ more)) t room in
    rw block (
      split-step (length ss) (s ++ 0 ∷ more) (rw found room)
      ∙ rw (found, take-append s (0 ∷ more), drop-text s more)
          (ap (with_first s) (split-terminated ss rest ts)))
  where
    drop-text : (s more : Bytes) → drop (suc (length s)) (s ++ 0 ∷ more) ≡ more
    drop-text [] more = refl
    drop-text (c ∷ s) more = drop-text s more

pub with_first-some :
    (s : Bytes) (found : Option (List Bytes × Bytes)) (ss : List Bytes) (rest : Bytes)
    → with_first s found ≡ some (ss, rest)
    → (ts : List Bytes) × (ss ≡ s ∷ ts) × (found ≡ some (ts, rest))
with_first-some s none ss rest e = cc
with_first-some s (some (ts, left)) ss rest e =
    let e' = some-injective _ _ e in
    (
      ts,
      sym (ap (λ (t : List Bytes × Bytes). t.0) e'),
      ap (λ (t : List Bytes × Bytes). some (ts, t.1)) e',
    )

-- What the loop finds is all that the block holds, in order, each ended by its NUL.
pub split-found :
    (count : ℕ) (block rest : Bytes) (ss : List Bytes)
    → split count block ≡ some (ss, rest)
    → (block ≡ terminated ss ++ rest) × (length ss ≡ count) × All IsText ss
unfolding split terminated
split-found zero block rest ss e =
    let e' = some-injective _ _ e in
    let none_left : [] ≡ ss = ap (λ (t : List Bytes × Bytes). t.0) e' in
    subst (λ (t : List Bytes). (block ≡ terminated t ++ rest) × (length t ≡ 0) × All IsText t)
      none_left (ap (λ (t : List Bytes × Bytes). t.1) e', refl, tt)
split-found (suc count) block rest ss e =
    let l = strnlen block (length block) in
    let (inside, e') = unless_some (length block == 0 || l == length block) _ (ss, rest) e in
    let short : l < length block = ground (arith, inside, strnlen-le block (length block)) in
    let (ts, whole, later) = with_first-some _ _ ss rest e' in
    let (rest_whole, counted, texts) = split-found count (drop (suc l) block) rest ts later in
    let (block_whole, text) = strnlen-found block (length block) (le_refl _) short in
    rw whole (
      block_whole
          ∙ ap (λ (t : Bytes). take l block ++ 0 ∷ t) rest_whole
          ∙ sym (append_assoc (take l block) _ rest),
      ap suc counted,
      (text, texts),
    )
