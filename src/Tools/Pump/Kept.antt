-- ===== src/Tools/Pump/Kept.antt =====
-- What the loop of serve_request keeps of a tool's output (app/tool_broker.c).
use native.Mathlib.Nat.{pow-suc, mul_assoc, mul_comm, zero-mul}
use whitenoise_linux.Base.Results.{enomem}
use whitenoise_linux.Base.{
  ℕ, zero, suc, ◌-◌, ◌*◌, ◌^◌, ◌≤◌, ◌<◌, min, [], ◌∷◌, ◌++◌, Bytes, Bool, true, false, not, Option,
  none, some, ltb, ◌==◌, ◌&&◌, if◌then◌else◌, length, take, drop, ◌≡◌, refl, sym, ap, ◌∙◌, arith,
  inl, inr, Bool-cases, append_assoc, length-append, length-take, take-append-drop, subst, if_true,
  if_false,
}
use whitenoise_linux.Tools.Request.{output_limit}
use whitenoise_linux.Tools.Pump.{
  Pipe, Call, Report, read_bytes, read_pipe, next_capacity, visit, IsCapacity, IsKept, IsPipe,
  first_capacity, errno,
}

pow_positive : (j : ℕ) → 0 < 2 ^ j
pow_positive zero = omega arith
pow_positive (suc j) = omega (arith, pow-suc 2 j, pow_positive j)

pub IsCapacity-le : (c : ℕ) → IsCapacity c → c ≤ output_limit
IsCapacity-le c (inl e) = omega arith
IsCapacity-le c (inr (j, e)) = grind (arith, pow_positive j)

-- A buffer that is full and below the limit grows, and stays a part of the limit.
pub IsCapacity-next :
    (c : ℕ) → IsCapacity c → c < output_limit → IsCapacity (next_capacity c) × (c < next_capacity c)
IsCapacity-next c (inl e) h = rw e (inr (14, refl), omega arith)
IsCapacity-next c (inr (zero, e)) h = absurd (omega (arith, e))
IsCapacity-next zero (inr (suc j, e)) h = absurd (omega (arith, zero-mul (2 ^ suc j), e))
IsCapacity-next (suc c) (inr (suc j, e)) h =
    rw (if_false (suc c == 0) first_capacity (suc c * 2) (ground arith)) (
      inr (
        j,
        mul_assoc (suc c) 2 (2 ^ j)
            ∙ ap (λ (t : ℕ). suc c * t) (mul_comm 2 (2 ^ j) ∙ sym (pow-suc 2 j))
            ∙ e,
      ),
      omega arith,
    )

pub IsPipe-IsKept : (whole : Bytes) (p : Pipe) → IsPipe whole p → IsKept whole p
IsPipe-IsKept whole p h = record {
  front = (p.pending, h.all);
  room = h.room;
  limited = IsCapacity-le p.capacity h.grown;
}

-- A pipe and an error, of which the pipe is as it should be where there is none.
abbrev pub Kept : Bytes → Pipe × ℕ → Type 0
Kept whole (p, e) = IsKept whole p × (e ≡ 0 → IsPipe whole p)

pub kept : (whole : Bytes) (p : Pipe) (e : ℕ) → IsPipe whole p → Kept whole (p, e)
kept whole p e h = (IsPipe-IsKept whole p h, λ _. h)

read_bytes-Kept :
    (whole : Bytes) (p : Pipe) (k : ℕ) (pending : Bytes)
    → p.pending ≡ pending
    → p.is_open ≡ true
    → IsPipe whole p
    → Kept whole (read_bytes p k pending)
unfolding read_bytes
read_bytes-Kept whole p k [] at opened h =
    kept whole _ 0 (record { all = h.all; room = h.room; grown = h.grown; finished = λ _. at })
read_bytes-Kept whole p k (b ∷ rest) at opened h =
    elim (Bool-cases (p.capacity - length p.buffer == 0)) [
      | inl full ↦ rw full (
        record {
          front = (p.pending, h.all);
          room = h.room;
          limited = IsCapacity-le p.capacity h.grown;
        },
        λ e. absurd (omega (arith, e)),
      )
      | inr free ↦
          let count = min k (min (p.capacity - length p.buffer - 1) (length rest)) in
          rw free (
            kept whole _ 0 (record {
              all =
                  append_assoc p.buffer (b ∷ take count rest) (drop count rest)
                  ∙ ap (λ (t : Bytes). p.buffer ++ b ∷ t) (take-append-drop count rest)
                  ∙ ap (λ (t : Bytes). p.buffer ++ t) (sym at)
                  ∙ h.all;
              room = ground (
                arith,
                free,
                length-append p.buffer (b ∷ take count rest),
                length-take count rest,
              );
              grown = h.grown;
              finished = λ shut. cc opened;
            }))
    ]

read_pipe-Kept :
    (whole : Bytes) (p : Pipe) (call : Call)
    → p.is_open ≡ true
    → IsPipe whole p
    → Kept whole (read_pipe p call)
unfolding read_pipe
read_pipe-Kept whole p (Call.got k) opened h = read_bytes-Kept whole p k p.pending refl opened h
read_pipe-Kept whole p Call.interrupted opened h = kept whole p 0 h
read_pipe-Kept whole p (Call.failed k) opened h = kept whole p (errno k) h

pub visit-Kept :
    (whole : Bytes) (p : Pipe) (r : Option Report) → IsPipe whole p → Kept whole (visit p r)
unfolding visit
visit-Kept whole p none h = kept whole p 0 h
visit-Kept whole p (some r) h = elim (Bool-cases p.is_open) [
  | inr shut ↦
      subst (Kept whole) (sym (if_true (not p.is_open) (p, 0) _ (ap not shut))) (kept whole p 0 h)
  | inl opened ↦
      subst (Kept whole) (sym (if_false (not p.is_open) (p, 0) _ (ap not opened)))
        (elim (Bool-cases (length p.buffer == p.capacity && ltb p.capacity output_limit)) [
          | inr room ↦
              subst (Kept whole) (sym (if_false _ _ _ room))
                (read_pipe-Kept whole p r.call opened h)
          | inl full ↦ subst (Kept whole) (sym (if_true _ _ _ full)) (grow opened full r.grows)
        ])
]
  where
    grow :
        p.is_open ≡ true
        → (length p.buffer == p.capacity && ltb p.capacity output_limit) ≡ true
        → (grows : Bool)
        → Kept whole (
            if grows
            then read_pipe (record p { capacity = next_capacity p.capacity }) r.call
            else (p, enomem))
    grow opened full false = kept whole p enomem h
    grow opened full true =
        let (grown, more) = IsCapacity-next p.capacity h.grown (ground (arith, full)) in
        read_pipe-Kept whole _ r.call opened (record {
          all = h.all;
          room = omega (arith, h.room, more);
          grown = grown;
          finished = h.finished;
        })
