-- ===== src/Tools/Pump/Completes.antt =====
-- The loop of serve_request comes to its end (app/tool_broker.c).
use whitenoise_linux.Base.{
  ℕ, suc, ◌+◌, ◌-◌, ◌≤◌, ◌<◌, min, List, [], ◌∷◌, Bytes, Bool, true, false, not, Option, none, some,
  All, ltb, ◌==◌, ◌&&◌, ◌||◌, if◌then◌else◌, length, drop, ◌≡◌, refl, sym, ap, ◌∙◌, arith, ◌≢◌, inl,
  inr, Bool-cases, length-append, length-drop, subst, if_true, if_false,
}
use whitenoise_linux.Tools.Request.{output_limit}
use whitenoise_linux.Tools.Pump.{
  Pipe, Call, Report, Poll, Turned, going, over, read_bytes, read_pipe, next_capacity, visit,
  poll_turn, pump, new_pipe, IsPipe, next_turn,
}
use whitenoise_linux.Tools.Pump.Kept.{visit-Kept, IsCapacity-next}
use whitenoise_linux.Tools.Pump.Collected.{over_closed, new_pipe-IsPipe}

-- A report for which memory is there, should it be asked for, and in which read does not fail: it gives
-- bytes or the end, or is interrupted.
abbrev pub IsServed : Option Report → Type 0
IsServed none = Unit
IsServed (some r) = (r.grows ≡ true) × ((e : ℕ) → r.call ≢ Call.failed e)

-- A turn in which poll is interrupted or reports any of the pipes, and that goes well for them.
abbrev pub GoesWell : Poll → Type 0
GoesWell Poll.poll_interrupted = Unit
GoesWell Poll.timed_out = ⊥
GoesWell (Poll.poll_failed e) = ⊥
GoesWell (Poll.ready x y) = IsServed x × IsServed y

-- How often read gives bytes or the end, of the output and of the errors.
abbrev pub call_reads : Call → ℕ
call_reads (Call.got k) = 1
call_reads Call.interrupted = 0
call_reads (Call.failed e) = 0

abbrev pub report_reads : Option Report → ℕ
report_reads none = 0
report_reads (some r) = call_reads r.call

abbrev pub output_reads : List Poll → ℕ
output_reads [] = 0
output_reads (Poll.ready x y ∷ polls) = report_reads x + output_reads polls
output_reads (Poll.poll_interrupted ∷ polls) = output_reads polls
output_reads (Poll.timed_out ∷ polls) = output_reads polls
output_reads (Poll.poll_failed e ∷ polls) = output_reads polls

abbrev pub error_reads : List Poll → ℕ
error_reads [] = 0
error_reads (Poll.ready x y ∷ polls) = report_reads y + error_reads polls
error_reads (Poll.poll_interrupted ∷ polls) = error_reads polls
error_reads (Poll.timed_out ∷ polls) = error_reads polls
error_reads (Poll.poll_failed e ∷ polls) = error_reads polls

-- The answers of read that a pipe can still give.
abbrev weight : Pipe → ℕ
weight p = if p.is_open then length p.pending + 1 else 0

-- A visit without an error, after which the pipe has less to give by this.
abbrev Progress : Pipe → ℕ → Pipe × ℕ → Type 0
Progress p n (p', e) = (e ≡ 0) × (weight p' ≤ weight p - n)

read_bytes-Progress :
    (A : Bytes) (p : Pipe) (k : ℕ) (pending : Bytes)
    → p.pending ≡ pending
    → p.is_open ≡ true
    → (length pending ≢ 0 → length p.buffer < p.capacity)
    → Progress p 1 (read_bytes p k pending)
unfolding read_bytes
read_bytes-Progress A p k [] at opened room = (refl, omega arith)
read_bytes-Progress A p k (b ∷ rest) at opened room =
    let free : length p.buffer < p.capacity = room (λ z. omega (arith, z)) in
    let whole : weight p ≡ suc (length rest) + 1 =
      if_true p.is_open (length p.pending + 1) 0 opened ∙ ap (λ (t : Bytes). length t + 1) at in
    let count = min k (min (p.capacity - length p.buffer - 1) (length rest)) in
    subst (Progress p 1)
      (sym (if_false (p.capacity - length p.buffer == 0) _ _ (ground (arith, free))))
      (
        refl,
        rw (if_true p.is_open (length (drop count rest) + 1) 0 opened, whole)
            (omega (arith, length-drop count rest)),
      )

-- A buffer that holds the front of an output that fits has room, at the latest when it has grown.
grown_room :
    (A : Bytes) (p : Pipe)
    → IsPipe A p
    → length A ≤ output_limit
    → length p.pending ≢ 0
    → (length p.buffer == p.capacity && ltb p.capacity output_limit) ≡ false
    → length p.buffer < p.capacity
grown_room A p h fits more test =
    let all : length p.buffer + length p.pending ≤ output_limit =
      omega (arith, ap length h.all, length-append p.buffer p.pending) in
    ground (arith, all, h.room, test)

-- The read of an open pipe with room.
read_pipe-Progress :
    (A : Bytes) (p : Pipe) (c : Call)
    → ((e : ℕ) → c ≢ Call.failed e)
    → p.is_open ≡ true
    → (length p.pending ≢ 0 → length p.buffer < p.capacity)
    → Progress p (call_reads c) (read_pipe p c)
unfolding read_pipe
read_pipe-Progress A p (Call.got k) well opened room =
    read_bytes-Progress A p k p.pending refl opened room
read_pipe-Progress A p Call.interrupted well opened room = (refl, omega arith)
read_pipe-Progress A p (Call.failed e) well opened room = absurd (well e refl)

visit-Progress :
    (A : Bytes) (p : Pipe) (x : Option Report)
    → IsPipe A p
    → length A ≤ output_limit
    → IsServed x
    → Progress p (report_reads x) (visit p x)
unfolding visit
visit-Progress A p none h fits well = (refl, omega arith)
visit-Progress A p (some r) h fits (grows, well) = elim (Bool-cases p.is_open) [
  | inr shut ↦
      subst (Progress p n) (sym (if_true (not p.is_open) (p, 0) _ (ap not shut)))
        (refl, rw (if_false p.is_open (length p.pending + 1) 0 shut) (omega arith))
  | inl opened ↦
      subst (Progress p n) (sym (if_false (not p.is_open) (p, 0) _ (ap not opened)))
        (elim (Bool-cases (length p.buffer == p.capacity && ltb p.capacity output_limit)) [
          | inr room ↦
              subst (Progress p n) (sym (if_false _ _ _ room)) (
                read_pipe-Progress A p r.call well opened (λ more. grown_room A p h fits more room))
          | inl full ↦ subst (Progress p n) (sym (if_true _ _ _ full ∙ if_true r.grows _ _ grows)) (
              read_pipe-Progress A (record p { capacity = next_capacity p.capacity }) r.call well
                opened (λ _. grown full))
        ])
]
  where
    n : ℕ
    n = call_reads r.call

    grown :
        (length p.buffer == p.capacity && ltb p.capacity output_limit) ≡ true
        → length p.buffer < next_capacity p.capacity
    grown full =
        let (kept, more) = IsCapacity-next p.capacity h.grown (ground (arith, full)) in
        omega (arith, h.room, more)

-- The loop has come to its end with everything that was written.
abbrev pub IsComplete : Bytes → Bytes → Turned → Type 0
IsComplete A B (going a b) = ⊥
IsComplete A B (over e a b) = (e ≡ 0) × (a.buffer ≡ A) × (b.buffer ≡ B)

turn_progress :
    (a b : Pipe) (x y : Option Report)
    → (visit a x).1 ≡ 0
    → (visit b y).1 ≡ 0
    → poll_turn a b (Poll.ready x y) ≡ going (visit a x).0 (visit b y).0
unfolding poll_turn
turn_progress a b x y e f =
    if_false (not ((visit a x).1 == 0)) _ _ (ground (arith, e))
    ∙ if_false (not ((visit b y).1 == 0)) _ _ (ground (arith, f))

open_weight :
    (x y : Bool) (m n : ℕ)
    → not (x || y) ≡ false
    → 0 < (if x then m + 1 else 0) + (if y then n + 1 else 0)
open_weight true true m n e = omega arith
open_weight true false m n e = omega arith
open_weight false true m n e = omega arith
open_weight false false m n e = cc

finished :
    (A B : Bytes) (a b : Pipe)
    → not (a.is_open || b.is_open) ≡ true
    → IsPipe A a
    → IsPipe B b
    → IsComplete A B (over 0 a b)
finished A B a b e h k = let (x, y) = (over_closed A B a b e h k).2 refl in (refl, x, y)

-- What is known of both pipes, and how much the rest of the turns reads of them.
record Serves (A B : Bytes) (polls : List Poll) (a b : Pipe) : Type 0 where
  output : IsPipe A a
  errors : IsPipe B b
  well : All GoesWell polls
  output_enough : weight a ≤ output_reads polls
  errors_enough : weight b ≤ error_reads polls

module _ (A B : Bytes) (fits_a : length A ≤ output_limit) (fits_b : length B ≤ output_limit) where
  ends : (polls : List Poll) (a b : Pipe) → Serves A B polls a b → IsComplete A B (pump polls a b)
  unfolding pump poll_turn
  ends [] a b h = elim (Bool-cases (not (a.is_open || b.is_open))) [
    | inl e ↦ subst (IsComplete A B) (sym (if_true _ _ _ e)) (finished A B a b e h.output h.errors)
    | inr e ↦ absurd (
        omega (
          arith,
          h.output_enough,
          h.errors_enough,
          open_weight a.is_open b.is_open (length a.pending) (length b.pending) e,
        ))
  ]
  ends (Poll.timed_out ∷ polls) a b h = absurd h.well.0
  ends (Poll.poll_failed e ∷ polls) a b h = absurd h.well.0
  ends (Poll.poll_interrupted ∷ polls) a b h = elim (Bool-cases (not (a.is_open || b.is_open))) [
    | inl e ↦ subst (IsComplete A B) (sym (if_true _ _ _ e)) (finished A B a b e h.output h.errors)
    | inr e ↦ subst (IsComplete A B) (sym (if_false _ (over 0 a b) _ e)) (
        ends polls a b (record {
          output = h.output;
          errors = h.errors;
          well = h.well.1;
          output_enough = h.output_enough;
          errors_enough = h.errors_enough;
        }))
  ]
  ends (Poll.ready x y ∷ polls) a b h = elim (Bool-cases (not (a.is_open || b.is_open))) [
    | inl e ↦ subst (IsComplete A B) (sym (if_true _ _ _ e)) (finished A B a b e h.output h.errors)
    | inr e ↦
        let (none_a, less_a) = visit-Progress A a x h.output fits_a h.well.0.0 in
        let (none_b, less_b) = visit-Progress B b y h.errors fits_b h.well.0.1 in
        subst (IsComplete A B)
          (sym (
            if_false _ (over 0 a b) _ e
            ∙ ap (λ (t : Turned). next_turn t (pump polls)) (turn_progress a b x y none_a none_b)))
          (ends polls (visit a x).0 (visit b y).0 (record {
            output = (visit-Kept A a x h.output).1 none_a;
            errors = (visit-Kept B b y h.errors).1 none_b;
            well = h.well.1;
            output_enough = omega (arith, less_a, h.output_enough);
            errors_enough = omega (arith, less_b, h.errors_enough);
          }))
  ]

-- Turns in which poll reports either pipe, both or none, or is interrupted, and in which memory is there
-- and read does not fail, though it may be interrupted: if read gets to answer for each byte of a tool's
-- output (A) and once more, and for each byte of its errors (B) and once more, however much it gives at a
-- time and in whatever order, a tool that writes at most 128 MiB to each is served to its end. The loop
-- then ends without an error and with all of both.
pub pump-IsComplete :
    (A B : Bytes) (polls : List Poll)
    → length A ≤ output_limit
    → length B ≤ output_limit
    → All GoesWell polls
    → length A < output_reads polls
    → length B < error_reads polls
    → IsComplete A B (pump polls (new_pipe A) (new_pipe B))
pump-IsComplete A B polls fits_a fits_b well enough_a enough_b =
    ends A B fits_a fits_b polls (new_pipe A) (new_pipe B) (record {
      output = new_pipe-IsPipe A;
      errors = new_pipe-IsPipe B;
      well = well;
      output_enough = omega (arith, enough_a);
      errors_enough = omega (arith, enough_b);
    })
