-- ===== src/Tools/Pump/Collected.antt =====
-- What the loop of serve_request ends with (app/tool_broker.c).
use whitenoise_linux.Base.Results.{etimedout}
use whitenoise_linux.Base.{
  ℕ, List, [], ◌∷◌, ◌++◌, Bytes, Bool, true, false, not, ◌==◌, ◌||◌, ◌≡◌, refl, sym, ap, ◌∙◌, arith,
  inl, inr, Bool-cases, append-nil, subst, if_true, if_false,
}
use whitenoise_linux.Tools.Pump.{
  Pipe, Poll, Turned, going, over, visit, poll_turn, pump, new_pipe, IsKept, IsPipe, errno,
  next_turn,
}
use whitenoise_linux.Tools.Pump.Kept.{visit-Kept, IsPipe-IsKept}

-- Between two turns both pipes are whole. When the loop is over, each holds the front of what the
-- tool wrote, within its buffer and the limit; without an error it holds all of it.
abbrev pub AreKept : Bytes → Bytes → Turned → Type 0
AreKept A B (going a b) = IsPipe A a × IsPipe B b
AreKept A B (over e a b) = IsKept A a × IsKept B b × (e ≡ 0 → (a.buffer ≡ A) × (b.buffer ≡ B))

over_error :
    (A B : Bytes) (e : ℕ) (a b : Pipe)
    → (e == 0) ≡ false
    → IsKept A a
    → IsKept B b
    → AreKept A B (over e a b)
over_error A B e a b error h k = (h, k, λ z. absurd (ground (arith, error, z)))

poll_turn-AreKept :
    (A B : Bytes) (a b : Pipe) (t : Poll) → IsPipe A a → IsPipe B b → AreKept A B (poll_turn a b t)
unfolding poll_turn
poll_turn-AreKept A B a b Poll.poll_interrupted h k = (h, k)
poll_turn-AreKept A B a b Poll.timed_out h k =
    over_error A B etimedout a b refl (IsPipe-IsKept A a h) (IsPipe-IsKept B b k)
poll_turn-AreKept A B a b (Poll.poll_failed n) h k =
    over_error A B (errno n) a b (ground arith) (IsPipe-IsKept A a h) (IsPipe-IsKept B b k)
poll_turn-AreKept A B a b (Poll.ready x y) h k =
    let (a_kept, a_whole) = visit-Kept A a x h in
    let (b_kept, b_whole) = visit-Kept B b y k in
    elim (Bool-cases ((visit a x).1 == 0)) [
      | inr e ↦
          subst (AreKept A B) (sym (if_true (not ((visit a x).1 == 0)) _ _ (ap not e)))
            (over_error A B _ _ _ e a_kept (IsPipe-IsKept B b k))
      | inl e ↦
          subst (AreKept A B) (sym (if_false (not ((visit a x).1 == 0)) _ _ (ap not e)))
            (elim (Bool-cases ((visit b y).1 == 0)) [
              | inr f ↦
                  subst (AreKept A B) (sym (if_true (not ((visit b y).1 == 0)) _ _ (ap not f)))
                    (over_error A B _ _ _ f a_kept b_kept)
              | inl f ↦
                  subst (AreKept A B) (sym (if_false (not ((visit b y).1 == 0)) _ _ (ap not f)))
                    (a_whole (ground (arith, e)), b_whole (ground (arith, f)))
            ])
    ]

-- A closed pipe holds all that was written.
closed_whole : (A : Bytes) (a : Pipe) → IsPipe A a → a.is_open ≡ false → a.buffer ≡ A
closed_whole A a h shut =
    sym (append-nil a.buffer) ∙ ap (λ (t : Bytes). a.buffer ++ t) (sym (h.finished shut)) ∙ h.all

both_closed : (x y : Bool) → not (x || y) ≡ true → (x ≡ false) × (y ≡ false)
both_closed false false e = (refl, refl)
both_closed true y e = cc
both_closed false true e = cc

pub over_closed :
    (A B : Bytes) (a b : Pipe)
    → not (a.is_open || b.is_open) ≡ true
    → IsPipe A a
    → IsPipe B b
    → AreKept A B (over 0 a b)
over_closed A B a b e h k =
    let (x, y) = both_closed a.is_open b.is_open e in
    (IsPipe-IsKept A a h, IsPipe-IsKept B b k, λ z. (closed_whole A a h x, closed_whole B b k y))

pump_from-AreKept :
    (A B : Bytes) (polls : List Poll) (a b : Pipe)
    → IsPipe A a
    → IsPipe B b
    → AreKept A B (pump polls a b)
unfolding pump
pump_from-AreKept A B [] a b h k = elim (Bool-cases (not (a.is_open || b.is_open))) [
  | inl e ↦ subst (AreKept A B) (sym (if_true _ _ _ e)) (over_closed A B a b e h k)
  | inr e ↦ subst (AreKept A B) (sym (if_false _ (over 0 a b) (going a b) e)) (h, k)
]
pump_from-AreKept A B (t ∷ polls) a b h k = elim (Bool-cases (not (a.is_open || b.is_open))) [
  | inl e ↦ subst (AreKept A B) (sym (if_true _ _ _ e)) (over_closed A B a b e h k)
  | inr e ↦ subst (AreKept A B) (sym (if_false _ (over 0 a b) _ e)) (
      then_rest (poll_turn a b t) (poll_turn-AreKept A B a b t h k)
        (λ a b h k. pump_from-AreKept A B polls a b h k))
]
  where
    then_rest :
        (turned : Turned)
        → AreKept A B turned
        → ((a b : Pipe) → IsPipe A a → IsPipe B b → AreKept A B (pump polls a b))
        → AreKept A B (next_turn turned (pump polls))
    then_rest (going a b) (h, k) rest = rest a b h k
    then_rest (over e a b) h rest = h

pub new_pipe-IsPipe : (A : Bytes) → IsPipe A (new_pipe A)
new_pipe-IsPipe A = record {
  all = refl;
  room = omega arith;
  grown = inl refl;
  finished = λ shut. cc;
}

-- However poll and read cut what a tool writes to its output (A) and to its errors (B), and whatever
-- fails: each buffer holds the front of it, within the buffer's capacity and the limit of 128 MiB;
-- and where the loop ends without an error they hold all of it.
pub pump-AreKept :
    (A B : Bytes) (polls : List Poll) → AreKept A B (pump polls (new_pipe A) (new_pipe B))
pump-AreKept A B polls =
    pump_from-AreKept A B polls (new_pipe A) (new_pipe B) (new_pipe-IsPipe A) (new_pipe-IsPipe B)
