-- ===== src/Helpers/Channel/Closed.antt =====
-- receive_channel leaks no descriptor (app/helper_broker.c).
use mathlib.Core.List.{Perm, perm_append_comm}
use mathlib.Core.List.Perm
use whitenoise_linux.Base.{
  ℕ, suc, List, [], ◌∷◌, ◌++◌, Bool, true, false, not, Option, none, some, ◌==◌, ◌||◌,
  if◌then◌else◌, length, ◌≡◌, ◌≢◌, refl, sym, ap, ◌∙◌, arith, inl, inr, Bool-cases, ◌⊎◌,
  append_assoc, append-nil, if_true, if_false, subst,
}
use whitenoise_linux.Helpers.Channel.{
  Header, Received, interrupted, failed, end_of_stream, got, Collected, Moved, Duplicate, Taken,
  collect_descriptor, collect_descriptors, collect_header, collect, move, next_move, taken,
  receive_channel, wanted, first_collected,
}

-- The descriptors that the control messages carry.
abbrev pub carried : List Header → List ℕ
carried [] = []
carried (h ∷ hs) = if h.is_rights then h.descriptors ++ carried hs else carried hs

-- The array and those that had no place in it, in the order in which they came.
abbrev IsCollected : List ℕ → Collected → Type 0
IsCollected all s = (s.kept ++ s.closed ≡ all) × (length s.kept ≢ 4 → s.closed ≡ [])

collect_descriptor-IsCollected :
    (all : List ℕ) (s : Collected) (fd : ℕ)
    → IsCollected all s
    → IsCollected (all ++ fd ∷ []) (collect_descriptor s fd)
unfolding collect_descriptor
collect_descriptor-IsCollected all s fd (whole, room) = elim (Bool-cases (length s.kept == 4)) [
  | inl full ↦ subst (IsCollected (all ++ fd ∷ [])) (sym (if_true (length s.kept == 4) _ _ full)) (
    sym (append_assoc s.kept s.closed (fd ∷ [])) ∙ ap (λ (l : List ℕ). l ++ fd ∷ []) whole,
    λ more. absurd (more (ground (arith, full))),
  )
  | inr free ↦
      let none_closed : s.closed ≡ [] = room (λ e. ground (arith, free, e)) in
      subst (IsCollected (all ++ fd ∷ [])) (sym (if_false (length s.kept == 4) _ _ free)) (
        ap (λ (l : List ℕ). (s.kept ++ fd ∷ []) ++ l) none_closed
            ∙ append-nil (s.kept ++ fd ∷ [])
            ∙ ap (λ (l : List ℕ). l ++ fd ∷ [])
                (sym (append-nil s.kept)
                  ∙ ap (λ (l : List ℕ). s.kept ++ l) (sym none_closed)
                  ∙ whole),
        λ _. none_closed,
      )
]

collect_descriptors-IsCollected :
    (fds all : List ℕ) (s : Collected)
    → IsCollected all s
    → IsCollected (all ++ fds) (collect_descriptors s fds)
unfolding collect_descriptors
collect_descriptors-IsCollected [] all s h =
    subst (λ (l : List ℕ). IsCollected l s) (sym (append-nil all)) h
collect_descriptors-IsCollected (fd ∷ fds) all s h =
    subst (λ (l : List ℕ). IsCollected l (collect_descriptors (collect_descriptor s fd) fds))
      (append_assoc all (fd ∷ []) fds)
      (collect_descriptors-IsCollected fds (all ++ fd ∷ []) (collect_descriptor s fd)
        (collect_descriptor-IsCollected all s fd h))

collect-IsCollected :
    (hs : List Header) (all : List ℕ) (s : Collected)
    → IsCollected all s
    → IsCollected (all ++ carried hs) (collect s hs)
unfolding collect collect_header
collect-IsCollected [] all s h = subst (λ (l : List ℕ). IsCollected l s) (sym (append-nil all)) h
collect-IsCollected (m ∷ hs) all s h = elim (Bool-cases m.is_rights) [
  | inr other ↦
      subst
        (λ (b : Bool).
          IsCollected (all ++ (if b then m.descriptors ++ carried hs else carried hs))
            (collect (if b then with_rights else record s { invalid = true }) hs))
        (sym other) (collect-IsCollected hs all (record s { invalid = true }) h)
  | inl rights ↦
      subst
        (λ (b : Bool).
          IsCollected (all ++ (if b then m.descriptors ++ carried hs else carried hs))
            (collect (if b then with_rights else record s { invalid = true }) hs))
        (sym rights)
        (subst (λ (l : List ℕ). IsCollected l (collect with_rights hs))
          (append_assoc all m.descriptors (carried hs))
          (collect-IsCollected hs (all ++ m.descriptors) with_rights (
            collect_descriptors-IsCollected m.descriptors all
              (record s { invalid = s.invalid || m.partial }) h)))
]
  where
    with_rights : Collected
    with_rights = collect_descriptors (record s { invalid = s.invalid || m.partial }) m.descriptors

-- Every old descriptor is closed when it has been moved, and moves that all succeed are as many.
abbrev pub IsMoved : List ℕ → Moved → Type 0
IsMoved fds m = (m.closed ≡ fds) × (m.invalid ≡ false → length m.descriptors ≡ length fds)

pub move-IsMoved :
    (duplicate : Duplicate) (fds : List ℕ) (invalid : Bool)
    → IsMoved fds (move duplicate invalid fds)
unfolding move
move-IsMoved duplicate [] invalid = (refl, λ _. refl)
move-IsMoved duplicate (fd ∷ fds) true = (ap (◌∷◌ fd) (move-IsMoved duplicate fds true).0, λ e. cc)
move-IsMoved duplicate (fd ∷ fds) false =
    by_answer (duplicate fd) (move-IsMoved duplicate fds true) (move-IsMoved duplicate fds false)
  where
    by_answer :
        (o : Option ℕ)
        → IsMoved fds (move duplicate true fds)
        → IsMoved fds (move duplicate false fds)
        → IsMoved (fd ∷ fds) (next_move fd o (λ b. move duplicate b fds))
    by_answer none h k = (ap (◌∷◌ fd) h.0, λ e. cc)
    by_answer (some new) h k = (ap (◌∷◌ fd) k.0, λ e. ap suc (k.1 e))

-- The descriptors that came with an answer of recvmsg.
abbrev pub came : Received → List ℕ
came interrupted = []
came failed = []
came end_of_stream = []
came (got more mask truncated headers) = carried headers

-- What receive_channel leaves: of those that it has opened it hands on some, and each of the others
-- is closed exactly once, as is every descriptor that came.
pub record IsClean (r : Received) (t : Taken) : Type 0 where
  pub left : List ℕ
  pub handed : t.opened ≡ t.descriptors ++ left
  pub all_closed : Perm t.closed (came r ++ left)
  pub counted : (t.result ≡ some (length t.descriptors)) ⊎ (t.descriptors ≡ [])

-- The descriptors of a message are closed in the order of the array, those without a place first.
closed_perm :
    (all kept closed left : List ℕ)
    → kept ++ closed ≡ all
    → Perm (closed ++ (kept ++ left)) (all ++ left)
closed_perm all kept closed left e =
    subst (λ (l : List ℕ). Perm (closed ++ (kept ++ left)) (l ++ left)) e
      (subst (λ (l : List ℕ). Perm l ((kept ++ closed) ++ left)) (append_assoc closed kept left)
        (Perm.append_right left (perm_append_comm closed kept)))

taken-IsClean :
    (r : Received) (s : Collected) (m : Moved)
    → IsCollected (came r) s
    → IsMoved s.kept m
    → IsClean r (taken s.closed m)
unfolding taken
taken-IsClean r s m h k = elim (Bool-cases m.invalid) [
  | inl bad ↦ subst (IsClean r) (sym (if_true m.invalid _ _ bad)) (record {
    left = m.descriptors;
    handed = refl;
    all_closed =
        subst (λ (l : List ℕ). Perm (s.closed ++ (l ++ m.descriptors)) (came r ++ m.descriptors))
          (sym k.0) (closed_perm (came r) s.kept s.closed m.descriptors h.0);
    counted = inr refl;
  })
  | inr good ↦ subst (IsClean r) (sym (if_false m.invalid _ _ good)) (record {
    left = [];
    handed = sym (append-nil m.descriptors);
    all_closed =
        subst (λ (l : List ℕ). Perm (s.closed ++ l) (came r ++ [])) (append-nil s.kept ∙ sym k.0)
          (closed_perm (came r) s.kept s.closed [] h.0);
    counted = inl refl;
  })
]

-- Whatever recvmsg gives (truncated or invalid rights, too many of them, bytes behind them, a wrong
-- mask) and whichever duplication fails: each descriptor that came and each duplicate that is not
-- handed on is closed, exactly once, and the result is the number of those handed on, if there are any.
pub receive_channel-IsClean :
    (duplicate : Duplicate) (r : Received) → IsClean r (receive_channel duplicate r)
unfolding receive_channel
receive_channel-IsClean duplicate interrupted = record {
  left = [];
  handed = refl;
  all_closed = Perm.refl [];
  counted = inr refl;
}
receive_channel-IsClean duplicate failed = record {
  left = [];
  handed = refl;
  all_closed = Perm.refl [];
  counted = inr refl;
}
receive_channel-IsClean duplicate end_of_stream = record {
  left = [];
  handed = refl;
  all_closed = Perm.refl [];
  counted = inr refl;
}
receive_channel-IsClean duplicate (got more mask truncated headers) =
    let s = collect (first_collected more mask truncated) headers in
    taken-IsClean (got more mask truncated headers) s
      (move duplicate (s.invalid || not (length s.kept == wanted mask)) s.kept)
      (collect-IsCollected headers [] (first_collected more mask truncated) (refl, λ _. refl))
      (move-IsMoved duplicate s.kept (s.invalid || not (length s.kept == wanted mask)))
