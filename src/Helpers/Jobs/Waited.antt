-- ===== src/Helpers/Jobs/Waited.antt =====
-- launch_loop loses no process (app/helper_broker.c).
use mathlib.Core.List.{Perm, perm_middle}
use mathlib.Core.List.Perm
use whitenoise_linux.Base.{
  ℕ, zero, suc, List, [], ◌∷◌, ◌++◌, Bool, true, false, Option, none, some, ◌==◌, if◌then◌else◌,
  length, ◌≡◌, ◌≢◌, refl, sym, ap, ◌∙◌, arith, inl, inr, Bool-cases, if_true, if_false, subst,
  append_assoc,
}
use whitenoise_linux.Helpers.Jobs.{
  Jobs, Launcher, Round, PollAnswer, job_count, reap, free_slot, set, launch, served, polled,
  reaped, round, filled, stop_jobs, continue, launch_loop, new_launcher,
}

-- Every process that was forked is in the table or has been waited for, exactly once; the table has
-- its 128 places.
pub record IsTracked (l : Launcher) : Type 0 where
  pub places : length l.jobs ≡ job_count
  pub tracked : Perm l.forked (filled l.jobs ++ l.waited)

stopped_all : (l : Launcher) → IsTracked l → Perm (stop_jobs l).forked (stop_jobs l).waited
unfolding stop_jobs
stopped_all l h = h.tracked

-- What the first loop leaves in the table, with what it has waited for, is what was there.
abbrev IsReaped : Jobs → Jobs × List ℕ → Type 0
IsReaped jobs (left, gone) = Perm (filled jobs) (filled left ++ gone) × (length left ≡ length jobs)

reap-IsReaped : (finished : ℕ → Bool) (jobs : Jobs) → IsReaped jobs (reap finished jobs)
unfolding reap
reap-IsReaped finished [] = (Perm.refl [], refl)
reap-IsReaped finished (none ∷ jobs) = let (p, n) = reap-IsReaped finished jobs in (p, ap suc n)
reap-IsReaped finished (some pid ∷ jobs) = by_test (finished pid) (reap-IsReaped finished jobs)
  where
    left : Jobs
    left = (reap finished jobs).0

    gone : List ℕ
    gone = (reap finished jobs).1

    by_test :
        (b : Bool)
        → IsReaped jobs (left, gone)
        → IsReaped
            (some pid ∷ jobs)
            (if b then (none ∷ left, pid ∷ gone) else (some pid ∷ left, gone))
    by_test true (p, n) =
        (Perm.trans (Perm.cons pid p) (Perm.symm (perm_middle (filled left) gone)), ap suc n)
    by_test false (p, n) = (Perm.cons pid p, ap suc n)

length-set : (jobs : Jobs) (i : ℕ) (job : Option ℕ) → length (set jobs i job) ≡ length jobs
unfolding set
length-set [] i job = refl
length-set (j ∷ jobs) zero job = refl
length-set (j ∷ jobs) (suc i) job = ap suc (length-set jobs i job)

-- A process that is put into the first free place takes no other's.
set-free_slot :
    (jobs : Jobs) (pid : ℕ)
    → free_slot jobs ≢ length jobs
    → Perm (pid ∷ filled jobs) (filled (set jobs (free_slot jobs) (some pid)))
unfolding set free_slot
set-free_slot [] pid free = absurd (free refl)
set-free_slot (none ∷ jobs) pid free = Perm.refl (pid ∷ filled jobs)
set-free_slot (some p ∷ jobs) pid free =
    Perm.trans (Perm.swap p pid (filled jobs))
      (Perm.cons p (set-free_slot jobs pid (λ e. free (ap suc e))))

launch-IsTracked : (l : Launcher) (fork : Option ℕ) → IsTracked l → IsTracked (launch l fork)
unfolding launch
launch-IsTracked l none h = h
launch-IsTracked l (some child) h = elim (Bool-cases (free_slot l.jobs == job_count)) [
  | inl full ↦ subst IsTracked (sym (if_true (free_slot l.jobs == job_count) l _ full)) h
  | inr free ↦ subst IsTracked (sym (if_false (free_slot l.jobs == job_count) l _ free)) (record {
    places = length-set l.jobs (free_slot l.jobs) (some child) ∙ h.places;
    tracked = Perm.trans (Perm.cons child h.tracked) (
        Perm.append_right l.waited
          (set-free_slot l.jobs child (λ e. absurd (ground (arith, free, e, h.places)))));
  })
]

reaped-IsTracked : (l : Launcher) (r : Round) → IsTracked l → IsTracked (reaped l r)
reaped-IsTracked l r h =
    let (p, n) = reap-IsReaped r.finished l.jobs in
    let (left, gone) = reap r.finished l.jobs in
    record {
      places = n ∙ h.places;
      tracked =
          subst (Perm l.forked) (append_assoc (filled left) gone l.waited)
            (Perm.trans h.tracked (Perm.append_right l.waited p));
    }

round-IsTracked : (l : Launcher) (r : Round) → IsTracked l → IsTracked (round l r).1
unfolding round
round-IsTracked l r h = elim (Bool-cases r.stopping) [
  | inl stop ↦
      subst (λ (x : Bool × Launcher). IsTracked x.1) (sym (if_true r.stopping (false, l) _ stop)) h
  | inr goes ↦
      subst (λ (x : Bool × Launcher). IsTracked x.1) (sym (if_false r.stopping (false, l) _ goes))
        (by_poll r.poll r.received (reaped-IsTracked l r h))
]
  where
    by_received : (o : Option ℕ) → IsTracked (reaped l r) → IsTracked (served (reaped l r) r o).1
    by_received none h = h
    by_received (some zero) h = h
    by_received (some (suc n)) h = launch-IsTracked (reaped l r) r.fork h

    by_poll :
        (p : PollAnswer) (o : Option ℕ)
        → IsTracked (reaped l r)
        → IsTracked (polled (reaped l r) r p).1
    by_poll PollAnswer.ready o h = by_received r.received h
    by_poll PollAnswer.interrupted o h = h
    by_poll PollAnswer.failed o h = h

-- The launcher has come to its end and has waited for every process that it has forked.
abbrev pub IsOver : Option Launcher → Type 0
IsOver none = Unit {0}
IsOver (some l) = Perm l.forked l.waited

loop-IsOver : (rounds : List Round) (l : Launcher) → IsTracked l → IsOver (launch_loop rounds l)
unfolding launch_loop
loop-IsOver [] l h = tt
loop-IsOver (r ∷ rounds) l h = by_round (round l r) (round-IsTracked l r h) (loop-IsOver rounds)
  where
    by_round :
        (x : Bool × Launcher)
        → IsTracked x.1
        → ((l : Launcher) → IsTracked l → IsOver (launch_loop rounds l))
        → IsOver (continue x (launch_loop rounds))
    by_round (true, l) h rest = rest l h
    by_round (false, l) h rest = stopped_all l h

new_launcher-IsTracked : IsTracked new_launcher
new_launcher-IsTracked = record { places = refl; tracked = Perm.refl [] }

-- Whatever the rounds of the launcher bring, a full table included: when its loop is over, it has
-- waited for each process that it has forked, exactly once.
pub launch_loop-IsOver : (rounds : List Round) → IsOver (launch_loop rounds new_launcher)
launch_loop-IsOver rounds = loop-IsOver rounds new_launcher new_launcher-IsTracked
