-- ===== src/Helpers/Supervise/Ended.antt =====
-- No helper outlives the process that supervises it (app/helper_broker.c).
use mathlib.Core.Option.{some-injective}
use whitenoise_linux.Base.{
  ℕ, suc, All, ◌≢◌, List, [], ◌∷◌, Bool, true, false, Option, none, some, ◌≡◌, refl, sym, ap, ◌∙◌,
  subst,
}
use whitenoise_linux.Helpers.Supervise.{
  Effect, kill_group, kill_child, wait_child, wait_error, reply, kill_helper, WatchRound, Watched,
  executed, not_executed, watch_loop, Waited, gone, still_there, wait_interrupted, wait_failed,
  WaitRound, wait_round, or_wait, wait_loop, behind, after_watch, supervised, supervise,
}

-- How often the child is taken by waitpid, and how often its group is killed.
abbrev pub waits : List Effect → ℕ
waits [] = 0
waits (wait_child ∷ es) = suc (waits es)
waits (wait_error ∷ es) = waits es
waits (kill_group ∷ es) = waits es
waits (kill_child ∷ es) = waits es
waits (reply error status ∷ es) = waits es

abbrev pub group_kills : List Effect → ℕ
group_kills [] = 0
group_kills (kill_group ∷ es) = suc (group_kills es)
group_kills (wait_child ∷ es) = group_kills es
group_kills (wait_error ∷ es) = group_kills es
group_kills (kill_child ∷ es) = group_kills es
group_kills (reply error status ∷ es) = group_kills es

-- No signal is sent, to the child or to its group.
abbrev pub no_signal : List Effect → Bool
no_signal [] = true
no_signal (kill_child ∷ es) = false
no_signal (kill_group ∷ es) = false
no_signal (wait_child ∷ es) = no_signal es
no_signal (wait_error ∷ es) = no_signal es
no_signal (reply error status ∷ es) = no_signal es

-- Behind the wait that takes the child: at most one signal, which goes to the group and at once.
abbrev pub after_wait : List Effect → Bool
after_wait (kill_group ∷ es) = no_signal es
after_wait [] = true
after_wait (kill_child ∷ es) = false
after_wait (wait_child ∷ es) = no_signal es
after_wait (wait_error ∷ es) = no_signal es
after_wait (reply error status ∷ es) = no_signal es

abbrev pub signals_safe : List Effect → Bool
signals_safe [] = true
signals_safe (wait_child ∷ es) = after_wait es
signals_safe (wait_error ∷ es) = false
signals_safe (kill_group ∷ es) = signals_safe es
signals_safe (kill_child ∷ es) = signals_safe es
signals_safe (reply error status ∷ es) = signals_safe es

-- The error of the first reply.
abbrev pub first_reply : List Effect → Option ℕ
first_reply [] = none
first_reply (reply error status ∷ es) = some error
first_reply (wait_child ∷ es) = first_reply es
first_reply (wait_error ∷ es) = first_reply es
first_reply (kill_group ∷ es) = first_reply es
first_reply (kill_child ∷ es) = first_reply es

abbrev pub error_of : Watched → ℕ
error_of executed = 0
error_of (not_executed error) = error

-- The effects of a supervision that is over.
pub record IsEnded (w : Watched) (es : List Effect) : Type 0 where
  pub waited_once : waits es ≡ 1
  pub group_killed : group_kills es ≡ 1
  pub safe : signals_safe es ≡ true
  pub answered : first_reply es ≡ some (error_of w)

wait_round-IsEnded :
    (w : Waited) (disturbed : Bool) (es : List Effect)
    → w ≢ wait_failed
    → wait_round w disturbed ≡ some es
    → IsEnded executed (reply 0 0 ∷ es)
unfolding wait_round kill_helper
wait_round-IsEnded (gone status) disturbed es works e =
    subst (λ (x : List Effect). IsEnded executed (reply 0 0 ∷ x)) (some-injective _ _ e)
      (record { waited_once = refl; group_killed = refl; safe = refl; answered = refl })
wait_round-IsEnded still_there false es works e = cc
wait_round-IsEnded still_there true es works e =
    subst (λ (x : List Effect). IsEnded executed (reply 0 0 ∷ x)) (some-injective _ _ e)
      (record { waited_once = refl; group_killed = refl; safe = refl; answered = refl })
wait_round-IsEnded wait_interrupted false es works e = cc
wait_round-IsEnded wait_interrupted true es works e =
    subst (λ (x : List Effect). IsEnded executed (reply 0 0 ∷ x)) (some-injective _ _ e)
      (record { waited_once = refl; group_killed = refl; safe = refl; answered = refl })
wait_round-IsEnded wait_failed disturbed es works e = absurd (works refl)

-- waitpid does not fail for the child of the process, other than by EINTR.
abbrev pub Works : List WaitRound → Type 0
Works rounds = All (λ (r : WaitRound). r.waited ≢ wait_failed) rounds

wait_loop-IsEnded :
    (rounds : List WaitRound) (es : List Effect)
    → Works rounds
    → wait_loop rounds ≡ some es
    → IsEnded executed (reply 0 0 ∷ es)
unfolding wait_loop
wait_loop-IsEnded [] es works e = cc
wait_loop-IsEnded (r ∷ rounds) es works e =
    by_round (wait_round r.waited r.disturbed) refl (wait_loop-IsEnded rounds es works.1) e
  where
    by_round :
        (o : Option (List Effect))
        → wait_round r.waited r.disturbed ≡ o
        → (wait_loop rounds ≡ some es → IsEnded executed (reply 0 0 ∷ es))
        → or_wait o (wait_loop rounds) ≡ some es
        → IsEnded executed (reply 0 0 ∷ es)
    by_round none at rest e = rest e
    by_round (some x) at rest e = wait_round-IsEnded r.waited r.disturbed es works.0 (at ∙ e)

-- Where waitpid does not fail for the helper, which is a child of the process, and its supervision is
-- over, whatever else happened (the helper was not executed, the caller went away, the launcher stops,
-- another call failed or the deadline passed): waitpid has taken the child exactly once, and its process
-- group has been killed exactly once. Behind that wait there is no signal but one to its group, which is
-- then sent at once, where the helper has ended by itself. The first reply, which the process sends or
-- tries to send, carries the error with which the handshake ended, 0 where it showed that the helper was
-- executed.
pub supervise-IsEnded :
    (deadline : ℕ) (watches : List WatchRound) (sent : Bool) (rounds : List WaitRound) (w : Watched)
    (es : List Effect)
    → Works rounds
    → watch_loop deadline watches ≡ some w
    → supervise deadline watches sent rounds ≡ some es
    → IsEnded w es
unfolding supervise kill_helper
supervise-IsEnded deadline watches sent rounds w es works h e =
    by_watch w sent (ap (λ (o : Option Watched). supervised o sent rounds) (sym h) ∙ e)
  where
    by_loop :
        (o : Option (List Effect))
        → wait_loop rounds ≡ o
        → behind (reply 0 0 ∷ []) o ≡ some es
        → IsEnded executed es
    by_loop none at e = cc
    by_loop (some x) at e =
        subst (IsEnded executed) (some-injective _ _ e) (wait_loop-IsEnded rounds x works at)

    by_watch : (w : Watched) (sent : Bool) → after_watch w sent rounds ≡ some es → IsEnded w es
    by_watch (not_executed error) sent e =
        subst (IsEnded (not_executed error)) (some-injective _ _ e)
          (record { waited_once = refl; group_killed = refl; safe = refl; answered = refl })
    by_watch executed false e =
        subst (IsEnded executed) (some-injective _ _ e)
          (record { waited_once = refl; group_killed = refl; safe = refl; answered = refl })
    by_watch executed true e = by_loop (wait_loop rounds) refl e
