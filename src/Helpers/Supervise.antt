-- ===== src/Helpers/Supervise.antt =====
-- The life of a helper after its fork, in serve_request (app/helper_broker.c): the handshake that
-- shows that it has been executed, the replies, and its end.
pub mod Ended
use whitenoise_linux.Base.Results.{eio, einval, etimedout, ecanceled}
use whitenoise_linux.Base.{
  ℕ, zero, suc, ◌+◌, List, [], ◌∷◌, ◌++◌, Bool, true, false, Option, none, some, leb, ◌==◌, ◌||◌,
  if◌then◌else◌, ◌≡◌, refl,
}
use whitenoise_linux.Helpers.Transfer.{is_late}

-- What the process of the launcher does to the helper and to the channel: kill(-child, SIGKILL),
-- kill(child, SIGKILL), a waitpid that takes the child, one that fails, and a reply.
pub data Effect : Type 0 where
  kill_group : Effect
  kill_child : Effect
  wait_child : Effect
  wait_error : Effect
  reply : ℕ → ℕ → Effect

-- kill_helper, where waitpid takes the child in the end.
unfoldable pub kill_helper : List Effect
kill_helper = kill_group ∷ kill_child ∷ wait_child ∷ []

-- What read gives of the pipe for errors: its end, an errno (which is not 0), or less than one.
pub data Handshake : Type 0 where
  end_of_pipe : Handshake
  child_errno : ℕ → Handshake
  short_read : Handshake

-- What poll answers: EINTR or another error, no event in time, or events on the channel and, if there
-- are any, on the pipe.
pub data Watch : Type 0 where
  watch_interrupted : Watch
  watch_failed : Watch
  watch_expired : Watch
  watch_ready : Bool → Option Handshake → Watch

pub record WatchRound : Type 0 where
  pub stopping : Bool
  pub now : Option ℕ
  pub watch : Watch

-- How the loop is left: with `executed` set, or with the error of the reply.
pub data Watched : Type 0 where
  executed : Watched
  not_executed : ℕ → Watched

unfoldable pub handshake : Handshake → Watched
handshake end_of_pipe = executed
handshake (child_errno k) = not_executed (k + 1)
handshake short_read = not_executed eio

-- The answer of poll: the loop is left, or goes round again.
unfoldable pub watched : Watch → Option Watched
unfolding handshake
watched watch_interrupted = none
watched watch_failed = some (not_executed ecanceled)
watched watch_expired = some (not_executed etimedout)
watched (watch_ready true pipe) = some (not_executed ecanceled)
watched (watch_ready false none) = none
watched (watch_ready false (some h)) = some (handshake h)

abbrev pub or_again : Option Watched → Option Watched → Option Watched
or_again none rest = rest
or_again (some w) rest = some w

-- The loop; `none` where the rounds end before it does. When it is left because the launcher stops,
-- the reply keeps the error that it began with.
unfoldable pub watch_loop : ℕ → List WatchRound → Option Watched
unfolding watched
watch_loop deadline [] = none
watch_loop deadline (r ∷ rounds) =
    let rest = watch_loop deadline rounds in
    if r.stopping
    then some (not_executed einval)
    else if is_late deadline r.now
    then some (not_executed etimedout)
    else or_again (watched r.watch) rest

-- What waitpid with WNOHANG answers, and then ppoll: whether there is an event or an error other than
-- EINTR, or the launcher stops.
pub data Waited : Type 0 where
  gone : ℕ → Waited
  still_there : Waited
  wait_interrupted : Waited
  wait_failed : Waited

pub record WaitRound : Type 0 where
  pub waited : Waited
  pub disturbed : Bool

-- One round of the loop around waitpid: the last effects, or it goes round again.
unfoldable pub wait_round : Waited → Bool → Option (List Effect)
unfolding kill_helper
wait_round (gone status) disturbed = some (wait_child ∷ kill_group ∷ reply 0 status ∷ [])
wait_round still_there disturbed = if disturbed then some kill_helper else none
wait_round wait_interrupted disturbed = if disturbed then some kill_helper else none
wait_round wait_failed disturbed = some (wait_error ∷ kill_helper)

abbrev pub or_wait : Option (List Effect) → Option (List Effect) → Option (List Effect)
or_wait none rest = rest
or_wait (some effects) rest = some effects

unfoldable pub wait_loop : List WaitRound → Option (List Effect)
unfolding wait_round
wait_loop [] = none
wait_loop (r ∷ rounds) = or_wait (wait_round r.waited r.disturbed) (wait_loop rounds)

abbrev pub behind : List Effect → Option (List Effect) → Option (List Effect)
behind before none = none
behind before (some effects) = some (before ++ effects)

-- serve_request behind the fork; `sent` is whether the first reply goes out.
abbrev pub after_watch : Watched → Bool → List WaitRound → Option (List Effect)
after_watch (not_executed error) sent rounds = some (kill_helper ++ reply error 0 ∷ [])
after_watch executed sent rounds =
    if sent then behind (reply 0 0 ∷ []) (wait_loop rounds) else some (reply 0 0 ∷ kill_helper)

abbrev pub supervised : Option Watched → Bool → List WaitRound → Option (List Effect)
supervised none sent rounds = none
supervised (some w) sent rounds = after_watch w sent rounds

unfoldable pub supervise : ℕ → List WatchRound → Bool → List WaitRound → Option (List Effect)
unfolding watch_loop wait_loop kill_helper
supervise deadline watches sent rounds = supervised (watch_loop deadline watches) sent rounds
